-- ===== src/Words/Marks.antt =====
-- The high-level words of reference/jsforth.js on flow control, as Forth words.
use post.Prelude.{pos, true, false, [], ◌∷◌}
use post.Words.{
  Colon, compile, number, op_if, op_then, token, x_0, x_0branch, x_1, x_1plus, x_2, x_2drop, x_2dup,
  x_branch, x_brfor, x_brnext, x_clause, x_comma, x_dup, x_equ, x_exchange, x_here, x_innerloop,
  x_lit, x_mark, x_minus, x_nequ, x_over, x_plus, x_qclause, x_qcomp, x_resolve, x_resolveback,
  x_store, x_structured, x_swap, x_unstructured,
}

abbrev pub colon_structured : Colon
colon_structured = record {
  name = "structured";
  immediate = false;
  items =
      compile (token x_2dup ∷ token x_nequ ∷ [])
      ∷ op_if
      ∷ compile (token x_unstructured ∷ [])
      ∷ op_then
      ∷ compile (token x_2drop ∷ [])
      ∷ [];
  returns = true;
}

abbrev pub colon_resolve : Colon
colon_resolve = record {
  name = "resolve";
  immediate = false;
  items = compile (token x_here ∷ token x_minus ∷ token x_comma ∷ []) ∷ [];
  returns = true;
}

abbrev pub colon_resolveback : Colon
colon_resolveback = record {
  name = "<resolve";
  immediate = false;
  items =
      compile (token x_here ∷ token x_over ∷ token x_minus ∷ token x_swap ∷ token x_store ∷ [])
      ∷ [];
  returns = true;
}

abbrev pub colon_qclause : Colon
colon_qclause = record {
  name = "?clause";
  immediate = false;
  items = compile (token x_lit ∷ token x_0branch ∷ token x_comma ∷ []) ∷ [];
  returns = true;
}

abbrev pub colon_clause : Colon
colon_clause = record {
  name = "clause";
  immediate = false;
  items = compile (token x_lit ∷ token x_branch ∷ token x_comma ∷ []) ∷ [];
  returns = true;
}

abbrev pub colon_mark : Colon
colon_mark = record {
  name = "mark";
  immediate = false;
  items = compile (token x_here ∷ token x_0 ∷ token x_comma ∷ []) ∷ [];
  returns = true;
}

abbrev pub colon_for : Colon
colon_for = record {
  name = "for";
  immediate = true;
  items =
      compile (token x_qcomp ∷ token x_lit ∷ token x_brfor ∷ token x_comma ∷ [])
      ∷ compile (token x_here ∷ token x_innerloop ∷ token x_exchange ∷ [])
      ∷ compile (token x_here ∷ token x_0 ∷ token x_comma ∷ [])
      ∷ compile (token x_lit ∷ number (pos 6) ∷ [])
      ∷ [];
  returns = true;
}

abbrev pub colon_next : Colon
colon_next = record {
  name = "next";
  immediate = true;
  items =
      compile (token x_qcomp ∷ token x_lit ∷ number (pos 6) ∷ token x_structured ∷ [])
      ∷ compile (token x_lit ∷ token x_brnext ∷ token x_comma ∷ [])
      ∷ compile (token x_dup ∷ token x_1plus ∷ token x_resolve ∷ [])
      ∷ compile (token x_resolveback ∷ token x_innerloop ∷ token x_store ∷ [])
      ∷ [];
  returns = true;
}

abbrev pub colon_if : Colon
colon_if = record {
  name = "if";
  immediate = true;
  items = compile (token x_qcomp ∷ token x_qclause ∷ token x_mark ∷ token x_1 ∷ []) ∷ [];
  returns = true;
}

abbrev pub colon_else : Colon
colon_else = record {
  name = "else";
  immediate = true;
  items =
      compile (token x_qcomp ∷ token x_1 ∷ token x_structured ∷ token x_clause ∷ token x_mark ∷ [])
      ∷ compile (token x_swap ∷ token x_resolveback ∷ token x_2 ∷ [])
      ∷ [];
  returns = true;
}

abbrev pub colon_then : Colon
colon_then = record {
  name = "then";
  immediate = true;
  items =
      compile (token x_qcomp ∷ token x_dup ∷ token x_2 ∷ token x_equ ∷ token x_plus ∷ [])
      ∷ compile (token x_1 ∷ token x_structured ∷ token x_resolveback ∷ [])
      ∷ [];
  returns = true;
}

abbrev pub colon_begin : Colon
colon_begin = record {
  name = "begin";
  immediate = true;
  items = compile (token x_qcomp ∷ token x_here ∷ token x_lit ∷ number (pos 3) ∷ []) ∷ [];
  returns = true;
}

abbrev pub colon_while : Colon
colon_while = record {
  name = "while";
  immediate = true;
  items =
      compile (token x_qcomp ∷ token x_lit ∷ number (pos 3) ∷ token x_structured ∷ [])
      ∷ compile (token x_qclause ∷ token x_mark ∷ token x_lit ∷ number (pos 4) ∷ [])
      ∷ [];
  returns = true;
}

abbrev pub colon_repeat : Colon
colon_repeat = record {
  name = "repeat";
  immediate = true;
  items =
      compile (token x_qcomp ∷ token x_lit ∷ number (pos 4) ∷ token x_structured ∷ [])
      ∷ compile (token x_swap ∷ token x_clause ∷ token x_resolve ∷ [])
      ∷ compile (token x_resolveback ∷ [])
      ∷ [];
  returns = true;
}

abbrev pub colon_again : Colon
colon_again = record {
  name = "again";
  immediate = true;
  items =
      compile (
        token x_qcomp
        ∷ token x_lit
        ∷ number (pos 3)
        ∷ token x_structured
        ∷ token x_clause
        ∷ token x_resolve
        ∷ [])
      ∷ [];
  returns = true;
}

abbrev pub colon_until : Colon
colon_until = record {
  name = "until";
  immediate = true;
  items =
      compile (
        token x_qcomp
        ∷ token x_lit
        ∷ number (pos 3)
        ∷ token x_structured
        ∷ token x_qclause
        ∷ token x_resolve
        ∷ [])
      ∷ [];
  returns = true;
}
