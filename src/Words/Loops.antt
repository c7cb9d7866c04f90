-- ===== src/Words/Loops.antt =====
-- The high-level words of reference/jsforth.js on counted loops and cases, as Forth words.
use post.Prelude.{pos, negsuc, true, false, [], ◌∷◌}
use post.Words.{
  Colon, compile, number, op_begin, op_if, op_repeat, op_then, op_while, token, x_0, x_0equ, x_1,
  x_1minus, x_1plus, x_brdo, x_brleave, x_brleave79, x_brloop, x_brof, x_brplusloop, x_brqdo,
  x_brqleave, x_brunloop, x_clause, x_comma, x_drop, x_dup, x_exchange, x_fetch, x_here,
  x_innercase, x_innerloop, x_leavecomma, x_lit, x_mark, x_plusstore, x_qcomp, x_qdup, x_resolve,
  x_resolveback, x_store, x_structured, x_swap, x_throw, x_unnest,
}

abbrev pub colon_do : Colon
colon_do = record {
  name = "do";
  immediate = true;
  items =
      compile (token x_qcomp ∷ token x_lit ∷ token x_brdo ∷ token x_comma ∷ [])
      ∷ compile (token x_here ∷ token x_innerloop ∷ token x_exchange ∷ [])
      ∷ compile (token x_here ∷ token x_0 ∷ token x_comma ∷ [])
      ∷ compile (token x_lit ∷ number (pos 5) ∷ [])
      ∷ [];
  returns = true;
}

abbrev pub colon_qdo : Colon
colon_qdo = record {
  name = "?do";
  immediate = true;
  items =
      compile (token x_qcomp ∷ token x_lit ∷ token x_brqdo ∷ token x_comma ∷ [])
      ∷ compile (token x_here ∷ token x_innerloop ∷ token x_exchange ∷ [])
      ∷ compile (token x_here ∷ token x_0 ∷ token x_comma ∷ [])
      ∷ compile (token x_lit ∷ number (pos 5) ∷ [])
      ∷ [];
  returns = true;
}

abbrev pub colon_loop : Colon
colon_loop = record {
  name = "loop";
  immediate = true;
  items =
      compile (token x_qcomp ∷ token x_lit ∷ number (pos 5) ∷ token x_structured ∷ [])
      ∷ compile (token x_lit ∷ token x_brloop ∷ token x_comma ∷ [])
      ∷ compile (token x_dup ∷ token x_1plus ∷ token x_resolve ∷ [])
      ∷ compile (token x_resolveback ∷ [])
      ∷ compile (token x_innerloop ∷ token x_store ∷ [])
      ∷ [];
  returns = true;
}

abbrev pub colon_plusloop : Colon
colon_plusloop = record {
  name = "+loop";
  immediate = true;
  items =
      compile (token x_qcomp ∷ token x_lit ∷ number (pos 5) ∷ token x_structured ∷ [])
      ∷ compile (token x_lit ∷ token x_brplusloop ∷ token x_comma ∷ [])
      ∷ compile (token x_dup ∷ token x_1plus ∷ token x_resolve ∷ [])
      ∷ compile (token x_resolveback ∷ [])
      ∷ compile (token x_innerloop ∷ token x_store ∷ [])
      ∷ [];
  returns = true;
}

abbrev pub colon_leavecomma : Colon
colon_leavecomma = record {
  name = "leave,";
  immediate = false;
  items =
      compile (token x_qcomp ∷ token x_innerloop ∷ token x_fetch ∷ token x_qdup ∷ token x_0equ ∷ [])
      ∷ op_if
      ∷ compile (token x_lit ∷ number (negsuc 25) ∷ token x_throw ∷ [])
      ∷ op_then
      ∷ compile (token x_swap ∷ token x_comma ∷ token x_comma ∷ [])
      ∷ [];
  returns = true;
}

abbrev pub colon_leave79 : Colon
colon_leave79 = record {
  name = "leave";
  immediate = true;
  items = compile (token x_lit ∷ token x_brleave79 ∷ token x_comma ∷ []) ∷ [];
  returns = true;
}

abbrev pub colon_leave : Colon
colon_leave = record {
  name = "leave";
  immediate = true;
  items = compile (token x_lit ∷ token x_brleave ∷ token x_leavecomma ∷ []) ∷ [];
  returns = true;
}

abbrev pub colon_qleave : Colon
colon_qleave = record {
  name = "?leave";
  immediate = true;
  items = compile (token x_lit ∷ token x_brqleave ∷ token x_leavecomma ∷ []) ∷ [];
  returns = true;
}

abbrev pub colon_unloop : Colon
colon_unloop = record {
  name = "unloop";
  immediate = true;
  items =
      compile (token x_qcomp ∷ token x_innerloop ∷ token x_fetch ∷ token x_0equ ∷ [])
      ∷ op_if
      ∷ compile (token x_lit ∷ number (negsuc 25) ∷ token x_throw ∷ [])
      ∷ op_then
      ∷ compile (token x_lit ∷ token x_brunloop ∷ token x_comma ∷ token x_unnest ∷ [])
      ∷ [];
  returns = true;
}

abbrev pub colon_case : Colon
colon_case = record {
  name = "case";
  immediate = true;
  items =
      compile (token x_qcomp ∷ [])
      ∷ compile (token x_0 ∷ token x_innercase ∷ token x_exchange ∷ [])
      ∷ compile (token x_lit ∷ number (pos 7) ∷ [])
      ∷ [];
  returns = true;
}

abbrev pub colon_of : Colon
colon_of = record {
  name = "of";
  immediate = true;
  items =
      compile (token x_qcomp ∷ [])
      ∷ compile (token x_lit ∷ token x_brof ∷ token x_comma ∷ token x_mark ∷ [])
      ∷ compile (token x_1 ∷ token x_innercase ∷ token x_plusstore ∷ [])
      ∷ compile (token x_lit ∷ number (pos 8) ∷ [])
      ∷ [];
  returns = true;
}

abbrev pub colon_endof : Colon
colon_endof = record {
  name = "endof";
  immediate = true;
  items =
      compile (token x_qcomp ∷ token x_lit ∷ number (pos 8) ∷ token x_structured ∷ [])
      ∷ compile (token x_clause ∷ token x_mark ∷ [])
      ∷ compile (token x_swap ∷ token x_resolveback ∷ [])
      ∷ [];
  returns = true;
}

abbrev pub colon_endcase : Colon
colon_endcase = record {
  name = "endcase";
  immediate = true;
  items =
      compile (token x_qcomp ∷ [])
      ∷ compile (token x_lit ∷ token x_drop ∷ token x_comma ∷ [])
      ∷ compile (token x_innercase ∷ token x_fetch ∷ [])
      ∷ op_begin
      ∷ compile (token x_qdup ∷ [])
      ∷ op_while
      ∷ compile (token x_1minus ∷ token x_swap ∷ token x_resolveback ∷ [])
      ∷ op_repeat
      ∷ compile (token x_lit ∷ number (pos 7) ∷ token x_structured ∷ [])
      ∷ compile (token x_innercase ∷ token x_store ∷ [])
      ∷ [];
  returns = true;
}
