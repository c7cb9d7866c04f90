-- ===== src/Words/Io.antt =====
-- The high-level words of reference/jsforth.js on input and comments.
use post.Prelude.{pos, true, false, [], ◌∷◌}
use post.Words.{
  Colon, compile, number, op_begin, op_if, op_repeat, op_then, op_while, token, x_0, x_1plus,
  x_2drop, x_accept, x_bl, x_cfetch, x_compiling, x_decode, x_drop, x_dup, x_hashtib, x_here, x_in,
  x_key, x_key1, x_key1query, x_key2, x_key2query, x_keyq, x_lit, x_literal, x_mintrailing, x_minus,
  x_movestr, x_off, x_over, x_parse, x_qdup, x_sbr, x_space, x_span, x_store, x_storesource,
  x_storestackeffect, x_swap, x_tib, x_type,
}

abbrev pub colon_keyq : Colon
colon_keyq = record {
  name = "key?";
  immediate = false;
  items = compile (token x_key1query ∷ token x_key2query ∷ []) ∷ [];
  returns = true;
}

abbrev pub colon_qterminal : Colon
colon_qterminal = record {
  name = "?terminal";
  immediate = false;
  items = compile (token x_keyq ∷ []) ∷ [];
  returns = true;
}

abbrev pub colon_key : Colon
colon_key = record {
  name = "key";
  immediate = false;
  items = compile (token x_key1 ∷ token x_key2 ∷ []) ∷ [];
  returns = true;
}

abbrev pub colon_word : Colon
colon_word = record {
  name = "word";
  immediate = false;
  items = compile (token x_parse ∷ token x_here ∷ token x_movestr ∷ token x_here ∷ []) ∷ [];
  returns = true;
}

abbrev pub colon_accept : Colon
colon_accept = record {
  name = "accept";
  immediate = false;
  items =
      compile (token x_over ∷ token x_swap ∷ token x_1plus ∷ [])
      ∷ op_begin
      ∷ compile (token x_qdup ∷ [])
      ∷ op_while
      ∷ compile (token x_key ∷ token x_decode ∷ [])
      ∷ op_repeat
      ∷ compile (token x_swap ∷ token x_minus ∷ [])
      ∷ [];
  returns = true;
}

abbrev pub colon_expect : Colon
colon_expect = record {
  name = "expect";
  immediate = false;
  items = compile (token x_accept ∷ token x_span ∷ token x_store ∷ []) ∷ [];
  returns = true;
}

abbrev pub colon_query : Colon
colon_query = record {
  name = "query";
  immediate = false;
  items =
      compile (token x_tib ∷ token x_dup ∷ token x_lit ∷ number (pos 81) ∷ token x_accept ∷ [])
      ∷ compile (token x_dup ∷ token x_hashtib ∷ token x_store ∷ token x_storesource ∷ [])
      ∷ compile (token x_in ∷ token x_off ∷ token x_space ∷ [])
      ∷ [];
  returns = true;
}

abbrev pub colon_sbr : Colon
colon_sbr = record {
  name = "s(";
  immediate = false;
  items = compile (token x_lit ∷ number (pos 41) ∷ token x_parse ∷ []) ∷ [];
  returns = true;
}

abbrev pub colon_dotparen : Colon
colon_dotparen = record {
  name = ".(";
  immediate = true;
  items = compile (token x_sbr ∷ token x_type ∷ []) ∷ [];
  returns = true;
}

abbrev pub colon_char : Colon
colon_char = record {
  name = "char";
  immediate = true;
  items =
      compile (token x_bl ∷ token x_parse ∷ token x_drop ∷ token x_cfetch ∷ [])
      ∷ compile (token x_compiling ∷ [])
      ∷ op_if
      ∷ compile (token x_literal ∷ [])
      ∷ op_then
      ∷ [];
  returns = true;
}

abbrev pub colon_backslash : Colon
colon_backslash = record {
  name = "\\";
  immediate = true;
  items = compile (token x_0 ∷ token x_parse ∷ token x_2drop ∷ []) ∷ [];
  returns = true;
}

abbrev pub colon_paren : Colon
colon_paren = record {
  name = "(";
  immediate = true;
  items = compile (token x_lit ∷ number (pos 41) ∷ token x_parse ∷ token x_2drop ∷ []) ∷ [];
  returns = true;
}

abbrev pub colon_parens : Colon
colon_parens = record {
  name = "(s";
  immediate = true;
  items =
      compile (
        token x_lit
        ∷ number (pos 41)
        ∷ token x_parse
        ∷ token x_mintrailing
        ∷ token x_storestackeffect
        ∷ [])
      ∷ [];
  returns = true;
}
