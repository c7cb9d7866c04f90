-- ===== src/Words/Dictionary.antt =====
-- The high-level words of reference/jsforth.js on the dictionary and the interpreter.
use post.Prelude.{negsuc, true, false, [], ◌∷◌}
use post.Words.{
  Colon, compile, number, op_begin, op_else, op_if, op_repeat, op_then, op_while, token, x_0equ,
  x_0less, x_1minus, x_2drop, x_2dup, x_and, x_bl, x_brto, x_comma, x_compiling, x_depth, x_dovalue,
  x_dup, x_execute, x_fetch, x_in, x_interpret, x_interpretnumber, x_lastxt, x_lit, x_literal,
  x_nequ, x_nip, x_notfound, x_off, x_parse, x_popsource, x_pushsource, x_qdup, x_qimm, x_search,
  x_stackunderflow, x_store, x_storesource, x_throw, x_tick, x_tobody,
}

abbrev pub colon_tick : Colon
colon_tick = record {
  name = "'";
  immediate = false;
  items =
      compile (token x_bl ∷ token x_parse ∷ token x_search ∷ token x_qdup ∷ token x_0equ ∷ [])
      ∷ op_if
      ∷ compile (token x_notfound ∷ [])
      ∷ op_then
      ∷ [];
  returns = true;
}

abbrev pub colon_tick79 : Colon
colon_tick79 = record {
  name = "'";
  immediate = false;
  items = compile (token x_tick ∷ token x_tobody ∷ []) ∷ [];
  returns = true;
}

abbrev pub colon_brtick : Colon
colon_brtick = record {
  name = "[']";
  immediate = true;
  items = compile (token x_tick ∷ token x_literal ∷ []) ∷ [];
  returns = true;
}

abbrev pub colon_brcompile : Colon
colon_brcompile = record {
  name = "[compile]";
  immediate = true;
  items = compile (token x_tick ∷ token x_comma ∷ []) ∷ [];
  returns = true;
}

abbrev pub colon_recurse : Colon
colon_recurse = record {
  name = "recurse";
  immediate = true;
  items = compile (token x_lastxt ∷ token x_fetch ∷ token x_comma ∷ []) ∷ [];
  returns = true;
}

abbrev pub colon_to : Colon
colon_to = record {
  name = "to";
  immediate = true;
  items =
      compile (
        token x_tick
        ∷ token x_tobody
        ∷ token x_dup
        ∷ token x_1minus
        ∷ token x_fetch
        ∷ token x_lit
        ∷ token x_dovalue
        ∷ token x_nequ
        ∷ token x_lit
        ∷ number (negsuc 66)
        ∷ token x_and
        ∷ token x_throw
        ∷ [])
      ∷ compile (token x_compiling ∷ [])
      ∷ op_if
      ∷ compile (token x_lit ∷ token x_brto ∷ token x_comma ∷ token x_comma ∷ [])
      ∷ op_else
      ∷ compile (token x_store ∷ [])
      ∷ op_then
      ∷ [];
  returns = true;
}

abbrev pub colon_interpret : Colon
colon_interpret = record {
  name = "interpret";
  immediate = false;
  items =
      op_begin
      ∷ compile (token x_bl ∷ token x_parse ∷ token x_dup ∷ [])
      ∷ op_while
      ∷ compile (token x_2dup ∷ token x_search ∷ token x_qdup ∷ [])
      ∷ op_if
      ∷ compile (token x_nip ∷ token x_nip ∷ token x_dup ∷ token x_qimm ∷ [])
      ∷ op_if
      ∷ compile (token x_execute ∷ [])
      ∷ op_else
      ∷ compile (token x_compiling ∷ [])
      ∷ op_if
      ∷ compile (token x_comma ∷ [])
      ∷ op_else
      ∷ compile (token x_execute ∷ [])
      ∷ op_then
      ∷ op_then
      ∷ compile (token x_depth ∷ token x_0less ∷ [])
      ∷ op_if
      ∷ compile (token x_stackunderflow ∷ [])
      ∷ op_then
      ∷ op_else
      ∷ compile (token x_interpretnumber ∷ token x_0equ ∷ [])
      ∷ op_if
      ∷ compile (token x_notfound ∷ [])
      ∷ op_then
      ∷ op_then
      ∷ op_repeat
      ∷ compile (token x_2drop ∷ [])
      ∷ [];
  returns = true;
}

abbrev pub colon_evaluate : Colon
colon_evaluate = record {
  name = "evaluate";
  immediate = false;
  items =
      compile (token x_pushsource ∷ [])
      ∷ compile (token x_in ∷ token x_off ∷ [])
      ∷ compile (token x_storesource ∷ [])
      ∷ compile (token x_interpret ∷ [])
      ∷ compile (token x_popsource ∷ [])
      ∷ [];
  returns = true;
}
