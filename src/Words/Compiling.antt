-- ===== src/Words/Compiling.antt =====
-- The high-level words of reference/jsforth.js on literals, errors and the checks of the compiler state.
use post.Prelude.{negsuc, true, false, [], ◌∷◌}
use post.Words.{
  Colon, compile, number, op_if, op_then, token, x_0equ, x_comma, x_compiling, x_lit, x_qcomp,
  x_throw,
}

abbrev pub colon_literal : Colon
colon_literal = record {
  name = "literal";
  immediate = true;
  items = compile (token x_lit ∷ token x_lit ∷ token x_comma ∷ token x_comma ∷ []) ∷ [];
  returns = true;
}

abbrev pub colon_stackunderflow : Colon
colon_stackunderflow = record {
  name = "underflow";
  immediate = false;
  items = compile (token x_lit ∷ number (negsuc 3) ∷ token x_throw ∷ []) ∷ [];
  returns = false;
}

abbrev pub colon_notfound : Colon
colon_notfound = record {
  name = "notfound";
  immediate = false;
  items = compile (token x_lit ∷ number (negsuc 12) ∷ token x_throw ∷ []) ∷ [];
  returns = false;
}

abbrev pub colon_abort : Colon
colon_abort = record {
  name = "abort";
  immediate = false;
  items = compile (token x_lit ∷ number (negsuc 0) ∷ token x_throw ∷ []) ∷ [];
  returns = false;
}

abbrev pub colon_qcomp : Colon
colon_qcomp = record {
  name = "?comp";
  immediate = false;
  items =
      compile (token x_compiling ∷ token x_0equ ∷ [])
      ∷ op_if
      ∷ compile (token x_lit ∷ number (negsuc 13) ∷ token x_throw ∷ [])
      ∷ op_then
      ∷ [];
  returns = true;
}

abbrev pub colon_qexec : Colon
colon_qexec = record {
  name = "?exec";
  immediate = false;
  items =
      compile (token x_compiling ∷ [])
      ∷ op_if
      ∷ compile (token x_lit ∷ number (negsuc 63) ∷ token x_throw ∷ [])
      ∷ op_then
      ∷ [];
  returns = true;
}

abbrev pub colon_compilecomma : Colon
colon_compilecomma = record {
  name = "compile,";
  immediate = true;
  items = compile (token x_qcomp ∷ token x_comma ∷ []) ∷ [];
  returns = true;
}
