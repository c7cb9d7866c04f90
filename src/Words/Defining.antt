-- ===== src/Words/Defining.antt =====
-- The high-level words of reference/jsforth.js on defining words.
use post.Prelude.{true, false, [], ◌∷◌}
use post.Words.{
  Colon, compile, token, x_0, x_brclose, x_bropen, x_comma, x_compilecomma, x_create, x_doconst,
  x_dofconst, x_dovalue, x_dovar, x_fcomma, x_lit, x_nest, x_reveal, x_setdoes, x_unnest, x_use,
}

abbrev pub colon_create : Colon
colon_create = record {
  name = "create";
  immediate = false;
  items = compile (token x_lit ∷ token x_dovar ∷ token x_use ∷ token x_reveal ∷ []) ∷ [];
  returns = true;
}

abbrev pub colon_const : Colon
colon_const = record {
  name = "constant";
  immediate = false;
  items =
      compile (token x_lit ∷ token x_doconst ∷ token x_use ∷ token x_comma ∷ token x_reveal ∷ [])
      ∷ [];
  returns = true;
}

abbrev pub colon_fconstant : Colon
colon_fconstant = record {
  name = "fconstant";
  immediate = false;
  items =
      compile (token x_lit ∷ token x_dofconst ∷ token x_use ∷ token x_fcomma ∷ token x_reveal ∷ [])
      ∷ [];
  returns = true;
}

abbrev pub colon_value : Colon
colon_value = record {
  name = "value";
  immediate = false;
  items =
      compile (token x_lit ∷ token x_dovalue ∷ token x_use ∷ token x_comma ∷ token x_reveal ∷ [])
      ∷ [];
  returns = true;
}

abbrev pub colon_variable : Colon
colon_variable = record {
  name = "variable";
  immediate = false;
  items = compile (token x_create ∷ token x_0 ∷ token x_comma ∷ []) ∷ [];
  returns = true;
}

abbrev pub colon_semicolon : Colon
colon_semicolon = record {
  name = ";";
  immediate = true;
  items =
      compile (token x_lit ∷ token x_unnest ∷ token x_comma ∷ token x_bropen ∷ token x_reveal ∷ [])
      ∷ [];
  returns = true;
}

abbrev pub colon_colon : Colon
colon_colon = record {
  name = ":";
  immediate = false;
  items = compile (token x_lit ∷ token x_nest ∷ token x_use ∷ token x_brclose ∷ []) ∷ [];
  returns = true;
}

abbrev pub colon_does : Colon
colon_does = record {
  name = "does>";
  immediate = true;
  items =
      compile (token x_lit ∷ token x_setdoes ∷ token x_compilecomma ∷ [])
      ∷ compile (token x_lit ∷ token x_unnest ∷ token x_compilecomma ∷ [])
      ∷ [];
  returns = true;
}
