-- ===== src/Words/Strings.antt =====
-- The high-level words of reference/jsforth.js on strings and double-cell multiplication.
use post.Prelude.{pos, true, false, [], ◌∷◌}
use post.Words.{
  Colon, compile, number, op_if, op_leave, op_loop, op_qdo, op_then, token, x_0, x_0less, x_1minus,
  x_1plus, x_2dup, x_2rfrom, x_2tor, x_allot, x_base, x_brabortquote, x_brcquote, x_brdotquote,
  x_brsquote, x_comma, x_commaquote, x_commastr, x_commatick, x_compilestringword,
  x_compiletickstringword, x_count, x_digit, x_dplus, x_drop, x_dumul, x_dup, x_fetch, x_here,
  x_lit, x_minus, x_movestr, x_mul, x_over, x_parse, x_plus, x_qcomp, x_rfrom, x_swap, x_tor,
  x_tuck, x_ummul,
}

abbrev pub colon_commastr : Colon
colon_commastr = record {
  name = ",$";
  immediate = false;
  items =
      compile (token x_here ∷ token x_over ∷ token x_1plus ∷ token x_allot ∷ token x_movestr ∷ [])
      ∷ [];
  returns = true;
}

abbrev pub colon_commaquote : Colon
colon_commaquote = record {
  name = ",\"";
  immediate = false;
  items = compile (token x_lit ∷ number (pos 34) ∷ token x_parse ∷ token x_commastr ∷ []) ∷ [];
  returns = true;
}

abbrev pub colon_commatick : Colon
colon_commatick = record {
  name = ",'";
  immediate = false;
  items = compile (token x_lit ∷ number (pos 39) ∷ token x_parse ∷ token x_commastr ∷ []) ∷ [];
  returns = true;
}

abbrev pub colon_compilestringword : Colon
colon_compilestringword = record {
  name = "string\",";
  immediate = false;
  items = compile (token x_qcomp ∷ token x_comma ∷ token x_commaquote ∷ []) ∷ [];
  returns = true;
}

abbrev pub colon_compiletickstringword : Colon
colon_compiletickstringword = record {
  name = "string',";
  immediate = false;
  items = compile (token x_qcomp ∷ token x_comma ∷ token x_commatick ∷ []) ∷ [];
  returns = true;
}

abbrev pub colon_squote : Colon
colon_squote = record {
  name = "s\"";
  immediate = true;
  items = compile (token x_lit ∷ token x_brsquote ∷ token x_compilestringword ∷ []) ∷ [];
  returns = true;
}

abbrev pub colon_cquote : Colon
colon_cquote = record {
  name = "c\"";
  immediate = true;
  items = compile (token x_lit ∷ token x_brcquote ∷ token x_compilestringword ∷ []) ∷ [];
  returns = true;
}

abbrev pub colon_dotquote : Colon
colon_dotquote = record {
  name = ".\"";
  immediate = true;
  items = compile (token x_lit ∷ token x_brdotquote ∷ token x_compilestringword ∷ []) ∷ [];
  returns = true;
}

abbrev pub colon_stick : Colon
colon_stick = record {
  name = "s'";
  immediate = true;
  items = compile (token x_lit ∷ token x_brsquote ∷ token x_compiletickstringword ∷ []) ∷ [];
  returns = true;
}

abbrev pub colon_dottick : Colon
colon_dottick = record {
  name = ".'";
  immediate = true;
  items = compile (token x_lit ∷ token x_brdotquote ∷ token x_compiletickstringword ∷ []) ∷ [];
  returns = true;
}

abbrev pub colon_dumul : Colon
colon_dumul = record {
  name = "du*";
  immediate = false;
  items =
      compile (
        token x_tuck
        ∷ token x_2tor
        ∷ token x_ummul
        ∷ token x_0
        ∷ token x_2rfrom
        ∷ token x_mul
        ∷ token x_dplus
        ∷ [])
      ∷ [];
  returns = true;
}

abbrev pub colon_tonumber : Colon
colon_tonumber = record {
  name = ">number";
  immediate = false;
  items =
      compile (token x_2dup ∷ token x_plus ∷ token x_tor ∷ [])
      ∷ compile (token x_0 ∷ [])
      ∷ op_qdo
      ∷ compile (token x_count ∷ token x_digit ∷ token x_dup ∷ token x_0less ∷ [])
      ∷ op_if
      ∷ compile (token x_drop ∷ token x_1minus ∷ [])
      ∷ op_leave
      ∷ op_then
      ∷ compile (token x_swap ∷ token x_tor ∷ token x_tor ∷ [])
      ∷ compile (token x_base ∷ token x_fetch ∷ token x_dumul ∷ [])
      ∷ compile (token x_rfrom ∷ token x_0 ∷ token x_dplus ∷ [])
      ∷ compile (token x_rfrom ∷ [])
      ∷ op_loop
      ∷ compile (token x_rfrom ∷ token x_over ∷ token x_minus ∷ [])
      ∷ [];
  returns = true;
}

abbrev pub colon_abortquote : Colon
colon_abortquote = record {
  name = "abort\"";
  immediate = true;
  items = compile (token x_lit ∷ token x_brabortquote ∷ token x_compilestringword ∷ []) ∷ [];
  returns = true;
}
