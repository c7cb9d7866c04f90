-- ===== src/Words/Printing.antt =====
-- The high-level words of reference/jsforth.js that print numbers.
use post.Prelude.{pos, true, false, [], ◌∷◌}
use post.Words.{
  Colon, compile, number, op_begin, op_else, op_if, op_repeat, op_then, op_until, op_while, token,
  x_0, x_0equ, x_1minus, x_2drop, x_2dup, x_base, x_dabs, x_ddot, x_ddotr, x_dup, x_emit, x_fetch,
  x_hash, x_hashmore, x_hashs, x_hold, x_less, x_lesshash, x_lit, x_minus, x_more, x_or, x_over,
  x_parenddot, x_plus, x_qdup, x_rfrom, x_rot, x_sign, x_space, x_spaces, x_stod, x_swap, x_tor,
  x_type, x_udslashmod,
}

abbrev pub colon_hash : Colon
colon_hash = record {
  name = "#";
  immediate = false;
  items =
      compile (
        token x_base
        ∷ token x_fetch
        ∷ token x_udslashmod
        ∷ token x_rot
        ∷ token x_lit
        ∷ number (pos 9)
        ∷ token x_over
        ∷ token x_less
        ∷ [])
      ∷ op_if
      ∷ compile (token x_lit ∷ number (pos 39) ∷ token x_plus ∷ [])
      ∷ op_then
      ∷ compile (token x_lit ∷ number (pos 48) ∷ token x_plus ∷ token x_hold ∷ [])
      ∷ [];
  returns = true;
}

abbrev pub colon_hashs : Colon
colon_hashs = record {
  name = "#s";
  immediate = false;
  items =
      op_begin
      ∷ compile (token x_hash ∷ token x_2dup ∷ token x_or ∷ token x_0equ ∷ [])
      ∷ op_until
      ∷ [];
  returns = true;
}

abbrev pub colon_parenddot : Colon
colon_parenddot = record {
  name = "(d.)";
  immediate = false;
  items =
      compile (
        token x_dup
        ∷ token x_tor
        ∷ token x_dabs
        ∷ token x_lesshash
        ∷ token x_hashs
        ∷ token x_rfrom
        ∷ token x_sign
        ∷ token x_hashmore
        ∷ token x_type
        ∷ [])
      ∷ [];
  returns = true;
}

abbrev pub colon_ddot : Colon
colon_ddot = record {
  name = "d.";
  immediate = false;
  items = compile (token x_parenddot ∷ token x_space ∷ []) ∷ [];
  returns = true;
}

abbrev pub colon_ddotr : Colon
colon_ddotr = record {
  name = "d.r";
  immediate = false;
  items =
      compile (token x_tor ∷ [])
      ∷ compile (
          token x_dup
          ∷ token x_tor
          ∷ token x_dabs
          ∷ token x_lesshash
          ∷ token x_hashs
          ∷ token x_rfrom
          ∷ token x_sign
          ∷ token x_hashmore
          ∷ [])
      ∷ compile (token x_rfrom ∷ token x_2dup ∷ token x_more ∷ [])
      ∷ op_if
      ∷ op_begin
      ∷ compile (token x_qdup ∷ [])
      ∷ op_while
      ∷ compile (token x_1minus ∷ token x_lit ∷ number (pos 42) ∷ token x_emit ∷ [])
      ∷ op_repeat
      ∷ compile (token x_2drop ∷ [])
      ∷ op_else
      ∷ compile (token x_over ∷ token x_minus ∷ token x_spaces ∷ token x_type ∷ [])
      ∷ op_then
      ∷ [];
  returns = true;
}

abbrev pub colon_udot : Colon
colon_udot = record {
  name = "u.";
  immediate = false;
  items = compile (token x_0 ∷ token x_ddot ∷ []) ∷ [];
  returns = true;
}

abbrev pub colon_dot : Colon
colon_dot = record {
  name = ".";
  immediate = false;
  items = compile (token x_stod ∷ token x_ddot ∷ []) ∷ [];
  returns = true;
}

abbrev pub colon_brdot : Colon
colon_brdot = record {
  name = "(.)";
  immediate = false;
  items = compile (token x_stod ∷ token x_parenddot ∷ []) ∷ [];
  returns = true;
}

abbrev pub colon_udotr : Colon
colon_udotr = record {
  name = "u.r";
  immediate = false;
  items = compile (token x_0 ∷ token x_swap ∷ token x_ddotr ∷ []) ∷ [];
  returns = true;
}

abbrev pub colon_dotr : Colon
colon_dotr = record {
  name = ".r";
  immediate = false;
  items = compile (token x_tor ∷ token x_stod ∷ token x_rfrom ∷ token x_ddotr ∷ []) ∷ [];
  returns = true;
}
