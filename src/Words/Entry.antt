-- ===== src/Words/Entry.antt =====
-- The high-level words of reference/jsforth.js on blocks, and the entry points of the interpreter.
use post.Prelude.{pos, true, false, [], ◌∷◌}
use post.Words.{
  Colon, compile, number, op_again, op_begin, op_do, op_if, op_loop, op_qdo, op_then, token, x_0,
  x_0equ, x_0less, x_1plus, x_2, x_bl, x_blk, x_block, x_catch, x_coldinit, x_cr, x_dotline, x_dotr,
  x_drop, x_dup, x_emit, x_eval, x_evaluate, x_exchange, x_fetch, x_fill, x_hello, x_i, x_jsconsole,
  x_l, x_lit, x_load, x_loadhelp, x_mintrailing, x_mul, x_page, x_parse, x_plus, x_plusload,
  x_prompt, x_qdup, x_query, x_quit, x_rfrom, x_scr, x_screen, x_source, x_space, x_store,
  x_storesource, x_swap, x_throw, x_tor, x_type, x_warm, x_warminit, x_x,
}

abbrev pub colon_load : Colon
colon_load = record {
  name = "load";
  immediate = false;
  items =
      compile (token x_dup ∷ token x_blk ∷ token x_exchange ∷ token x_tor ∷ [])
      ∷ compile (token x_block ∷ token x_lit ∷ number (pos 1024) ∷ token x_evaluate ∷ [])
      ∷ compile (token x_rfrom ∷ token x_dup ∷ token x_blk ∷ token x_store ∷ [])
      ∷ compile (token x_dup ∷ token x_0less ∷ token x_0equ ∷ [])
      ∷ op_if
      ∷ compile
          (token x_dup ∷ token x_block ∷ token x_lit ∷ number (pos 1024) ∷ token x_storesource ∷ [])
      ∷ op_then
      ∷ compile (token x_drop ∷ [])
      ∷ [];
  returns = true;
}

abbrev pub colon_screen : Colon
colon_screen = record {
  name = "screen";
  immediate = false;
  items = compile (token x_scr ∷ token x_fetch ∷ token x_block ∷ []) ∷ [];
  returns = true;
}

abbrev pub colon_dotline : Colon
colon_dotline = record {
  name = ".line";
  immediate = false;
  items =
      compile (
        token x_lit
        ∷ number (pos 64)
        ∷ token x_mul
        ∷ token x_screen
        ∷ token x_plus
        ∷ token x_lit
        ∷ number (pos 64)
        ∷ token x_mintrailing
        ∷ token x_type
        ∷ [])
      ∷ [];
  returns = true;
}

abbrev pub colon_plusload : Colon
colon_plusload = record {
  name = "+load";
  immediate = false;
  items = compile (token x_blk ∷ token x_fetch ∷ token x_plus ∷ token x_load ∷ []) ∷ [];
  returns = true;
}

abbrev pub colon_thru : Colon
colon_thru = record {
  name = "thru";
  immediate = false;
  items =
      compile (token x_1plus ∷ token x_swap ∷ [])
      ∷ op_qdo
      ∷ compile (token x_i ∷ token x_load ∷ [])
      ∷ op_loop
      ∷ [];
  returns = true;
}

abbrev pub colon_plusthru : Colon
colon_plusthru = record {
  name = "+thru";
  immediate = false;
  items =
      compile (token x_1plus ∷ token x_swap ∷ [])
      ∷ op_qdo
      ∷ compile (token x_i ∷ token x_plusload ∷ [])
      ∷ op_loop
      ∷ [];
  returns = true;
}

abbrev pub colon_l : Colon
colon_l = record {
  name = "l";
  immediate = false;
  items =
      compile (token x_lit ∷ number (pos 16) ∷ token x_0 ∷ [])
      ∷ op_do
      ∷ compile (
          token x_cr
          ∷ token x_i
          ∷ token x_2
          ∷ token x_dotr
          ∷ token x_lit
          ∷ number (pos 124)
          ∷ token x_emit
          ∷ token x_i
          ∷ token x_dotline
          ∷ [])
      ∷ op_loop
      ∷ [];
  returns = true;
}

abbrev pub colon_list : Colon
colon_list = record {
  name = "list";
  immediate = false;
  items = compile (token x_scr ∷ token x_store ∷ token x_l ∷ []) ∷ [];
  returns = true;
}

abbrev pub colon_blank : Colon
colon_blank = record {
  name = "blank";
  immediate = false;
  items = compile (token x_bl ∷ token x_fill ∷ []) ∷ [];
  returns = true;
}

abbrev pub colon_help : Colon
colon_help = record {
  name = "help";
  immediate = false;
  items = compile (token x_bl ∷ token x_parse ∷ token x_loadhelp ∷ []) ∷ [];
  returns = true;
}

abbrev pub colon_x : Colon
colon_x = record {
  name = "x";
  immediate = false;
  items = compile (token x_0 ∷ token x_parse ∷ token x_eval ∷ []) ∷ [];
  returns = true;
}

abbrev pub colon_jsconsole : Colon
colon_jsconsole = record {
  name = "";
  immediate = false;
  items =
      op_begin
      ∷ compile (
          token x_cr
          ∷ token x_lit
          ∷ number (pos 62)
          ∷ token x_emit
          ∷ token x_query
          ∷ token x_x
          ∷ [])
      ∷ op_again
      ∷ [];
  returns = true;
}

abbrev pub colon_js : Colon
colon_js = record {
  name = "js";
  immediate = false;
  items =
      op_begin
      ∷ compile (token x_lit ∷ token x_jsconsole ∷ token x_catch ∷ token x_drop ∷ [])
      ∷ op_again
      ∷ [];
  returns = true;
}

abbrev pub colon_quit : Colon
colon_quit = record {
  name = "quit";
  immediate = false;
  items =
      op_begin
      ∷ compile (token x_query ∷ token x_source ∷ token x_qdup ∷ [])
      ∷ op_if
      ∷ compile (token x_cr ∷ token x_evaluate ∷ [])
      ∷ compile (token x_space ∷ token x_0 ∷ [])
      ∷ op_then
      ∷ compile (token x_drop ∷ token x_prompt ∷ [])
      ∷ op_again
      ∷ [];
  returns = true;
}

abbrev pub colon_warm : Colon
colon_warm = record {
  name = "warm";
  immediate = false;
  items = compile (token x_warminit ∷ token x_quit ∷ []) ∷ [];
  returns = false;
}

abbrev pub colon_cold : Colon
colon_cold = record {
  name = "cold";
  immediate = false;
  items =
      compile (token x_coldinit ∷ token x_page ∷ token x_hello ∷ token x_cr ∷ token x_warm ∷ [])
      ∷ [];
  returns = false;
}

abbrev pub colon_error : Colon
colon_error = record {
  name = "error";
  immediate = false;
  items = compile (token x_throw ∷ []) ∷ [];
  returns = false;
}
