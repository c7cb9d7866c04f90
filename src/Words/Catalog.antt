-- ===== src/Words/Catalog.antt =====
-- The words that reference/jsforth.js defines by `colon`, in its order.
use post.Prelude.{List, [], ◌∷◌}
use post.Words.Compiling.{
  colon_abort, colon_compilecomma, colon_literal, colon_notfound, colon_qcomp, colon_qexec,
  colon_stackunderflow,
}
use post.Words.Strings.{
  colon_abortquote, colon_commaquote, colon_commastr, colon_commatick, colon_compilestringword,
  colon_compiletickstringword, colon_cquote, colon_dotquote, colon_dottick, colon_dumul,
  colon_squote, colon_stick, colon_tonumber,
}
use post.Words.Defining.{
  colon_colon, colon_const, colon_create, colon_does, colon_fconstant, colon_semicolon, colon_value,
  colon_variable,
}
use post.Words.Io.{
  colon_accept, colon_backslash, colon_char, colon_dotparen, colon_expect, colon_key, colon_keyq,
  colon_paren, colon_parens, colon_qterminal, colon_query, colon_sbr, colon_word,
}
use post.Words.Printing.{
  colon_brdot, colon_ddot, colon_ddotr, colon_dot, colon_dotr, colon_hash, colon_hashs,
  colon_parenddot, colon_udot, colon_udotr,
}
use post.Words.Marks.{
  colon_again, colon_begin, colon_clause, colon_else, colon_for, colon_if, colon_mark, colon_next,
  colon_qclause, colon_repeat, colon_resolve, colon_resolveback, colon_structured, colon_then,
  colon_until, colon_while,
}
use post.Words.Loops.{
  colon_case, colon_do, colon_endcase, colon_endof, colon_leave, colon_leave79, colon_leavecomma,
  colon_loop, colon_of, colon_plusloop, colon_qdo, colon_qleave, colon_unloop,
}
use post.Words.Dictionary.{
  colon_brcompile, colon_brtick, colon_evaluate, colon_interpret, colon_recurse, colon_tick,
  colon_tick79, colon_to,
}
use post.Words.Entry.{
  colon_blank, colon_cold, colon_dotline, colon_error, colon_help, colon_js, colon_jsconsole,
  colon_l, colon_list, colon_load, colon_plusload, colon_plusthru, colon_quit, colon_screen,
  colon_thru, colon_warm, colon_x,
}
use post.Words.{Colon}

abbrev pub words : List Colon
words =
    colon_literal ∷ colon_stackunderflow ∷ colon_notfound ∷ colon_abort ∷ colon_qcomp ∷ colon_qexec
    ∷ colon_compilecomma ∷ colon_commastr ∷ colon_commaquote ∷ colon_commatick
    ∷ colon_compilestringword ∷ colon_compiletickstringword ∷ colon_squote ∷ colon_cquote
    ∷ colon_dotquote ∷ colon_stick ∷ colon_dottick ∷ colon_dumul ∷ colon_tonumber ∷ colon_abortquote
    ∷ colon_create ∷ colon_const ∷ colon_fconstant ∷ colon_value ∷ colon_variable ∷ colon_semicolon
    ∷ colon_colon ∷ colon_does ∷ colon_keyq ∷ colon_qterminal ∷ colon_key ∷ colon_word
    ∷ colon_accept ∷ colon_expect ∷ colon_query ∷ colon_sbr ∷ colon_dotparen ∷ colon_char
    ∷ colon_backslash ∷ colon_paren ∷ colon_parens ∷ colon_hash ∷ colon_hashs ∷ colon_parenddot
    ∷ colon_ddot ∷ colon_ddotr ∷ colon_udot ∷ colon_dot ∷ colon_brdot ∷ colon_udotr ∷ colon_dotr
    ∷ colon_structured ∷ colon_resolve ∷ colon_resolveback ∷ colon_qclause ∷ colon_clause
    ∷ colon_mark ∷ colon_for ∷ colon_next ∷ colon_if ∷ colon_else ∷ colon_then ∷ colon_begin
    ∷ colon_while ∷ colon_repeat ∷ colon_again ∷ colon_until ∷ colon_do ∷ colon_qdo ∷ colon_loop
    ∷ colon_plusloop ∷ colon_leavecomma ∷ colon_leave79 ∷ colon_leave ∷ colon_qleave ∷ colon_unloop
    ∷ colon_case ∷ colon_of ∷ colon_endof ∷ colon_endcase ∷ colon_tick ∷ colon_tick79 ∷ colon_brtick
    ∷ colon_brcompile ∷ colon_recurse ∷ colon_to ∷ colon_interpret ∷ colon_evaluate ∷ colon_load
    ∷ colon_screen ∷ colon_dotline ∷ colon_plusload ∷ colon_thru ∷ colon_plusthru ∷ colon_l
    ∷ colon_list ∷ colon_blank ∷ colon_help ∷ colon_x ∷ colon_jsconsole ∷ colon_js ∷ colon_quit
    ∷ colon_warm ∷ colon_cold ∷ colon_error ∷ []
