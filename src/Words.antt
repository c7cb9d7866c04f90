-- ===== src/Words.antt =====
-- The words that reference/jsforth.js defines in Forth, by `colon`, `compile` and the functions of its
-- control structures: what each compiles, as data, and what compiling it does to the machine.
pub mod Compiling
pub mod Strings
pub mod Defining
pub mod Io
pub mod Printing
pub mod Marks
pub mod Loops
pub mod Dictionary
pub mod Entry
mod Catalog
pub mod Structured
pub mod Balance
mod Tests
use Prim.Native.String.{String}
use post.Prelude.{ℤ, Bool, List, [], ◌∷◌, if◌then◌else◌}
use post.Vm.{Vm}
use post.Pictured.{comma_checked}
use post.Flow.Compile.{
  Tokens, comma, compile_if, compile_else, compile_then, compile_begin, compile_until,
  compile_while, compile_repeat, compile_again, compile_do, compile_qdo, compile_loop,
  compile_leave,
}

-- The variables of the script that hold execution tokens.
pub data Token : Type 0 where
  x_0 x_0branch x_0equ x_0less x_1 x_1minus x_1plus : Token
  x_2 x_2drop x_2dup x_2rfrom x_2tor x_abort x_abortquote : Token
  x_accept x_again x_allot x_and x_base x_begin x_bl : Token
  x_blk x_block x_brabortquote x_branch x_brclose x_brcquote x_brdo : Token
  x_brdotquote x_brfor x_brleave x_brleave79 x_brloop x_brnext x_brof : Token
  x_bropen x_brplusloop x_brqdo x_brqleave x_brsquote x_brtick x_brto : Token
  x_brunloop x_catch x_cfetch x_char x_clause x_cold x_coldinit : Token
  x_comma x_commaquote x_commastr x_commatick x_compilecomma x_compilestringword
        x_compiletickstringword :
      Token
  x_compiling x_const x_count x_cquote x_cr x_create x_dabs : Token
  x_ddot x_ddotr x_decode x_depth x_digit x_do x_doconst : Token
  x_dofconst x_dot x_dotline x_dotquote x_dotr x_dovalue x_dovar : Token
  x_dplus x_drop x_dumul x_dup x_else x_emit x_equ : Token
  x_error x_eval x_evaluate x_exchange x_execute x_fcomma x_fetch : Token
  x_fill x_for x_hash x_hashmore x_hashs x_hashtib x_hello : Token
  x_here x_hold x_i x_if x_in x_innercase x_innerloop : Token
  x_interpret x_interpretnumber x_jsconsole x_key x_key1 x_key1query x_key2 : Token
  x_key2query x_keyq x_l x_lastxt x_leave x_leavecomma x_less : Token
  x_lesshash x_lit x_literal x_load x_loadhelp x_loop x_mark : Token
  x_mintrailing x_minus x_more x_movestr x_mul x_nequ x_nest : Token
  x_next x_nip x_notfound x_off x_or x_over x_page : Token
  x_parenddot x_parse x_plus x_plusload x_plusloop x_plusstore x_popsource : Token
  x_prompt x_pushsource x_qclause x_qcomp x_qdo x_qdup x_qexec : Token
  x_qimm x_qleave x_query x_quit x_repeat x_resolve x_resolveback : Token
  x_reveal x_rfrom x_rot x_sbr x_scr x_screen x_search : Token
  x_setdoes x_sign x_source x_space x_spaces x_span x_squote : Token
  x_stackunderflow x_stod x_store x_storesource x_storestackeffect x_structured x_swap : Token
  x_then x_throw x_tib x_tick x_tobody x_tor x_tuck : Token
  x_type x_udot x_udslashmod x_ummul x_unnest x_unstructured x_until : Token
  x_use x_warm x_warminit x_while x_word x_x : Token

-- An argument of `compile`: a token, or a number that a word takes from the code.
pub data Cell : Type 0 where
  token : Token → Cell
  number : ℤ → Cell

-- A call between `colon` and `semicolon`.
pub data Item : Type 0 where
  compile : List Cell → Item
  op_if op_else op_then op_begin op_until op_while op_repeat op_again op_do op_qdo op_loop
        op_leave :
      Item

-- `colon(name, flags)`, the calls, and whether `semicolon()` ends them.
pub record Colon : Type 0 where
  pub name : String
  pub immediate : Bool
  pub items : List Item
  pub returns : Bool

-- What the calls between `colon` and the end of a word's definition do to the machine, where `xt` has the
-- values of the script's variables and `x_brleave` and so on are the tokens of the control structures.
module _ (xt : Token → ℤ) (x : Tokens) where
  abbrev pub cell_value : Cell → ℤ
  cell_value (token t) = xt t
  cell_value (number n) = n

  unfoldable pub compile_cells : List Cell → Vm → Vm
  unfolding comma
  compile_cells [] v = v
  compile_cells (c ∷ cs) v = compile_cells cs (comma (cell_value c) v)

  pub compile_item : Item → Vm → Vm
  unfolding compile_cells compile_if compile_else compile_then compile_begin compile_until
      compile_while compile_repeat compile_again compile_do compile_qdo compile_loop compile_leave
  compile_item (compile cs) v = compile_cells cs v
  compile_item op_if v = compile_if x v
  compile_item op_else v = compile_else x v
  compile_item op_then v = compile_then v
  compile_item op_begin v = compile_begin v
  compile_item op_until v = compile_until x v
  compile_item op_while v = compile_while x v
  compile_item op_repeat v = compile_repeat x v
  compile_item op_again v = compile_again x v
  compile_item op_do v = compile_do x v
  compile_item op_qdo v = compile_qdo x v
  compile_item op_loop v = compile_loop x v
  compile_item op_leave v = compile_leave x v

  unfoldable pub compile_items : List Item → Vm → Vm
  unfolding compile_item
  compile_items [] v = v
  compile_items (i ∷ is) v = compile_items is (compile_item i v)

  -- What follows the header: the cell for `nest`, where there is room, the calls, and the cell that
  -- `semicolon` adds.
  unfoldable pub compile_colon : Colon → Vm → Vm
  unfolding comma comma_checked compile_items
  compile_colon w v =
      let compiled = compile_items w.items (comma_checked (xt x_nest) v) in
      if w.returns then comma (xt x_unnest) compiled else compiled
