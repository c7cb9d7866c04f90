-- ===== src/Input.antt =====
-- The input of reference/jsforth.js: the source that the interpreter reads, `parse`, the keys that were
-- pressed, and the line editor of `accept`.
mod Delimited
mod Parse
mod Source
mod Edit
mod Decode
mod Tests
use post.Prelude.{
  ℤ, pos, negsuc, ◌+ℤ◌, ◌-ℤ◌, ◌==ℤ◌, ltb_ℤ, pos_part, update, ℕ, zero, suc, Option, none, some,
  List, [], ◌∷◌, if◌then◌else◌, Store,
}
use post.Vm.{Vm, push, pop, inc, dec}

-- The variable `toin` of the script: the address of its cell.
abbrev pub toin : ℤ
toin = pos 17

abbrev pub bl : ℤ
bl = pos 32

-- The machine with the variables of the input. `sourceid` has the item pushed last first; `echo` is what
-- the editor wrote to the terminal, the last first: a character, or a number of backspaces.
pub data Echo : Type 0 where
  emitted : ℤ → Echo
  backspaced : ℤ → Echo

pub record Input : Type 0 where
  pub vm : Vm
  pub parsebuf : ℤ
  pub parsebuflen : ℤ
  pub sourceid : List ℤ
  pub inbuf : List ℤ
  pub echo : List Echo

-- `for ( ; w < bufend ; ) { if (nxtchar != delimiter) break ; nxtchar = m[++w] ; }`, where `nxtchar` is
-- `m[w]`. `n` is the number of cells up to `bufend`.
pub skip_delimiters : ℕ → Store → (delimiter w : ℤ) → ℤ
skip_delimiters zero m delimiter w = w
skip_delimiters (suc n) m delimiter w =
    let rest = skip_delimiters n m delimiter (inc w) in if m w ==ℤ delimiter then rest else w

-- `for ( ; w < bufend ; ) { nxtchar = m[w] ; if (nxtchar == delimiter) break ; w++ ; }`: the last values of
-- `w` and of `nxtchar`.
pub find_delimiter : ℕ → Store → (delimiter w nxtchar : ℤ) → ℤ × ℤ
find_delimiter zero m delimiter w nxtchar = (w, nxtchar)
find_delimiter (suc n) m delimiter w nxtchar =
    let rest = find_delimiter n m delimiter (inc w) (m w) in
    if m w ==ℤ delimiter then (w, m w) else rest

-- The cells from `a` up to `b`.
abbrev pub cells_to : (a b : ℤ) → ℕ
cells_to a b = pos_part (b -ℤ a)

unfoldable pub forth_parse : Input → Input
unfolding skip_delimiters find_delimiter
forth_parse i =
    let v = i.vm in
    let delimiter = v.tos in
    let w0 = v.m toin +ℤ i.parsebuf in
    let bufend = i.parsebuf +ℤ i.parsebuflen in
    let w1 =
      if delimiter ==ℤ bl then skip_delimiters (cells_to w0 bufend) v.m delimiter w0 else w0 in
    let (w2, nxtchar) = find_delimiter (cells_to w1 bufend) v.m delimiter w1 (v.m w1) in
    let w3 = if nxtchar ==ℤ delimiter then inc w2 else w2 in
    record i {
      vm = record v {
        w = w3;
        s = update v.s (inc v.sp) w1;
        sp = inc v.sp;
        tos = w2 -ℤ w1;
        m = update v.m toin (w3 -ℤ i.parsebuf);
      };
    }

-- `suspended = w` where no key is buffered.
unfoldable pub forth_key1 : Input → Input
forth_key1 i =
    let v = i.vm in elim i.inbuf [ [] ↦ record i { vm = record v { suspended = v.w } } | _ ∷ _ ↦ i ]

-- `tos = inbuf.shift()`; `none`: an empty array gives `undefined`.
unfoldable pub forth_key2 : Input → Option Input
unfolding push
forth_key2 i = elim i.inbuf [
  | [] ↦ none
  | k ∷ ks ↦ some (record i { vm = push k i.vm; inbuf = ks })
]

-- A restart of the machine is asked for with the suspension.
pub forth_key1query : Input → Input
unfolding forth_key1
forth_key1query i = forth_key1 i

pub forth_key2query : Input → Input
unfolding push
forth_key2query i = elim i.inbuf [
  | [] ↦ record i { vm = push (pos 0) i.vm }
  | _ ∷ _ ↦ record i { vm = push (negsuc 0) i.vm }
]

-- ( bufaddr editaddr nkeys ascii -- bufaddr editaddr nkeys )
pub forth_acceptprintable : Input → Input
unfolding pop
forth_acceptprintable i =
    let c = i.vm.tos in
    let v = pop (record (i.vm) { w = c }) in
    let a = v.s v.sp in
    let typed = record v { m = update v.m a c; s = update v.s v.sp (inc a); tos = dec v.tos } in
    if ltb_ℤ (pos 1) v.tos
    then record i { vm = typed; echo = emitted c ∷ i.echo }
    else record i { vm = v }

pub forth_acceptescape : Input → Input
unfolding pop
forth_acceptescape i =
    let v = pop i.vm in
    let typed = v.s v.sp -ℤ v.s (dec v.sp) in
    record i {
      vm = record v { tos = v.tos +ℤ typed; s = update v.s v.sp (v.s (dec v.sp)) };
      echo = backspaced typed ∷ i.echo;
    }

pub forth_acceptbackspace : Input → Input
unfolding pop
forth_acceptbackspace i =
    let v = pop i.vm in
    let back = record v { tos = inc v.tos; s = update v.s v.sp (dec (v.s v.sp)) } in
    if ltb_ℤ (v.s (dec v.sp)) (v.s v.sp)
    then record i { vm = back; echo = backspaced (pos 1) ∷ i.echo }
    else record i { vm = v }

pub forth_acceptreturn : Input → Input
forth_acceptreturn i = record i { vm = record (i.vm) { sp = dec i.vm.sp; tos = pos 0 } }

pub forth_accepttab : Input → Input
unfolding forth_acceptprintable
forth_accepttab i = forth_acceptprintable (record i { vm = record (i.vm) { tos = bl } })

pub forth_acceptcontrolchar : ℤ → Input → Input
unfolding forth_acceptescape forth_acceptbackspace forth_acceptreturn forth_accepttab pop
forth_acceptcontrolchar c i =
    if c ==ℤ pos 27
    then forth_acceptescape i
    else if c ==ℤ pos 8
    then forth_acceptbackspace i
    else if c ==ℤ pos 17
    then forth_acceptbackspace i
    else if c ==ℤ pos 13
    then forth_acceptreturn i
    else if c ==ℤ pos 9
    then forth_accepttab i
    else record i { vm = pop i.vm }

pub forth_decode : Input → Input
unfolding forth_acceptcontrolchar forth_acceptprintable
forth_decode i =
    if ltb_ℤ i.vm.tos bl then forth_acceptcontrolchar i.vm.tos i else forth_acceptprintable i

pub forth_source : Input → Input
unfolding push
forth_source i = record i { vm = push i.parsebuflen (push i.parsebuf i.vm) }

pub forth_storesource : Input → Input
unfolding pop
forth_storesource i =
    let v = pop i.vm in record i { parsebuflen = i.vm.tos; parsebuf = v.tos; vm = pop v }

pub forth_pushsource : Input → Input
forth_pushsource i = record i { sourceid = i.parsebuflen ∷ i.parsebuf ∷ i.vm.m toin ∷ i.sourceid }

-- Three times `sourceid.pop()`; `none`: one of them gives `undefined`.
pub forth_popsource : Input → Option Input
forth_popsource i = elim i.sourceid [
  | n ∷ a ∷ k ∷ ids ↦ some (record i {
    parsebuflen = n;
    parsebuf = a;
    vm = record (i.vm) { m = update i.vm.m toin k };
    sourceid = ids;
  })
  | _ ↦ none
]
