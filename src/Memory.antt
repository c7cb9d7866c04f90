-- ===== src/Memory.antt =====
-- The memory operators of reference/jsforth.js, and those of its string words that copy or look
-- through memory. A loop that the source counts down to 0 never ends from a negative count: `none`.
pub mod Fill
mod Move
pub mod Scan
mod Tests
use post.Prelude.{
  ℤ, pos, negsuc, ◌+ℤ◌, ◌-ℤ◌, ◌==ℤ◌, ltb_ℤ, Store, update, ℕ, zero, suc, ◌-◌, ◌%◌, Option, none,
  some, if◌then◌else◌, Bool, not,
}
use post.Vm.{Vm, push, pop, inc, dec}

-- `x & 255`
abbrev pub low_byte : ℤ → ℤ
low_byte (pos n) = pos (n % 256)
low_byte (negsuc n) = pos (255 - n % 256)

pub forth_fetch : Vm → Vm
forth_fetch v = record v { tos = v.m v.tos }

pub forth_store : Vm → Vm
unfolding pop
forth_store v = pop (record v { m = update v.m v.tos (v.s v.sp); sp = dec v.sp })

pub forth_2fetch : Vm → Vm
forth_2fetch v = record v {
  s = update v.s (inc v.sp) (v.m (inc v.tos));
  sp = inc v.sp;
  tos = v.m v.tos;
}

pub forth_2store : Vm → Vm
unfolding pop
forth_2store v =
    let m1 = update v.m v.tos (v.s v.sp) in
    let sp1 = dec v.sp in
    pop (record v { m = update m1 (inc v.tos) (v.s sp1); sp = dec sp1; tos = inc v.tos })

pub forth_cfetch : Vm → Vm
forth_cfetch v = record v { tos = low_byte (v.m v.tos) }

pub forth_cstore : Vm → Vm
unfolding pop
forth_cstore v = pop (record v { m = update v.m v.tos (low_byte (v.s v.sp)); sp = dec v.sp })

pub forth_count : Vm → Vm
forth_count v = record v {
  s = update v.s (inc v.sp) (inc v.tos);
  sp = inc v.sp;
  tos = low_byte (v.m v.tos);
}

pub forth_skim : Vm → Vm
forth_skim v = record v { s = update v.s (inc v.sp) (inc v.tos); sp = inc v.sp; tos = v.m v.tos }

pub forth_exchange : Vm → Vm
forth_exchange v =
    let w = v.m v.tos in record v { w = w; m = update v.m v.tos (v.s v.sp); sp = dec v.sp; tos = w }

pub forth_on : Vm → Vm
unfolding pop
forth_on v = pop (record v { m = update v.m v.tos (negsuc 0) })

pub forth_off : Vm → Vm
unfolding pop
forth_off v = pop (record v { m = update v.m v.tos (pos 0) })

-- `for ( ; i ; i-- ) m[dest++] = tos`
unfoldable pub fill_loop : ℕ → ℤ → ℤ → Store → Store
fill_loop zero dest c m = m
fill_loop (suc i) dest c m = fill_loop i (inc dest) c (update m dest c)

-- The rounds of a loop that counts down to 0.
abbrev pub rounds : ℤ → Option ℕ
rounds (pos n) = some n
rounds (negsuc n) = none

pub forth_fill : Vm → Option Vm
unfolding fill_loop pop
forth_fill v =
    let sp1 = dec v.sp in
    elim (rounds (v.s v.sp)) [
      | none ↦ none
      | some i ↦ some (pop (record v { m = fill_loop i (v.s sp1) v.tos v.m; sp = dec sp1 }))
    ]

pub forth_erase : Vm → Option Vm
unfolding push forth_fill
forth_erase v = forth_fill (push (pos 0) v)

pub forth_slashstring : Vm → Vm
forth_slashstring v =
    let tos = v.s v.sp in
    let sp = dec v.sp in
    let w = if ltb_ℤ tos v.tos then tos else v.tos in
    record v { w = w; s = update v.s sp (v.s sp +ℤ w); sp = sp; tos = tos -ℤ w }

-- `paddistance`
abbrev pub paddistance : ℤ
paddistance = pos 512

pub forth_pad : Vm → Vm
unfolding push
forth_pad v = push (v.dp +ℤ paddistance) v

-- `for ( ; tos ; tos-- ) m[--dest] = m[--src]`
move_down : ℕ → (dest src : ℤ) → Store → Store
move_down zero dest src m = m
move_down (suc n) dest src m = move_down n (dec dest) (dec src) (update m (dec dest) (m (dec src)))

-- `for ( ; tos ; tos-- ) m[dest++] = m[src++]`
move_up : ℕ → (dest src : ℤ) → Store → Store
move_up zero dest src m = m
move_up (suc n) dest src m = move_up n (inc dest) (inc src) (update m dest (m src))

-- The source compares `s[sp]`, the destination, with `s[sp+1]`, a cell above the stack.
pub forth_move : Vm → Option Vm
unfolding move_down move_up pop
forth_move v =
    let dest = v.s v.sp in
    let sp1 = dec v.sp in
    let src = v.s sp1 in
    elim (rounds v.tos) [
      | none ↦ none
      | some n ↦ some (
          pop (record v {
            m =
                if ltb_ℤ (v.s (inc v.sp)) dest
                then move_down n (dest +ℤ v.tos) (src +ℤ v.tos) v.m
                else move_up n dest src v.m;
            sp = dec sp1;
          }))
    ]

pub forth_movestr : Vm → Option Vm
unfolding forth_move
forth_movestr v =
    let w = v.s v.sp in
    let m = update v.m v.tos w in
    forth_move (record v { w = w; m = m; s = update v.s v.sp (inc v.tos); tos = w })

-- `for ( i=tos ; i ; i-- ) { if (m[--temp] != 32) break ; tos-- ; }`: the count that is left
trailing_loop : ℕ → Store → (temp tos : ℤ) → ℤ
trailing_loop zero m temp tos = tos
trailing_loop (suc i) m temp tos =
    let rest = trailing_loop i m (dec temp) (dec tos) in
    if m (dec temp) ==ℤ pos 32 then rest else tos

pub forth_mintrailing : Vm → Option Vm
unfolding trailing_loop
forth_mintrailing v = elim (rounds v.tos) [
  | none ↦ none
  | some i ↦ some (record v { tos = trailing_loop i v.m (v.s v.sp +ℤ v.tos) v.tos })
]

-- The loop of `scan` and of `skip`: an address and a count, until `stop` holds of the cell.
unfoldable pub search_loop : (ℤ → Bool) → ℕ → Store → ℤ → ℤ × ℕ
search_loop stop zero m a = (a, zero)
search_loop stop (suc n) m a =
    let rest = search_loop stop n m (inc a) in if stop (m a) then (a, suc n) else rest

search_cells : (ℤ → Bool) → Vm → Option Vm
unfolding search_loop
search_cells stop v =
    let sp = dec v.sp in
    elim (rounds (v.s v.sp)) [
      | none ↦ none
      | some n ↦
          let (a, left) = search_loop stop n v.m (v.s sp) in
          some (record v { s = update v.s sp a; sp = sp; tos = pos left })
    ]

pub forth_scan : Vm → Option Vm
unfolding search_cells
forth_scan v = search_cells (λ x. x ==ℤ v.tos) v

pub forth_skip : Vm → Option Vm
unfolding search_cells
forth_skip v = search_cells (λ x. not (x ==ℤ v.tos)) v
