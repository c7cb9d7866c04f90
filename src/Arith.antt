-- ===== src/Arith.antt =====
-- The arithmetic, bit and comparison words of reference/jsforth.js.
pub mod Laws
mod Double
mod Tests
pub mod Long
pub mod Division
use post.Prelude.{
  ℤ, pos, negsuc, ◌+ℤ◌, ◌-ℤ◌, ◌==ℤ◌, ltb_ℤ, leb_ℤ, Store, update, ℕ, zero, suc, ◌^◌, Bool, true,
  false, not, ◌&&◌, ◌||◌, if◌then◌else◌,
}
use post.Number.{
  js_add, js_sub, js_mul, js_rem, js_and, js_or, js_xor, shift_left, shift_right,
  shift_right_unsigned, to_int32, magnitude, negate,
}
use post.Vm.{Vm, push, pop, inc, dec}

-- `-(b)` for a Boolean: the flags of Forth.
abbrev pub flag : Bool → ℤ
flag true = negsuc 0
flag false = pos 0

abbrev pub neg : ℤ → ℤ
neg a = pos 0 -ℤ a

-- The words of two arguments: `tos = f(s[sp--], tos)`.
abbrev pub binary : (ℤ → ℤ → ℤ) → Vm → Vm
binary f v = record v { tos = f (v.s v.sp) v.tos; sp = dec v.sp }

abbrev pub unary : (ℤ → ℤ) → Vm → Vm
unary f v = record v { tos = f v.tos }

pub forth_1plus : Vm → Vm
forth_1plus v = unary (λ a. js_add a (pos 1)) v

unfoldable pub forth_1minus : Vm → Vm
forth_1minus v = unary (λ a. js_sub a (pos 1)) v

pub forth_2mul : Vm → Vm
forth_2mul v = unary (λ a. shift_left a (pos 1)) v

pub forth_2div : Vm → Vm
forth_2div v = unary (λ a. shift_right a (pos 1)) v

pub forth_plus : Vm → Vm
forth_plus v = binary (λ a b. js_add b a) v

pub forth_minus : Vm → Vm
forth_minus v = binary js_sub v

-- `& 0xffffffff` leaves the 32-bit integer.
pub forth_mul : Vm → Vm
forth_mul v = binary (λ a b. js_and (js_mul b a) (pos 0xffff_ffff)) v

pub forth_negate : Vm → Vm
forth_negate v = unary neg v

pub forth_abs : Vm → Vm
forth_abs v = unary (λ a. pos (magnitude a)) v

pub forth_lshift : Vm → Vm
forth_lshift v = binary (λ a b. if ltb_ℤ (pos 31) b then pos 0 else shift_left a b) v

pub forth_rshift : Vm → Vm
forth_rshift v = binary (λ a b. if ltb_ℤ (pos 31) b then pos 0 else shift_right_unsigned a b) v

pub forth_plusstore : Vm → Vm
unfolding pop
forth_plusstore v =
    pop (record v { m = update v.m v.tos (js_add (v.m v.tos) (v.s v.sp)); sp = dec v.sp })

pub forth_range : Vm → Vm
forth_range v = record v { tos = v.s v.sp; s = update v.s v.sp (js_add (v.s v.sp) v.tos) }

pub forth_stod : Vm → Vm
forth_stod v =
    let t = js_and v.tos (pos 0x8000_0000) in
    record v {
      s = update v.s (inc v.sp) v.tos;
      sp = inc v.sp;
      tos = if t ==ℤ pos 0 then t else negsuc 0;
    }

pub forth_dnegate : Vm → Vm
forth_dnegate v =
    let low = neg (v.s v.sp) in
    record v {
      s = update v.s v.sp low;
      tos = if low ==ℤ pos 0 then neg v.tos else js_sub (neg v.tos) (pos 1);
    }

pub forth_dabs : Vm → Vm
unfolding forth_dnegate
forth_dabs v = if ltb_ℤ v.tos (pos 0) then forth_dnegate v else v

-- `if (a<0) a += 0x100000000`
abbrev pub unsigned : ℤ → ℤ
unsigned a = if ltb_ℤ a (pos 0) then a +ℤ pos (2 ^ 32) else a

-- The low and the high cell of `d+`, from the unsigned parts of its arguments.
abbrev pub dplus_carry : (low1 low2 : ℤ) → Bool
dplus_carry low1 low2 = ltb_ℤ (pos (2 ^ 32)) (js_add low1 low2)

abbrev pub dplus_low : (low1 low2 : ℤ) → ℤ
dplus_low low1 low2 =
    let w = js_add low1 low2 in if dplus_carry low1 low2 then js_and w (pos 0xffff_ffff) else w

abbrev pub dplus_high : (low1 low2 high1 high2 : ℤ) → ℤ
dplus_high low1 low2 high1 high2 =
    let high = js_add high2 high1 in
    js_and (if dplus_carry low1 low2 then js_add high (pos 1) else high) (pos 0xffff_ffff)

pub forth_dplus : Vm → Vm
forth_dplus v =
    let high2 = unsigned v.tos in
    let low2 = unsigned (v.s v.sp) in
    let sp1 = dec v.sp in
    let high1 = unsigned (v.s sp1) in
    let sp2 = dec sp1 in
    let low1 = unsigned (v.s sp2) in
    let w = dplus_low low1 low2 in
    record v { w = w; s = update v.s sp2 w; sp = sp2; tos = dplus_high low1 low2 high1 high2 }

-- One of the 32 rounds of `um*`, on `resultlo`, `resulthi` and `tos`.
abbrev pub Product : Type 0
Product = ℤ × ℤ × ℤ

abbrev top_bit : ℤ → Bool
top_bit a = not (js_and a (pos 0x8000_0000) ==ℤ pos 0)

ummul_round : ℤ → Product → Product
ummul_round temp (lo, hi, tos) =
    let hi1 = shift_left hi (pos 1) in
    let hi2 = if top_bit lo then js_add hi1 (pos 1) else hi1 in
    let lo1 = shift_left lo (pos 1) in
    let hi3 = if ltb_ℤ (pos 0xffff_ffff) (js_add lo1 temp) then js_add hi2 (pos 1) else hi2 in
    let tos' = shift_left tos (pos 1) in
    if top_bit tos then (js_add lo1 temp, hi3, tos') else (lo1, hi2, tos')

ummul_rounds : ℕ → ℤ → Product → Product
ummul_rounds zero temp p = p
ummul_rounds (suc i) temp p = ummul_rounds i temp (ummul_round temp p)

pub forth_ummul : Vm → Vm
unfolding ummul_rounds ummul_round
forth_ummul v =
    let (lo, hi, _) = ummul_rounds 32 (v.s v.sp) (pos 0, pos 0, v.tos) in
    record v { s = update v.s v.sp lo; tos = hi }

pub forth_mmul : Vm → Vm
unfolding forth_ummul forth_dnegate
forth_mmul v =
    let a = v.tos in
    let b = v.s v.sp in
    let product =
      forth_ummul (record v { tos = pos (magnitude a); s = update v.s v.sp (pos (magnitude b)) }) in
    let negative = not (flag (ltb_ℤ a (pos 0)) ==ℤ flag (ltb_ℤ b (pos 0))) in
    if negative then forth_dnegate product else product

pub forth_dless : Vm → Vm
forth_dless v =
    let w = v.tos in
    let high1 = v.s (dec v.sp) in
    let less = ltb_ℤ high1 w || (high1 ==ℤ w && ltb_ℤ (v.s (v.sp -ℤ pos 2)) (v.s v.sp)) in
    record v { w = w; tos = flag less; sp = v.sp -ℤ pos 3 }

pub forth_dequ : Vm → Vm
forth_dequ v = record v {
  tos = flag ((v.tos ==ℤ v.s (dec v.sp)) && (v.s v.sp ==ℤ v.s (v.sp -ℤ pos 2)));
  sp = v.sp -ℤ pos 3;
}

pub forth_or : Vm → Vm
forth_or v = binary (λ a b. js_or b a) v

pub forth_and : Vm → Vm
forth_and v = binary (λ a b. js_and b a) v

pub forth_xor : Vm → Vm
forth_xor v = binary (λ a b. js_xor b a) v

pub forth_invert : Vm → Vm
forth_invert v = unary (λ a. js_xor a (negsuc 0)) v

pub forth_equ : Vm → Vm
forth_equ v = binary (λ a b. flag (b ==ℤ a)) v

pub forth_nequ : Vm → Vm
forth_nequ v = binary (λ a b. flag (not (b ==ℤ a))) v

pub forth_more : Vm → Vm
forth_more v = binary (λ a b. flag (ltb_ℤ b a)) v

pub forth_less : Vm → Vm
forth_less v = binary (λ a b. flag (ltb_ℤ a b)) v

pub forth_0equ : Vm → Vm
forth_0equ v = unary (λ a. flag (a ==ℤ pos 0)) v

pub forth_0nequ : Vm → Vm
forth_0nequ v = unary (λ a. flag (not (a ==ℤ pos 0))) v

pub forth_0less : Vm → Vm
forth_0less v = unary (λ a. flag (ltb_ℤ a (pos 0))) v

pub forth_0greater : Vm → Vm
forth_0greater v = unary (λ a. flag (ltb_ℤ (pos 0) a)) v

pub forth_uless : Vm → Vm
forth_uless v =
    let w = unsigned (v.s v.sp) in
    record v { w = w; tos = flag (ltb_ℤ w (unsigned v.tos)); sp = dec v.sp }

pub forth_umore : Vm → Vm
forth_umore v =
    let w = unsigned (v.s v.sp) in
    record v { w = w; tos = flag (ltb_ℤ (unsigned v.tos) w); sp = dec v.sp }

-- `w` is x2, `temp` is x1 and `temp2` is x3 of the stack comment.
abbrev pub is_within : (w temp temp2 : ℤ) → Bool
is_within w temp temp2 =
    (ltb_ℤ w temp2 && (leb_ℤ w temp && ltb_ℤ temp temp2))
    || (ltb_ℤ temp2 w && (leb_ℤ w temp || ltb_ℤ temp temp2))

pub forth_within : Vm → Vm
forth_within v =
    let w = v.s v.sp in
    let sp1 = dec v.sp in record v { w = w; tos = flag (is_within w (v.s sp1) v.tos); sp = dec sp1 }
