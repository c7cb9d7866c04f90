-- ===== src/Floats.antt =====
-- The float stack of reference/jsforth.js: the array `f`, here with the item pushed last first, and its
-- top item cached in `ftos`. The numbers and the functions of JavaScript on them are parameters.
mod Effects
mod Tests
use post.Prelude.{ℤ, pos, update, ℕ, Bool, not, List, [], ◌∷◌, length}
use post.Vm.{Vm, push, pop, inc, dec}
use post.Arith.{flag}

-- The numbers: `undefined` is what `pop` takes from an empty array.
pub record Doubles (D : Type 0) : Type 0 where
  pub undefined : D
  pub number : ℤ → D
  pub add : D → D → D
  pub sub : D → D → D
  pub mul : D → D → D
  pub div : D → D → D
  pub negated : D → D
  pub equal : D → D → Bool
  pub less : D → D → Bool
  pub abs : D → D
  pub round : D → D
  pub sin : D → D
  pub cos : D → D
  pub tan : D → D
  pub asin : D → D
  pub acos : D → D
  pub atan : D → D
  pub atan2 : D → D → D
  pub pow : D → D → D
  pub log : D → D
  pub sqrt : D → D
  pub min : D → D → D
  pub max : D → D → D
  pub pi : D

pub record Fm (D : Type 0) : Type 0 where
  pub vm : Vm
  pub f : List D
  pub ftos : D

module _ {D : Type 0} (d : Doubles D) where
  -- What `f.pop()` returns, and what it leaves.
  abbrev pub popped : List D → D
  popped [] = d.undefined
  popped (x ∷ xs) = x

  abbrev pub tail : List D → List D
  tail [] = []
  tail (x ∷ xs) = xs

  -- `f.push(ftos) ; ftos = x`
  abbrev pub fpush : D → Fm D → Fm D
  fpush x u = record u { f = u.ftos ∷ u.f; ftos = x }

  -- `ftos = f.pop()`
  abbrev pub fpop : Fm D → Fm D
  fpop u = record u { ftos = popped u.f; f = tail u.f }

  abbrev pub fset : D → Fm D → Fm D
  fset x u = record u { ftos = x }

  -- `ftos = g(f.pop(), ftos)`
  abbrev pub fbinary : (D → D → D) → Fm D → Fm D
  fbinary g u = record u { ftos = g (popped u.f) u.ftos; f = tail u.f }

  -- `s[++sp] = tos ; tos = -(test)`
  abbrev pub answer_flag : Bool → Fm D → Fm D
  unfolding push
  answer_flag b u = record u { vm = push (flag b) u.vm }

  pub forth_fdrop : Fm D → Fm D
  forth_fdrop u = fpop u

  pub forth_fdup : Fm D → Fm D
  forth_fdup u = fpush u.ftos u

  pub forth_fswap : Fm D → Fm D
  forth_fswap u = record u { f = u.ftos ∷ tail u.f; ftos = popped u.f }

  pub forth_fover : Fm D → Fm D
  forth_fover u = fpush (popped u.f) u

  pub forth_fequ : Fm D → Fm D
  forth_fequ u = answer_flag (d.equal u.ftos (popped u.f)) (record u { f = tail u.f })

  pub forth_fnequ : Fm D → Fm D
  forth_fnequ u = answer_flag (not (d.equal u.ftos (popped u.f))) (record u { f = tail u.f })

  pub forth_fmore : Fm D → Fm D
  forth_fmore u = answer_flag (d.less u.ftos (popped u.f)) (record u { f = tail u.f })

  pub forth_fless : Fm D → Fm D
  forth_fless u = answer_flag (d.less (popped u.f) u.ftos) (record u { f = tail u.f })

  pub forth_f0equ : Fm D → Fm D
  forth_f0equ u = fpop (answer_flag (d.equal u.ftos (d.number (pos 0))) u)

  pub forth_f0nequ : Fm D → Fm D
  forth_f0nequ u = fpop (answer_flag (not (d.equal u.ftos (d.number (pos 0)))) u)

  pub forth_f0less : Fm D → Fm D
  forth_f0less u = fpop (answer_flag (d.less u.ftos (d.number (pos 0))) u)

  pub forth_f0greater : Fm D → Fm D
  forth_f0greater u = fpop (answer_flag (d.less (d.number (pos 0)) u.ftos) u)

  pub forth_fnegate : Fm D → Fm D
  forth_fnegate u = fset (d.negated u.ftos) u

  pub forth_fabs : Fm D → Fm D
  forth_fabs u = fset (d.abs u.ftos) u

  pub forth_fround : Fm D → Fm D
  forth_fround u = fset (d.round u.ftos) u

  -- `s[sp++] = tos`: the cell that is written is the one below the next free one.
  pub forth_fdepth : Fm D → Fm D
  forth_fdepth u =
      let v = u.vm in
      record u {
        vm = record v { s = update v.s v.sp v.tos; sp = inc v.sp; tos = pos (length u.f) };
      }

  pub forth_dtof : Fm D → Fm D
  unfolding pop
  forth_dtof u =
      let v = u.vm in
      let x = d.add (d.mul (d.number v.tos) (d.number (pos 0x1_0000_0000))) (d.number (v.s v.sp)) in
      fpush x (record u { vm = pop (record v { sp = dec v.sp }) })

  pub forth_stof : Fm D → Fm D
  unfolding pop
  forth_stof u = fpush (d.number u.vm.tos) (record u { vm = pop u.vm })

  pub forth_fplus : Fm D → Fm D
  forth_fplus u = fbinary (λ a b. d.add b a) u

  pub forth_fminus : Fm D → Fm D
  forth_fminus u = fbinary d.sub u

  pub forth_fmul : Fm D → Fm D
  forth_fmul u = fbinary (λ a b. d.mul b a) u

  pub forth_fdiv : Fm D → Fm D
  forth_fdiv u = fbinary d.div u

  pub forth_fsin : Fm D → Fm D
  forth_fsin u = fset (d.sin u.ftos) u

  pub forth_fcos : Fm D → Fm D
  forth_fcos u = fset (d.cos u.ftos) u

  pub forth_ftan : Fm D → Fm D
  forth_ftan u = fset (d.tan u.ftos) u

  pub forth_fasin : Fm D → Fm D
  forth_fasin u = fset (d.asin u.ftos) u

  pub forth_fatan : Fm D → Fm D
  forth_fatan u = fset (d.atan u.ftos) u

  pub forth_fatan2 : Fm D → Fm D
  forth_fatan2 u = fbinary d.atan2 u

  pub forth_facos : Fm D → Fm D
  forth_facos u = fset (d.acos u.ftos) u

  pub forth_fpower : Fm D → Fm D
  forth_fpower u = fbinary d.pow u

  pub forth_fln : Fm D → Fm D
  forth_fln u = fset (d.log u.ftos) u

  pub forth_falog : Fm D → Fm D
  forth_falog u = fset (d.pow (d.number (pos 10)) u.ftos) u

  pub forth_fsqrt : Fm D → Fm D
  forth_fsqrt u = fset (d.sqrt u.ftos) u

  pub forth_fmin : Fm D → Fm D
  forth_fmin u = fbinary (λ a b. d.min b a) u

  pub forth_fmax : Fm D → Fm D
  forth_fmax u = fbinary (λ a b. d.max b a) u

  pub forth_pi : Fm D → Fm D
  forth_pi u = fpush d.pi u

  pub forth_reciproc : Fm D → Fm D
  forth_reciproc u = fset (d.div (d.number (pos 1)) u.ftos) u
