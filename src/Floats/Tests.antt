-- ===== src/Floats/Tests.antt =====
-- Runs on the float stack, with whole numbers in place of JavaScript's.
use post.Prelude.{ℤ, pos, ◌+ℤ◌, ◌-ℤ◌, ◌*ℤ◌, ◌==ℤ◌, ltb_ℤ, some, List, [], ◌∷◌, not, ◌≡◌, refl}
use post.Vm.{inc}
use post.Arith.{flag}
use post.Fixture.{with_stack, stack-with_stack, addresses}
use post.Floats.{Doubles, Fm, forth_fless, forth_fmore, forth_fequ, forth_fnequ, forth_fdepth}
use post.Floats.Effects.{fstack, fstack-compared, fdepth-stack}
use post.Stack.View.{stack}

abbrev whole : Doubles ℤ
whole = record {
  undefined = pos 0;
  number = λ x. x;
  add = λ x y. x +ℤ y;
  sub = λ x y. x -ℤ y;
  mul = λ x y. x *ℤ y;
  div = λ x y. x;
  negated = λ x. pos 0 -ℤ x;
  equal = λ x y. x ==ℤ y;
  less = λ x y. ltb_ℤ x y;
  abs = λ x. x;
  round = λ x. x;
  sin = λ x. x;
  cos = λ x. x;
  tan = λ x. x;
  asin = λ x. x;
  acos = λ x. x;
  atan = λ x. x;
  atan2 = λ x y. x;
  pow = λ x y. x;
  log = λ x. x;
  sqrt = λ x. x;
  min = λ x y. x;
  max = λ x y. y;
  pi = pos 3;
}

abbrev floats : Fm ℤ
floats = record {
  vm = with_stack addresses (pos 8 ∷ pos 9 ∷ []);
  f = pos 5 ∷ pos 6 ∷ pos 0 ∷ [];
  ftos = pos 4;
}

abbrev cells : List ℤ
cells = pos 8 ∷ pos 9 ∷ []

fstack-compared_example :
    ((fstack (forth_fless whole floats) ≡ pos 4 ∷ pos 6 ∷ [])
      × (stack (forth_fless whole floats).vm ≡ some (flag (whole.less (pos 5) (pos 4)) ∷ cells)))
    × ((fstack (forth_fmore whole floats) ≡ pos 4 ∷ pos 6 ∷ [])
        × (stack (forth_fmore whole floats).vm ≡ some (flag (whole.less (pos 4) (pos 5)) ∷ cells)))
    × ((fstack (forth_fequ whole floats) ≡ pos 4 ∷ pos 6 ∷ [])
        × (stack (forth_fequ whole floats).vm ≡ some (flag (whole.equal (pos 4) (pos 5)) ∷ cells)))
    × ((fstack (forth_fnequ whole floats) ≡ pos 4 ∷ pos 6 ∷ [])
        × (stack (forth_fnequ whole floats).vm
            ≡ some (flag (not (whole.equal (pos 4) (pos 5))) ∷ cells)))
fstack-compared_example =
    fstack-compared whole floats (pos 4) (pos 5) (pos 6 ∷ []) refl cells
      (stack-with_stack addresses cells)

fdepth-stack_example :
    stack (forth_fdepth whole floats).vm
    ≡ some (pos 3 ∷ floats.vm.s (inc floats.vm.sp) ∷ pos 8 ∷ [])
fdepth-stack_example =
    fdepth-stack whole floats (pos 8) (pos 9) [] (stack-with_stack addresses cells)
