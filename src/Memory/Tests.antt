-- ===== src/Memory/Tests.antt =====
-- Runs of the memory operators.
use post.Prelude.{
  ℤ, pos, ◌==ℤ◌, ltb_ℤ, ℕ, ◌+◌, ◌<◌, some, List, [], ◌∷◌, ◌≡◌, refl, arith, if◌then◌else◌, inl,
  update, Store, false,
}
use post.Vm.{Vm, inc, push}
use post.Fixture.{with_stack, stack-with_stack, addresses}
use post.Memory.{forth_move, forth_scan, forth_mintrailing}
use post.Memory.Move.{Copied, move-Copied, move-smears}
use post.Memory.Scan.{Stops, Trimmed, scan-Stops, mintrailing-Trimmed}
use post.Stack.View.{stack}

abbrev fill_items : List ℤ
fill_items = pos 32 ∷ pos 4 ∷ pos 100 ∷ []

abbrev erase_items : List ℤ
erase_items = pos 4 ∷ pos 100 ∷ []

-- Three cells from 100 on, to 102: the regions overlap. Pushing the count left the cell above the
-- stack as it was, at 0, so that `move` goes down.
abbrev move_items : List ℤ
move_items = pos 3 ∷ pos 102 ∷ pos 100 ∷ []

move-Copied_example :
    (v' : Vm) × (forth_move (with_stack addresses move_items) ≡ some v')
    × (stack v' ≡ some [])
    × Copied 3 102 100 (with_stack addresses move_items).m v'.m
unfolding push
move-Copied_example =
    move-Copied (with_stack addresses move_items) 3 102 100 []
      (stack-with_stack addresses move_items) (λ down. inl (omega arith)) (λ up. absurd (above up))
  where
    above :
        ltb_ℤ
            ((with_stack addresses move_items).s (inc (with_stack addresses move_items).sp))
            (pos 102)
          ≡ false
        → ⊥
    above up = ground arith

-- The same one cell apart, after the stack had an item more, which was 500.
abbrev smear_items : List ℤ
smear_items = pos 3 ∷ pos 101 ∷ pos 100 ∷ []

abbrev used_before : Vm
used_before =
    let v = with_stack addresses smear_items in record v { s = update v.s (pos 4) (pos 500) }

move-smears_example :
    (v' : Vm) × (forth_move used_before ≡ some v')
    × ((k : ℕ) → k < 3 → v'.m (pos (101 + k)) ≡ used_before.m (pos 100))
unfolding push
move-smears_example = move-smears used_before 3 100 [] on_stack stale
  where
    on_stack : stack used_before ≡ some smear_items
    on_stack = refl

    stale : ltb_ℤ (used_before.s (inc used_before.sp)) (pos 101) ≡ false
    stale = refl

abbrev scan_items : List ℤ
scan_items = pos 103 ∷ pos 5 ∷ pos 100 ∷ []

scan-Stops_example :
    (v' : Vm) × (found : ℤ × ℕ) × (forth_scan (with_stack addresses scan_items) ≡ some v')
    × (stack v' ≡ some (pos found.1 ∷ found.0 ∷ []))
    × Stops (λ x. x ==ℤ pos 103) (with_stack addresses scan_items).m (pos 100) 5 found
    × (v'.m ≡ (with_stack addresses scan_items).m)
scan-Stops_example =
    scan-Stops (with_stack addresses scan_items) (pos 103) (pos 100) 5 []
      (stack-with_stack addresses scan_items)

-- A blank at each address from 102 on.
abbrev blanks_after : Store
blanks_after i = if ltb_ℤ i (pos 102) then pos 65 else pos 32

abbrev trail_items : List ℤ
trail_items = pos 5 ∷ pos 100 ∷ []

mintrailing-Trimmed_example :
    (v' : Vm) × (left : ℕ) × (forth_mintrailing (with_stack blanks_after trail_items) ≡ some v')
    × (stack v' ≡ some (pos left ∷ pos 100 ∷ []))
    × Trimmed (with_stack blanks_after trail_items).m 100 5 left
    × (v'.m ≡ (with_stack blanks_after trail_items).m)
mintrailing-Trimmed_example =
    mintrailing-Trimmed (with_stack blanks_after trail_items) 100 5 []
      (stack-with_stack blanks_after trail_items)
