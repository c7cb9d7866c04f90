-- ===== src/Text/Pack.antt =====
-- A text that is unpacked into memory is packed again as it was.
use post.Prelude.{ℤ, pos, ◌<ℤ◌, Store, update, ℕ, zero, suc, ◌<◌, [], ◌∷◌, length, ◌≡◌, refl, arith}
use post.Vm.{inc}
use post.Text.{Text, pack, unpackstring}

-- Every item is a UTF-16 unit.
abbrev pub AreUnits : Text → Type 0
AreUnits [] = Unit {0}
AreUnits (c ∷ cs) = (c < 65536) × AreUnits cs

pack-update : (n : ℕ) (m : Store) (a i x : ℤ) → i <ℤ a → pack (update m i x) a n ≡ pack m a n
unfolding pack
pack-update zero m a i x h = refl
pack-update (suc n) m a i x h = ground (arith, pack-update n m (inc a) i x)

-- For a text of UTF-16 units, `pack` on the cells that `unpackstring` wrote gives the text back.
pub pack-unpackstring :
    (t : Text) (a : ℤ) (m : Store) → AreUnits t → pack (unpackstring t a m) a (length t) ≡ t
unfolding pack unpackstring
pack-unpackstring [] a m h = refl
pack-unpackstring (c ∷ cs) a m h =
    let rest = unpackstring cs (inc a) m in
    ground (arith, pack-update (length cs) rest (inc a) a (pos c), pack-unpackstring cs (inc a) m)
