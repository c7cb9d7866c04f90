-- ===== src/Blocks/Drives.antt =====
-- What is saved to the drive in memory and loaded again.
use post.Prelude.{
  ℤ, pos, ◌+ℤ◌, ◌-ℤ◌, ◌<ℤ◌, ltb_ℤ, Bool, true, false, ◌==◌, Store, update_ne, ℕ, zero, suc, ◌+◌,
  ◌<◌, ◌≤◌, [], ◌∷◌, ◌++◌, length, take, ◌≡◌, refl, sym, ap, ◌∙◌, arith, Bool-cases, inl, inr,
}
use mathlib.Core.Path.{ap₂, subst}
use post.Vm.{Vm, inc}
use post.Text.{Text, char_code, pack, unpackstring}
use post.Text.Pack.{AreUnits, pack-unpackstring}
use post.Dictionary.{put_at}
use post.Blocks.{
  Blocks, Browser, maxcookies, localcapacity, save_lines, savebuftoram, savebuf, spaces, load_lines,
  loadblockfromram, loadblock,
}

-- The cells of `n` lines.
abbrev line_cells : ℕ → ℕ
line_cells zero = 0
line_cells (suc n) = 64 + line_cells n

-- The text of `n` lines from `i` on.
abbrev lines_text : ℕ → ℕ → (ℕ → Text) → Text
lines_text zero i lines = []
lines_text (suc n) i lines = lines i ++ lines_text n (i + 1) lines

step_cell : (a : ℤ) (n : ℕ) → inc a +ℤ pos n ≡ a +ℤ pos (suc n)
step_cell a n = ground arith

pub pack-same :
    (n : ℕ) (m m' : Store) (a : ℤ)
    → ((p : ℤ) → p <ℤ a +ℤ pos n → m' p ≡ m p)
    → pack m' a n ≡ pack m a n
unfolding pack
pack-same zero m m' a h = refl
pack-same (suc n) m m' a h =
    rw (h a (ground arith), pack-same n m m' (inc a) (λ p q. h p (ground arith))) refl

pack-append : (n k : ℕ) (m : Store) (a : ℤ) → pack m a (n + k) ≡ pack m a n ++ pack m (a +ℤ pos n) k
unfolding pack
pack-append zero k m a =
    let n : 0 + k ≡ k = omega arith in
    let b : a ≡ a +ℤ pos 0 = ground arith in ap (pack m a) n ∙ ap (λ c. pack m c k) b
pack-append (suc n) k m a =
    let count : suc n + k ≡ suc (n + k) = omega arith in
    ap (pack m a) count
    ∙ ap (λ t. char_code (m a) ∷ t)
        (pack-append n k m (inc a) ∙ ap (λ b. pack m (inc a) n ++ pack m b k) (step_cell a n))

pub length-pack : (n : ℕ) (m : Store) (a : ℤ) → length (pack m a n) ≡ n
unfolding pack
length-pack zero m a = refl
length-pack (suc n) m a = ap suc (length-pack n m (inc a))

char_code_lt : (z : ℤ) → char_code z < 65536
char_code_lt z = ground arith

pub pack-AreUnits : (n : ℕ) (m : Store) (a : ℤ) → AreUnits (pack m a n)
unfolding pack
pack-AreUnits zero m a = tt
pack-AreUnits (suc n) m a = (char_code_lt (m a), pack-AreUnits n m (inc a))

take_all : (t : Text) (n : ℕ) → length t ≡ n → take n t ≡ t
take_all [] zero h = refl
take_all [] (suc n) h = refl
take_all (c ∷ cs) zero h = absurd (omega (arith, h))
take_all (c ∷ cs) (suc n) h = ap (λ t. c ∷ t) (take_all cs n (omega (arith, h)))

unpackstring-below : (t : Text) (a : ℤ) (m : Store) (p : ℤ) → p <ℤ a → unpackstring t a m p ≡ m p
unfolding unpackstring
unpackstring-below [] a m p h = refl
unpackstring-below (c ∷ cs) a m p h =
    update_ne (unpackstring cs (inc a) m) a (pos c) p (λ e. absurd (ground arith))
    ∙ unpackstring-below cs (inc a) m p (ground arith)

load_lines-below :
    (n i : ℕ) (lines : ℕ → Text) (a : ℤ) (m : Store) (p : ℤ)
    → p <ℤ a
    → load_lines n i lines a m p ≡ m p
unfolding load_lines
load_lines-below zero i lines a m p h = refl
load_lines-below (suc n) i lines a m p h =
    load_lines-below n (i + 1) lines (a +ℤ pos 64) _ p (ground arith)
    ∙ unpackstring-below (take 64 (lines i)) a _ p h
    ∙ unpackstring-below (spaces 64) a m p h

-- A line of 64 units.
IsLine : Text → Type 0
IsLine t = (length t ≡ 64) × AreUnits t

load_lines-text :
    (n i : ℕ) (lines : ℕ → Text) (a : ℤ) (m : Store)
    → ((l : ℕ) → i ≤ l → l < i + n → IsLine (lines l))
    → pack (load_lines n i lines a m) a (line_cells n) ≡ lines_text n i lines
unfolding load_lines IsLine pack
load_lines-text zero i lines a m h = refl
load_lines-text (suc n) i lines a m h =
    let (len, units) = h i (omega arith) (omega arith) in
    let blank = unpackstring (spaces 64) a m in
    let m1 = unpackstring (take 64 (lines i)) a blank in
    let rest = load_lines n (i + 1) lines (a +ℤ pos 64) m1 in
    let first : pack rest a 64 ≡ lines i =
      pack-same 64 m1 rest a (λ p q. load_lines-below n (i + 1) lines (a +ℤ pos 64) m1 p q)
      ∙ ap (λ t. pack (unpackstring t a blank) a 64) (take_all (lines i) 64 len)
      ∙ ap (λ k. pack (unpackstring (lines i) a blank) a k) (sym len)
      ∙ pack-unpackstring (lines i) a blank units in
    let others =
      load_lines-text n (i + 1) lines (a +ℤ pos 64) m1 (λ l q r. h l (omega arith) (omega arith)) in
    pack-append 64 (line_cells n) rest a ∙ ap₂ ◌++◌ first others

save_lines-before :
    (n i : ℕ) (addr k : ℤ) (m : Store) (ram : ℤ → ℕ → Text) (l : ℕ)
    → l < i
    → save_lines n i addr k m ram k l ≡ ram k l
unfolding save_lines
save_lines-before zero i addr k m ram l h = refl
save_lines-before (suc n) i addr k m ram l h =
    save_lines-before n (i + 1) (addr +ℤ pos 64) k m _ l (omega arith) ∙ ground arith

save_lines-line :
    (n i : ℕ) (addr k : ℤ) (m : Store) (ram : ℤ → ℕ → Text)
    → save_lines (suc n) i addr k m ram k i ≡ pack m addr 64
unfolding save_lines
save_lines-line n i addr k m ram =
    save_lines-before n (i + 1) (addr +ℤ pos 64) k m _ i (omega arith) ∙ ground arith

save_lines-text :
    (n i : ℕ) (addr k : ℤ) (m : Store) (ram : ℤ → ℕ → Text)
    → lines_text n i (save_lines n i addr k m ram k) ≡ pack m addr (line_cells n)
unfolding save_lines pack
save_lines-text zero i addr k m ram = refl
save_lines-text (suc n) i addr k m ram =
    ap₂ ◌++◌ (save_lines-line n i addr k m ram) (save_lines-text n (i + 1) (addr +ℤ pos 64) k m _)
    ∙ sym (pack-append 64 (line_cells n) m addr)

save_lines-IsLine :
    (n i : ℕ) (addr k : ℤ) (m : Store) (ram : ℤ → ℕ → Text) (l : ℕ)
    → i ≤ l
    → l < i + n
    → IsLine (save_lines n i addr k m ram k l)
unfolding save_lines IsLine
save_lines-IsLine zero i addr k m ram l h q = absurd (omega arith)
save_lines-IsLine (suc n) i addr k m ram l h q = elim (Bool-cases (l == i)) [
  | inl e ↦
      let l_i : l ≡ i = ground arith in
      let line = ap (save_lines (suc n) i addr k m ram k) l_i ∙ save_lines-line n i addr k m ram in
      (ap length line ∙ length-pack 64 m addr, subst AreUnits (sym line) (pack-AreUnits 64 m addr))
  | inr e ↦
      let after : i + 1 ≤ l = ground arith in
      save_lines-IsLine n (i + 1) (addr +ℤ pos 64) k m _ l after (omega arith)
]

-- Blocks between the cookies and the remote drives are those of the drive in memory.
saved_to_ram :
    (browser : Browser) (n : ℕ) (b : Blocks)
    → ltb_ℤ (b.bufblk n) maxcookies ≡ false
    → ltb_ℤ (b.bufblk n) (localcapacity b) ≡ true
    → savebuf browser n b ≡ record (savebuftoram (b.buf n) (b.bufblk n -ℤ maxcookies) b) {
      bufdirty = put_at b.bufdirty n false;
    }
unfolding savebuf savebuftoram
saved_to_ram browser n b not_cookie local = rw (savebuf, not_cookie, local) refl

loaded_from_ram :
    (browser : Browser) (k a : ℤ) (b : Blocks)
    → ltb_ℤ k maxcookies ≡ false
    → ltb_ℤ k (localcapacity b) ≡ true
    → loadblock browser k a b ≡ loadblockfromram (k -ℤ maxcookies) a b
unfolding loadblock
loaded_from_ram browser k a b not_cookie local = rw (loadblock, not_cookie, local) refl

drive_text :
    (b : Blocks) (v : Vm) (addr k a : ℤ) (dirty : ℕ → Bool)
    → pack
        (loadblockfromram k a (record (savebuftoram addr k b) { vm = v; bufdirty = dirty })).1.vm.m
        a
        1024
      ≡ pack b.vm.m addr 1024
unfolding savebuftoram loadblockfromram
drive_text b v addr k a dirty =
    load_lines-text 16 0 (save_lines 16 0 addr k b.vm.m b.ramblock k) a v.m
      (λ l h q. save_lines-IsLine 16 0 addr k b.vm.m b.ramblock l h q)
    ∙ save_lines-text 16 0 addr k b.vm.m b.ramblock

-- A block that is saved to the drive in memory and loaded from it later reads as it was saved, wherever its
-- buffer is and whatever the machine did in between: a block between the cookies and the remote drives, if
-- the number of blocks and the drive's texts stayed as they were.
pub loadblock-savebuf :
    (browser : Browser) (n : ℕ) (b : Blocks) (v : Vm) (a : ℤ)
    → ltb_ℤ (b.bufblk n) maxcookies ≡ false
    → ltb_ℤ (b.bufblk n) (localcapacity b) ≡ true
    → let later = record (savebuf browser n b) { vm = v } in
      pack (loadblock browser (b.bufblk n) a later).1.vm.m a 1024 ≡ pack b.vm.m (b.buf n) 1024
unfolding savebuftoram localcapacity
loadblock-savebuf browser n b v a not_cookie local =
    let k = b.bufblk n in
    let saved = record (savebuftoram (b.buf n) (k -ℤ maxcookies) b) {
      bufdirty = put_at b.bufdirty n false;
      vm = v;
    } in
    ap (λ u. pack (loadblock browser k a (record u { vm = v })).1.vm.m a 1024)
      (saved_to_ram browser n b not_cookie local)
    ∙ ap (λ (p : ℤ × Blocks). pack p.1.vm.m a 1024)
        (loaded_from_ram browser k a saved not_cookie local)
    ∙ drive_text b v (b.buf n) (k -ℤ maxcookies) a (put_at b.bufdirty n false)
