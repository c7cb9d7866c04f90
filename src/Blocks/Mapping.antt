-- ===== src/Blocks/Mapping.antt =====
-- The buffers and the blocks that they hold, as `block` and `buffer` keep them.
use post.Prelude.{
  ℤ, pos, negsuc, ltb_ℤ, leb_ℤ, update, update_self, update_ne, ℕ, ◌<◌, Bool, true, false, ◌==◌,
  if◌then◌else◌, ◌≡◌, ◌≢◌, inl, inr, refl, sym, ap, ◌∙◌, arith, Bool-cases,
}
use post.Blocks.{
  Blocks, Browser, maxbufs, maxcookies, localcapacity, savebuf, savebuftocookie, savebuftoram,
  loadblock, loadblockfromcookie, loadblockfromram, loadblockfromweb, evict,
}

-- A block is known to be in a buffer exactly where the buffer holds it, and the next buffer is one of
-- them.
pub record IsMapped (b : Blocks) : Type 0 where
  pub turn : b.nextbuf < maxbufs
  pub stored : (i k : ℕ) → i < maxbufs → b.bufblk i ≡ pos k → b.blockstat (pos k) ≡ pos i
  pub held : (i k : ℕ) → b.blockstat (pos k) ≡ pos i → (i < maxbufs) × (b.bufblk i ≡ pos k)

-- What saving and loading leave alone.
pub record SameMap (b u : Blocks) : Type 0 where
  pub same_buf : u.buf ≡ b.buf
  pub same_bufblk : u.bufblk ≡ b.bufblk
  pub same_blockstat : u.blockstat ≡ b.blockstat
  pub same_nextbuf : u.nextbuf ≡ b.nextbuf

pub SameMap-refl : (b : Blocks) → SameMap b b
SameMap-refl b = record {
  same_buf = refl;
  same_bufblk = refl;
  same_blockstat = refl;
  same_nextbuf = refl;
}

if_SameMap :
    (c : Bool) (a : ℤ) (b : Blocks) (p q : ℤ × Blocks)
    → (p.0 ≡ a) × SameMap b p.1
    → (q.0 ≡ a) × SameMap b q.1
    → ((if c then p else q).0 ≡ a) × SameMap b (if c then p else q).1
if_SameMap true a b p q h k = h
if_SameMap false a b p q h k = k

if_same : (c : Bool) (b p q : Blocks) → SameMap b p → SameMap b q → SameMap b (if c then p else q)
if_same true b p q h k = h
if_same false b p q h k = k

module _ (browser : Browser) where
  pub loadblock-SameMap :
      (k a : ℤ) (b : Blocks)
      → ((loadblock browser k a b).0 ≡ a) × SameMap b (loadblock browser k a b).1
  unfolding loadblock loadblockfromcookie loadblockfromram loadblockfromweb
  loadblock-SameMap k a b =
      if_SameMap (ltb_ℤ k maxcookies) a b _ _
        (
          refl,
          record {
            same_buf = refl;
            same_bufblk = refl;
            same_blockstat = refl;
            same_nextbuf = refl;
          },
        )
        (if_SameMap (ltb_ℤ k (localcapacity b)) a b _ _
          (
            refl,
            record {
              same_buf = refl;
              same_bufblk = refl;
              same_blockstat = refl;
              same_nextbuf = refl;
            },
          )
          (
            refl,
            if_same (b.requesting_load == 0) b _ _
                (record {
                  same_buf = refl;
                  same_bufblk = refl;
                  same_blockstat = refl;
                  same_nextbuf = refl;
                })
                (record {
                  same_buf = refl;
                  same_bufblk = refl;
                  same_blockstat = refl;
                  same_nextbuf = refl;
                }),
          ))

  -- A block of the local drives is saved without an error.
  savebuf-SameMap :
      (n : ℕ) (b : Blocks)
      → ltb_ℤ (b.bufblk n) (localcapacity b) ≡ true
      → SameMap b (savebuf browser n b) × ((savebuf browser n b).vm ≡ b.vm)
  unfolding savebuf savebuftocookie savebuftoram
  savebuf-SameMap n b h = elim (Bool-cases (ltb_ℤ (b.bufblk n) maxcookies)) [
    | inl c ↦ rw c (
      record { same_buf = refl; same_bufblk = refl; same_blockstat = refl; same_nextbuf = refl },
      refl,
    )
    | inr c ↦
        rw (c, h)
          (
            record {
              same_buf = refl;
              same_bufblk = refl;
              same_blockstat = refl;
              same_nextbuf = refl;
            },
            refl,
          )
  ]

  -- The tables after the buffer `n` is free.
  pub record IsFreed (n : ℕ) (b u : Blocks) : Type 0 where
    pub same_buf : u.buf ≡ b.buf
    pub same_bufblk : u.bufblk ≡ b.bufblk
    pub same_vm : u.vm ≡ b.vm
    pub same_nextbuf : u.nextbuf ≡ b.nextbuf
    pub freed : (k : ℕ) → b.bufblk n ≡ pos k → u.blockstat (pos k) ≡ negsuc 0
    pub others : (k : ℕ) → b.bufblk n ≢ pos k → u.blockstat (pos k) ≡ b.blockstat (pos k)

  -- Where a dirty buffer holds a block of the local drives.
  abbrev pub CanSave : ℕ → Blocks → Type 0
  CanSave n b = b.bufdirty n ≡ true → ltb_ℤ (b.bufblk n) (localcapacity b) ≡ true

  pub evict-IsFreed : (n : ℕ) (b : Blocks) → CanSave n b → IsFreed n b (evict browser n b)
  unfolding evict
  evict-IsFreed n b can = elim (Bool-cases (leb_ℤ (pos 0) (b.bufblk n))) [
    | inr c ↦ rw c (record {
      same_buf = refl;
      same_bufblk = refl;
      same_vm = refl;
      same_nextbuf = refl;
      freed = λ k e. absurd (ground arith);
      others = λ k e. refl;
    })
    | inl c ↦ elim (Bool-cases (b.bufdirty n)) [
      | inr d ↦
          rw (c, d)
            (record {
              same_buf = refl;
              same_bufblk = refl;
              same_vm = refl;
              same_nextbuf = refl;
              freed = λ k e. ground arith;
              others = λ k e. ground arith;
            })
      | inl d ↦
          let (same, vm) = savebuf-SameMap n b (can d) in
          let blk = ap (λ (f : ℕ → ℤ). f n) same.same_bufblk in
          let stat = λ (k : ℕ). ap (λ (f : ℤ → ℤ). f (pos k)) same.same_blockstat in
          rw (c, d)
            (record {
              same_buf = same.same_buf;
              same_bufblk = same.same_bufblk;
              same_vm = vm;
              same_nextbuf = same.same_nextbuf;
              freed = λ k e.
                  ap (λ z. update (savebuf browser n b).blockstat z (negsuc 0) (pos k)) (blk ∙ e)
                  ∙ update_self (savebuf browser n b).blockstat (pos k) (negsuc 0);
              others = λ k e.
                  update_ne (savebuf browser n b).blockstat ((savebuf browser n b).bufblk n)
                    (negsuc 0) (pos k) (λ q. e (sym blk ∙ q))
                  ∙ stat k;
            })
    ]
  ]
