-- ===== src/Blocks/Block.antt =====
-- What `block` and `buffer` do to the map from blocks to buffers.
use post.Prelude.{
  ℤ, pos, negsuc, ◌<ℤ◌, ltb_ℤ, leb_ℤ, update, update_self, ℕ, ◌+◌, ◌%◌, ◌<◌, Bool, true, false,
  ◌||◌, ◌==◌, if◌then◌else◌, ◌≡◌, ◌≢◌, ◌⊎◌, inl, inr, refl, sym, ap, ◌∙◌, arith, Bool-cases,
}
use mathlib.Core.Path.{ap₂}
use post.Vm.{Vm}
use post.Dictionary.{put_at}
use post.Blocks.{
  Blocks, Browser, maxbufs, localcapacity, capacity, loadblock, evict, map_block, new_buffer,
  forth_blockorbuffer,
}
use post.Blocks.Mapping.{IsMapped, SameMap, SameMap-refl, loadblock-SameMap, CanSave, evict-IsFreed}

-- What the tables are after the free buffer `n` takes the block `k`.
module _ (bufblk : ℕ → ℤ) (blockstat st : ℤ → ℤ) (n k j : ℕ) (new : blockstat (pos k) ≡ negsuc j)
    (stored : (i l : ℕ) → i < maxbufs → bufblk i ≡ pos l → blockstat (pos l) ≡ pos i)
    (held : (i l : ℕ) → blockstat (pos l) ≡ pos i → (i < maxbufs) × (bufblk i ≡ pos l))
    (turn : n < maxbufs) (freed : (l : ℕ) → bufblk n ≡ pos l → st (pos l) ≡ negsuc 0)
    (others : (l : ℕ) → bufblk n ≢ pos l → st (pos l) ≡ blockstat (pos l)) where
  stored_after :
      (i l : ℕ)
      → i < maxbufs
      → put_at bufblk n (pos k) i ≡ pos l
      → update st (pos k) (pos n) (pos l) ≡ pos i
  stored_after i l lt h = elim (Bool-cases (n == i)) [
    | inl e ↦ ground arith
    | inr e ↦
        let i_l : bufblk i ≡ pos l = ground arith in
        let was = stored i l lt i_l in
        let other : bufblk n ≢ pos l = λ q. absurd (ground (arith, stored n l turn q)) in
        ground (arith, others l other)
  ]

  held_after :
      (i l : ℕ)
      → update st (pos k) (pos n) (pos l) ≡ pos i
      → (i < maxbufs) × (put_at bufblk n (pos k) i ≡ pos l)
  held_after i l h = elim (Bool-cases (k == l)) [
    | inl e ↦ ground arith
    | inr e ↦
        let st_i : st (pos l) ≡ pos i = ground arith in
        let other : bufblk n ≢ pos l = λ q. absurd (ground (arith, freed l q)) in
        let was = held i l (sym (others l other) ∙ st_i) in (was.0, ground (arith, was.1))
  ]

-- Where the block `k` is in the buffer that `update` is for, whose address is on the stack.
pub record IsHot (k : ℕ) (u : Blocks) : Type 0 where
  pub hot_lt : u.hotbuffer < maxbufs
  pub hot_stat : u.blockstat (pos k) ≡ pos u.hotbuffer
  pub hot_block : u.bufblk u.hotbuffer ≡ pos k
  pub hot_tos : u.vm.tos ≡ u.buf u.hotbuffer

Sign : ℤ → Type 0
Sign a = ((i : ℕ) × (a ≡ pos i)) ⊎ ((j : ℕ) × (a ≡ negsuc j))

Sign-cases : (a : ℤ) → Sign a
unfolding Sign
Sign-cases (pos i) = inl (i, refl)
Sign-cases (negsuc j) = inr (j, refl)

-- The map and the buffer in use after `u` gave the free buffer `n` to the block `k`.
remap :
    (b u : Blocks) (st : ℤ → ℤ) (n k j : ℕ)
    → IsMapped b
    → n < maxbufs
    → b.blockstat (pos k) ≡ negsuc j
    → ((l : ℕ) → b.bufblk n ≡ pos l → st (pos l) ≡ negsuc 0)
    → ((l : ℕ) → b.bufblk n ≢ pos l → st (pos l) ≡ b.blockstat (pos l))
    → u.nextbuf ≡ n
    → u.hotbuffer ≡ n
    → u.bufblk ≡ put_at b.bufblk n (pos k)
    → u.blockstat ≡ update st (pos k) (pos n)
    → u.vm.tos ≡ u.buf n
    → IsMapped u × IsHot k u
remap b u st n k j good turn new freed others next hot blk stat tos = (
  record {
    turn = rw next turn;
    stored = λ i l lt.
        rw (blk, stat)
          (stored_after b.bufblk b.blockstat st n k j new good.stored good.held turn freed others i
            l lt);
    held = λ i l.
        rw (blk, stat)
          (held_after b.bufblk b.blockstat st n k j new good.stored good.held turn freed others i
            l);
  },
  record {
    hot_lt = rw hot turn;
    hot_stat = rw (hot, stat) (update_self st (pos k) (pos n));
    hot_block = rw (hot, blk) (ground arith);
    hot_tos = rw hot tos;
  },
)

module _ (browser : Browser) where
  in_range :
      (flag : Bool) (k : ℕ) (b : Blocks)
      → b.vm.tos ≡ pos k
      → pos k <ℤ capacity b
      → forth_blockorbuffer browser flag b ≡ map_block browser flag b
  unfolding forth_blockorbuffer
  in_range flag k b at lt =
      let out : (leb_ℤ (capacity b) b.vm.tos || ltb_ℤ b.vm.tos (pos 0)) ≡ false =
        rw at (ground arith) in
      rw out refl

  -- A block that is in a buffer.
  known_block :
      (flag : Bool) (i : ℕ) (b : Blocks)
      → b.blockstat b.vm.tos ≡ pos i
      → map_block browser flag b ≡ record b { hotbuffer = i; vm = record (b.vm) { tos = b.buf i } }
  unfolding map_block
  known_block flag i b e = rw (map_block, e) refl

  -- What the buffer `n` is filled with, its address first.
  abbrev filled : Bool → ℕ → Blocks → ℤ × Blocks
  filled flag n b = if flag then loadblock browser b.vm.tos (b.buf n) b else (b.buf n, b)

  filled-SameMap :
      (flag : Bool) (n : ℕ) (b : Blocks)
      → ((filled flag n b).0 ≡ b.buf n) × SameMap b (filled flag n b).1
  filled-SameMap true n b = loadblock-SameMap browser b.vm.tos (b.buf n) b
  filled-SameMap false n b = (refl, SameMap-refl b)

  new_block :
      (flag : Bool) (j : ℕ) (b : Blocks)
      → b.blockstat b.vm.tos ≡ negsuc j
      → map_block browser flag b ≡ new_buffer browser flag b
  unfolding map_block
  new_block flag j b e = rw (map_block, e) refl

  new_buffer-IsMapped :
      (flag : Bool) (k j : ℕ) (b : Blocks)
      → IsMapped b
      → CanSave browser ((b.nextbuf + 1) % maxbufs) b
      → b.vm.tos ≡ pos k
      → b.blockstat (pos k) ≡ negsuc j
      → IsMapped (new_buffer browser flag b) × IsHot k (new_buffer browser flag b)
  unfolding new_buffer localcapacity
  new_buffer-IsMapped flag k j b good can at e =
      let n = (b.nextbuf + 1) % maxbufs in
      let free = evict browser n (record b { nextbuf = n }) in
      let ev = evict-IsFreed browser n (record b { nextbuf = n }) can in
      let (addr, same) = filled-SameMap flag n free in
      let st = (filled flag n free).1.blockstat in
      let at' : free.vm.tos ≡ pos k = ap (λ (v : Vm). v.tos) ev.same_vm ∙ at in
      let eq : (l : ℕ) → st (pos l) ≡ free.blockstat (pos l) =
        λ l. ap (λ (f : ℤ → ℤ). f (pos l)) same.same_blockstat in
      remap b (new_buffer browser flag b) st n k j good (omega arith) e (λ l q. eq l ∙ ev.freed l q)
        (λ l q. eq l ∙ ev.others l q) (same.same_nextbuf ∙ ev.same_nextbuf) refl
        (ap₂ (λ f z. put_at f n z) (same.same_bufblk ∙ ev.same_bufblk) at')
        (ap (λ z. update st z (pos n)) at') (addr ∙ sym (ap (λ (f : ℕ → ℤ). f n) same.same_buf))

  map-IsMapped :
      (flag : Bool) (k : ℕ) (b : Blocks)
      → IsMapped b
      → CanSave browser ((b.nextbuf + 1) % maxbufs) b
      → b.vm.tos ≡ pos k
      → Sign (b.blockstat (pos k))
      → IsMapped (map_block browser flag b) × IsHot k (map_block browser flag b)
  unfolding Sign
  map-IsMapped flag k b good can at (inl (i, e)) =
      let (lt, blk) = good.held i k e in
      rw (known_block flag i b (ap b.blockstat at ∙ e)) (
        record { turn = good.turn; stored = good.stored; held = good.held },
        record { hot_lt = lt; hot_stat = e; hot_block = blk; hot_tos = refl },
      )
  map-IsMapped flag k b good can at (inr (j, e)) =
      rw (new_block flag j b (ap b.blockstat at ∙ e)) (new_buffer-IsMapped flag k j b good can at e)

  -- Where a block is known to be in a buffer exactly if that buffer holds it, `block` and `buffer` keep it
  -- so, and leave the address of a buffer that holds the block that was asked for: of a block within the
  -- capacity, where the next buffer holds no changed block of the remote drives.
  pub block-IsMapped :
      (flag : Bool) (k : ℕ) (b : Blocks)
      → IsMapped b
      → CanSave browser ((b.nextbuf + 1) % maxbufs) b
      → b.vm.tos ≡ pos k
      → pos k <ℤ capacity b
      → IsMapped (forth_blockorbuffer browser flag b) × IsHot k (forth_blockorbuffer browser flag b)
  block-IsMapped flag k b good can at lt =
      rw (in_range flag k b at lt)
        (map-IsMapped flag k b good can at (Sign-cases (b.blockstat (pos k))))
