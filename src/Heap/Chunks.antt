-- ===== src/Heap/Chunks.antt =====
-- What `newchunk` and `splitchunk` make of the heap's memory.
use post.Prelude.{
  ℤ, pos, ◌+ℤ◌, ◌-ℤ◌, ◌<ℤ◌, ltb_ℤ, Store, ℕ, suc, ◌+◌, ◌≡◌, ◌≢◌, refl, arith, List, [], ◌∷◌, ◌++◌,
  length, length-append, sym, ap, ◌∙◌, if◌then◌else◌, true,
}
use post.Vm.{inc, dec}
use post.Heap.{Heap, newchunk, splitchunk, cut_chunk, use_chunk, drop_chunk, assign, item}

-- The arrays have as many items as their counters say.
pub record IsCounted (h : Heap) : Type 0 where
  pub used : h.nusedchunks ≡ length h.usedchunk
  pub free : h.nfreechunks ≡ length h.freechunk

pub assign-append : (xs : List ℤ) (x : ℤ) → assign xs (length xs) x ≡ xs ++ x ∷ []
assign-append [] x = refl
assign-append (y ∷ ys) x = ap (λ zs. y ∷ zs) (assign-append ys x)

-- The chunk at `a` holds `n` cells, ends at `end`, and knows its index.
pub record IsChunk (m : Store) (a n : ℕ) (index : ℤ) : Type 0 where
  pub size : m (pos (suc a)) ≡ pos n
  pub index_cell : m (pos a) ≡ index

-- Where the arrays are as long as their counters say and the size asked for is in `tos`, `newchunk`
-- extends the heap by one chunk: two header cells and the cells asked for, from the old end of the
-- heap up to the new one. Memory below the old end is as it was, the free chunks too, and the new
-- chunk is the last of those in use.
pub newchunk-extends :
    (h : Heap) (e n : ℕ)
    → IsCounted h
    → h.heapend ≡ pos e
    → h.vm.tos ≡ pos n
    → let (a, h') = newchunk (pos n) h in
      (a ≡ pos (suc (suc e)))
      × (h'.heapend ≡ pos (suc (suc e) + n))
      × IsChunk h'.vm.m e n (pos h.nusedchunks)
      × ((j : ℤ) → j <ℤ pos e → h'.vm.m j ≡ h.vm.m j)
      × (h'.usedchunk ≡ h.usedchunk ++ a ∷ [])
      × (h'.freechunk ≡ h.freechunk)
      × IsCounted h'
unfolding newchunk
newchunk-extends h e n counted at_end request =
    let a = inc (inc h.heapend) in
    let appended : assign h.usedchunk h.nusedchunks a ≡ h.usedchunk ++ a ∷ [] =
      ap (λ i. assign h.usedchunk i a) counted.used ∙ assign-append h.usedchunk a in
    (
      ground arith,
      ground arith,
      record { size = ground arith; index_cell = ground arith },
      λ j below_end. ground arith,
      appended,
      refl,
      record {
        used = omega (arith, ap length appended, length-append h.usedchunk (a ∷ []), counted.used);
        free = counted.free;
      },
    )

splitchunk-cut :
    (h : Heap) (fit : ℕ) (a newsize left : ℤ)
    → item h.freechunk fit ≡ a
    → h.vm.m (dec a) -ℤ (newsize +ℤ pos 2) ≡ left
    → ltb_ℤ (pos 0) left ≡ true
    → splitchunk fit newsize h ≡ cut_chunk a left newsize h
unfolding splitchunk
splitchunk-cut h fit a newsize left at_chunk rest positive =
    let left_at = λ (x : ℤ). h.vm.m (dec x) -ℤ (newsize +ℤ pos 2) in
    let result = λ (x l : ℤ).
      if ltb_ℤ (pos 0) l then cut_chunk x l newsize h else use_chunk x (drop_chunk fit h) in
    ap (λ x. result x (left_at x)) at_chunk ∙ ap (result a) rest ∙ rw positive refl

ends :
    (c n r : ℕ)
    → inc (pos (suc (suc c)) +ℤ inc (pos (suc r))) +ℤ pos n
      ≡ pos (suc (suc c)) +ℤ pos (n + 2 + suc r)
ends c n r = ground arith

remains : (n r : ℕ) → pos (n + 2 + suc r) -ℤ (pos n +ℤ pos 2) ≡ pos (suc r)
remains n r = ground arith

cut_chunk-tiles :
    (h : Heap) (c n r : ℕ)
    → IsCounted h
    → h.vm.m (pos (suc c)) ≡ pos (n + 2 + suc r)
    → let (a, h') = cut_chunk (pos (suc (suc c))) (pos (suc r)) (pos n) h in
      let header = suc (suc c) + suc r in
      (a ≡ pos (suc (suc header)))
      × (a +ℤ pos n ≡ pos (suc (suc c)) +ℤ h.vm.m (pos (suc c)))
      × (h'.vm.m (pos (suc c)) ≡ pos (suc r))
      × IsChunk h'.vm.m header n (pos h.nusedchunks)
      × ((j : ℤ) → j ≢ pos (suc c) → j ≢ pos header → j ≢ pos (suc header) → h'.vm.m j ≡ h.vm.m j)
      × (h'.usedchunk ≡ h.usedchunk ++ a ∷ [])
      × (h'.freechunk ≡ h.freechunk)
      × IsCounted h'
unfolding cut_chunk
cut_chunk-tiles h c n r counted chunk_size =
    let a = inc (pos (suc (suc c)) +ℤ inc (pos (suc r))) in
    let appended : assign h.usedchunk h.nusedchunks a ≡ h.usedchunk ++ a ∷ [] =
      ap (λ i. assign h.usedchunk i a) counted.used ∙ assign-append h.usedchunk a in
    (
      ground arith,
      ends c n r ∙ ap (λ x. pos (suc (suc c)) +ℤ x) (sym chunk_size),
      ground arith,
      record { size = ground arith; index_cell = ground arith },
      λ j p q s. ground arith,
      appended,
      refl,
      record {
        used = omega (arith, ap length appended, length-append h.usedchunk (a ∷ []), counted.used);
        free = counted.free;
      },
    )

-- Where the arrays are as long as their counters say and the free chunk has `r + 1` cells left
-- beyond the request and a header, `splitchunk` cuts the new chunk off its end: the old chunk keeps
-- its place with the size that is left, the new one's header follows it, and its data ends where
-- the old chunk's did. No other cell changes, and the free chunks stay the same.
pub splitchunk-tiles :
    (h : Heap) (fit c n r : ℕ)
    → IsCounted h
    → item h.freechunk fit ≡ pos (suc (suc c))
    → h.vm.m (pos (suc c)) ≡ pos (n + 2 + suc r)
    → let (a, h') = splitchunk fit (pos n) h in
      let header = suc (suc c) + suc r in
      (a ≡ pos (suc (suc header)))
      × (a +ℤ pos n ≡ pos (suc (suc c)) +ℤ h.vm.m (pos (suc c)))
      × (h'.vm.m (pos (suc c)) ≡ pos (suc r))
      × IsChunk h'.vm.m header n (pos h.nusedchunks)
      × ((j : ℤ) → j ≢ pos (suc c) → j ≢ pos header → j ≢ pos (suc header) → h'.vm.m j ≡ h.vm.m j)
      × (h'.usedchunk ≡ h.usedchunk ++ a ∷ [])
      × (h'.freechunk ≡ h.freechunk)
      × IsCounted h'
splitchunk-tiles h fit c n r counted at_chunk chunk_size =
    let before : dec (pos (suc (suc c))) ≡ pos (suc c) = ground arith in
    let left : h.vm.m (dec (pos (suc (suc c)))) -ℤ (pos n +ℤ pos 2) ≡ pos (suc r) =
      ap (λ x. h.vm.m x -ℤ (pos n +ℤ pos 2)) before
      ∙ ap (λ x. x -ℤ (pos n +ℤ pos 2)) chunk_size
      ∙ remains n r in
    let positive : ltb_ℤ (pos 0) (pos (suc r)) ≡ true = ground arith in
    rw (splitchunk-cut h fit (pos (suc (suc c))) (pos n) (pos (suc r)) at_chunk left positive)
      (cut_chunk-tiles h c n r counted chunk_size)
