-- ===== src/Heap/Release.antt =====
-- A chunk that is freed right after it was allocated.
use post.Prelude.{
  ℤ, pos, ◌+ℤ◌, ◌-ℤ◌, ◌==ℤ◌, ℕ, suc, ◌+◌, ◌-◌, ◌≡◌, refl, arith, List, [], ◌∷◌, ◌++◌, length,
  length-append, ap, update_self, ◌∙◌, true, false, some, ltb,
}
use post.Vm.{Vm, inc, dec}
use post.Heap.{
  Heap, forth_free, forth_allocate, release_chunk, release, merge_chunks, merge_loop, shrink_heap,
  item, drop_last, chunk_index, newchunk, searchfit, searchfit_loop,
}
use post.Heap.Chunks.{assign-append}

item-append : (u : List ℤ) (a : ℤ) → item (u ++ a ∷ []) (length u) ≡ a
item-append [] a = refl
item-append (x ∷ u) a = item-append u a

drop_last-append : (u : List ℤ) (a : ℤ) → drop_last (u ++ a ∷ []) ≡ u
drop_last-append [] a = refl
drop_last-append (x ∷ []) a = refl
drop_last-append (x ∷ y ∷ u) a = ap (λ zs. x ∷ zs) (drop_last-append (y ∷ u) a)

-- A heap without free chunks.
abbrev pub compact : Vm → ℤ → List ℤ → Heap
compact v end u = record {
  vm = v;
  heapend = end;
  usedchunk = u;
  nusedchunks = length u;
  freechunk = [];
  nfreechunks = 0;
}

-- The last chunk in use goes to the free ones.
release_last :
    (v : Vm) (end : ℤ) (u : List ℤ) (a : ℤ)
    → release_chunk (length u) a (compact v end (u ++ a ∷ []))
      ≡ record (compact v end u) { freechunk = a ∷ []; nfreechunks = 1 }
unfolding release_chunk
release_last v end u a =
    let count : length (u ++ a ∷ []) - 1 ≡ length u = omega (arith, length-append u (a ∷ [])) in
    let last : ltb (length u) (length u) ≡ false = ground arith in
    rw (release_chunk, count, last, drop_last-append u a) refl

-- A free chunk at the heap's end, the only one, is given back.
shrink_last :
    (v : Vm) (e n : ℕ) (u : List ℤ)
    → v.m (pos (suc e)) ≡ pos n
    → shrink_heap (record (compact v (pos (suc (suc e) + n)) u) {
      freechunk = pos (suc (suc e)) ∷ [];
      nfreechunks = 1;
    })
      ≡ compact v (pos e) u
unfolding shrink_heap
shrink_last v e n u size =
    let cell : dec (pos (suc (suc e))) ≡ pos (suc e) = ground arith in
    let end : (pos (suc (suc e)) +ℤ pos n ==ℤ pos (suc (suc e) + n)) ≡ true = ground arith in
    let back : pos (suc (suc e)) -ℤ pos 2 ≡ pos e = ground arith in
    rw (shrink_heap, cell, size, end, back) refl

free_index :
    (v : Vm) (e : ℕ) (u : List ℤ) (a : ℤ)
    → v.tos ≡ pos (suc (suc e))
    → v.m (pos e) ≡ pos (length u)
    → chunk_index (v.m (v.tos -ℤ pos 2)) (length (u ++ a ∷ [])) ≡ some (length u)
free_index v e u a tos index =
    let cell : pos (suc (suc e)) -ℤ pos 2 ≡ pos e = ground arith in
    let count : length (u ++ a ∷ []) ≡ suc (length u) = omega (arith, length-append u (a ∷ [])) in
    let last : ltb (length u) (length u) ≡ false = ground arith in
    rw (tos, cell, index, count, last) refl

release-last :
    (v : Vm) (end : ℤ) (e : ℕ) (u : List ℤ)
    → v.tos ≡ pos (suc (suc e))
    → v.m (pos e) ≡ pos (length u)
    → release (compact v end (u ++ pos (suc (suc e)) ∷ []))
      ≡ record (compact v end u) { freechunk = pos (suc (suc e)) ∷ []; nfreechunks = 1 }
unfolding release
release-last v end e u tos index =
    let a = pos (suc (suc e)) in
    let same : (a ==ℤ v.tos) ≡ true = rw tos (ground arith) in
    rw (release, free_index v e u a tos index, item-append u a, same) (release_last v end u a)

-- `free` gives the last chunk in use back to the end of the heap, where no chunk is free.
free_last :
    (sort : List ℤ → List ℤ)
    → ((c : ℤ) → sort (c ∷ []) ≡ c ∷ [])
    → (v : Vm) (e n : ℕ) (u : List ℤ) → v.tos ≡ pos (suc (suc e))
    → v.m (pos (suc e)) ≡ pos n
    → v.m (pos e) ≡ pos (length u)
    → forth_free sort (compact v (pos (suc (suc e) + n)) (u ++ pos (suc (suc e)) ∷ []))
      ≡ compact (record v { tos = pos 0 }) (pos e) u
unfolding forth_free merge_chunks merge_loop
free_last sort single v e n u tos size index =
    let a = pos (suc (suc e)) in
    let end = pos (suc (suc e) + n) in
    let step =
      ap
        (λ (h : Heap).
          let s = shrink_heap (merge_chunks (record h { freechunk = sort h.freechunk })) in
          record s { vm = record (s.vm) { tos = pos 0 } })
        (release-last v end e u tos index) in
    step
    ∙ ap
        (λ cs.
          let s =
            shrink_heap
              (merge_chunks (record (compact v end u) { freechunk = cs; nfreechunks = 1 })) in
          record s { vm = record (s.vm) { tos = pos 0 } })
        (single a)
    ∙ ap (λ (s : Heap). record s { vm = record (s.vm) { tos = pos 0 } }) (shrink_last v e n u size)

-- `allocate` with no chunk free.
allocated :
    (v w : Vm) (e n : ℕ) (u : List ℤ)
    → v.tos ≡ pos n
    → record (forth_allocate (compact v (pos e) u)) { vm = w }
      ≡ compact w (pos (suc (suc e) + n)) (u ++ pos (suc (suc e)) ∷ [])
unfolding forth_allocate searchfit searchfit_loop newchunk
allocated v w e n u tos =
    let a : inc (inc (pos e)) ≡ pos (suc (suc e)) = ground arith in
    let end : pos (suc (suc e)) +ℤ pos n ≡ pos (suc (suc e) + n) = ground arith in
    let count : length u + 1 ≡ length (u ++ pos (suc (suc e)) ∷ []) =
      omega (arith, length-append u (pos (suc (suc e)) ∷ [])) in
    rw (forth_allocate, newchunk, a, tos, end, assign-append u (pos (suc (suc e))), count) refl

allocated_vm :
    (v : Vm) (e n : ℕ) (u : List ℤ)
    → v.tos ≡ pos n
    → let h = forth_allocate (compact v (pos e) u) in
      (h.vm.s h.vm.sp ≡ pos (suc (suc e)))
      × (h.vm.tos ≡ pos 0)
      × (h.vm.m (pos e) ≡ pos (length u))
      × (h.vm.m (pos (suc e)) ≡ pos n)
unfolding forth_allocate searchfit searchfit_loop newchunk
allocated_vm v e n u tos =
    let next : inc (pos e) ≡ pos (suc e) = ground arith in
    let a : inc (pos (suc e)) ≡ pos (suc (suc e)) = ground arith in
    rw (forth_allocate, newchunk, next, a)
      (update_self v.s (inc v.sp) (pos (suc (suc e))), refl, ground arith, ground (arith, tos))

-- What is allocated where no chunk is free and then freed is given back: `allocate` leaves the address of
-- the new chunk with 0, and `free` of this address, on any machine whose memory has the chunk's two header
-- cells as `allocate` wrote them, makes the heap what it was before, for a `sort` that keeps an array of
-- one item.
pub free-allocate :
    (sort : List ℤ → List ℤ)
    → ((c : ℤ) → sort (c ∷ []) ≡ c ∷ [])
    → (v w : Vm) (e n : ℕ) (u : List ℤ) → v.tos ≡ pos n
    → let h = forth_allocate (compact v (pos e) u) in
      w.tos ≡ h.vm.s h.vm.sp
      → w.m (pos e) ≡ h.vm.m (pos e)
      → w.m (pos (suc e)) ≡ h.vm.m (pos (suc e))
      → (h.vm.s h.vm.sp ≡ pos (suc (suc e)))
        × (h.vm.tos ≡ pos 0)
        × (forth_free sort (record h { vm = w }) ≡ compact (record w { tos = pos 0 }) (pos e) u)
free-allocate sort single v w e n u tos top index size =
    let (addr, ior, index', size') = allocated_vm v e n u tos in
    (
      addr,
      ior,
      ap (forth_free sort) (allocated v w e n u tos)
          ∙ free_last sort single w e n u (top ∙ addr) (size ∙ size') (index ∙ index'),
    )
