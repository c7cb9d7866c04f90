-- ===== src/Heap/Tests.antt =====
-- Runs of the heap.
use post.Prelude.{
  ℤ, pos, negsuc, ◌+ℤ◌, ◌<ℤ◌, Store, update, ℕ, [], ◌∷◌, ◌++◌, take, ◌≡◌, ◌≢◌, ◌⊎◌, refl,
}
use post.Fixture.{with_stack, addresses}
use post.Vm.{Vm, push}
use post.Heap.{searchfit_loop, forth_allocate, forth_free, Heap, newchunk, splitchunk, searchfit}
use post.Heap.Fit.{Best, NoneBelow, searchfit-Best}
use post.Heap.Release.{compact, free-allocate}
use post.Heap.Chunks.{IsCounted, IsChunk, newchunk-extends, splitchunk-tiles}

-- Two free chunks: 20 cells at 302, and 9 cells at 402. The heap ends at 500.
abbrev memory : Store
memory = update (update addresses (pos 301) (pos 20)) (pos 401) (pos 9)

abbrev heap : Heap
heap = record {
  vm = record (with_stack memory []) { tos = pos 6 };
  heapend = pos 500;
  usedchunk = pos 202 ∷ [];
  nusedchunks = 1;
  freechunk = pos 302 ∷ pos 402 ∷ [];
  nfreechunks = 2;
}

heap-IsCounted : IsCounted heap
heap-IsCounted = record { used = refl; free = refl }

searchfit-Best_example :
    ((searchfit (pos 6) heap ≡ negsuc 0)
      × NoneBelow heap.vm.m (pos 6) (pos 0xffff_ffff) (take 2 heap.freechunk))
    ⊎ ((k : ℕ) × (c : ℤ) × (searchfit (pos 6) heap ≡ pos k)
        × Best heap.vm.m (pos 6) (take 2 heap.freechunk) k c)
searchfit-Best_example = searchfit-Best (pos 6) heap

newchunk-extends_example :
    let (a, h') = newchunk (pos 6) heap in
    (a ≡ pos 502)
    × (h'.heapend ≡ pos 508)
    × IsChunk h'.vm.m 500 6 (pos 1)
    × ((j : ℤ) → j <ℤ pos 500 → h'.vm.m j ≡ heap.vm.m j)
    × (h'.usedchunk ≡ heap.usedchunk ++ a ∷ [])
    × (h'.freechunk ≡ heap.freechunk)
    × IsCounted h'
newchunk-extends_example = newchunk-extends heap 500 6 heap-IsCounted refl refl

splitchunk-tiles_example :
    let (a, h') = splitchunk 0 (pos 6) heap in
    (a ≡ pos 316)
    × (a +ℤ pos 6 ≡ pos 302 +ℤ heap.vm.m (pos 301))
    × (h'.vm.m (pos 301) ≡ pos 12)
    × IsChunk h'.vm.m 314 6 (pos 1)
    × ((j : ℤ) → j ≢ pos 301 → j ≢ pos 314 → j ≢ pos 315 → h'.vm.m j ≡ heap.vm.m j)
    × (h'.usedchunk ≡ heap.usedchunk ++ a ∷ [])
    × (h'.freechunk ≡ heap.freechunk)
    × IsCounted h'
splitchunk-tiles_example = splitchunk-tiles heap 0 300 6 11 heap-IsCounted refl refl

-- 10 cells are asked for where the heap ends at 500, and freed again.
abbrev asking : Vm
asking = with_stack addresses (pos 10 ∷ [])

abbrev after_allocate : Heap
after_allocate = forth_allocate (compact asking (pos 500) (pos 202 ∷ []))

abbrev freeing : Vm
freeing = with_stack after_allocate.vm.m (pos 502 ∷ [])

free-allocate_example :
    (after_allocate.vm.s after_allocate.vm.sp ≡ pos 502)
    × (after_allocate.vm.tos ≡ pos 0)
    × (forth_free (λ cs. cs) (record after_allocate { vm = freeing })
        ≡ compact (record freeing { tos = pos 0 }) (pos 500) (pos 202 ∷ []))
unfolding push forth_allocate searchfit searchfit_loop newchunk
free-allocate_example =
    free-allocate (λ cs. cs) (λ c. refl) asking freeing 500 10 (pos 202 ∷ []) refl refl refl refl
