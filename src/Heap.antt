-- ===== src/Heap.antt =====
-- The heap words `allocate` and `free` of reference/jsforth.js. A chunk is known by the address of
-- its data; the cell before it holds its size, and the one before that, while it is in use, its index
-- in `usedchunk`.
mod Fit
mod Chunks
mod Release
mod Tests
use post.Prelude.{
  ℤ, pos, negsuc, ◌+ℤ◌, ◌-ℤ◌, ◌==ℤ◌, ltb_ℤ, leb_ℤ, Store, update, ℕ, zero, suc, ◌+◌, ◌-◌, Bool,
  true, false, if◌then◌else◌, Option, none, some, List, [], ◌∷◌, ◌++◌, set, take, ltb, not, ◌&&◌,
  ◌==◌,
}
use post.Vm.{Vm, push, inc, dec}
use post.Throw.{throwerror}

-- The machine with the variables of the heap.
pub record Heap : Type 0 where
  pub vm : Vm
  pub heapend : ℤ
  pub usedchunk : List ℤ
  pub nusedchunks : ℕ
  pub freechunk : List ℤ
  pub nfreechunks : ℕ

-- `a[i] = x`, for an index of the array or the next one after it.
abbrev pub assign : List ℤ → ℕ → ℤ → List ℤ
assign [] i x = x ∷ []
assign (y ∷ ys) zero x = x ∷ ys
assign (y ∷ ys) (suc i) x = y ∷ assign ys i x

-- `a.pop()`, for what it leaves of the array.
abbrev pub drop_last : List ℤ → List ℤ
drop_last [] = []
drop_last (x ∷ []) = []
drop_last (x ∷ y ∷ ys) = x ∷ drop_last (y ∷ ys)

-- `a[i]`, where the source has made sure of the index.
abbrev pub item : List ℤ → ℕ → ℤ
item [] i = pos 0
item (x ∷ xs) zero = x
item (x ∷ xs) (suc i) = item xs i

pub newchunk : ℤ → Heap → ℤ × Heap
newchunk size h =
    let v = h.vm in
    let m1 = update v.m h.heapend (pos h.nusedchunks) in
    let e1 = inc h.heapend in
    let m2 = update m1 e1 size in
    let e2 = inc e1 in
    (
      e2,
      record h {
        vm = record v { m = m2 };
        usedchunk = assign h.usedchunk h.nusedchunks e2;
        nusedchunks = h.nusedchunks + 1;
        heapend = e2 +ℤ v.tos;
      },
    )

-- Takes the chunk `chunkaddr` of the free list into use.
use_chunk : ℤ → Heap → ℤ × Heap
use_chunk chunkaddr h = (
  chunkaddr,
  record h {
    vm = record (h.vm) { m = update h.vm.m (chunkaddr -ℤ pos 2) (pos h.nusedchunks) };
    usedchunk = assign h.usedchunk h.nusedchunks chunkaddr;
    nusedchunks = h.nusedchunks + 1;
  },
)

-- Cuts a new chunk off the end of the free chunk `chunkaddr`, which is left with size `left`.
cut_chunk : (chunkaddr left newsize : ℤ) → Heap → ℤ × Heap
unfolding use_chunk
cut_chunk chunkaddr left newsize h =
    let v = h.vm in
    let m1 = update v.m (dec chunkaddr) left in
    let header = chunkaddr +ℤ inc left in
    use_chunk (inc header) (record h { vm = record v { m = update m1 header newsize } })

-- Takes the last free chunk to the place of the one at `fit`, and shortens the array.
drop_chunk : ℕ → Heap → Heap
drop_chunk fit h =
    let n = h.nfreechunks - 1 in
    record h { freechunk = drop_last (set h.freechunk fit (item h.freechunk n)); nfreechunks = n }

pub splitchunk : ℕ → ℤ → Heap → ℤ × Heap
unfolding use_chunk cut_chunk drop_chunk
splitchunk fit newsize h =
    let chunkaddr = item h.freechunk fit in
    let left = h.vm.m (dec chunkaddr) -ℤ (newsize +ℤ pos 2) in
    if ltb_ℤ (pos 0) left
    then cut_chunk chunkaddr left newsize h
    else use_chunk chunkaddr (drop_chunk fit h)

-- The variable `fittype` of the script, which is an address and not what the cell there holds.
abbrev pub fittype : ℤ
fittype = pos 5

-- What a free chunk has beyond the size that is asked for.
unfoldable pub slack : Store → ℤ → ℤ → ℤ
slack m size c = m (dec c) -ℤ size

-- The loop of `searchfit` over the free chunks from index `i` on. `fit` is an index or -1.
searchfit_loop : Store → ℤ → ℕ → List ℤ → (fit temp : ℤ) → ℤ
searchfit_loop m size i [] fit temp = fit
searchfit_loop m size i (c ∷ cs) fit temp =
    let more = slack m size c in
    let better = ltb_ℤ more temp in
    let skip = searchfit_loop m size (suc i) cs fit temp in
    let taken = searchfit_loop m size (suc i) cs (pos i) more in
    if more ==ℤ pos 0
    then pos i
    else if ltb_ℤ (pos 2) more
    then (if fittype ==ℤ pos 0 then pos i else if better then taken else skip)
    else skip

pub searchfit : ℤ → Heap → ℤ
unfolding searchfit_loop
searchfit size h =
    searchfit_loop h.vm.m size 0 (take h.nfreechunks h.freechunk) (negsuc 0) (pos 0xffff_ffff)

-- `s[++sp] = a ; tos = 0`
abbrev pub answer : ℤ × Heap → Heap
answer (a, h) =
    let v = h.vm in
    record h { vm = record v { s = update v.s (inc v.sp) a; sp = inc v.sp; tos = pos 0 } }

pub forth_allocate : Heap → Heap
unfolding searchfit newchunk splitchunk
forth_allocate h =
    let size = h.vm.tos in
    elim (searchfit size h) [
      | negsuc _ ↦ answer (newchunk size h)
      | pos fit ↦ answer (splitchunk fit size h)
    ]

-- The chunk at index `temp` of those in use goes to the free ones, and the last one takes its place.
release_chunk : ℕ → ℤ → Heap → Heap
release_chunk temp chunkaddr h =
    let n = h.nusedchunks - 1 in
    let lastchunk = item h.usedchunk n in
    let freed = record h {
      freechunk = assign h.freechunk h.nfreechunks chunkaddr;
      nfreechunks = h.nfreechunks + 1;
      nusedchunks = n;
      usedchunk = drop_last h.usedchunk;
    } in
    if ltb temp n
    then record freed {
      vm = record (freed.vm) { m = update freed.vm.m (lastchunk -ℤ pos 2) (pos temp) };
      usedchunk = set freed.usedchunk temp lastchunk;
    }
    else freed

-- The loop that merges: `p` is the last chunk that stays, `next` the address of a chunk right behind it,
-- and the list the chunks after it. The chunks that stay, the number of those merged, and the memory.
merge_loop : (p next : ℤ) → List ℤ → Store → List ℤ × ℕ × Store
merge_loop p next [] m = (p ∷ [], 0, m)
merge_loop p next (c ∷ cs) m =
    let chunksize = m (dec c) +ℤ pos 2 in
    let (kept, merged, m') =
      merge_loop p (next +ℤ chunksize) cs (update m (dec p) (m (dec p) +ℤ chunksize)) in
    let (others, less, m'') = merge_loop c (c +ℤ m (dec c) +ℤ pos 2) cs m in
    if c ==ℤ next then (kept, suc merged, m') else (p ∷ others, less, m'')

merge_chunks : Heap → Heap
unfolding merge_loop
merge_chunks h = elim h.freechunk [
  | [] ↦ h
  | p ∷ cs ↦
      let (kept, merged, m) = merge_loop p (p +ℤ h.vm.m (dec p) +ℤ pos 2) cs h.vm.m in
      record h {
        freechunk = kept;
        nfreechunks = h.nfreechunks - merged;
        vm = record (h.vm) { m = m };
      }
]

-- A last free chunk at the end of the heap is given back.
shrink_heap : Heap → Heap
shrink_heap h =
    let n = h.nfreechunks - 1 in
    let temp = item h.freechunk n in
    let shrunk = record h {
      nfreechunks = n;
      heapend = temp -ℤ pos 2;
      freechunk = drop_last h.freechunk;
    } in
    if not (h.nfreechunks == 0) && (temp +ℤ h.vm.m (dec temp)) ==ℤ h.heapend then shrunk else h

-- `a[i]` for `i = Math.min(index, n - 1)`, with -1 and less outside the array.
abbrev pub chunk_index : ℤ → ℕ → Option ℕ
chunk_index (negsuc _) n = none
chunk_index (pos i) zero = none
chunk_index (pos i) (suc n) = some (if ltb i n then i else n)

-- The chunk that `tos` is the address of becomes free. The function goes on after a throw.
release : Heap → Heap
unfolding release_chunk throwerror
release h =
    let v = h.vm in
    let failed = record h { vm = throwerror (negsuc 71) v } in
    elim (chunk_index (v.m (v.tos -ℤ pos 2)) h.nusedchunks) [
      | none ↦ failed
      | some temp ↦
          let chunkaddr = item h.usedchunk temp in
          if chunkaddr ==ℤ v.tos then release_chunk temp chunkaddr h else failed
    ]

-- `sort` is JavaScript's on an array of numbers.
pub forth_free : (sort : List ℤ → List ℤ) → Heap → Heap
unfolding release merge_chunks shrink_heap
forth_free sort h =
    let released = release h in
    let merged = merge_chunks (record released { freechunk = sort released.freechunk }) in
    let shrunk = shrink_heap merged in record shrunk { vm = record (shrunk.vm) { tos = pos 0 } }
