-- ===== src/Console/Listing.antt =====
-- The words that list the dictionary, the vocabularies, the block buffers and the heap on the terminal.
use post.Prelude.{
  ℤ, pos, negsuc, ◌==ℤ◌, ◌+ℤ◌, ◌-ℤ◌, ltb_ℤ, ltb, ℕ, zero, suc, ◌+◌, ◌-◌, ◌*◌, ◌&&◌, Bool,
  if◌then◌else◌, Option, none, some, List, [], ◌∷◌, ◌++◌, length, take, pos_part,
}
use post.Vm.{Vm, pop}
use post.Text.{Text}
use post.Text.Literal.{units}
use post.Terminal.{Screen, at, type, cr, querytype}
use post.Dictionary.{Dictionary, compliance, context, current, share_bit, is_header}
use post.Dictionary.Define.{Vocabularies}
use post.Blocks.{Blocks, capacity, maxbufs}
use post.Heap.{Heap}

-- The tests of the loop of `words`.
abbrev pub is_listed : Dictionary → ℕ → Bool
is_listed d i =
    is_header (d.h i)
    && (share_bit (d.vm.m context) (d.ds i) && share_bit (d.vm.m compliance) (d.ds i))

-- The headers from `i` down.
words_loop : ℕ → Dictionary → Screen → Screen
unfolding querytype
words_loop zero d t = t
words_loop (suc i) d t =
    words_loop i d (if is_listed d (suc i) then querytype (d.h (suc i) ++ units " ") t else t)

unfoldable pub forth_words : Dictionary → Screen → Screen
unfolding words_loop
forth_words d t = words_loop d.wc d t

pub forth_vlist : Dictionary → Screen → Screen
unfolding forth_words
forth_vlist d t = forth_words d t

-- `( xt -- )`; `none`: no header has that number.
unfoldable pub forth_dotname : Dictionary → Screen → Option (Dictionary × Screen)
unfolding type pop
forth_dotname d t = elim d.vm.tos [
  | negsuc _ ↦ none
  | pos i ↦ some (record d { vm = pop d.vm }, type (d.h i) t)
]

-- The masks from `only` on, 23 of them, and the number of each. The oldest vocabulary is the last of `vocname`.
module _ (d : Dictionary) (vocs : Vocabularies) where
  abbrev voc_text : ℕ → Text
  voc_text temp =
      if ltb temp (length vocs.vocname)
      then d.h (at 0 vocs.vocname (length vocs.vocname - 1 - temp))
      else units "undefined"

  vocname_loop : (rounds mask temp : ℕ) → ℤ → Screen → Screen
  unfolding type
  vocname_loop zero mask temp n t = t
  vocname_loop (suc rounds) mask temp n t =
      let rest = vocname_loop rounds (mask * 2) (temp + 1) n t in
      if pos mask ==ℤ n then type (voc_text temp ++ units " ") t else rest

  unfoldable pub printvocname : ℤ → Screen → Screen
  unfolding vocname_loop
  printvocname n t = vocname_loop 23 128 0 n t

  order_loop : List ℤ → Screen → Screen
  unfolding printvocname
  order_loop [] t = t
  order_loop (v ∷ vs) t = order_loop vs (printvocname v t)

  unfoldable pub forth_order : Screen → Screen
  unfolding printvocname order_loop type
  forth_order t =
      let searched = order_loop d.vocstack (printvocname (d.vm.m context) t) in
      printvocname (d.vm.m current) (type (units "      ") searched)

  vocs_loop : List ℕ → Screen → Screen
  unfolding type
  vocs_loop [] t = t
  vocs_loop (i ∷ is) t = vocs_loop is (type (d.h i ++ units " ") t)

  unfoldable pub forth_vocs : Screen → Screen
  unfolding vocs_loop
  forth_vocs t = vocs_loop vocs.vocname t

-- The listings that write numbers, in decimal.
module _ (number_text : ℤ → Text) where
  -- The blocks from `i` on.
  blockstats_loop : ℕ → ℤ → Blocks → Screen → Screen
  unfolding type cr
  blockstats_loop zero i b t = t
  blockstats_loop (suc n) i b t =
      let line =
        units "   blk #" ++ number_text i ++ units ": buf " ++ number_text (b.blockstat i) in
      blockstats_loop n (i +ℤ pos 1) b (if b.blockstat i ==ℤ negsuc 0 then t else type line (cr t))

  unfoldable pub forth_blockstats : Blocks → Screen → Screen
  unfolding blockstats_loop type cr capacity
  forth_blockstats b t =
      blockstats_loop (pos_part (capacity b)) (pos 0) b (type (units "checking blocks:") (cr t))

  bufstats_loop : ℕ → ℕ → Blocks → Screen → Screen
  unfolding type cr
  bufstats_loop zero i b t = t
  bufstats_loop (suc n) i b t =
      let t1 = type (units "   buf #" ++ number_text (pos i) ++ units ":") (cr t) in
      let t2 =
        if ltb_ℤ (b.bufblk i) (pos 0)
        then type (units " empty") t1
        else type (units " blk " ++ number_text (b.bufblk i)) t1 in
      bufstats_loop n (i + 1) b (if b.bufdirty i then type (units " dirty") t2 else t2)

  unfoldable pub forth_bufstats : Blocks → Screen → Screen
  unfolding bufstats_loop forth_blockstats type cr
  forth_bufstats b t =
      forth_blockstats b (bufstats_loop maxbufs 0 b (type (units "checking buffers:") (cr t)))

  -- A line for each chunk, from number `i` on.
  used_loop : List ℤ → ℕ → Vm → Screen → Screen
  unfolding type cr
  used_loop [] i v t = t
  used_loop (a ∷ rest) i v t =
      let line =
        number_text (pos i)
        ++ units "/"
        ++ number_text (v.m (a -ℤ pos 2))
        ++ units ": "
        ++ number_text a
        ++ units " "
        ++ number_text (v.m (a -ℤ pos 1)) in
      used_loop rest (i + 1) v (type line (cr t))

  freed_loop : List ℤ → ℕ → Vm → Screen → Screen
  unfolding type cr
  freed_loop [] i v t = t
  freed_loop (a ∷ rest) i v t =
      let line =
        number_text (pos i)
        ++ units ": "
        ++ number_text a
        ++ units " "
        ++ number_text (v.m (a -ℤ pos 1)) in
      freed_loop rest (i + 1) v (type line (cr t))

  -- The lists have as many chunks as their counts say.
  unfoldable pub forth_dotallocated : Heap → Screen → Screen
  unfolding used_loop freed_loop type cr
  forth_dotallocated h t =
      let used = used_loop (take h.nusedchunks h.usedchunk) 0 h.vm (type (units "allocated:") t) in
      freed_loop (take h.nfreechunks h.freechunk) 0 h.vm (type (units "freed:") (cr used))
