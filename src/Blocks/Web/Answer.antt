-- ===== src/Blocks/Web/Answer.antt =====
-- Requests to the web server, their answers and the watchdog.
use post.Prelude.{
  ℤ, pos, negsuc, ◌+◌, ◌-◌, ◌<◌, ◌+ℤ◌, Bool, true, false, ◌==ℤ◌, Store, ℕ, ◌==◌, if◌then◌else◌,
  some, List, [], ◌∷◌, ◌++◌, Bool-cases, inl, inr, ◌≡◌, refl, ap, ◌∙◌, sym,
}
use mathlib.Core.Path.{subst}
use post.Vm.{Vm, pop}
use post.Text.{Text}
use post.Throw.{throwerror, exception}
use post.Terminal.{at}
use post.Blocks.{Blocks, Browser, loadblockfromweb, readfilefromweb, web_name}
use post.Blocks.Web.Layout.{Apart, formatted}
use post.Blocks.Web.Unpacked.{unpack_contents-cells}
use post.Blocks.Web.{unpack_contents, unpackfiletobuffer, loading_complete_event, blockreadtimeout}

-- One answer is due, for the file `name`, to the buffer at `a`, and the memory is `m`.
pub record Pending (name : Text) (a : ℤ) (m : Store) (b : Blocks) : Type 0 where
  pub asked : b.requesting_load ≡ 1
  pub frame : b.location ≡ name
  pub queued : b.bufferforrequest ≡ a ∷ []
  pub memory : b.vm.m ≡ m

-- Throwing leaves the memory alone.
throwerror-m : (x : ℤ) (v : Vm) → (throwerror x v).m ≡ v.m
unfolding throwerror exception pop
throwerror-m x v = elim (Bool-cases (v.catchframe ==ℤ pos 0)) [
  | inl e ↦ rw e refl
  | inr e ↦ rw e refl
]

module _ (browser : Browser) where
  -- Requests for blocks, each with the address that it is to go to.
  abbrev pub requests : List (ℤ × ℤ) → Blocks → Blocks
  requests [] b = b
  requests (r ∷ rs) b = requests rs (loadblockfromweb browser r.0 r.1 b).1

  asked_once :
      (blknum destaddr : ℤ) (b : Blocks)
      → b.requesting_load ≡ 1
      → (loadblockfromweb browser blknum destaddr b).1
        ≡ record b { vm = throwerror (negsuc 36) b.vm }
  unfolding loadblockfromweb
  asked_once blknum destaddr b e =
      ap
        (λ (n : ℕ).
          if n == 0
          then readfilefromweb (web_name browser blknum) destaddr b
          else record b { vm = throwerror (negsuc 36) b.vm })
        e

  idle_asks :
      (blknum destaddr : ℤ) (b : Blocks)
      → b.requesting_load ≡ 0
      → (loadblockfromweb browser blknum destaddr b).1
        ≡ readfilefromweb (web_name browser blknum) destaddr b
  unfolding loadblockfromweb
  idle_asks blknum destaddr b e =
      ap
        (λ (n : ℕ).
          if n == 0
          then readfilefromweb (web_name browser blknum) destaddr b
          else record b { vm = throwerror (negsuc 36) b.vm })
        e

  refused-Pending :
      (blknum destaddr : ℤ) (name : Text) (a : ℤ) (m : Store) (b : Blocks)
      → Pending name a m b
      → Pending name a m (loadblockfromweb browser blknum destaddr b).1
  refused-Pending blknum destaddr name a m b p =
      subst (Pending name a m) (sym (asked_once blknum destaddr b p.asked)) (record {
        asked = p.asked;
        frame = p.frame;
        queued = p.queued;
        memory = throwerror-m _ b.vm ∙ p.memory;
      })

  requests-Pending :
      (rs : List (ℤ × ℤ)) (name : Text) (a : ℤ) (m : Store) (b : Blocks)
      → Pending name a m b
      → Pending name a m (requests rs b)
  requests-Pending [] name a m b p = p
  requests-Pending (r ∷ rs) name a m b p =
      requests-Pending rs name a m (loadblockfromweb browser r.0 r.1 b).1
        (refused-Pending r.0 r.1 name a m b p)

  first-Pending :
      (blknum a : ℤ) (b : Blocks)
      → b.requesting_load ≡ 0
      → b.bufferforrequest ≡ []
      → Pending (web_name browser blknum) a b.vm.m (loadblockfromweb browser blknum a b).1
  unfolding readfilefromweb
  first-Pending blknum a b e f =
      subst (Pending (web_name browser blknum) a b.vm.m) (sym (idle_asks blknum a b e)) (record {
        asked = ap (λ n. n + 1) e;
        frame = refl;
        queued = ap (λ xs. xs ++ a ∷ []) f;
        memory = refl;
      })

-- What an answer leaves behind before the machine goes on, where it is `woken` by it.
abbrev pub settled : Bool → Text → ℤ → List ℤ → Blocks → Blocks
settled woken text a q b = record b {
  bufferforrequest = q;
  requesting_load = 0;
  vm = record (b.vm) {
    m = unpack_contents text a b.vm.m;
    suspended = if woken then pos 0 else b.vm.suspended;
  };
}

unpackfiletobuffer_lem :
    (a : ℤ) (q : List ℤ) (c : ℕ) (cs : Text) (b : Blocks)
    → b.bufferforrequest ≡ a ∷ q
    → unpackfiletobuffer (some (c ∷ cs)) b ≡ record b {
      bufferforrequest = q;
      vm = record (b.vm) { m = unpack_contents (c ∷ cs) a b.vm.m };
    }
unfolding unpackfiletobuffer
unpackfiletobuffer_lem a q c cs b f = rw f refl

abbrev counted : Blocks → Blocks
counted b = record b { requesting_load = b.requesting_load - 1 }

module _ (virtualmachine : ℤ → Blocks → Blocks) where
  -- An answer goes to the first address of the queue, and is counted; the machine goes on if it waits.
  answered :
      (a : ℤ) (q : List ℤ) (c : ℕ) (cs : Text) (b : Blocks)
      → b.requesting_load ≡ 1
      → b.bufferforrequest ≡ a ∷ q
      → loading_complete_event virtualmachine (some (c ∷ cs)) b ≡ (
          if b.vm.suspended ==ℤ b.waitingforblock
          then virtualmachine b.vm.ip (settled true (c ∷ cs) a q b)
          else settled false (c ∷ cs) a q b)
  unfolding loading_complete_event
  answered a q c cs b e f = elim (Bool-cases (b.vm.suspended ==ℤ b.waitingforblock)) [
    | inl s ↦
        rw (s, e)
          (ap (λ x. let y = counted x in virtualmachine y.vm.ip y)
            (unpackfiletobuffer_lem a q c cs
              (record b { requesting_load = 1; vm = record (b.vm) { suspended = pos 0 } }) f))
    | inr s ↦
        rw (s, e)
          (ap counted (unpackfiletobuffer_lem a q c cs (record b { requesting_load = 1 }) f))
  ]

  as_woken :
      (woken : Bool) (text : Text) (a : ℤ) (q : List ℤ) (b : Blocks)
      → (if woken
          then virtualmachine b.vm.ip (settled true text a q b)
          else settled false text a q b)
        ≡ (if woken
            then virtualmachine b.vm.ip (settled woken text a q b)
            else settled woken text a q b)
  as_woken true text a q b = refl
  as_woken false text a q b = refl

  -- Where no answer is due and the watchdog does not bite, the answer to a request for a block goes to the
  -- buffer that the block was asked for, whatever requests come before it: these are refused, and the
  -- browser is asked for no other file than that of the block. The
  -- buffer's cells then hold the text of the file in lines of 64 characters, no other cell has
  -- changed, no answer is due any more, and the machine goes on if the request still suspends it.
  pub answer-lands :
      (browser : Browser) (blknum a : ℤ) (rs : List (ℤ × ℤ)) (c : ℕ) (cs : Text) (b : Blocks)
      → b.requesting_load ≡ 0
      → b.bufferforrequest ≡ []
      → let asked = requests browser rs (loadblockfromweb browser blknum a b).1 in
        let waits = asked.vm.suspended ==ℤ asked.waitingforblock in
        let after = settled waits (c ∷ cs) a [] asked in
        (loading_complete_event virtualmachine (some (c ∷ cs)) asked
          ≡ (if waits then virtualmachine asked.vm.ip after else after))
        × (asked.location ≡ web_name browser blknum)
        × (after.requesting_load ≡ 0)
        × (after.bufferforrequest ≡ [])
        × ((k : ℕ) → k < 1024 → after.vm.m (a +ℤ pos k) ≡ pos (at 32 (formatted (c ∷ cs) 0) k))
        × ((j : ℤ) → Apart a 0 1024 j → after.vm.m j ≡ b.vm.m j)
  answer-lands browser blknum a rs c cs b e f =
      let asked = requests browser rs (loadblockfromweb browser blknum a b).1 in
      let p =
        requests-Pending browser rs (web_name browser blknum) a b.vm.m _
          (first-Pending browser blknum a b e f) in
      let (inside, outside) = unpack_contents-cells (c ∷ cs) a asked.vm.m in
      (
        answered a [] c cs asked p.asked p.queued
            ∙ as_woken (asked.vm.suspended ==ℤ asked.waitingforblock) (c ∷ cs) a [] asked,
        p.frame,
        refl,
        refl,
        inside,
        λ j o. outside j o ∙ ap (λ (m : Store). m j) p.memory,
      )

  -- The watchdog forgets the request, and not the address that waits for its answer: after it bites, the
  -- answer to the next request, for a block at `a'`, is written to the buffer at `a` of the request
  -- before, and `a'` stays in the queue.
  pub answer-astray :
      (browser : Browser) (blknum blknum' a a' : ℤ) (c : ℕ) (cs : Text) (b : Blocks)
      → b.requesting_load ≡ 0
      → b.bufferforrequest ≡ []
      → let asked = (loadblockfromweb browser blknum a b).1 in
        let again = (loadblockfromweb browser blknum' a' (blockreadtimeout asked)).1 in
        let waits = again.vm.suspended ==ℤ again.waitingforblock in
        let after = settled waits (c ∷ cs) a (a' ∷ []) again in
        (loading_complete_event virtualmachine (some (c ∷ cs)) again
          ≡ (if waits then virtualmachine again.vm.ip after else after))
        × ((k : ℕ) → k < 1024 → after.vm.m (a +ℤ pos k) ≡ pos (at 32 (formatted (c ∷ cs) 0) k))
        × ((j : ℤ) → Apart a 0 1024 j → after.vm.m j ≡ again.vm.m j)
  unfolding blockreadtimeout readfilefromweb
  answer-astray browser blknum blknum' a a' c cs b e f =
      let asked = (loadblockfromweb browser blknum a b).1 in
      let late = blockreadtimeout asked in
      let again = (loadblockfromweb browser blknum' a' late).1 in
      let p = first-Pending browser blknum a b e f in
      let s = idle_asks browser blknum' a' late refl in
      let queue = ap (λ (u : Blocks). u.bufferforrequest) s ∙ ap (λ xs. xs ++ a' ∷ []) p.queued in
      let (inside, outside) = unpack_contents-cells (c ∷ cs) a again.vm.m in
      (
        answered a (a' ∷ []) c cs again (ap (λ (u : Blocks). u.requesting_load) s) queue
            ∙ as_woken (again.vm.suspended ==ℤ again.waitingforblock) (c ∷ cs) a (a' ∷ []) again,
        inside,
        outside,
      )
