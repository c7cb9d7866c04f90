-- ===== src/Throw/Frames.antt =====
-- A throw unwinds to the newest frame, however much has been pushed since.
use post.Prelude.{
  ℤ, pos, ◌==ℤ◌, Store, update, ℕ, suc, some, List, ◌∷◌, ◌≡◌, ◌≢◌, refl, ap, ◌∙◌, false,
  update_self, update_ne, suc_ne, suc_suc_ne, suc_suc_suc_ne, inc-dec, ==ℤ-ne,
}
use post.Vm.{Vm, rpush, inc, dec}
use post.Throw.{frame, throwerror, forth_throw, forth_throw0}
use post.Stack.View.{stack, stack_at, below, stack-cons}

-- `u` still has the frame that `catch` built at `v`: the frame is the newest, its cells are as they
-- were, and so are the cells of the data stack that lay beneath the execution token.
pub record KeepsFrame (v u : Vm) : Type 0 where
  pub newest : u.catchframe ≡ inc (inc (inc v.rp))
  pub link : u.r (inc (inc (inc v.rp))) ≡ v.catchframe
  pub depth : u.r (inc (inc v.rp)) ≡ v.sp
  pub return : u.r (inc v.rp) ≡ v.ip
  pub items : (n : ℕ) → v.sp ≡ pos n → below u.s n ≡ below v.s n

-- The frame that `catch` builds is the newest one, its cells hold the instruction pointer, the
-- depth of the data stack and the older frame, and the data stack is untouched.
pub frame-KeepsFrame : (v : Vm) → KeepsFrame v (frame v)
unfolding rpush
frame-KeepsFrame v = record {
  newest = refl;
  link = update_ne r3 s4 v.brthrow0 s3 (suc_ne s3) ∙ update_self r2 s3 v.catchframe;
  depth =
      update_ne r3 s4 v.brthrow0 s2 (suc_suc_ne s2)
      ∙ update_ne r2 s3 v.catchframe s2 (suc_ne s2)
      ∙ update_self r1 s2 v.sp;
  return =
      update_ne r3 s4 v.brthrow0 s1 (suc_suc_suc_ne s1)
      ∙ update_ne r2 s3 v.catchframe s1 (suc_suc_ne s1)
      ∙ update_ne r1 s2 v.sp s1 (suc_ne s1)
      ∙ update_self v.r s1 v.ip;
  items = λ n h. refl;
}
  where
    s1 : ℤ
    s1 = inc v.rp

    s2 : ℤ
    s2 = inc s1

    s3 : ℤ
    s3 = inc s2

    s4 : ℤ
    s4 = inc s3

    r1 : Store
    r1 = update v.r s1 v.ip

    r2 : Store
    r2 = update r1 s2 v.sp

    r3 : Store
    r3 = update r2 s3 v.catchframe

unwound : (x sp ip rp link : ℤ) → Vm → Vm
unwound x sp ip rp link u = record u { tos = x; catchframe = link; sp = sp; ip = ip; rp = rp }

throwerror-unwound :
    (u : Vm) (x c : ℤ)
    → u.catchframe ≡ c
    → c ≢ pos 0
    → throwerror x u ≡ unwound x (u.r (dec c)) (u.r (dec (dec c))) (dec (dec (dec c))) (u.r c) u
unfolding throwerror unwound
throwerror-unwound u x c e nonzero =
    let test : (u.catchframe ==ℤ pos 0) ≡ false =
      ap (λ i. i ==ℤ pos 0) e ∙ ==ℤ-ne c (pos 0) nonzero in
    rw (test, throwerror)
      (λ i.
        unwound x (u.r (dec (e i))) (u.r (dec (dec (e i)))) (dec (dec (dec (e i)))) (u.r (e i)) u)

-- Throwing a code other than 0 while that frame is the newest takes the machine back to where
-- `catch` was called: the instruction pointer, the return stack's depth and the next older frame are
-- those of the call, and the data stack holds the code above the items beneath the token.
pub throwerror-unwinds :
    (v u : Vm) (xt x : ℤ) (xs : List ℤ)
    → stack v ≡ some (xt ∷ xs)
    → KeepsFrame v u
    → inc (inc (inc v.rp)) ≢ pos 0
    → ((throwerror x u).ip ≡ v.ip)
      × ((throwerror x u).rp ≡ v.rp)
      × ((throwerror x u).catchframe ≡ v.catchframe)
      × (stack (throwerror x u) ≡ some (x ∷ xs))
throwerror-unwinds v u xt x xs h k nonzero =
    let c = inc (inc (inc v.rp)) in
    let step1 : dec c ≡ inc (inc v.rp) = inc-dec (inc (inc v.rp)) in
    let step2 : dec (dec c) ≡ inc v.rp = ap dec step1 ∙ inc-dec (inc v.rp) in
    let step3 : dec (dec (dec c)) ≡ v.rp = ap dec step2 ∙ inc-dec v.rp in
    let there = throwerror-unwound u x c k.newest nonzero in
    let (n, p, q, e) = stack-cons v xt xs h in
    let depth : u.r (dec c) ≡ pos (suc n) = ap u.r step1 ∙ k.depth ∙ p in
    let items : below u.s (suc n) ≡ xs = k.items (suc n) p ∙ e in
    unfold unwound in
    (
      ap (λ z. z.ip) there ∙ ap u.r step2 ∙ k.return,
      ap (λ z. z.rp) there ∙ step3,
      ap (λ z. z.catchframe) there ∙ k.link,
      ap stack there ∙ ap (stack_at x u.s) depth ∙ ap (λ ys. some (x ∷ ys)) items,
    )

-- Let `catch` have built its frame on a machine with a token above some items, and let that frame
-- be the newest, with its cells and those items kept, and not at index 0 of the return stack. Then
-- `throw` on a code other than 0 takes the machine back to where `catch` was called: the
-- instruction pointer, the return stack's depth and the next older frame are those of the call, and
-- the data stack holds the code above the items beneath the token.
pub throw-unwinds :
    (v u : Vm) (xt : ℤ) (xs : List ℤ)
    → stack v ≡ some (xt ∷ xs)
    → KeepsFrame v u
    → inc (inc (inc v.rp)) ≢ pos 0
    → u.tos ≢ pos 0
    → ((forth_throw u).ip ≡ v.ip)
      × ((forth_throw u).rp ≡ v.rp)
      × ((forth_throw u).catchframe ≡ v.catchframe)
      × (stack (forth_throw u) ≡ some (u.tos ∷ xs))
unfolding forth_throw
throw-unwinds v u xt xs h k nonzero code =
    rw (==ℤ-ne u.tos (pos 0) code, forth_throw) (throwerror-unwinds v u xt u.tos xs h k nonzero)

-- Where the caught word returns to `throw0` instead, with the return stack down at the frame that
-- `catch` built and kept, the instruction pointer, the return stack's depth and the next older
-- frame are those of the call of `catch`, and the data stack holds a 0 above the items beneath the
-- token: whatever the word left on the data stack is gone.
pub throw0-unwinds :
    (v u : Vm) (xt : ℤ) (xs : List ℤ)
    → stack v ≡ some (xt ∷ xs)
    → KeepsFrame v u
    → u.rp ≡ inc (inc (inc v.rp))
    → ((forth_throw0 u).ip ≡ v.ip)
      × ((forth_throw0 u).rp ≡ v.rp)
      × ((forth_throw0 u).catchframe ≡ v.catchframe)
      × (stack (forth_throw0 u) ≡ some (pos 0 ∷ xs))
unfolding forth_throw0
throw0-unwinds v u xt xs h k at_frame =
    let c = inc (inc (inc v.rp)) in
    let step1 : dec u.rp ≡ inc (inc v.rp) = ap dec at_frame ∙ inc-dec (inc (inc v.rp)) in
    let step2 : dec (dec u.rp) ≡ inc v.rp = ap dec step1 ∙ inc-dec (inc v.rp) in
    let step3 : dec (dec (dec u.rp)) ≡ v.rp = ap dec step2 ∙ inc-dec v.rp in
    let (n, p, q, e) = stack-cons v xt xs h in
    let depth : u.r (dec u.rp) ≡ pos (suc n) = ap u.r step1 ∙ k.depth ∙ p in
    let items : below u.s (suc n) ≡ xs = k.items (suc n) p ∙ e in
    (
      ap u.r step2 ∙ k.return,
      step3,
      ap u.r at_frame ∙ k.link,
      ap (stack_at (pos 0) u.s) depth ∙ ap (λ ys. some (pos 0 ∷ ys)) items,
    )
