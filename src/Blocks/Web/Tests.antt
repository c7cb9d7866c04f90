-- ===== src/Blocks/Web/Tests.antt =====
-- Answers of the web server, with a stand-in for the browser.
use post.Prelude.{
  ℤ, pos, negsuc, ◌+ℤ◌, ◌==ℤ◌, ℕ, ◌<◌, some, [], ◌∷◌, ◌==◌, if◌then◌else◌, false, ◌≡◌, refl,
}
use post.Fixture.{blank, addresses}
use post.Text.Literal.{units}
use post.Terminal.{at}
use post.Blocks.{Blocks, Browser, loadblockfromweb}
use post.Blocks.Web.{loading_complete_event, blockreadtimeout}
use post.Blocks.Web.Layout.{Apart, formatted}
use post.Blocks.Web.Answer.{requests, settled, answer-lands, answer-astray}

abbrev browser : Browser
browser = record {
  number_text = λ n. 48 ∷ [];
  assign_cookie = λ document cookie. cookie;
  domain_label = [];
  expires_label = [];
  path_label = [];
  secure_label = [];
  cookieexpirationdate = [];
}

-- No answer is due.
abbrev idle : Blocks
idle = record {
  vm = blank addresses;
  nextbuf = 0;
  hotbuffer = 0;
  buf = λ n. if n == 0 then pos 2000 else pos 4000;
  bufblk = λ n. negsuc 0;
  bufdirty = λ n. false;
  blockstat = λ k. negsuc 0;
  ramblock = λ k i. [];
  ramblocks = pos 30;
  document = [];
  requesting_load = 0;
  bufferforrequest = [];
  location = [];
  waitingforblock = pos 1;
}

abbrev no_machine : ℤ → Blocks → Blocks
no_machine ip b = b

answer-lands_example :
    let asked =
      requests browser
        ((pos 4, pos 4000) ∷ [])
        (loadblockfromweb browser (pos 3) (pos 2000) idle).1 in
    let waits = asked.vm.suspended ==ℤ asked.waitingforblock in
    let after = settled waits (65 ∷ 10 ∷ 66 ∷ []) (pos 2000) [] asked in
    (loading_complete_event no_machine (some (65 ∷ 10 ∷ 66 ∷ [])) asked
      ≡ (if waits then no_machine asked.vm.ip after else after))
    × (asked.location ≡ units "webdrive/blk0")
    × (after.requesting_load ≡ 0)
    × (after.bufferforrequest ≡ [])
    × ((k : ℕ)
        → k < 1024
        → after.vm.m (pos 2000 +ℤ pos k) ≡ pos (at 32 (formatted (65 ∷ 10 ∷ 66 ∷ []) 0) k))
    × ((j : ℤ) → Apart (pos 2000) 0 1024 j → after.vm.m j ≡ addresses j)
answer-lands_example =
    answer-lands no_machine browser (pos 3) (pos 2000) ((pos 4, pos 4000) ∷ []) 65 (10 ∷ 66 ∷ [])
      idle refl refl

answer-astray_example :
    let asked = (loadblockfromweb browser (pos 3) (pos 2000) idle).1 in
    let again = (loadblockfromweb browser (pos 5) (pos 4000) (blockreadtimeout asked)).1 in
    let waits = again.vm.suspended ==ℤ again.waitingforblock in
    let after = settled waits (65 ∷ []) (pos 2000) (pos 4000 ∷ []) again in
    (loading_complete_event no_machine (some (65 ∷ [])) again
      ≡ (if waits then no_machine again.vm.ip after else after))
    × ((k : ℕ) → k < 1024 → after.vm.m (pos 2000 +ℤ pos k) ≡ pos (at 32 (formatted (65 ∷ []) 0) k))
    × ((j : ℤ) → Apart (pos 2000) 0 1024 j → after.vm.m j ≡ again.vm.m j)
answer-astray_example =
    answer-astray no_machine browser (pos 3) (pos 5) (pos 2000) (pos 4000) 65 [] idle refl refl

-- A line feed in column 64 is followed by a blank line.
full_line : at 32 (formatted (65 ∷ 10 ∷ 66 ∷ []) 63) 65 ≡ 66
unfolding formatted
full_line = refl
