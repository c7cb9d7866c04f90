-- ===== src/Blocks/Tests.antt =====
-- Runs of the buffers, with a stand-in for the browser.
use post.Prelude.{
  pos, negsuc, ◌==ℤ◌, [], ◌∷◌, ◌++◌, ◌==◌, if◌then◌else◌, false, true, ◌≡◌, refl, arith,
}
use post.Fixture.{with_stack, addresses}
use post.Vm.{push}
use post.Text.{pack}
use post.Blocks.{
  Blocks, Browser, capacity, localcapacity, forth_blockorbuffer, cookiename, savebuftocookie,
  savebuf, loadblock,
}
use post.Blocks.Mapping.{IsMapped}
use post.Blocks.Block.{IsHot, block-IsMapped}
use post.Text.Cookie.{Rest}
use post.Blocks.CookieDrive.{listed, loadblock-savebuf_cookie}
use post.Blocks.Drives.{loadblock-savebuf}

abbrev browser : Browser
browser = record {
  number_text = λ n. 48 ∷ [];
  assign_cookie = λ document cookie. cookie;
  domain_label = [];
  expires_label = [];
  path_label = [];
  secure_label = [];
  cookieexpirationdate = [];
}

-- Buffer 0 holds block 5, buffer 1 is free, and block 6 is asked for.
abbrev buffers : Blocks
buffers = record {
  vm = with_stack addresses (pos 6 ∷ []);
  nextbuf = 0;
  hotbuffer = 0;
  buf = λ n. if n == 0 then pos 2000 else pos 4000;
  bufblk = λ n. if n == 0 then pos 5 else negsuc 0;
  bufdirty = λ n. if n == 0 then true else false;
  blockstat = λ k. if k ==ℤ pos 5 then pos 0 else negsuc 0;
  ramblock = λ k i. [];
  ramblocks = pos 30;
  document = [];
  requesting_load = 0;
  bufferforrequest = [];
  location = [];
  waitingforblock = pos 1;
}

buffers-IsMapped : IsMapped buffers
buffers-IsMapped = record {
  turn = omega arith;
  stored = λ i k lt e. ground arith;
  held = λ i k e. ground arith;
}

block-IsMapped_example :
    IsMapped (forth_blockorbuffer browser true buffers)
    × IsHot 6 (forth_blockorbuffer browser true buffers)
unfolding push capacity
block-IsMapped_example =
    block-IsMapped browser true 6 buffers buffers-IsMapped (λ e. absurd (ground arith)) refl
      (omega arith)

loadblock-savebuf_example :
    pack
      (loadblock browser
        (pos 5)
        (pos 4000)
        (record (savebuf browser 0 buffers) { vm = buffers.vm })).1.vm.m
      (pos 4000)
      1024
    ≡ pack addresses (pos 2000) 1024
unfolding push localcapacity
loadblock-savebuf_example = loadblock-savebuf browser 0 buffers buffers.vm (pos 4000) refl refl

abbrev cookie_buffers : Blocks
cookie_buffers = record buffers { bufblk = λ n. pos 2 }

-- A browser that keeps the cookie of block 2 and no other.
abbrev listing : Browser
listing = record browser {
  assign_cookie = λ document cookie. listed browser (pos 2) (pack addresses (pos 2000) 1024) ++ [];
}

loadblock-savebuf_cookie_example :
    pack
      (loadblock listing
        (pos 2)
        (pos 4000)
        (record (savebuf listing 0 cookie_buffers) { vm = buffers.vm })).1.vm.m
      (pos 4000)
      1024
    ≡ pack addresses (pos 2000) 1024
unfolding push savebuf savebuftocookie cookiename
loadblock-savebuf_cookie_example =
    loadblock-savebuf_cookie listing 0 cookie_buffers buffers.vm (pos 4000) [] refl Rest.none_left
      refl
