-- ===== src/Blocks.antt =====
-- The block buffers and their drives, of reference/jsforth.js.
mod Mapping
mod Block
mod Drives
mod CookieDrive
pub mod Web
mod Tests
use post.Prelude.{
  ℤ, pos, negsuc, ◌+ℤ◌, ◌-ℤ◌, ◌*ℤ◌, ◌==ℤ◌, ltb_ℤ, leb_ℤ, Store, update, ℕ, zero, suc, ◌+◌, ◌-◌, ◌*◌,
  ◌%◌, Bool, true, false, ◌&&◌, ◌||◌, ◌==◌, ltb, if◌then◌else◌, Option, none, some, List, [], ◌∷◌,
  ◌++◌, take, length,
}
use post.Vm.{Vm, inc, dec}
use post.Text.Literal.{units}
use post.Text.{Text, pack, unpackstring, readcookie, setcookie}
use post.Throw.{throwerror}
use post.Dictionary.{put_at}
use post.Memory.{fill_loop}

abbrev pub maxbufs : ℕ
maxbufs = 2

abbrev pub maxcookies : ℤ
maxcookies = pos 4

abbrev pub storedremotecapacity : ℤ
storedremotecapacity = pos 20

-- The machine with the buffers and the drives. `bufferforrequest` has the addresses that web blocks are
-- to go to, `location` is the file that the frame `dataframe` was last told to load, `document` is what
-- `document.cookie` reads as.
pub record Blocks : Type 0 where
  pub vm : Vm
  pub nextbuf : ℕ
  pub hotbuffer : ℕ
  pub buf : ℕ → ℤ
  pub bufblk : ℕ → ℤ
  pub bufdirty : ℕ → Bool
  pub blockstat : ℤ → ℤ
  pub ramblock : ℤ → ℕ → Text
  pub ramblocks : ℤ
  pub document : Text
  pub requesting_load : ℕ
  pub bufferforrequest : List ℤ
  pub location : Text
  pub waitingforblock : ℤ

unfoldable pub localcapacity : Blocks → ℤ
localcapacity b = b.ramblocks +ℤ maxcookies

unfoldable pub capacity : Blocks → ℤ
unfolding localcapacity
capacity b = localcapacity b +ℤ storedremotecapacity

-- The lines that are left of a block's 16.
save_lines : ℕ → ℕ → (addr blocknum : ℤ) → Store → (ℤ → ℕ → Text) → ℤ → ℕ → Text
save_lines zero i addr blocknum m ram = ram
save_lines (suc n) i addr blocknum m ram =
    save_lines n (i + 1) (addr +ℤ pos 64) blocknum m
      (λ k l. if k ==ℤ blocknum && l == i then pack m addr 64 else ram k l)

unfoldable pub savebuftoram : (addr blocknum : ℤ) → Blocks → Blocks
unfolding save_lines
savebuftoram addr blocknum b = record b {
  ramblock = save_lines 16 0 addr blocknum b.vm.m b.ramblock;
}

abbrev pub spaces : ℕ → Text
spaces zero = []
spaces (suc n) = 32 ∷ spaces n

-- Each line is written over 64 blanks. The cell above the stack that takes the texts on their way is left
-- out.
load_lines : ℕ → ℕ → (ℕ → Text) → ℤ → Store → Store
load_lines zero i lines temp m = m
load_lines (suc n) i lines temp m =
    load_lines n (i + 1) lines (temp +ℤ pos 64)
      (unpackstring (take 64 (lines i)) temp (unpackstring (spaces 64) temp m))

unfoldable pub loadblockfromram : (n a : ℤ) → Blocks → ℤ × Blocks
unfolding load_lines
loadblockfromram n a b = (
  a,
  record b {
    vm = record (b.vm) {
      m = load_lines 16 0 (b.ramblock n) a b.vm.m;
      w = pos (length (take 64 (b.ramblock n 15)));
    };
  },
)

-- What is not of the script: the digits of a number as JavaScript writes them, and what the browser makes
-- of an assignment to `document.cookie`. `cookie_labels` are the texts `; domain=` and so on.
pub record Browser : Type 0 where
  pub number_text : ℤ → Text
  pub assign_cookie : (document cookie : Text) → Text
  pub domain_label : Text
  pub expires_label : Text
  pub path_label : Text
  pub secure_label : Text
  pub cookieexpirationdate : Text

-- A request for a file suspends the machine.
unfoldable pub readfilefromweb : (filename : Text) (destaddr : ℤ) → Blocks → Blocks
readfilefromweb filename destaddr b = record b {
  location = filename;
  bufferforrequest = b.bufferforrequest ++ destaddr ∷ [];
  requesting_load = b.requesting_load + 1;
  vm = record (b.vm) { suspended = b.waitingforblock };
}

module _ (browser : Browser) where
  -- `cookiebasename + blknum + "_" + i`, for the one sector of a block.
  pub cookiename : ℤ → Text
  cookiename blknum =
      b'j'
      ∷ b's'
      ∷ b'f'
      ∷ b'b'
      ∷ b'l'
      ∷ b'k'
      ∷ (browser.number_text blknum ++ b'_' ∷ browser.number_text (pos 0))

  unfoldable pub savebuftocookie : (addr blknum : ℤ) → Blocks → Blocks
  unfolding cookiename
  savebuftocookie addr blknum b = record b {
    document = browser.assign_cookie b.document (
        setcookie browser.domain_label browser.expires_label browser.path_label browser.secure_label
          (cookiename blknum) (pack b.vm.m addr 1024) none (some browser.cookieexpirationdate) none
          none);
  }

  unfoldable pub loadblockfromcookie : (blknum destaddr : ℤ) → Blocks → ℤ × Blocks
  unfolding cookiename fill_loop
  loadblockfromcookie blknum destaddr b =
      let blank = fill_loop 1024 destaddr (pos 32) b.vm.m in
      let m : Store = elim (readcookie b.document (cookiename blknum)) [
        | none ↦ blank
        | some [] ↦ blank
        | some (c ∷ cs) ↦ unpackstring (take 1024 (c ∷ cs)) destaddr b.vm.m
      ] in
      (destaddr, record b { vm = record (b.vm) { m = m } })

  -- `'webdrive/blk' + blknum`
  abbrev pub web_name : ℤ → Text
  web_name blknum = units "webdrive/blk" ++ browser.number_text blknum

  -- Asks the browser for the block.
  unfoldable pub loadblockfromweb : (blknum destaddr : ℤ) → Blocks → ℤ × Blocks
  unfolding throwerror readfilefromweb
  loadblockfromweb blknum destaddr b = (
    destaddr,
    (if b.requesting_load == 0
        then readfilefromweb (web_name blknum) destaddr b
        else record b { vm = throwerror (negsuc 36) b.vm }),
  )

  unfoldable pub savebuftoweb : (addr blknum : ℤ) → Blocks → Blocks
  unfolding throwerror
  savebuftoweb addr blknum b = record b { vm = throwerror (negsuc 70) b.vm }

  unfoldable pub savebuf : ℕ → Blocks → Blocks
  unfolding savebuftocookie savebuftoram savebuftoweb localcapacity
  savebuf buffer b =
      let bufaddr = b.buf buffer in
      let blknum = b.bufblk buffer in
      let temp = localcapacity b in
      let saved =
        if ltb_ℤ blknum maxcookies
        then savebuftocookie bufaddr blknum b
        else if ltb_ℤ blknum temp
        then savebuftoram bufaddr (blknum -ℤ maxcookies) b
        else savebuftoweb bufaddr (blknum -ℤ temp) b in
      record saved { bufdirty = put_at saved.bufdirty buffer false }

  -- `buffer` is the buffer's address.
  unfoldable pub loadblock : (blknum buffer : ℤ) → Blocks → ℤ × Blocks
  unfolding loadblockfromcookie loadblockfromram loadblockfromweb localcapacity
  loadblock blknum buffer b =
      let temp = localcapacity b in
      if ltb_ℤ blknum maxcookies
      then loadblockfromcookie blknum buffer b
      else if ltb_ℤ blknum temp
      then loadblockfromram (blknum -ℤ maxcookies) buffer b
      else loadblockfromweb (blknum -ℤ temp) buffer b

  -- Frees the buffer `n` from the block that it holds, which is saved if it is dirty.
  unfoldable pub evict : ℕ → Blocks → Blocks
  unfolding savebuf
  evict n b =
      let saved = if b.bufdirty n then savebuf n b else b in
      if leb_ℤ (pos 0) (b.bufblk n)
      then record saved { blockstat = update saved.blockstat (saved.bufblk n) (negsuc 0) }
      else b

  -- The next buffer is given to a block that is in none.
  unfoldable pub new_buffer : Bool → Blocks → Blocks
  unfolding evict loadblock
  new_buffer flag b =
      let n = (b.nextbuf + 1) % maxbufs in
      let free = evict n (record b { nextbuf = n }) in
      let temp = free.vm.tos in
      let (a, filled) = if flag then loadblock temp (free.buf n) free else (free.buf n, free) in
      record filled {
        vm = record (filled.vm) { tos = a };
        hotbuffer = n;
        bufblk = put_at filled.bufblk n temp;
        blockstat = update filled.blockstat temp (pos n);
      }

  -- What the function does from the test of `blockstat` on: it goes on after a throw.
  unfoldable pub map_block : Bool → Blocks → Blocks
  unfolding new_buffer
  map_block flag b = elim (b.blockstat b.vm.tos) [
    | pos hot ↦ record b { hotbuffer = hot; vm = record (b.vm) { tos = b.buf hot } }
    | negsuc _ ↦ new_buffer flag b
  ]

  unfoldable pub forth_blockorbuffer : Bool → Blocks → Blocks
  unfolding map_block throwerror capacity
  forth_blockorbuffer flag b =
      let t = b.vm.tos in
      let outside = leb_ℤ (capacity b) t || ltb_ℤ t (pos 0) in
      map_block flag (if outside then record b { vm = throwerror (negsuc 34) b.vm } else b)

  pub forth_buffer : Blocks → Blocks
  unfolding forth_blockorbuffer
  forth_buffer b = forth_blockorbuffer false b

  pub forth_block : Blocks → Blocks
  unfolding forth_blockorbuffer
  forth_block b = forth_blockorbuffer true b

  -- The loop of `save-buffers`, for the buffers from `i` on.
  save_loop : ℕ → ℕ → Blocks → Blocks
  unfolding savebuf
  save_loop zero i b = b
  save_loop (suc n) i b =
      let b1 = if b.bufdirty i then savebuf i b else b in
      save_loop n (i + 1) (record b1 { blockstat = update b1.blockstat (b1.bufblk i) (negsuc 0) })

  unfoldable pub forth_savebuffers : Blocks → Blocks
  unfolding save_loop
  forth_savebuffers b = save_loop maxbufs 0 b

pub forth_update : Blocks → Blocks
forth_update b = record b { bufdirty = put_at b.bufdirty b.hotbuffer true }

empty_loop : ℕ → ℕ → Blocks → Blocks
empty_loop zero i b = b
empty_loop (suc n) i b =
    let emptied = record b {
      blockstat = update b.blockstat (b.bufblk i) (negsuc 0);
      bufblk = put_at b.bufblk i (negsuc 0);
      bufdirty = put_at b.bufdirty i false;
    } in
    empty_loop n (i + 1) (if leb_ℤ (pos 0) (b.bufblk i) then emptied else b)

unfoldable pub forth_emptybuffers : Blocks → Blocks
unfolding empty_loop
forth_emptybuffers b = empty_loop maxbufs 0 b
