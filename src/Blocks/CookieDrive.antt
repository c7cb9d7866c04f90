-- ===== src/Blocks/CookieDrive.antt =====
-- What is saved to the drive in cookies and loaded again.
use post.Prelude.{
  ℤ, ltb_ℤ, true, ℕ, zero, suc, ◌≤◌, none, some, [], ◌∷◌, ◌++◌, length, take, ◌≡◌, refl, sym, ap,
  ◌∙◌, arith,
}
use post.Vm.{Vm}
use post.Text.{Text, pack, unpackstring, readcookie, setcookie}
use post.Text.Pack.{AreUnits, pack-unpackstring}
use post.Text.Cookie.{Rest, readcookie-setcookie}
use post.Blocks.{Blocks, Browser, maxcookies, cookiename, savebuf, loadblock, loadblockfromcookie}
use post.Blocks.Drives.{length-pack, pack-AreUnits}

take_long : (t : Text) (n : ℕ) → length t ≤ n → take n t ≡ t
take_long [] zero h = refl
take_long [] (suc n) h = refl
take_long (c ∷ cs) zero h = absurd (omega (arith, h))
take_long (c ∷ cs) (suc n) h = ap (λ t. c ∷ t) (take_long cs n (omega (arith, h)))

module _ (browser : Browser) where
  -- `name=value`, as the browser lists a cookie.
  abbrev pub listed : ℤ → Text → Text
  listed k value =
      setcookie browser.domain_label browser.expires_label browser.path_label browser.secure_label
        (cookiename browser k) value none none none none

  -- A cookie with a text is unpacked.
  loaded_text :
      (k a : ℤ) (b : Blocks) (c : ℕ) (cs : Text)
      → readcookie b.document (cookiename browser k) ≡ some (c ∷ cs)
      → (loadblockfromcookie browser k a b).1.vm.m ≡ unpackstring (take 1024 (c ∷ cs)) a b.vm.m
  unfolding loadblockfromcookie
  loaded_text k a b c cs e = rw (loadblockfromcookie, e) refl

  loaded_block :
      (t : Text) (k a : ℤ) (b : Blocks)
      → length t ≡ 1024
      → AreUnits t
      → readcookie b.document (cookiename browser k) ≡ some t
      → pack (loadblockfromcookie browser k a b).1.vm.m a 1024 ≡ t
  loaded_block [] k a b l units e = absurd (omega (arith, l))
  loaded_block (c ∷ cs) k a b l units e =
      let t = c ∷ cs in
      let whole : take 1024 t ≡ t = take_long t 1024 (omega (arith, l)) in
      ap (λ m. pack m a 1024) (loaded_text k a b c cs e)
      ∙ ap (λ z. pack (unpackstring z a b.vm.m) a 1024) whole
      ∙ ap (pack (unpackstring t a b.vm.m) a) (sym l)
      ∙ pack-unpackstring t a b.vm.m units

  loaded_from_cookie :
      (k a : ℤ) (b : Blocks)
      → ltb_ℤ k maxcookies ≡ true
      → loadblock browser k a b ≡ loadblockfromcookie browser k a b
  unfolding loadblock
  loaded_from_cookie k a b cookie = rw (loadblock, cookie) refl

  -- A block that is saved to the drive in cookies and loaded from it later reads as it was saved, wherever
  -- its buffer is and whatever the machine did in between: a block below the number of cookies, if the
  -- browser then lists its cookie first, without the attributes that it was set with.
  pub loadblock-savebuf_cookie :
      (n : ℕ) (b : Blocks) (v : Vm) (a : ℤ) (rest : Text)
      → ltb_ℤ (b.bufblk n) maxcookies ≡ true
      → Rest rest
      → (savebuf browser n b).document ≡ listed (b.bufblk n) (pack b.vm.m (b.buf n) 1024) ++ rest
      → pack
          (loadblock browser (b.bufblk n) a (record (savebuf browser n b) { vm = v })).1.vm.m
          a
          1024
        ≡ pack b.vm.m (b.buf n) 1024
  loadblock-savebuf_cookie n b v a rest cookie r stored =
      let k = b.bufblk n in
      let text = pack b.vm.m (b.buf n) 1024 in
      let later = record (savebuf browser n b) { vm = v } in
      let size = length-pack 1024 b.vm.m (b.buf n) in
      let read : readcookie later.document (cookiename browser k) ≡ some text =
        ap (λ d. readcookie d (cookiename browser k)) stored
        ∙ readcookie-setcookie browser.domain_label browser.expires_label browser.path_label
            browser.secure_label (cookiename browser k) text rest r
        ∙ ap some (take_long text 2048 (omega (arith, size))) in
      ap (λ (p : ℤ × Blocks). pack p.1.vm.m a 1024) (loaded_from_cookie k a later cookie)
      ∙ loaded_block text k a later size (pack-AreUnits 1024 b.vm.m (b.buf n)) read
