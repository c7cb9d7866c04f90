-- ===== src/Text/Tests.antt =====
-- Runs on texts.
use post.Prelude.{some, none, [], ◌∷◌, ◌++◌, take, ◌≡◌}
use post.Text.{Text, encoded, decoded, setcookie, readcookie}
use post.Text.Cookie.{decoded-encoded, Rest, readcookie-setcookie}

-- `a; %`
abbrev sample : Text
sample = b'a' ∷ b';' ∷ b' ' ∷ b'%' ∷ []

decoded-encoded_example : decoded (encoded sample) ≡ sample
decoded-encoded_example = decoded-encoded sample

abbrev domain_label : Text
domain_label = b';' ∷ b'd' ∷ []

readcookie-setcookie_example :
    readcookie
      (setcookie domain_label domain_label domain_label domain_label
          (b'n' ∷ [])
          sample
          none
          none
          none
          none
        ++ b';' ∷ b'x' ∷ [])
      (b'n' ∷ [])
    ≡ some (take 2048 sample)
readcookie-setcookie_example =
    readcookie-setcookie domain_label domain_label domain_label domain_label (b'n' ∷ []) sample
      (b';' ∷ b'x' ∷ []) (Rest.more_cookies (b'x' ∷ []))
