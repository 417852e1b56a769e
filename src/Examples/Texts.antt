-- ===== src/Examples/Texts.antt =====
-- The theorems on texts.
use duck_voyage.Prelude.{◌≡◌, ◌↔◌, ◌++◌, refl, true, some, map, arith}
use duck_voyage.Prelude.Text.{Text, codes}
use duck_voyage.Domain.Base36.{to_ascii_uppercase}
use duck_voyage.Domain.Profanity.{blocked, matches}
use duck_voyage.Domain.Profanity.Laws.{Within, Listed, matches_iff}
use duck_voyage.Web.Auth.{urlencoded}
use duck_voyage.Web.Auth.ReturnTo.{idle, decoded, urlencoded_decoded}

matches_iff_example :
    (matches (codes "abcass9") ≡ true)
    ↔ ((w : Text) × Listed w blocked × Within w (map to_ascii_uppercase (codes "abcass9")))
matches_iff_example = matches_iff (codes "abcass9")

urlencoded_decoded_example :
    decoded true idle (urlencoded (codes "/d/A+B&C?x=%20#e") ++ codes "&x=1")
    ≡ some (codes "/d/A+B&C?x=%20#e")
urlencoded_decoded_example =
    urlencoded_decoded true (codes "/d/A+B&C?x=%20#e") (codes "&x=1") (omega arith) refl
