-- ===== src/Domain/Base36.antt =====
-- crates/domain/src/base36.rs
use duck_voyage.Prelude.{
  ℕ, ◌+◌, ◌-◌, Bool, ◌&&◌, Option, none, some, ltb, leb, if◌then◌else◌, map_option,
}

abbrev pub radix : ℕ
radix = 36

abbrev is_digit : ℕ → Bool
is_digit c = leb b'0' c && leb c b'9'

abbrev is_upper : ℕ → Bool
is_upper c = leb b'A' c && leb c b'Z'

abbrev is_lower : ℕ → Bool
is_lower c = leb b'a' c && leb c b'z'

-- `char::to_ascii_uppercase`
unfoldable pub to_ascii_uppercase : ℕ → ℕ
to_ascii_uppercase c = if is_lower c then c - 32 else c

-- `char::from_digit` at radix 36: lowercase letters, nothing from 36 on.
from_digit : ℕ → Option ℕ
from_digit d = if ltb d 10 then some (d + b'0') else if ltb d 36 then some (d - 10 + b'a') else none

-- `Base36::digit_of`
unfoldable pub digit_of : ℕ → Option ℕ
digit_of c =
    if is_digit c
    then some (c - b'0')
    else if is_upper c
    then some (c - b'A' + 10)
    else if is_lower c
    then some (c - b'a' + 10)
    else none

-- `Base36::char_of`; `none` is its panic on a value that is no digit.
unfoldable pub char_of : ℕ → Option ℕ
unfolding from_digit to_ascii_uppercase
char_of d = map_option to_ascii_uppercase (from_digit d)
