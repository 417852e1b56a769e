-- ===== src/Domain/Profanity.antt =====
-- crates/domain/src/profanity.rs: the blocklist for generated identifiers.
pub mod Laws
use duck_voyage.Prelude.{ℕ, Bool, true, false, ◌||◌, List, [], ◌∷◌, ◌++◌, map}
use duck_voyage.Prelude.Text.{Text, codes, contains}
use duck_voyage.Domain.Base36.{to_ascii_uppercase}

-- `Profanity::BLOCKED`
pub blocked : List Text
blocked =
    codes "ANAL"
    ∷ codes "ANUS"
    ∷ codes "ARSE"
    ∷ codes "ASS"
    ∷ codes "A55"
    ∷ codes "BOOB"
    ∷ codes "CNT"
    ∷ codes "COC"
    ∷ codes "COK"
    ∷ codes "CRAP"
    ∷ codes "CUM"
    ∷ codes "CUNT"
    ∷ codes "DAMN"
    ∷ codes "DCK"
    ∷ codes "DICK"
    ∷ codes "DIK"
    ∷ codes "DYKE"
    ∷ codes "FAG"
    ∷ codes "FCK"
    ∷ codes "FUC"
    ∷ codes "FUK"
    ∷ codes "FUX"
    ∷ codes "GAY"
    ∷ codes "GOOK"
    ∷ codes "HELL"
    ∷ codes "HOMO"
    ∷ codes "JIZ"
    ∷ codes "KKK"
    ∷ codes "KYKE"
    ∷ codes "MILF"
    ∷ codes "NAZI"
    ∷ codes "NIG"
    ∷ codes "PEDO"
    ∷ codes "PISS"
    ∷ codes "PIS"
    ∷ codes "PORN"
    ∷ codes "PUSY"
    ∷ codes "RAPE"
    ∷ codes "SEX"
    ∷ codes "5EX"
    ∷ codes "SHIT"
    ∷ codes "SLUT"
    ∷ codes "SPIC"
    ∷ codes "TIT"
    ∷ codes "TURD"
    ∷ codes "TWAT"
    ∷ codes "TWT"
    ∷ codes "VAG"
    ∷ codes "WANK"
    ∷ codes "WHOR"
    ∷ []

-- `words.iter().any(|word| upper.contains(word))`
pub any_in : Text → List Text → Bool
any_in upper [] = false
any_in upper (w ∷ ws) = contains upper w || any_in upper ws

-- `Profanity::matches`
unfoldable pub matches : Text → Bool
unfolding any_in blocked
matches text = any_in (map to_ascii_uppercase text) blocked
