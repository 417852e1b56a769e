-- ===== src/Web/Config.antt =====
-- crates/web/src/config.rs: the configuration that the environment gives. The environment is the list of
-- its variables, each once, in the order of `std::env::vars`.
pub mod Providers
pub mod Boot
use duck_voyage.Prelude.{
  ℕ, zero, suc, ◌+◌, ◌/◌, ◌%◌, ◌^◌, Bool, true, false, not, Option, none, some, is_some, List, [],
  ◌∷◌, ◌++◌, ◌==◌, ◌&&◌, ◌||◌, ltb, if◌then◌else◌, map_option, and_then, length,
}
use duck_voyage.Prelude.Results.{Res, ok, err, panic, ◌>>=◌, ◌>>◌, ok_or, guard, traverse}
use duck_voyage.Prelude.Int.{ℤ, pos, as_u16, parse_i64, parse_unsigned}
use duck_voyage.Prelude.Text.{Text, text_eq, codes, trim, trim_end_matches}
use duck_voyage.Domain.Codes.{KeyGeneration}
use duck_voyage.Web.State.{Caps}

-- `ConfigError`, without the text of a detail.
pub data ConfigError : Type 0 where
  missing : Text → ConfigError
  invalid : Text → ConfigError
  no_keys : ConfigError

-- What the code takes of the crate hex, and of the standard library where its tables or grammars are
-- large: `SocketAddr`, its parser and the address `[::]` with a port, and Unicode case.
pub record Platform : Type 1 where
  pub SocketAddr : Type 0
  pub parse_socket_addr : Text → Option SocketAddr
  pub unspecified : ℕ → SocketAddr
  pub hex_decode : Text → Option (List ℕ)
  pub to_lowercase : Text → Text
  pub to_uppercase : ℕ → Text

abbrev pub Vars : Type 0
Vars = List (Text × Text)

unfoldable pub var : Text → Vars → Option Text
var name [] = none
var name ((key, value) ∷ vars) =
    let rest = var name vars in if text_eq key name then some value else rest

-- The closures `required` and `optional`.
unfoldable pub required : Text → Vars → Res ConfigError Text
unfolding var
required name vars = ok_or (var name vars) (missing name)

abbrev pub unless_empty : Text → Option Text
unless_empty [] = none
unless_empty (c ∷ s) = some (c ∷ s)

unfoldable pub optional : Text → Vars → Option Text
unfolding var
optional name vars = and_then (var name vars) unless_empty

-- The decimal digits of a number of so many digits at most.
unfoldable pub digits_of : ℕ → ℕ → Text
digits_of zero n = []
digits_of (suc fuel) n =
    if ltb n 10 then (n + b'0') ∷ [] else digits_of fuel (n / 10) ++ (n % 10 + b'0') ∷ []

-- `format!("DUCK_KEY_GEN_{generation}")`, of a u16.
abbrev pub key_var : KeyGeneration → Text
key_var generation = codes "DUCK_KEY_GEN_" ++ digits_of 5 generation

abbrev pub Key : Type 0
Key = KeyGeneration × List ℕ

-- `AppConfig::parse_key`
unfoldable pub parse_key : Platform → KeyGeneration → Text → Res ConfigError Key
parse_key platform generation hex_key = do
  bytes ← ok_or (platform.hex_decode (trim hex_key)) (invalid (key_var generation))
  guard (length bytes == 32) (invalid (key_var generation))
  ok (generation, bytes)

-- The keys from a generation on, up to the first that is unset or empty. The fuel counts the
-- generations that a u16 has left; past the last one the range overflows, a panic.
unfoldable pub read_keys : Platform → Vars → ℕ → KeyGeneration → Res ConfigError (List Key)
unfolding digits_of
read_keys platform vars zero generation = panic
read_keys platform vars (suc fuel) generation = elim (optional (key_var generation) vars) [
  | none ↦ ok []
  | some hex_key ↦ parse_key platform generation hex_key >>= λ key.
      read_keys platform vars fuel (suc generation) >>= λ keys. ok (key ∷ keys)
]

abbrev pub some_key : List Key → Bool
some_key [] = false
some_key (k ∷ keys) = true

-- An optional variable that is parsed when it is set.
unfoldable pub parsed : {A : Type 0} → Text → (Text → Option A) → Vars → Res ConfigError (Option A)
parsed name parse vars = traverse (λ v. ok_or (parse v) (invalid name)) (optional name vars)

abbrev pub or_default {ℓ} : {A : Type ℓ} → Option A → A → A
or_default none d = d
or_default (some a) d = a

module _ (platform : Platform) (vars : Vars) where
  open platform use {SocketAddr}

  -- `match optional("LISTEN_ADDR")`
  unfoldable pub listen_addr : Res ConfigError SocketAddr
  listen_addr = elim (optional (codes "LISTEN_ADDR") vars) [
    | some addr ↦ ok_or (platform.parse_socket_addr addr) (invalid (codes "LISTEN_ADDR"))
    | none ↦ parsed (codes "PORT") (parse_unsigned (2 ^ 16)) vars >>= λ port.
        ok (platform.unspecified (or_default port 3000))
  ]

-- `str::split` on a character, and `str::split_once`.
abbrev pub add_to_first : ℕ → List Text → List Text
add_to_first c [] = (c ∷ []) ∷ []
add_to_first c (s ∷ rest) = (c ∷ s) ∷ rest

unfoldable pub split : ℕ → Text → List Text
split mark [] = [] ∷ []
split mark (c ∷ s) = let rest = split mark s in if c == mark then [] ∷ rest else add_to_first c rest

unfoldable pub split_once : ℕ → Text → Option (Text × Text)
split_once mark [] = none
split_once mark (c ∷ s) =
    let rest = split_once mark s in
    if c == mark then some ([], s) else map_option (λ (p : Text × Text). (c ∷ p.0, p.1)) rest

abbrev pub is_blank : Text → Bool
is_blank s = not (is_some (unless_empty (trim s)))

unfoldable pub parse_identities : List Text → Res ConfigError (List (Text × Text))
parse_identities [] = ok []
parse_identities (pair ∷ pairs) = elim (is_blank pair) [
  | true ↦ parse_identities pairs
  | false ↦ ok_or (split_once b'|' pair) (invalid (codes "ADMIN_IDENTITIES")) >>= λ p.
      parse_identities pairs >>= λ rest. ok ((trim p.0, trim p.1) ∷ rest)
]

unfoldable pub admin_identities : Vars → Res ConfigError (List (Text × Text))
unfolding parse_identities split
admin_identities vars =
    traverse (λ raw. parse_identities (split b',' raw)) (optional (codes "ADMIN_IDENTITIES") vars)
    >>= λ found. ok (or_default found [])

-- The closure `cap`: a value that does not parse counts as unset.
unfoldable pub cap : Vars → Text → ℤ → ℤ
cap vars name default = or_default (and_then (optional name vars) parse_i64) default

unfoldable pub caps_of : Vars → Caps
unfolding cap
caps_of vars = record {
  flocks_per_user = cap vars (codes "CAP_FLOCKS_PER_USER") (pos 10);
  mint_batch_max = as_u16 (cap vars (codes "CAP_MINT_BATCH_MAX") (pos 100));
  unoriginated_max = cap vars (codes "CAP_UNORIGINATED_MAX") (pos 200);
  missing_after_days = cap vars (codes "MISSING_AFTER_DAYS") (pos 365);
  front_page_limit = cap vars (codes "FRONT_PAGE_LIMIT") (pos 10);
}

pub data StorageConfig : Type 0 where
  s3 : Text → Text → Text → Text → StorageConfig
  local : Text → StorageConfig

-- `match optional("STORAGE_ENDPOINT")`
unfoldable pub storage_of : Vars → Res ConfigError StorageConfig
storage_of vars = elim (optional (codes "STORAGE_ENDPOINT") vars) [
  | some endpoint ↦ required (codes "STORAGE_BUCKET") vars >>= λ bucket.
      required (codes "STORAGE_ACCESS_KEY") vars >>= λ access_key.
      required (codes "STORAGE_SECRET_KEY") vars >>= λ secret_key.
      ok (s3 endpoint bucket access_key secret_key)
  | none ↦ ok (local (or_default (optional (codes "STORAGE_LOCAL_PATH") vars) (codes "./photos")))
]

-- `matches!(v.to_lowercase().as_str(), "1" | "true" | "yes")`
abbrev pub says_yes : Platform → Text → Bool
says_yes platform v =
    let low = platform.to_lowercase v in
    text_eq low (codes "1") || (text_eq low (codes "true") || text_eq low (codes "yes"))
