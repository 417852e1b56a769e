-- ===== src/Web/Config/Boot.antt =====
-- crates/web/src/config.rs: the whole configuration, and the codec that main.rs makes of its keys.
pub mod Keys
use duck_voyage.Prelude.{ℕ, ◌^◌, Bool, true, false, Option, none, some, List, [], ◌∷◌, map_option}
use duck_voyage.Prelude.Results.{Res, ok, err, panic, ◌>>=◌, ◌>>◌, ok_or, guard}
use duck_voyage.Prelude.Int.{parse_unsigned}
use duck_voyage.Prelude.Text.{Text, codes, trim_end_matches}
use duck_voyage.Domain.Codes.{KeyGeneration}
use duck_voyage.Auth.Providers.{OidcProviderConfig}
use duck_voyage.Web.State.{Caps}
use duck_voyage.Web.Config.{
  ConfigError, invalid, no_keys, Platform, Vars, Key, StorageConfig, required, optional, read_keys,
  some_key, listen_addr, admin_identities, storage_of, parsed, or_default, says_yes, caps_of,
}
use duck_voyage.Web.Config.Providers.{oidc_from_env}

module _ (platform : Platform) where
  open platform use {SocketAddr}

  pub record AppConfig : Type 0 where
    pub database_url : Text
    pub database_max_connections : ℕ
    pub base_url : Text
    pub listen_addr : SocketAddr
    pub trust_proxy_headers : Bool
    pub ff1_keys : List Key
    pub current_generation : KeyGeneration
    pub storage : StorageConfig
    pub oidc : List OidcProviderConfig
    pub admin_identities : List (Text × Text)
    pub caps : Caps

  -- `AppConfig::from_env`
  unfoldable pub from_env : Vars → Res ConfigError AppConfig
  unfolding read_keys
  from_env vars = do
    ff1_keys ← read_keys platform vars (2 ^ 16) 0
    guard (some_key ff1_keys) no_keys
    current ← required (codes "DUCK_KEY_CURRENT") vars
    generation ← ok_or (parse_unsigned (2 ^ 16) current) (invalid (codes "DUCK_KEY_CURRENT"))
    base ← required (codes "BASE_URL") vars
    addr ← listen_addr platform vars
    admins ← admin_identities vars
    storage ← storage_of vars
    connections ← parsed (codes "DATABASE_MAX_CONNECTIONS") (parse_unsigned (2 ^ 32)) vars
    url ← required (codes "DATABASE_URL") vars
    oidc ← oidc_from_env platform vars
    ok (record {
      database_url = url;
      database_max_connections = or_default connections 10;
      base_url = trim_end_matches b'/' base;
      listen_addr = addr;
      trust_proxy_headers =
          or_default (map_option (says_yes platform) (optional (codes "TRUST_PROXY_HEADERS") vars))
            false;
      ff1_keys = ff1_keys;
      current_generation = generation;
      storage = storage;
      oidc = oidc;
      admin_identities = admins;
      caps = caps_of vars;
    })
