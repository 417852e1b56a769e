-- ===== src/Examples/Boot.antt =====
-- The theorem on the configuration, at one environment.
use duck_voyage.Prelude.{ℕ, ◌≡◌, refl, false, none, some, [], ◌∷◌}
use duck_voyage.Prelude.Results.{ok}
use duck_voyage.Prelude.Int.{pos, parse_unsigned, unsigned, parse_i64}
use duck_voyage.Prelude.Text.{Text, codes}
use duck_voyage.Domain.Codec.{new_codec}
use duck_voyage.Web.Config.{
  Platform, Vars, local, parse_key, parsed, listen_addr, admin_identities, storage_of, caps_of, cap,
  required, optional, var, read_keys, digits_of,
}
use duck_voyage.Web.Config.Providers.{oidc_from_env, generic, declared, google, entra, apple_config}
use duck_voyage.Web.Config.Boot.{AppConfig, from_env}
use duck_voyage.Web.Config.Boot.Keys.{IsRun, Boots, new_codec-from_env}
use duck_voyage.Examples.Data.{plain}

-- Texts that stand for themselves: hexadecimal is decoded digit by digit.
abbrev pub platform : Platform
platform = record {
  SocketAddr = ℕ;
  parse_socket_addr = λ t. none;
  unspecified = λ port. port;
  hex_decode = λ t. some t;
  to_lowercase = λ t. t;
  to_uppercase = λ c. c ∷ [];
}

abbrev key_text : Text
key_text = codes "0123456789abcdef0123456789abcdef"

abbrev vars : Vars
vars =
    (codes "DUCK_KEY_GEN_0", key_text)
    ∷ (codes "DUCK_KEY_CURRENT", codes "0")
    ∷ (codes "BASE_URL", codes "https://duck.voyage/")
    ∷ (codes "DATABASE_URL", codes "postgres://")
    ∷ []

abbrev config : AppConfig platform
config = record {
  database_url = codes "postgres://";
  database_max_connections = 10;
  base_url = codes "https://duck.voyage";
  listen_addr = 3000;
  trust_proxy_headers = false;
  ff1_keys = (0, key_text) ∷ [];
  current_generation = 0;
  storage = local (codes "./photos");
  oidc = [];
  admin_identities = [];
  caps = record {
    flocks_per_user = pos 10;
    mint_batch_max = 100;
    unoriginated_max = pos 200;
    missing_after_days = pos 365;
    front_page_limit = pos 10;
  };
}

configured : from_env platform vars ≡ ok config
unfolding from_env parse_key parsed listen_addr admin_identities storage_of caps_of cap
    oidc_from_env required optional var read_keys digits_of parse_unsigned unsigned parse_i64
    generic declared google entra apple_config
configured = refl

new_codec-from_env_example :
    IsRun platform vars 0 ((0, key_text) ∷ [])
    × Boots platform vars plain ((0, key_text) ∷ []) 0 (new_codec plain ((0, key_text) ∷ []) 0)
new_codec-from_env_example = new_codec-from_env platform vars plain config configured
