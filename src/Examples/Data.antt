-- ===== src/Examples/Data.antt =====
-- A flock, a cipher that leaves payloads as they are, and tables that hold little.
use duck_voyage.Prelude.{ℕ, refl, true, false, none, some, List, [], ◌∷◌}
use duck_voyage.Prelude.Int.{pos}
use duck_voyage.Prelude.Text.{codes}
use duck_voyage.Domain.Codes.{FlockSeq, FlockCode, DuckCode}
use duck_voyage.Domain.Codec.{Ff1, DuckCodec}
use duck_voyage.Domain.Entities.{Flock}
use duck_voyage.Storage.Rows.{DuckRow}
use duck_voyage.Storage.Db.{Db}
use duck_voyage.Storage.Social.{StoredLoginFlow}
use duck_voyage.Web.State.{Env, App, World}

-- The permutation that moves nothing.
abbrev pub plain : Ff1
plain = record {
  Cipher = Unit;
  new = λ key. some tt;
  encrypt = λ c t x. some x;
  decrypt = λ c t x. some x;
  new_total = λ key h. (tt, refl);
  encrypt_total = λ c t x h. (x, refl, h, refl);
  decrypt_total = λ c t x h. (x, refl, h, refl);
}

abbrev pub codec : DuckCodec plain
codec = record { ciphers = (1, tt) ∷ []; current = 1 }

abbrev pub abc : FlockCode
abc = record { as_str = codes "ABC" }

abbrev pub first_seq : FlockSeq
first_seq = record { get = 1 }

abbrev pub flock : Flock
flock = record { id = 7; code = abc; generation = 1; owner = 3; label = none; created_at = 100 }

abbrev pub env : Env
env = record {
  fpe = plain;
  Store = Unit;
  store_put = λ k b s. some s;
  store_get = λ k s. none;
  store_delete = λ k s. some s;
  reencode = λ b. some b;
  parse_datetime = λ t. none;
  parse_f64 = λ t. none;
}

abbrev pub app : App env
app = record {
  codec = codec;
  base_url = codes "https://duck.voyage";
  caps = record {
    flocks_per_user = pos 5;
    mint_batch_max = 100;
    unoriginated_max = pos 500;
    missing_after_days = pos 180;
    front_page_limit = pos 20;
  };
  admin_identities = [];
}

-- The first label of the flock.
abbrev pub label : DuckCode
label = record { as_str = codes "ABC001Q" }

abbrev pub label_digits : List ℕ
label_digits = 10 ∷ 11 ∷ 12 ∷ 0 ∷ 0 ∷ 1 ∷ 26 ∷ []

-- A label that no one has staged, of the flock.
abbrev pub duck_row : DuckRow
duck_row = record {
  id = 11;
  code = codes "ABC001Q";
  flock_id = 7;
  flock_seq = 1;
  name = none;
  description = none;
  originated_at = none;
  set_sail_at = none;
  deleted_at = none;
  comments_locked_at = none;
  origin_photo_key = none;
  origin_photo_content_type = none;
  created_at = 100;
}

-- An owner, a finder, a ship, and one sighting that the owner was told of.
abbrev pub db : Db
db = record {
  now = 1000;
  next_id = 51;
  users =
      record {
        id = 3;
        issuer = codes "i";
        subject = codes "a";
        display_name = none;
        email = none;
        is_admin = true;
        created_at = 1;
      }
      ∷ record {
        id = 4;
        issuer = codes "i";
        subject = codes "b";
        display_name = none;
        email = none;
        is_admin = false;
        created_at = 2;
      }
      ∷ [];
  flocks =
      record {
        id = 7;
        flock_code = codes "ABC";
        key_generation = 1;
        owner_user_id = 3;
        label = none;
        created_at = 100;
      }
      ∷ [];
  ducks = duck_row ∷ [];
  sightings =
      record {
        id = 31;
        duck_id = 11;
        vessel_id = 21;
        user_id = 4;
        seen_at = 500;
        note = none;
        photo_key = none;
        photo_content_type = none;
        latitude = none;
        longitude = none;
        created_at = 600;
      }
      ∷ [];
  comments = [];
  follows = record { user_id = 3; duck_id = 11; created_at = 200 } ∷ [];
  notifications =
      record {
        id = 32;
        user_id = 3;
        duck_id = 11;
        sighting_id = 31;
        created_at = 600;
        read_at = none;
      }
      ∷ [];
  flows = [];
  vessels = record { id = 21; imo_number = none; name = codes "Ship"; created_at = 1 } ∷ [];
  lines = [];
  operators = [];
}

abbrev pub flow : StoredLoginFlow
flow = record {
  state = codes "s";
  provider = codes "google";
  pkce_verifier = codes "v";
  nonce = codes "n";
  return_to = none;
}

abbrev pub world : World env
world = record { db = db; store = tt }
