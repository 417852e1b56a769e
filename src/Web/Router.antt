-- ===== src/Web/Router.antt =====
-- The routes of crates/web/src/main.rs, in their three groups, with the handlers they call.
pub mod Paths
use duck_voyage.Prelude.{
  ◌≡◌, ◌≢◌, ℕ, zero, suc, ◌+◌, ◌*◌, Bool, true, false, Option, none, some, List, [], ◌∷◌, ◌++◌, All,
  if◌then◌else◌,
}
use duck_voyage.Prelude.Text.{Text, codes}
use duck_voyage.Web.Duck.Handlers.{max_upload_bytes}

pub data Method : Type 0 where
  get post delete : Method

pub data Segment : Type 0 where
  lit : Text → Segment
  param : Segment

-- The handlers, by the names of their functions.
pub data Endpoint : Type 0 where
  front healthz missing htmx_js login_page overview me my_flocks page qr_png origin_photo : Endpoint
  sighting_photo begin callback_get callback_post logout mark_notifications_read : Endpoint
  delete_user delete_flock create mint originate set_sail log_sighting comment follow : Endpoint
  unfollow delete_duck restore_duck lock_comments unlock_comments delete_comment : Endpoint
  delete_sighting : Endpoint

pub record Route : Type 0 where
  pub method : Method
  pub pattern : List Segment
  pub endpoint : Endpoint

abbrev route : Method → List Segment → Endpoint → Route
route method pattern endpoint = record { method = method; pattern = pattern; endpoint = endpoint }

-- Paths below "/d/{code}".
abbrev duck : List Segment → List Segment
duck rest = lit (codes "d") ∷ param ∷ rest

-- Whom a limit counts: the address that the headers of a proxy give, or that of the peer.
pub data Client : Type 0 where
  forwarded_ip peer_ip : Client

pub record Limit : Type 0 where
  pub client : Client
  pub per_second : ℕ
  pub burst : ℕ

-- Routes, with their limit and that on the bytes of a body.
pub record Group : Type 0 where
  pub routes : List Route
  pub limit : Option Limit
  pub body_limit : Option ℕ

-- `rate_limited`; what the numbers mean is up to the crate tower_governor.
abbrev pub rate_limited : Group → ℕ → ℕ → Bool → Group
rate_limited group per_second burst trust_proxy = record group {
  limit = some (record {
    client = if trust_proxy then forwarded_ip else peer_ip;
    per_second = per_second;
    burst = burst;
  });
}

abbrev pub public_routes : List Route
public_routes =
    route get (lit [] ∷ []) front
    ∷ route get (lit (codes "healthz") ∷ []) healthz
    ∷ route get (lit (codes "missing") ∷ []) missing
    ∷ route get (lit (codes "static") ∷ lit (codes "htmx.min.js") ∷ []) htmx_js
    ∷ route get (lit (codes "login") ∷ []) login_page
    ∷ route get (lit (codes "admin") ∷ []) overview
    ∷ route get (lit (codes "me") ∷ []) me
    ∷ route get (lit (codes "me") ∷ lit (codes "flocks") ∷ []) my_flocks
    ∷ route get (duck []) page
    ∷ route get (duck (lit (codes "qr.png") ∷ [])) qr_png
    ∷ route get (duck (lit (codes "photo") ∷ [])) origin_photo
    ∷ route get (duck (lit (codes "sightings") ∷ param ∷ lit (codes "photo") ∷ [])) sighting_photo
    ∷ []

abbrev pub login_routes : List Route
login_routes =
    route get (lit (codes "login") ∷ param ∷ []) begin
    ∷ route get (lit (codes "auth") ∷ lit (codes "callback") ∷ param ∷ []) callback_get
    ∷ route post (lit (codes "auth") ∷ lit (codes "callback") ∷ param ∷ []) callback_post
    ∷ []

abbrev pub mutation_routes : List Route
mutation_routes =
    route post (lit (codes "logout") ∷ []) logout
    ∷ route post (lit (codes "me") ∷ lit (codes "notifications") ∷ lit (codes "read") ∷ [])
        mark_notifications_read
    ∷ route post (lit (codes "admin") ∷ lit (codes "users") ∷ param ∷ lit (codes "delete") ∷ [])
        delete_user
    ∷ route post (lit (codes "admin") ∷ lit (codes "flocks") ∷ param ∷ lit (codes "delete") ∷ [])
        delete_flock
    ∷ route post (lit (codes "flocks") ∷ []) create
    ∷ route post (lit (codes "flocks") ∷ param ∷ lit (codes "ducks") ∷ []) mint
    ∷ route post (duck (lit (codes "originate") ∷ [])) originate
    ∷ route post (duck (lit (codes "set-sail") ∷ [])) set_sail
    ∷ route post (duck (lit (codes "sightings") ∷ [])) log_sighting
    ∷ route post (duck (lit (codes "comments") ∷ [])) comment
    ∷ route post (duck (lit (codes "follow") ∷ [])) follow
    ∷ route delete (duck (lit (codes "follow") ∷ [])) unfollow
    ∷ route post (duck (lit (codes "unfollow") ∷ [])) unfollow
    ∷ route post (duck (lit (codes "delete") ∷ [])) delete_duck
    ∷ route post (duck (lit (codes "restore") ∷ [])) restore_duck
    ∷ route post (duck (lit (codes "comments") ∷ lit (codes "lock") ∷ [])) lock_comments
    ∷ route post (duck (lit (codes "comments") ∷ lit (codes "unlock") ∷ [])) unlock_comments
    ∷ route post (duck (lit (codes "comments") ∷ param ∷ lit (codes "delete") ∷ [])) delete_comment
    ∷ route post (duck (lit (codes "sightings") ∷ param ∷ lit (codes "delete") ∷ []))
        delete_sighting
    ∷ []

-- The router, its groups merged in order.
abbrev pub router : Bool → List Group
router trust_proxy =
    record { routes = public_routes; limit = none; body_limit = none }
    ∷ rate_limited (record { routes = login_routes; limit = none; body_limit = none }) 2 10
        trust_proxy
    ∷ rate_limited
        (record {
          routes = mutation_routes;
          limit = none;
          body_limit = some (max_upload_bytes + 64 * 1024);
        })
        2 30 trust_proxy
    ∷ []

-- A text that may stand for a parameter: not empty, and in one segment.
abbrev pub IsPiece : Text → Type 0
IsPiece t = (t ≢ []) × All (λ c. c ≢ b'/') t

-- A path that has the form of a pattern.
abbrev pub Fills : List Segment → Text → Type 0
Fills [] path = path ≡ []
Fills (lit t ∷ pattern) path = (rest : Text) × (path ≡ b'/' ∷ t ++ rest) × Fills pattern rest
Fills (param ∷ pattern) path =
    (piece rest : Text) × (path ≡ b'/' ∷ piece ++ rest) × IsPiece piece × Fills pattern rest

abbrev pub nth : List Route → ℕ → Option Route
nth [] k = none
nth (r ∷ rs) zero = some r
nth (r ∷ rs) (suc k) = nth rs k

-- A POST of a path has a route that calls the handler.
abbrev pub Posts : Endpoint → Text → Type 0
Posts endpoint path =
    (k : ℕ) × (r : Route) × (nth mutation_routes k ≡ some r)
    × (r.method ≡ post)
    × (r.endpoint ≡ endpoint)
    × Fills r.pattern path
