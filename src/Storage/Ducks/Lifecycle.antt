-- ===== src/Storage/Ducks/Lifecycle.antt =====
-- The two steps of a duck's lifecycle, and that no other order of them exists.
use duck_voyage.Prelude.{◌≡◌, refl, true, false, Option, none, some, map_option, ◌==◌, ==_refl}
use duck_voyage.Prelude.Results.{Res, ok, map_err, traverse, >>=-eq-ok}
use duck_voyage.Prelude.Text.{Text}
use duck_voyage.Domain.BoundedText.{DuckName, DuckDescription, PhotoRef, parse_bounded}
use duck_voyage.Domain.BoundedText.Trimming.{IsParsed, reparsed}
use duck_voyage.Domain.Entities.{
  Timestamp, Key, DuckDetails, DuckLifecycle, allocated, staged, sailing,
}
use duck_voyage.Storage.Rows.{RepoError, corrupt, duck, DuckRow, lifecycle_of, set_sailing}
use duck_voyage.Storage.Ducks.{stage_row, can_stage, sail_row, can_sail}

-- The lifecycle that a row holds.
abbrev pub lifecycle : DuckRow → Res RepoError DuckLifecycle
lifecycle r =
    lifecycle_of r.originated_at r.set_sail_at r.description r.origin_photo_key
      r.origin_photo_content_type r.name

abbrev pub IsParsedName : Option DuckName → Type 0
IsParsedName none = Unit
IsParsedName (some n) = IsParsed 80 n

pub reparsed_name :
    (name : Option DuckName)
    → IsParsedName name
    → traverse
        (λ t. map_err (λ _. corrupt duck) (parse_bounded 80 t))
        (map_option (λ (n : DuckName). n.as_str) name)
      ≡ ok name
reparsed_name none h = refl
reparsed_name (some n) h = rw (reparsed 80 n h)

lifecycle_allocated :
    (o s : Option Timestamp) (d k t name : Option Text)
    → lifecycle_of o s d k t name ≡ ok allocated
    → (o ≡ none) × (s ≡ none)
unfolding lifecycle_of
lifecycle_allocated none none d k t name h = (refl, refl)
lifecycle_allocated none (some s) d k t name h = cc
lifecycle_allocated (some o) s none k t name h = cc
lifecycle_allocated (some o) s (some d) none t name h = cc
lifecycle_allocated (some o) s (some d) (some k) none name h = cc
lifecycle_allocated (some o) s (some d) (some k) (some t) name h =
    let (b, _, h1) = >>=-eq-ok (map_err (λ _. corrupt duck) (parse_bounded 2000 d)) _ h in
    let (n, _, h2) =
      >>=-eq-ok (traverse (λ x. map_err (λ _. corrupt duck) (parse_bounded 80 x)) name) _ h1 in
    absurd (outset s _ h2)
  where
    outset :
        (s : Option Timestamp) (x : DuckDetails)
        → ◌≡◌ {A = Res RepoError DuckLifecycle} (ok (set_sailing x s)) (ok allocated)
        → ⊥
    outset none x h = cc
    outset (some since) x h = cc

-- A row that holds an allocated duck may be staged and not set sail; staged, it holds the details
-- it was staged with, may set sail and not be staged again; sailing, it holds the same details and
-- may do neither.
pub lifecycle-steps :
    (id : Key) (now later : Timestamp) (d : DuckDescription) (name : Option DuckName)
    (photo : PhotoRef) (r : DuckRow)
    → lifecycle r ≡ ok allocated
    → r.id ≡ id
    → IsParsed 2000 d
    → IsParsedName name
    → let kept : DuckDetails = record {
      defined_at = now;
      description = d;
      name = name;
      photo = photo;
    } in
      let first = stage_row now d name photo r in
      let second = sail_row later first in
      (can_stage id r ≡ true)
      × (can_sail id r ≡ false)
      × (lifecycle first ≡ ok (staged kept))
      × (can_stage id first ≡ false)
      × (can_sail id first ≡ true)
      × (lifecycle second ≡ ok (sailing kept later))
      × (can_stage id second ≡ false)
      × (can_sail id second ≡ false)
lifecycle-steps id now later d name photo r h e hd hn =
    let (o, s) =
      lifecycle_allocated r.originated_at r.set_sail_at r.description r.origin_photo_key
        r.origin_photo_content_type r.name h in
    let same : (r.id == id) ≡ true = rw e (==_refl id) in
    unfold lifecycle_of in
    (
      rw (same, o),
      rw (same, o),
      rw (s, reparsed 2000 d hd, reparsed_name name hn),
      rw same,
      rw (same, s),
      rw (reparsed 2000 d hd, reparsed_name name hn),
      rw same,
      rw same,
    )
