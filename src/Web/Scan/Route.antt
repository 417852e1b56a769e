-- ===== src/Web/Scan/Route.antt =====
-- The whole way of a printed label: the URL in its QR code, the rewritten path, and the funnel.
use duck_voyage.Prelude.{
  ◌≡◌, refl, ap, ◌∙◌, Bool, true, Option, none, some, List, [], ◌∷◌, ◌++◌, drop, length,
}
use duck_voyage.Prelude.Results.{ok}
use duck_voyage.Prelude.Text.{Text, codes}
use duck_voyage.Domain.Codes.{FlockSeq, DuckCode}
use duck_voyage.Domain.Codes.Scan.{Mangled_refl}
use duck_voyage.Domain.Codec.{Ff1, DuckCodec, encode}
use duck_voyage.Domain.Codec.RoundTrip.{IsSeq}
use duck_voyage.Domain.Entities.{Duck, Flock}
use duck_voyage.Storage.Flocks.{flock_by_code}
use duck_voyage.Storage.Ducks.{by_flock_and_seq}
use duck_voyage.Storage.Db.{Db}
use duck_voyage.Web.Config.{Platform}
use duck_voyage.Web.Config.Providers.{strip_prefix}
use duck_voyage.Web.Duck.{resolve_any}
use duck_voyage.Web.Duck.Labels.{resolve_any-label}
use duck_voyage.Web.Flock.Registry.{Keyed}
use duck_voyage.Web.Scan.{Target, to_uppercase, url, uppercase_scan_path}

drop-length {ℓ} : {A : Type ℓ} (xs ys : List A) → drop (length xs) (xs ++ ys) ≡ ys
drop-length [] ys = refl
drop-length (x ∷ xs) ys = drop-length xs ys

-- The path that a scanner asks the site for, of a URL of the site: `base_url` is taken to be an
-- origin, with no path of its own.
abbrev pub path_of : Platform → Text → DuckCode → Text
path_of platform base_url code =
    drop (length (to_uppercase platform base_url)) (url platform base_url code)

-- What the route of a duck page, /d/{code}, takes of a request: the text behind the prefix.
abbrev pub scanned : (Target → Bool) → Platform → Text → DuckCode → Option Text
scanned accepts platform base_url code =
    let asked : Target = record { path = path_of platform base_url code; query = none } in
    strip_prefix (codes "/d/") (uppercase_scan_path accepts asked).path

module _ (platform : Platform) (base_url : Text) (accepts : Target → Bool) where
  scanned-code :
      (code : DuckCode)
      → accepts (record { path = codes "/d/" ++ code.as_str; query = none }) ≡ true
      → scanned accepts platform base_url code ≡ some code.as_str
  unfolding uppercase_scan_path url
  scanned-code code h =
      let path : path_of platform base_url code ≡ codes "/D/" ++ code.as_str =
        drop-length (to_uppercase platform base_url) (codes "/D/" ++ code.as_str) in
      ap
        (λ p.
          strip_prefix (codes "/d/")
            (uppercase_scan_path accepts (record { path = p; query = none })).path)
        path
      ∙ rw h refl

  module _ (fpe : Ff1) (codec : DuckCodec fpe) (flock : Flock) (keyed : Keyed fpe codec flock) where
    -- The URL printed for a code that was minted for a flock with a known key asks the site for a
    -- path that is rewritten to the route of a duck page, with the code in it, and the code
    -- resolves to the duck and the flock that are stored for it, where the crate http takes the
    -- rewritten path, the flock is stored under its prefix and the duck under its number with the
    -- code.
    pub resolve_any-scanned :
        (s : FlockSeq) (code : DuckCode) (duck : Duck) (db : Db)
        → IsSeq s
        → encode fpe codec flock.generation flock.code s ≡ ok code
        → accepts (record { path = codes "/d/" ++ code.as_str; query = none }) ≡ true
        → flock_by_code flock.code db ≡ ok (some flock)
        → by_flock_and_seq flock.id s db ≡ ok (some duck)
        → duck.code.as_str ≡ code.as_str
        → (raw : Text) × (scanned accepts platform base_url code ≡ some raw)
          × (resolve_any fpe codec raw db ≡ ok (duck, flock))
    resolve_any-scanned s code duck db range minted fine stored seated same = (
      code.as_str,
      scanned-code code fine,
      resolve_any-label fpe codec flock keyed s code duck code.as_str db range minted
          (Mangled_refl code.as_str) stored seated same,
    )
