-- ===== src/Web/Duck/Labels.antt =====
-- A scan of a printed label finds its duck (`resolve_any` of crates/web/src/handlers/duck.rs).
use duck_voyage.Prelude.{◌≡◌, sym, ap, ◌∙◌, some}
use duck_voyage.Prelude.Results.{ok, ok_injective}
use duck_voyage.Prelude.Text.{Text, text_eq_refl}
use duck_voyage.Domain.Codes.{FlockSeq, DuckCode, flock_code}
use duck_voyage.Domain.Codes.Scan.{Mangled, parse_duck-mangled}
use duck_voyage.Domain.Codec.{Ff1, DuckCodec, encode, decode}
use duck_voyage.Domain.Codec.RoundTrip.{IsSeq, decode-encode, encode-IsDuckCode}
use duck_voyage.Domain.Entities.{Duck, Flock}
use duck_voyage.Storage.Flocks.{flock_by_code}
use duck_voyage.Storage.Ducks.{by_flock_and_seq}
use duck_voyage.Storage.Db.{Db}
use duck_voyage.Web.Duck.{resolve_any}
use duck_voyage.Web.Flock.Registry.{Keyed}

module _ (fpe : Ff1) (codec : DuckCodec fpe) (flock : Flock) (keyed : Keyed fpe codec flock) where
  -- A label that was minted for a flock with a known key, typed in any case and with any
  -- separators, resolves to the duck and the flock that are stored for it, when the flock is stored
  -- under its prefix and the duck under its number, with the code of the label.
  pub resolve_any-label :
      (s : FlockSeq) (code : DuckCode) (duck : Duck) (raw : Text) (db : Db)
      → IsSeq s
      → encode fpe codec flock.generation flock.code s ≡ ok code
      → Mangled raw code.as_str
      → flock_by_code flock.code db ≡ ok (some flock)
      → by_flock_and_seq flock.id s db ≡ ok (some duck)
      → duck.code.as_str ≡ code.as_str
      → resolve_any fpe codec raw db ≡ ok (duck, flock)
  unfolding resolve_any
  resolve_any-label s code duck raw db range minted typed stored seated same =
      let (a, found, head, back) =
        decode-encode fpe codec flock.generation keyed.cipher keyed.known flock.code keyed.prefix s
          keyed.valid range in
      let one : a ≡ code = ok_injective (sym found ∙ minted) in
      let (ds, valid) =
        encode-IsDuckCode fpe codec flock.generation keyed.cipher keyed.known flock.code
          keyed.prefix s code keyed.valid minted in
      rw (
        parse_duck-mangled code ds raw valid typed,
        ap flock_code (sym one) ∙ head,
        stored,
        ap (decode fpe codec flock.generation) (sym one) ∙ back,
        seated,
        same,
        text_eq_refl code.as_str,
      )
