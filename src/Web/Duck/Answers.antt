-- ===== src/Web/Duck/Answers.antt =====
-- The validation funnel of crates/web/src/handlers/duck.rs over tables that were reached: what it answers
-- to any text.
use duck_voyage.Prelude.{
  ◌≡◌, refl, subst, Bool, true, false, Option, Option-cases, some, none, inl, inr, List, [], ℕ,
}
use duck_voyage.Prelude.Results.{
  Res, ok, err, panic, ◌>>=◌, map_err, ok_or, expect, guard, map_err-eq-ok,
}
use duck_voyage.Prelude.Text.{Text, text_eq}
use duck_voyage.Domain.Codes.{
  KeyGeneration, FlockSeq, DuckCode, DuckCodeError, FlockCode, parse_duck, flock_code,
}
use duck_voyage.Domain.Codes.Laws.{IsDuckCode, ParsesToDuck, parse_duck_sound}
use duck_voyage.Domain.Codes.Assembly.{read_code}
use duck_voyage.Domain.Codec.{Ff1, CodecError, DuckCodec, get, decode}
use duck_voyage.Domain.Codec.RoundTrip.{Decodes, decode-valid, unknown_generation_reported}
use duck_voyage.Storage.Db.{Db}
use duck_voyage.Storage.Rows.{RepoError}
use duck_voyage.Storage.Flocks.{flock_by_code}
use duck_voyage.Storage.Ducks.{by_flock_and_seq}
use duck_voyage.Storage.Integrity.Reach.{Reach, IsSeeded}
use duck_voyage.Storage.Readable.History.{AllParsed, Reach-Readable}
use duck_voyage.Storage.Readable.Reads.{Succeeds, flock_by_code-Succeeds, by_flock_and_seq-Succeeds}
use duck_voyage.Web.State.{WebError, not_found, repo}
use duck_voyage.Web.Duck.{resolve_any}

-- A value, or the answer that there is none: no other error, and no panic.
abbrev pub Answers {ℓ} : {A : Type ℓ} → Res WebError A → Type 0
Answers (ok a) = Unit
Answers (err e) = e ≡ not_found
Answers panic = ⊥

module _ {A B : Type 0} where
  >>=-Answers :
      (m : Res WebError A) (f : A → Res WebError B)
      → Answers m
      → ((a : A) → m ≡ ok a → Answers (f a))
      → Answers (m >>= f)
  >>=-Answers (ok a) f h next = next a refl
  >>=-Answers (err e) f h next = h
  >>=-Answers panic f h next = h

repo-Answers : {A : Type 0} (m : Res RepoError A) → Succeeds m → Answers (map_err repo m)
repo-Answers m (a, e) = rw e tt

ok_or-Answers : {A : Type 0} (o : Option A) → Answers (ok_or o not_found)
ok_or-Answers none = refl
ok_or-Answers (some a) = tt

guard-Answers : (b : Bool) → Answers (guard b not_found)
guard-Answers true = tt
guard-Answers false = refl

parsed-Answers :
    (r : Res DuckCodeError DuckCode) → ParsesToDuck r → Answers (map_err (λ _. not_found) r)
parsed-Answers (ok c) h = tt
parsed-Answers (err e) h = refl
parsed-Answers panic h = h

module _ (fpe : Ff1) (codec : DuckCodec fpe) where
  decoded-Answers :
      (g : KeyGeneration) (c : fpe.Cipher) (known : get g codec.ciphers ≡ some c) (code : DuckCode)
      (f : FlockCode) (r : Res CodecError FlockSeq)
      → Decodes fpe codec g c known code f r
      → Answers (map_err (λ _. not_found) r)
  decoded-Answers g c known code f (ok s) h = tt
  decoded-Answers g c known code f (err e) h = refl
  decoded-Answers g c known code f panic h = h

  decode-Answers :
      (g : KeyGeneration) (code : DuckCode) (ds : List ℕ)
      → IsDuckCode code ds
      → Answers (map_err (λ _. not_found) (decode fpe codec g code))
  decode-Answers g code ds valid = elim (Option-cases (get g codec.ciphers)) [
    | inl e ↦
        rw
          (unknown_generation_reported fpe codec g (record { as_str = [] }) (record { get = 1 })
            code ds e valid).1
          refl
    | inr (c, e) ↦
        let (f, head, outcome) = decode-valid fpe codec g c e code ds valid in
        decoded-Answers g c e code f (decode fpe codec g code) outcome
  ]

  headed-Answers :
      (code : DuckCode) (ds : List ℕ)
      → IsDuckCode code ds
      → Answers {A = FlockCode} (expect (flock_code code))
  headed-Answers code ds valid =
      let (f, q, head, body, digits, size, built) = read_code code ds valid in rw head tt

  -- Whatever text is scanned, over tables that were reached from seeded ones by calls with parsed
  -- arguments, the validation funnel gives a duck with its flock or answers that there is none: it
  -- never reports an error of the database or of the codec, and never panics.
  pub resolve_any-Answers :
      {start db : Db} (reached : Reach start db)
      → AllParsed reached
      → IsSeeded start
      → (raw : Text) → Answers (resolve_any fpe codec raw db)
  unfolding resolve_any
  resolve_any-Answers {db} reached parsed seeded raw =
      let readable = Reach-Readable reached parsed seeded in
      let spelt = parse_duck_sound raw in
      >>=-Answers (map_err (λ _. not_found) (parse_duck raw)) _
        (parsed-Answers (parse_duck raw) spelt)
        (λ code e.
          let (ds, valid) =
            subst ParsesToDuck (map_err-eq-ok (λ _. not_found) (parse_duck raw) e) spelt in
          >>=-Answers (expect (flock_code code)) _ (headed-Answers code ds valid) (λ prefix _.
            >>=-Answers (map_err repo (flock_by_code prefix db)) _
              (repo-Answers _ (flock_by_code-Succeeds db readable prefix))
              (λ found _. >>=-Answers (ok_or found not_found) _ (ok_or-Answers found) (λ flock _.
                >>=-Answers (map_err (λ _. not_found) (decode fpe codec flock.generation code)) _
                  (decode-Answers flock.generation code ds valid)
                  (λ seq _.
                    >>=-Answers (map_err repo (by_flock_and_seq flock.id seq db)) _
                      (repo-Answers _ (by_flock_and_seq-Succeeds db readable flock.id seq))
                      (λ row _. >>=-Answers (ok_or row not_found) _ (ok_or-Answers row) (λ duck _.
                        >>=-Answers (guard (text_eq duck.code.as_str code.as_str) not_found) _
                          (guard-Answers (text_eq duck.code.as_str code.as_str)) (λ _ _. tt))))))))
