-- ===== src/Web/Duck/Funnel.antt =====
-- Which ducks the validation funnel of crates/web/src/handlers/duck.rs gives for a text.
use duck_voyage.Prelude.{
  ◌≡◌, refl, ap, ◌∙◌, sym, subst, arith, Bool, true, some, ℕ, List, ◌==◌, ◌&&◌, ltb, Option-cases,
  inl, inr, ==→eq, and_then-some,
}
use duck_voyage.Prelude.Results.{
  Res, ok, err, panic, guard, map_err, >>=-eq-ok, ok_or, expect, ok_or-eq-ok, expect-eq-ok,
  map_err-eq-ok, guard-eq-ok, ok_injective, traverse, to_option,
}
use duck_voyage.Prelude.Text.{Text, text_eq, text_eq_sound}
use duck_voyage.Prelude.Tables.{find, exists}
use duck_voyage.Prelude.Tables.Laws
use duck_voyage.Domain.Codes.{
  KeyGeneration, FlockCode, FlockSeq, DuckCode, new_seq, parse_duck, parse_flock, flock_code, slice,
}
use duck_voyage.Domain.Codes.Laws.{
  IsFlockCode, IsDuckCode, ParsesToDuck, ParsesToFlock, parse_duck_sound, parse_flock_sound,
  parse_flock-as_str,
}
use duck_voyage.Domain.Codec.{Ff1, DuckCodec, get, encode, decode}
use duck_voyage.Domain.Codec.RoundTrip.{
  IsSeq, Decodes, decode-valid, unknown_generation_reported, new_seq_range,
}
use duck_voyage.Domain.BoundedText.{parse_bounded}
use duck_voyage.Domain.Entities.{Duck, Flock}
use duck_voyage.Storage.Rows.{
  RepoError, Table, corrupt, FlockRow, DuckRow, try_flock, try_duck, lifecycle_of,
}
use duck_voyage.Storage.Flocks.{flock_by_code}
use duck_voyage.Storage.Ducks.{by_flock_and_seq}
use duck_voyage.Storage.Db.{Db}
use duck_voyage.Web.State.{not_found, repo}
use duck_voyage.Web.Duck.{resolve_any}

both : {a b : Bool} → (a && b) ≡ true → (a ≡ true) × (b ≡ true)
both h = (ground arith, ground arith)

and_true : {a b : Bool} → a ≡ true → b ≡ true → (a && b) ≡ true
and_true h k = rw (h, k) refl

eq→== : (a b : ℕ) → a ≡ b → (a == b) ≡ true
eq→== a b h = ground arith

-- The row behind an entity that was found.
traverse-find :
    {A B : Type 0} (f : A → Res RepoError B) (test : A → Bool) (rows : List A) (b : B)
    → traverse f (find test rows) ≡ ok (some b)
    → (a : A) × (find test rows ≡ some a) × (f a ≡ ok b)
traverse-find f test rows b h = elim (Option-cases (find test rows)) [
  | inl e ↦ let never = rw e at h in let n = ok_injective never in absurd cc
  | inr (a, e) ↦
      let found = rw e at h in
      let (b', read, same) = >>=-eq-ok (f a) _ found in
      (a, e, read ∙ ap ok (Laws.some_injective (ok_injective same)))
]

try_flock-parts :
    (r : FlockRow) (f : Flock)
    → try_flock r ≡ ok f
    → (parse_flock r.flock_code ≡ ok f.code) × (f.id ≡ r.id) × (f.owner ≡ r.owner_user_id)
unfolding try_flock
try_flock-parts r f h =
    let (code, h1, k1) =
      >>=-eq-ok (map_err (λ _. corrupt Table.flock) (parse_flock r.flock_code)) _ h in
    let (u, h2, k2) = >>=-eq-ok (guard (ltb r.key_generation 65536) (corrupt Table.flock)) _ k1 in
    let (label, h3, k3) =
      >>=-eq-ok (traverse (λ l. map_err (λ _. corrupt Table.flock) (parse_bounded 120 l)) r.label) _
        k2 in
    let same = ok_injective k3 in
    (
      map_err-eq-ok (λ _. corrupt Table.flock) (parse_flock r.flock_code) h1
          ∙ ap (λ (x : Flock). ok x.code) same,
      ap (λ (x : Flock). x.id) (sym same),
      ap (λ (x : Flock). x.owner) (sym same),
    )

try_duck-parts :
    (r : DuckRow) (d : Duck) → try_duck r ≡ ok d → (new_seq r.flock_seq ≡ ok d.seq) × (d.id ≡ r.id)
unfolding try_duck
try_duck-parts r d h =
    let (life, h1, k1) =
      >>=-eq-ok
        (lifecycle_of r.originated_at r.set_sail_at r.description r.origin_photo_key
          r.origin_photo_content_type r.name)
        _ h in
    let (code, h2, k2) = >>=-eq-ok (map_err (λ _. corrupt Table.duck) (parse_duck r.code)) _ k1 in
    let (seq, h3, k3) = >>=-eq-ok (map_err (λ _. corrupt Table.duck) (new_seq r.flock_seq)) _ k2 in
    let same = ok_injective k3 in
    (
      map_err-eq-ok (λ _. corrupt Table.duck) (new_seq r.flock_seq) h3
          ∙ ap (λ (x : Duck). ok x.seq) same,
      ap (λ (x : Duck). x.id) (sym same),
    )

to_option-some {ℓ κ} :
    {E : Type ℓ} {A : Type κ} (r : Res E A) (a : A) → to_option r ≡ some a → r ≡ ok a
to_option-some (ok b) a h = ap ok (Laws.some_injective h)
to_option-some (err e) a h = cc
to_option-some panic a h = cc

-- The prefix of a code is one.
flock_code-IsFlockCode :
    (code : DuckCode) (f : FlockCode) → flock_code code ≡ some f → (ds : List ℕ) × IsFlockCode f ds
unfolding flock_code
flock_code-IsFlockCode code f h =
    let (text, e, parsed) = and_then-some (slice 0 3 code.as_str) _ h in
    subst ParsesToFlock (to_option-some (parse_flock text) f parsed) (parse_flock_sound text)

-- A row of a prefix is of the flock of that prefix.
flock_of-prefix :
    (f : FlockCode) (ds : List ℕ) (text : Text) (found : FlockCode)
    → IsFlockCode f ds
    → text ≡ f.as_str
    → parse_flock text ≡ ok found
    → found ≡ f
flock_of-prefix f ds text found valid e parsed =
    ok_injective (sym parsed ∙ ap parse_flock e ∙ parse_flock-as_str f ds valid)

module _ (fpe : Ff1) (codec : DuckCodec fpe) (raw : Text) (db : Db) where
  -- What the funnel found.
  record Found (duck : Duck) (flock : Flock) : Type 0 where
    code : DuckCode
    prefix : FlockCode
    read : parse_duck raw ≡ ok code
    headed : flock_code code ≡ some prefix
    flocked : flock_by_code prefix db ≡ ok (some flock)
    seq : FlockSeq
    decoded : decode fpe codec flock.generation code ≡ ok seq
    stored : by_flock_and_seq flock.id seq db ≡ ok (some duck)
    same : duck.code.as_str ≡ code.as_str

  -- The steps of the funnel, taken apart.
  resolve_any-Found :
      (duck : Duck) (flock : Flock)
      → resolve_any fpe codec raw db ≡ ok (duck, flock)
      → Found duck flock
  unfolding resolve_any
  resolve_any-Found duck flock h =
      let (code, h1, k1) = >>=-eq-ok (map_err (λ _. not_found) (parse_duck raw)) _ h in
      let (prefix, h2, k2) = >>=-eq-ok (expect (flock_code code)) _ k1 in
      let (found, h3, k3) = >>=-eq-ok (map_err repo (flock_by_code prefix db)) _ k2 in
      let (f, h4, k4) = >>=-eq-ok (ok_or found not_found) _ k3 in
      let (seq, h5, k5) =
        >>=-eq-ok (map_err (λ _. not_found) (decode fpe codec f.generation code)) _ k4 in
      let (row, h6, k6) = >>=-eq-ok (map_err repo (by_flock_and_seq f.id seq db)) _ k5 in
      let (d, h7, k7) = >>=-eq-ok (ok_or row not_found) _ k6 in
      let (u, h8, k8) = >>=-eq-ok (guard (text_eq d.code.as_str code.as_str) not_found) _ k7 in
      let whole : Found d f = record {
        code = code;
        prefix = prefix;
        read = map_err-eq-ok (λ _. not_found) (parse_duck raw) h1;
        headed = expect-eq-ok (flock_code code) h2;
        flocked =
            map_err-eq-ok repo (flock_by_code prefix db) h3
            ∙ ap ok (ok_or-eq-ok found not_found h4);
        seq = seq;
        decoded = map_err-eq-ok (λ _. not_found) (decode fpe codec f.generation code) h5;
        stored =
            map_err-eq-ok repo (by_flock_and_seq f.id seq db) h6
            ∙ ap ok (ok_or-eq-ok row not_found h7);
        same = text_eq_sound _ _ (guard-eq-ok (text_eq d.code.as_str code.as_str) not_found h8);
      } in
      subst (λ (p : Duck × Flock). Found p.0 p.1) (ok_injective k8) whole

  -- What a duck and a flock that the funnel gives are.
  pub record Resolved (duck : Duck) (flock : Flock) : Type 0 where
    pub read : parse_duck raw ≡ ok duck.code
    pub range : IsSeq duck.seq
    pub coded : encode fpe codec flock.generation flock.code duck.seq ≡ ok duck.code
    pub seated : exists (λ r. r.id == duck.id && r.flock_id == flock.id) db.ducks ≡ true
    pub owned : exists (λ r. r.id == flock.id && r.owner_user_id == flock.owner) db.flocks ≡ true

  decoded-encoded :
      (g : KeyGeneration) (code : DuckCode) (prefix : FlockCode) (seq : FlockSeq)
      → ((ds : List ℕ) × IsDuckCode code ds)
      → flock_code code ≡ some prefix
      → decode fpe codec g code ≡ ok seq
      → IsSeq seq × (encode fpe codec g prefix seq ≡ ok code)
  decoded-encoded g code prefix seq (ds, valid) head back =
      elim (Option-cases (get g codec.ciphers)) [
        | inl e ↦
            let (_, lost) = unknown_generation_reported fpe codec g prefix seq code ds e valid in
            absurd cc
        | inr (c, e) ↦
            let (f, head', outcome) = decode-valid fpe codec g c e code ds valid in
            let (range, made) = subst (Decodes fpe codec g c e code f) back outcome in
            let same : f ≡ prefix = Laws.some_injective (sym head' ∙ head) in
            (range, subst (λ x. encode fpe codec g x seq ≡ ok code) same made)
      ]

  -- A duck that the validation funnel gives for a text has the code that the text parses to, and
  -- that is the code that minting gives to the duck's number in the flock, under the flock's
  -- prefix and generation; the duck is stored in the flock, and the flock with its owner.
  pub resolve_any_sound :
      (duck : Duck) (flock : Flock)
      → resolve_any fpe codec raw db ≡ ok (duck, flock)
      → Resolved duck flock
  unfolding flock_by_code by_flock_and_seq
  resolve_any_sound duck flock h =
      let w = resolve_any-Found duck flock h in
      let coded_as : w.code ≡ duck.code = λ i. record { as_str = sym w.same i } in
      let (fr, stored, read) =
        traverse-find try_flock (λ r. text_eq r.flock_code w.prefix.as_str) db.flocks flock
          w.flocked in
      let (parsed, fid, owner) = try_flock-parts fr flock read in
      let spelt =
        text_eq_sound _ _
          (Laws.find_sound (λ r. text_eq r.flock_code w.prefix.as_str) db.flocks fr stored) in
      let (ds, valid) = flock_code-IsFlockCode w.code w.prefix w.headed in
      let prefixed = flock_of-prefix w.prefix ds fr.flock_code flock.code valid spelt parsed in
      let (dr, seat, dread) =
        traverse-find try_duck (λ r. r.flock_id == flock.id && r.flock_seq == w.seq.get) db.ducks
          duck w.stored in
      let (numbered, did) = try_duck-parts dr duck dread in
      let at =
        Laws.find_sound (λ r. r.flock_id == flock.id && r.flock_seq == w.seq.get) db.ducks dr
          seat in
      let (same_number, _, _) = new_seq_range dr.flock_seq duck.seq numbered in
      let (in_flock, seq_at) = both at in
      let number : w.seq.get ≡ duck.seq.get = sym (==→eq _ _ seq_at) ∙ sym same_number in
      let seq : w.seq ≡ duck.seq = λ i. record { get = number i } in
      let spells = subst ParsesToDuck w.read (parse_duck_sound raw) in
      let (range, made) =
        decoded-encoded flock.generation w.code w.prefix w.seq spells w.headed w.decoded in
      record {
        read = w.read ∙ ap ok coded_as;
        range = subst IsSeq seq range;
        coded =
            subst (λ s. encode fpe codec flock.generation flock.code s ≡ ok duck.code) seq
              (subst (λ f. encode fpe codec flock.generation f w.seq ≡ ok duck.code) (sym prefixed)
                (made ∙ ap ok coded_as));
        seated =
            Laws.found-exists _ (λ r. r.id == duck.id && r.flock_id == flock.id) db.ducks dr seat
              (and_true (eq→== _ _ (sym did)) in_flock);
        owned =
            Laws.found-exists _ (λ r. r.id == flock.id && r.owner_user_id == flock.owner) db.flocks
              fr stored (and_true (eq→== _ _ (sym fid)) (eq→== _ _ (sym owner)));
      }
