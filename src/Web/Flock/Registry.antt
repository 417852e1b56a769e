-- ===== src/Web/Flock/Registry.antt =====
-- A request to mint into a registry of honestly minted ducks (crates/web/src/handlers/flock.rs and
-- `DuckRepo::mint_batch`).
use duck_voyage.Prelude.{
  ℕ, suc, ◌+◌, ◌≤◌, ◌≡◌, refl, sym, ap, ◌∙◌, subst, Bool, true, false, Option, some, List, All,
  arith, ◌==◌, [], ◌∷◌,
}
use duck_voyage.Prelude.Results.{Res, ok, to_option}
use duck_voyage.Prelude.Text.{text_eq, text_eq_sound}
use duck_voyage.Prelude.Tables.{exists}
use duck_voyage.Domain.Codes.{FlockSeq, DuckCode, seq_max, flock_code}
use duck_voyage.Domain.Codes.Laws.{IsFlockCode}
use duck_voyage.Domain.Codec.{Ff1, DuckCodec, encode, get}
use duck_voyage.Domain.Codec.RoundTrip.{IsSeq, decode-encode, encode_injective}
use duck_voyage.Domain.Entities.{Flock}
use duck_voyage.Storage.Rows.{DuckRow}
use duck_voyage.Storage.Db.{Db}
use duck_voyage.Storage.Ducks.{mint_loop}
use duck_voyage.Storage.Ducks.Uniqueness.{
  Distinct, Registered, Inserts, highest, mint_loop-insert_ducks,
}
use duck_voyage.Web.Flock.{mintable}
use duck_voyage.Web.Flock.Minting.{clean_code-some}

module _ (fpe : Ff1) (codec : DuckCodec fpe) where
  -- A flock with a valid prefix and a generation whose key is known.
  pub record Keyed (flock : Flock) : Type 0 where
    pub prefix : List ℕ
    pub valid : IsFlockCode flock.code prefix
    pub cipher : fpe.Cipher
    pub known : get flock.generation codec.ciphers ≡ some cipher

  -- A row as minting leaves it: its code is the one of its flock and number. `flock` is the only flock
  -- of its prefix.
  pub record Minted (flock : Flock) (r : DuckRow) : Type 0 where
    pub home : Flock
    pub keyed : Keyed home
    pub seq : FlockSeq
    pub range : IsSeq seq
    pub at_home : r.flock_id ≡ home.id
    pub numbered : r.flock_seq ≡ seq.get
    pub coded : encode fpe codec home.generation home.code seq ≡ ok (record { as_str = r.code })
    pub only : home.code ≡ flock.code → home ≡ flock

  mintable-encode :
      (flock : Flock) (s : FlockSeq) (c : DuckCode)
      → mintable fpe codec flock s ≡ some c
      → to_option (encode fpe codec flock.generation flock.code s) ≡ some c
  unfolding mintable
  mintable-encode flock s c h =
      (clean_code-some fpe codec flock (to_option (encode fpe codec flock.generation flock.code s))
        c h).1

  to_option-ok : {E A : Type 0} (r : Res E A) (a : A) → to_option r ≡ some a → r ≡ ok a
  to_option-ok (ok x) a h = cc
  to_option-ok (Res.err e) a h = cc
  to_option-ok Res.panic a h = cc

  module _ (flock : Flock) (keyed : Keyed flock) where
    same_code : (c c' : DuckCode) → text_eq c.as_str c'.as_str ≡ true → c ≡ c'
    same_code c c' h = λ i. record { as_str = text_eq_sound c.as_str c'.as_str h i }

    pub made :
        (s : FlockSeq) (c : DuckCode)
        → mintable fpe codec flock s ≡ some c
        → encode fpe codec flock.generation flock.code s ≡ ok c
    made s c h = to_option-ok _ c (mintable-encode flock s c h)

    mintable-Distinct : Distinct flock.id (mintable fpe codec flock)
    mintable-Distinct s s' c c' range range' h h' e =
        let (_, same) =
          encode_injective fpe codec flock.generation keyed.cipher keyed.known flock.code flock.code
            keyed.prefix keyed.prefix s s' c keyed.valid keyed.valid range range' (made s c h)
            (made s' c' h' ∙ ap ok (sym (same_code c c' e))) in
        ap (λ (x : FlockSeq). x.get) same

    -- The prefix of a code of a keyed flock is the flock's.
    headed :
        (home : Flock) (s : FlockSeq) (c : DuckCode)
        → Keyed home
        → IsSeq s
        → encode fpe codec home.generation home.code s ≡ ok c
        → flock_code c ≡ some home.code
    headed home s c key range e =
        let (a, found, head, _) =
          decode-encode fpe codec home.generation key.cipher key.known home.code key.prefix s
            key.valid range in
        ap flock_code (ok_same (sym e ∙ found)) ∙ head
      where
        ok_same : {E A : Type 0} {a b : A} → ◌≡◌ {A = Res E A} (ok a) (ok b) → a ≡ b
        ok_same h = duck_voyage.Prelude.Results.ok_injective h

    Minted-Registered :
        (r : DuckRow) → Minted flock r → Registered flock.id (mintable fpe codec flock) r
    Minted-Registered r m s c range h e =
        let stored : DuckCode = record { as_str = r.code } in
        let same = same_code stored c e in
        let here : flock_code c ≡ some m.home.code =
          sym (ap flock_code same) ∙ headed m.home m.seq stored m.keyed m.range m.coded in
        let there = headed flock s c keyed range (made s c h) in
        let one = m.only (some_same (sym here ∙ there)) in
        let mine =
          subst (λ (f : Flock). encode fpe codec f.generation f.code m.seq ≡ ok stored) one
            m.coded in
        let (_, numbers) =
          encode_injective fpe codec flock.generation keyed.cipher keyed.known flock.code flock.code
            keyed.prefix keyed.prefix m.seq s c keyed.valid keyed.valid m.range range
            (mine ∙ ap ok same) (made s c h) in
        (
          m.at_home ∙ ap (λ (f : Flock). f.id) one,
          m.numbered ∙ ap (λ (x : FlockSeq). x.get) numbers,
        )
      where
        some_same : {A : Type 0} {a b : A} → some a ≡ some b → a ≡ b
        some_same h = cc

    Minted-Registered_all :
        (rows : List DuckRow)
        → All (Minted flock) rows
        → All (Registered flock.id (mintable fpe codec flock)) rows
    Minted-Registered_all [] h = tt
    Minted-Registered_all (r ∷ rows) (m, h) = (Minted-Registered r m, Minted-Registered_all rows h)

    -- Among ducks that were all minted, of flocks with known keys and different prefixes, and with
    -- numbers in range, minting by the closure of the handler `mint` into a stored flock violates
    -- no constraint of the tables: the labels are inserted, unless the flock is full.
    pub mint-Inserts :
        (amount : ℕ) (db : Db)
        → exists (λ f. f.id == flock.id) db.flocks ≡ true
        → All (Minted flock) db.ducks
        → highest flock.id db.ducks ≤ seq_max
        → Inserts flock.id db (
            mint_loop
              (suc seq_max)
              (mintable fpe codec flock)
              amount
              (highest flock.id db.ducks + 1))
    mint-Inserts amount db stored minted bounded =
        mint_loop-insert_ducks flock.id (mintable fpe codec flock) mintable-Distinct amount db
          stored (Minted-Registered_all db.ducks minted) bounded
