-- ===== src/Web/Flock/Register.antt =====
-- The ducks of crates/storage/src/repos.rs as a register of the codes that the handler `mint` of
-- crates/web/src/handlers/flock.rs gave out: what the tables hold of it.
pub mod Kept
pub mod History
pub mod Outcome
use duck_voyage.Prelude.{
  ◌≡◌, refl, ℕ, ◌<◌, ◌≤◌, Bool, true, false, some, List, [], ◌∷◌, ◌++◌, ◌==◌, ◌&&◌, All, Bool-cases,
  inl, inr, arith, subst, sym, ap, ◌∙◌, ltb, ==→eq,
}
use duck_voyage.Prelude.Results.{ok, ok_injective}
use duck_voyage.Prelude.Text.{Text, text_eq, text_eq_sound, text_eq_refl}
use duck_voyage.Prelude.Tables.{find, exists, delete, max_of}
use duck_voyage.Prelude.Tables.Laws
use duck_voyage.Domain.Codes.{FlockSeq, seq_max}
use duck_voyage.Domain.Codec.{Ff1, DuckCodec, encode}
use duck_voyage.Domain.Codec.RoundTrip.{IsSeq}
use duck_voyage.Domain.Entities.{Key, Flock}
use duck_voyage.Storage.Rows.{DuckRow, FlockRow, try_flock}
use duck_voyage.Storage.Db.{Db}
use duck_voyage.Storage.Ducks.Uniqueness.{highest}
use duck_voyage.Storage.Integrity.{Intact}
use duck_voyage.Web.Flock.Registry.{Keyed, Minted}

-- Two rows of different ids and prefixes.
abbrev pub Differ : FlockRow → FlockRow → Type 0
Differ f g = ((g.id == f.id) ≡ false) × (text_eq f.flock_code g.flock_code ≡ false)

abbrev pub Sparse : List FlockRow → Type 0
Sparse [] = Unit
Sparse (f ∷ fs) = All (Differ f) fs × Sparse fs

pub Sparse-delete :
    (test : FlockRow → Bool) (fs : List FlockRow) → Sparse fs → Sparse (delete test fs)
Sparse-delete test [] h = tt
Sparse-delete test (f ∷ fs) (here, h) = elim (Bool-cases (test f)) [
  | inl t ↦ rw t (Sparse-delete test fs h)
  | inr t ↦ rw t (Laws.All-delete test fs (λ g d e. d) here, Sparse-delete test fs h)
]

pub Sparse-snoc :
    (fs : List FlockRow) (g : FlockRow)
    → Sparse fs
    → All (λ f. Differ f g) fs
    → Sparse (fs ++ g ∷ [])
Sparse-snoc [] g h d = (tt, tt)
Sparse-snoc (f ∷ fs) g (here, h) (differ, d) =
    (Laws.All-snoc fs g (λ x e. e) here differ, Sparse-snoc fs g h d)

-- The row found under an id is the only one with it.
pub Sparse-id :
    (id : Key) (fs : List FlockRow) (r : FlockRow)
    → Sparse fs
    → find (λ f. f.id == id) fs ≡ some r
    → All (λ f. (f.id == id) ≡ true → f ≡ r) fs
Sparse-id id [] r h e = tt
Sparse-id id (f ∷ fs) r (here, h) e = elim (Bool-cases (f.id == id)) [
  | inl t ↦
      let same : some f ≡ some r = rw t at e in
      (λ _. Laws.some_injective same, Laws.All-map fs (λ g d k. absurd (ground arith)) here)
  | inr t ↦
      let later : find (λ f. f.id == id) fs ≡ some r = rw t at e in
      (λ k. absurd (ground arith), Sparse-id id fs r h later)
]

clash : (x f g : FlockRow) → x ≡ f → Differ x g → text_eq f.flock_code g.flock_code ≡ true → ⊥
clash x f g e (_, d) s =
    let never = subst (λ r. text_eq r.flock_code g.flock_code ≡ false) e d in cc

-- Rows that are found, with one prefix, are one.
pub Sparse-code :
    (p q : FlockRow → Bool) (fs : List FlockRow) (f g : FlockRow)
    → Sparse fs
    → find p fs ≡ some f
    → find q fs ≡ some g
    → text_eq f.flock_code g.flock_code ≡ true
    → f ≡ g
Sparse-code p q [] f g h e k s = cc
Sparse-code p q (x ∷ fs) f g (here, h) e k s = elim (Bool-cases (p x)) [
  | inl t ↦ elim (Bool-cases (q x)) [
    | inl u ↦
        let a : some x ≡ some f = rw t at e in
        let b : some x ≡ some g = rw u at k in Laws.some_injective (sym a ∙ b)
    | inr u ↦
        let a : some x ≡ some f = rw t at e in
        let b : find q fs ≡ some g = rw u at k in
        absurd (clash x f g (Laws.some_injective a) (Laws.find-All q (Differ x) fs g here b) s)
  ]
  | inr t ↦ elim (Bool-cases (q x)) [
    | inl u ↦
        let a : find p fs ≡ some f = rw t at e in
        let b : some x ≡ some g = rw u at k in
        absurd (
          clash x g f (Laws.some_injective b) (Laws.find-All p (Differ x) fs f here a) (
            subst (λ t. text_eq t f.flock_code ≡ true) (text_eq_sound _ _ s)
              (text_eq_refl f.flock_code)))
    | inr u ↦
        let a : find p fs ≡ some f = rw t at e in
        let b : find q fs ≡ some g = rw u at k in Sparse-code p q fs f g h a b s
  ]
]

module _ (fpe : Ff1) (codec : DuckCodec fpe) where
  -- A row of a flock with a known key, and the flock.
  pub record Rooted (r : FlockRow) : Type 0 where
    pub flock : Flock
    pub read : try_flock r ≡ ok flock
    pub same_id : flock.id ≡ r.id
    pub spelt : flock.code.as_str ≡ r.flock_code
    pub keyed : Keyed fpe codec flock

  -- The code of a duck is the one of its number in a flock.
  abbrev pub Coded : DuckRow → FlockRow → Type 0
  Coded d r =
      (rooted : Rooted r) × (s : FlockSeq) × IsSeq s
      × (d.flock_seq ≡ s.get)
      × (encode fpe codec rooted.flock.generation rooted.flock.code s
          ≡ ok (record { as_str = d.code }))

  -- A duck has a code of its flock.
  abbrev pub Seated : Key → List FlockRow → DuckRow → Type 0
  Seated next flocks d =
      (d.flock_id < next) × All (λ f. (f.id == d.flock_id) ≡ true → Coded d f) flocks

  abbrev pub RegisterOf : Key → List FlockRow → List DuckRow → Type 0
  RegisterOf next flocks ducks =
      Sparse flocks × All (λ f. (f.id < next) × Rooted f) flocks × All (Seated next flocks) ducks

  abbrev pub Register : Db → Type 0
  Register db = RegisterOf db.next_id db.flocks db.ducks

  module _ (db : Db) (intact : Intact db) (register : Register db) (stored : FlockRow)
      (root : Rooted stored)
      (found : find (λ f. f.id == root.flock.id) db.flocks ≡ some stored) where
    home_code :
        (f : FlockRow) (rooted : Rooted f)
        → rooted.flock.code ≡ root.flock.code
        → text_eq f.flock_code stored.flock_code ≡ true
    home_code f rooted e =
        let same = sym rooted.spelt ∙ ap (λ c. c.as_str) e ∙ root.spelt in
        subst (λ t. text_eq f.flock_code t ≡ true) same (text_eq_refl f.flock_code)

    Seated-Minted :
        (d : DuckRow)
        → exists (λ f. f.id == d.flock_id) db.flocks ≡ true
        → Seated db.next_id db.flocks d
        → Minted fpe codec root.flock d
    Seated-Minted d has (low, seats) =
        let (f, here) = Laws.find-some (λ f. f.id == d.flock_id) db.flocks has in
        let at = Laws.find_sound (λ f. f.id == d.flock_id) db.flocks f here in
        let (rooted, s, range, numbered, coded) =
          Laws.find-All (λ f. f.id == d.flock_id) (λ f. (f.id == d.flock_id) ≡ true → Coded d f)
            db.flocks f seats here at in
        record {
          home = rooted.flock;
          keyed = rooted.keyed;
          seq = s;
          range = range;
          at_home = sym (==→eq _ _ at) ∙ sym rooted.same_id;
          numbered = numbered;
          coded = coded;
          only = λ e.
              let one =
                Sparse-code _ _ db.flocks f stored register.0 here found (home_code f rooted e) in
              ok_injective (sym rooted.read ∙ ap try_flock one ∙ root.read);
        }

  -- The number of a duck is in range.
  pub Seated-bounded :
      (next : Key) (flocks : List FlockRow) (d : DuckRow)
      → exists (λ f. f.id == d.flock_id) flocks ≡ true
      → Seated next flocks d
      → d.flock_seq ≤ seq_max
  Seated-bounded next flocks d has (low, seats) =
      let (f, here) = Laws.find-some (λ f. f.id == d.flock_id) flocks has in
      let at = Laws.find_sound (λ f. f.id == d.flock_id) flocks f here in
      let (rooted, s, range, numbered, coded) =
        Laws.find-All (λ f. f.id == d.flock_id) (λ f. (f.id == d.flock_id) ≡ true → Coded d f)
          flocks f seats here at in
      let high = range.high in omega arith
