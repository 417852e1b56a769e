-- ===== src/Web/Flock/Register/Kept.antt =====
-- What the statements of crates/storage/src/repos.rs do to the register of ducks.
use duck_voyage.Prelude.{
  ◌≡◌, refl, ℕ, suc, ◌<◌, ◌≤◌, ◌^◌, Bool, true, false, Option, some, List, [], ◌∷◌, ◌++◌, ◌==◌, All,
  All-append, arith, subst, sym, ap, ◌∙◌, ltb,
}
use duck_voyage.Prelude.Results.{ok, ok_injective}
use duck_voyage.Prelude.Text.{Text, text_eq}
use duck_voyage.Prelude.Tables.{find, exists, delete, update}
use duck_voyage.Prelude.Tables.Laws
use duck_voyage.Domain.Codes.{KeyGeneration, FlockSeq, DuckCode, chars_of}
use duck_voyage.Domain.Codec.{Ff1, DuckCodec, get}
use duck_voyage.Domain.Codec.RoundTrip.{new_seq_range}
use duck_voyage.Domain.BoundedText.{FlockLabel}
use duck_voyage.Domain.Entities.{Key, Flock}
use duck_voyage.Storage.Rows.{DuckRow, FlockRow, UserRow, try_flock}
use duck_voyage.Storage.Db.{Db}
use duck_voyage.Storage.Kept.{with_flock, with_duck, draw_flock-kept, mint_batch-kept}
use duck_voyage.Storage.Flocks.{create_flock}
use duck_voyage.Storage.Flocks.Draw.{IsParsedLabel, column, created, try_flock-created}
use duck_voyage.Storage.Ducks.{Entry, new_row, mint_batch}
use duck_voyage.Storage.Ducks.Made.{Made}
use duck_voyage.Storage.Readable.Calls.{AreDraws, spelt-eq}
use duck_voyage.Web.Flock.{mintable}
use duck_voyage.Web.Flock.Registry.{made}
use duck_voyage.Web.Flock.Register.{
  Differ, Sparse-delete, Sparse-snoc, Sparse-id, Rooted, Coded, Seated, RegisterOf, Register,
}

module _ (fpe : Ff1) (codec : DuckCodec fpe) where
  pub grow :
      (n m : Key) (fs : List FlockRow) (ds : List DuckRow)
      → n ≤ m
      → RegisterOf fpe codec n fs ds
      → RegisterOf fpe codec m fs ds
  grow n m fs ds low (sparse, flocks, ducks) = (
    sparse,
    Laws.All-map fs (λ f (h, root). (omega arith, root)) flocks,
    Laws.All-map ds (λ d (h, seats). (omega arith, seats)) ducks,
  )

  pub prune :
      (p : FlockRow → Bool) (q : DuckRow → Bool) (n : Key) (fs : List FlockRow) (ds : List DuckRow)
      → RegisterOf fpe codec n fs ds
      → RegisterOf fpe codec n (delete p fs) (delete q ds)
  prune p q n fs ds (sparse, flocks, ducks) = (
    Sparse-delete p fs sparse,
    Laws.All-delete p fs (λ f h _. h) flocks,
    Laws.All-delete q ds (λ d (h, seats) _. (h, Laws.All-delete p fs (λ f k _. k) seats)) ducks,
  )

  pub amend :
      (test : DuckRow → Bool) (g : DuckRow → DuckRow) (n : Key) (fs : List FlockRow)
      (ds : List DuckRow)
      → ((d : DuckRow) → Seated fpe codec n fs d → Seated fpe codec n fs (g d))
      → RegisterOf fpe codec n fs ds
      → RegisterOf fpe codec n fs (update test g ds)
  amend test g n fs ds keeps (sparse, flocks, ducks) =
      (sparse, flocks, Laws.All-update test g ds (λ d h. h) (λ d h _. keeps d h) ducks)

  seat :
      (n : Key) (fs : List FlockRow) (ds : List DuckRow) (d : DuckRow)
      → Seated fpe codec n fs d
      → RegisterOf fpe codec n fs ds
      → RegisterOf fpe codec n fs (ds ++ d ∷ [])
  seat n fs ds d h (sparse, flocks, ducks) = (sparse, flocks, All-append _ ds _ ducks (h, tt))

  differs :
      (n : Key) (fs : List FlockRow) (r : FlockRow)
      → r.id ≡ n
      → All (λ f. (f.id < n) × Rooted fpe codec f) fs
      → exists (λ f. text_eq f.flock_code r.flock_code) fs ≡ false
      → All (λ f. Differ f r) fs
  differs n [] r e flocks unused = tt
  differs n (f ∷ fs) r e ((low, _), flocks) unused =
      ((ground arith, ground arith), differs n fs r e flocks (ground arith))

  plant :
      (n : Key) (fs : List FlockRow) (ds : List DuckRow) (r : FlockRow)
      → r.id ≡ n
      → Rooted fpe codec r
      → exists (λ f. text_eq f.flock_code r.flock_code) fs ≡ false
      → RegisterOf fpe codec n fs ds
      → RegisterOf fpe codec (suc n) (fs ++ r ∷ []) ds
  plant n fs ds r e root unused (sparse, flocks, ducks) = (
    Sparse-snoc fs r sparse (differs n fs r e flocks unused),
    Laws.All-snoc fs r (λ f (h, k). (omega arith, k)) flocks (omega arith, root),
    Laws.All-map ds
        (λ d (h, seats). (omega arith, All-append _ fs _ seats ((λ k. absurd (ground arith)), tt)))
        ducks,
  )

  pub create_flock-Register :
      (draw : ℕ → List ℕ) (owner : Key) (generation : KeyGeneration) (label : Option FlockLabel)
      (db : Db)
      → AreDraws draw
      → IsParsedLabel label
      → (c : fpe.Cipher) → get generation codec.ciphers ≡ some c
      → Register fpe codec db
      → Register fpe codec (create_flock draw owner generation label db).1
  unfolding create_flock
  create_flock-Register draw owner generation label db drawn parsed c known =
      draw_flock-kept (Register fpe codec) draw owner generation (column label) row 64 db
    where
      row :
          (k : ℕ) (candidate : Text) (db : Db)
          → chars_of (draw k) ≡ some candidate
          → ltb generation (2 ^ 15) ≡ true
          → exists (λ (r : FlockRow). text_eq r.flock_code candidate) db.flocks ≡ false
          → exists (λ (u : UserRow). u.id == owner) db.users ≡ true
          → Register fpe codec db
          → Register fpe codec (with_flock candidate generation owner (column label) db)
      row k candidate db e g unused user h =
          let small : generation < 2 ^ 15 = ground arith in
          let same = spelt-eq draw k candidate (drawn k).0 e in
          let new : FlockRow = record {
            id = db.next_id;
            flock_code = candidate;
            key_generation = generation;
            owner_user_id = owner;
            label = column label;
            created_at = db.now;
          } in
          let root : Rooted fpe codec new = record {
            flock = created owner generation label db candidate;
            read =
                subst
                  (λ t.
                    try_flock (record new { flock_code = t })
                    ≡ ok (created owner generation label db t))
                  same (try_flock-created draw drawn owner generation small label parsed db user k);
            same_id = refl;
            spelt = refl;
            keyed = record {
              prefix = draw k;
              valid = record { digits = (drawn k).0; size = (drawn k).1; shown = sym same };
              cipher = c;
              known = known;
            };
          } in
          plant db.next_id db.flocks db.ducks new refl root unused h

  -- The closure of `mint` for the stored flock of an id.
  abbrev pub Mints : Key → (FlockSeq → Option DuckCode) → Db → Type 0
  Mints flock encode db =
      (r : FlockRow) × (f : Flock) × (find (λ x. x.id == flock) db.flocks ≡ some r)
      × (try_flock r ≡ ok f)
      × (encode ≡ mintable fpe codec f)

  pub mint_batch-Register :
      (flock : Key) (amount : ℕ) (encode : FlockSeq → Option DuckCode) (db : Db)
      → Mints flock encode db
      → Register fpe codec db
      → Register fpe codec (mint_batch flock amount encode db).1
  mint_batch-Register flock amount encode db (r, f, found, read, closure) h =
      (mint_batch-kept (λ later. Register fpe codec later × (later.flocks ≡ db.flocks)) flock encode
        row amount db (h, refl)).0
    where
      row :
          (entry : Entry) (later : Db)
          → Made encode entry
          → exists (λ (x : FlockRow). x.id == flock) later.flocks ≡ true
          → Register fpe codec later × (later.flocks ≡ db.flocks)
          → Register fpe codec (with_duck flock entry later) × (later.flocks ≡ db.flocks)
      row entry later (numbered, coded) known (register, same) =
          let find_later = subst (λ fs. find (λ x. x.id == flock) fs ≡ some r) (sym same) found in
          let (low, root) =
            Laws.find-All (λ x. x.id == flock) (λ x. (x.id < later.next_id) × Rooted fpe codec x)
              later.flocks r register.1 find_later in
          let at = Laws.find_sound (λ x. x.id == flock) later.flocks r find_later in
          let one = ok_injective (sym read ∙ root.read) in
          let (number, lo, hi) = new_seq_range entry.0.get entry.0 numbered in
          let minted =
            made fpe codec root.flock root.keyed entry.0 entry.1 (
              subst (λ e. e entry.0 ≡ some entry.1) (closure ∙ ap (mintable fpe codec) one)
                coded) in
          let seats : All
              (λ x. (x.id == flock) ≡ true → Coded fpe codec (new_row flock entry later) x)
              later.flocks =
            Laws.All-map later.flocks
              (λ x only at.
                subst (Coded fpe codec (new_row flock entry later)) (sym (only at))
                  (root, entry.0, record { low = lo; high = hi }, refl, minted))
              (Sparse-id flock later.flocks r register.0 find_later) in
          (
            grow later.next_id (suc later.next_id) later.flocks _ (omega arith) (
                seat later.next_id later.flocks later.ducks (new_row flock entry later)
                  (ground arith, seats) register),
            same,
          )
