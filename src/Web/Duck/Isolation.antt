-- ===== src/Web/Duck/Isolation.antt =====
-- The moderation handlers of crates/web/src/handlers/duck.rs: what a user who is no administrator can reach
-- by them.
use duck_voyage.Prelude.{
  ◌≡◌, refl, ap, sym, subst, ◌∙◌, arith, Bool, true, false, not, Option, none, some, Option-cases,
  List, [], ◌∷◌, ◌==◌, ◌&&◌, Bool-cases, inl, inr, ==→eq,
}
use duck_voyage.Prelude.Results.{Res, map_err, ok, err, panic, guard, >>=-eq-ok}
use duck_voyage.Prelude.Text.{Text}
use duck_voyage.Prelude.Exec.{continue, pure, lift, ◌>>◌}
use duck_voyage.Prelude.Tables.{select, delete, update, exists}
use duck_voyage.Prelude.Tables.Laws
use duck_voyage.Domain.Codec.{Ff1, DuckCodec}
use duck_voyage.Domain.Entities.{Key, Duck, Flock, is_deleted, is_sailing}
use duck_voyage.Storage.Rows.{DuckRow}
use duck_voyage.Storage.Db.{Db, Repo}
use duck_voyage.Storage.Ducks
use duck_voyage.Storage.Sightings
use duck_voyage.Storage.Social
use duck_voyage.Web.State.{WebError, not_found, User, Env, App, World, Handler, run, repo}
use duck_voyage.Web.Duck.{resolve_any, resolve, resolve_sailing, can_moderate}
use duck_voyage.Web.Duck.Funnel.{resolve_any_sound}
use duck_voyage.Web.Duck.Moderation.{
  delete_duck, restore_duck, set_comments_locked, delete_comment, delete_sighting, forget_photo,
}
use duck_voyage.Web.Duck.Handlers.{duck_url}

module _ {ℓ} {A : Type ℓ} (p test : A → Bool) where
  -- Rows that a statement does not select, behind it.
  select-delete :
      (rows : List A)
      → ((r : A) → test r ≡ true → p r ≡ false)
      → select p (delete test rows) ≡ select p rows
  select-delete [] h = refl
  select-delete (r ∷ rows) h = elim (Bool-cases (test r)) [
    | inl t ↦ rw (t, h r t) (select-delete rows h)
    | inr t ↦ elim (Bool-cases (p r)) [
      | inl e ↦ rw (t, e) (ap (λ rest. r ∷ rest) (select-delete rows h))
      | inr e ↦ rw (t, e) (select-delete rows h)
    ]
  ]

  select-update :
      (g : A → A) (rows : List A)
      → ((r : A) → test r ≡ true → (p r ≡ false) × (p (g r) ≡ false))
      → select p (update test g rows) ≡ select p rows
  select-update g [] h = refl
  select-update g (r ∷ rows) h = elim (Bool-cases (test r)) [
    | inl t ↦ let (before, after) = h r t in rw (t, before, after) (select-update g rows h)
    | inr t ↦ elim (Bool-cases (p r)) [
      | inl e ↦ rw (t, e) (ap (λ rest. r ∷ rest) (select-update g rows h))
      | inr e ↦ rw (t, e) (select-update g rows h)
    ]
  ]

first : (a b : Bool) → (a && b) ≡ true → a ≡ true
first a b h = ground arith

second : (a b : Bool) → (a && b) ≡ true → b ≡ true
second a b h = ground arith

and_true : {a b : Bool} → a ≡ true → b ≡ true → (a && b) ≡ true
and_true h k = rw (h, k) refl

owner_of :
    (user : User) (flock : Flock)
    → user.is_admin ≡ false
    → can_moderate user flock ≡ true
    → user.id ≡ flock.owner
owner_of user flock plain h = ground arith

-- A duck, by its id, of a flock that a user owns.
abbrev pub owns : Db → Key → Key → Bool
owns db user flock = exists (λ f. f.id == flock && f.owner_user_id == user) db.flocks

abbrev pub owns_duck : Db → Key → Key → Bool
owns_duck db user id = exists (λ d. d.id == id && owns db user d.flock_id) db.ducks

-- Everything but the ducks of a user's flocks and what hangs off them is as it was. Notifications
-- are not spoken of: `SightingRepo::delete` removes those of any sighting.
pub record Spares (user : Key) (before after : Db) : Type 0 where
  pub users : after.users ≡ before.users
  pub flocks : after.flocks ≡ before.flocks
  pub follows : after.follows ≡ before.follows
  pub ducks :
      select (λ d. not (owns_duck before user d.id)) after.ducks
      ≡ select (λ d. not (owns_duck before user d.id)) before.ducks
  pub comments :
      select (λ c. not (owns_duck before user c.duck_id)) after.comments
      ≡ select (λ c. not (owns_duck before user c.duck_id)) before.comments
  pub sightings :
      select (λ s. not (owns_duck before user s.duck_id)) after.sightings
      ≡ select (λ s. not (owns_duck before user s.duck_id)) before.sightings

Spares-refl : (user : Key) (db : Db) → Spares user db db
Spares-refl user db = record {
  users = refl;
  flocks = refl;
  follows = refl;
  ducks = refl;
  comments = refl;
  sightings = refl;
}

module _ (db : Db) (user duck : Key) (mine : owns_duck db user duck ≡ true) where
  -- A row of the duck is not one of the others.
  hidden : (id : Key) → (id == duck) ≡ true → not (owns_duck db user id) ≡ false
  hidden id e = rw (subst (λ k. owns_duck db user k ≡ true) (sym (==→eq id duck e)) mine) refl

  update_duck-Spares :
      (g : DuckRow → DuckRow)
      → ((r : DuckRow) → (g r).id ≡ r.id)
      → Spares user db (record db { ducks = update (λ r. r.id == duck) g db.ducks })
  update_duck-Spares g same = record {
    users = refl;
    flocks = refl;
    follows = refl;
    ducks =
        select-update _ (λ r. r.id == duck) g db.ducks
          (λ r e. (hidden r.id e, hidden (g r).id (rw (same r, e) refl)));
    comments = refl;
    sightings = refl;
  }

  delete_comment-Spares : (id : Key) → Spares user db (Social.delete_comment id duck db).1
  unfolding Social.delete_comment
  delete_comment-Spares id = record {
    users = refl;
    flocks = refl;
    follows = refl;
    ducks = refl;
    comments =
        select-delete _ (λ r. r.id == id && r.duck_id == duck) db.comments
          (λ r e. hidden r.duck_id (second _ _ e));
    sightings = refl;
  }

  delete_sighting-Spares : (id : Key) → Spares user db (Sightings.delete_sighting id duck db).1
  unfolding Sightings.delete_sighting
  delete_sighting-Spares id = record {
    users = refl;
    flocks = refl;
    follows = refl;
    ducks = refl;
    comments = refl;
    sightings =
        select-delete _ (Sightings.of_duck id duck) db.sightings
          (λ r e. hidden r.duck_id (second _ _ e));
  }

module _ (fpe : Ff1) (codec : DuckCodec fpe) (raw : Text) (db : Db) (user : User)
    (plain : user.is_admin ≡ false) where
  -- A duck that the funnel gives and that the user may moderate is in one of the user's flocks.
  owns-resolved :
      (duck : Duck) (flock : Flock)
      → resolve_any fpe codec raw db ≡ ok (duck, flock)
      → can_moderate user flock ≡ true
      → owns_duck db user.id duck.id ≡ true
  owns-resolved duck flock h allowed =
      let found = resolve_any_sound fpe codec raw db duck flock h in
      let self = owner_of user flock plain allowed in
      let owned : owns db user.id flock.id ≡ true =
        subst (λ k. owns db k flock.id ≡ true) (sym self) found.owned in
      Laws.exists-weaken (λ r. r.id == duck.id && r.flock_id == flock.id) _ db.ducks
        (λ r e.
          and_true (first _ _ e)
            (subst (λ k. owns db user.id k ≡ true) (sym (==→eq _ _ (second _ _ e))) owned))
        found.seated

  resolve-any :
      (found : Duck × Flock)
      → resolve fpe codec raw db ≡ ok found
      → resolve_any fpe codec raw db ≡ ok found
  unfolding resolve
  resolve-any found h =
      let (f, h1, k1) = >>=-eq-ok (resolve_any fpe codec raw db) _ h in
      let (u, h2, k2) = >>=-eq-ok (guard (not (is_deleted f.0)) not_found) _ k1 in h1 ∙ k2

  resolve_sailing-any :
      (found : Duck × Flock)
      → resolve_sailing fpe codec raw db ≡ ok found
      → resolve_any fpe codec raw db ≡ ok found
  unfolding resolve_sailing
  resolve_sailing-any found h =
      let (f, h1, k1) = >>=-eq-ok (resolve fpe codec raw db) _ h in
      let (u, h2, k2) = >>=-eq-ok (guard (is_sailing f.0.lifecycle) not_found) _ k1 in
      resolve-any found (h1 ∙ k2)

module _ (env : Env) (app : App env) (user : User) (plain : user.is_admin ≡ false)
    (w : World env) where
  open env use {fpe}

  -- A handler whose funnel gives a duck only if `resolve_any` does, and that asks next whether the
  -- user may moderate the flock.
  guarded :
      {A : Type 0} (raw : Text) (r : Res WebError (Duck × Flock))
      (body : Duck × Flock → Handler env A)
      → ((f : Duck × Flock) → r ≡ ok f → resolve_any fpe app.codec raw w.db ≡ ok f)
      → ((f : Duck × Flock)
          → owns_duck w.db user.id f.0.id ≡ true
          → Spares user.id w.db (body f w).1.db)
      → Spares user.id w.db
          (continue r (λ f. lift (guard (can_moderate user f.1) not_found) >> body f) w).1.db
  guarded raw (ok f) body any spares = elim (Bool-cases (can_moderate user f.1)) [
    | inl e ↦
        rw e (spares f (owns-resolved fpe app.codec raw w.db user plain f.0 f.1 (any f refl) e))
    | inr e ↦ rw e (Spares-refl user.id w.db)
  ]
  guarded raw (err e) body any spares = Spares-refl user.id w.db
  guarded raw panic body any spares = Spares-refl user.id w.db

  -- The rest of a handler that leaves the tables.
  rest-Spares :
      {A B : Type 0} (r : Res WebError A) (rest : A → Handler env B) (w' : World env)
      → ((a : A) → (rest a w').1.db ≡ w'.db)
      → Spares user.id w.db w'.db
      → Spares user.id w.db (continue r rest w').1.db
  rest-Spares (ok a) rest w' same h = subst (Spares user.id w.db) (sym (same a)) h
  rest-Spares (err e) rest w' same h = h
  rest-Spares panic rest w' same h = h

  run-Spares :
      {A B : Type 0} (m : Repo A) (b : B)
      → Spares user.id w.db (m w.db).1
      → Spares user.id w.db ((run env m >> pure b) w).1.db
  run-Spares m b h =
      rest-Spares (map_err repo (m w.db).0) (λ _. pure b) (record w { db = (m w.db).1 }) (λ a. refl)
        h

  forgotten :
      {B : Type 0} (b : B) (o : Option (Option Text)) (w' : World env)
      → ((forget_photo env app o >> pure b) w').1.db ≡ w'.db
  forgotten b none w' = refl
  forgotten b (some none) w' = refl
  forgotten b (some (some key)) w' =
      elim (Option-cases (env.store_delete (record { as_str = key }) w'.store)) [
        | inl e ↦ rw (e, forget_photo) refl
        | inr (store, e) ↦ rw (e, forget_photo) refl
      ]

  -- Whatever text, comment and sighting are named, a request of a user who is no administrator to
  -- delete or restore a duck, to lock or unlock its comments, or to delete a comment or a sighting
  -- leaves users, flocks and follows as they are, and every duck that is not of a flock of this
  -- user, with the comments and sightings on it.
  pub moderation-Spares :
      (raw : Text) (id : Key) (locked : Bool)
      → Spares user.id w.db (delete_duck env app raw user w).1.db
        × Spares user.id w.db (restore_duck env app raw user w).1.db
        × Spares user.id w.db (set_comments_locked env app raw user locked w).1.db
        × Spares user.id w.db (delete_comment env app raw id user w).1.db
        × Spares user.id w.db (delete_sighting env app raw id user w).1.db
  unfolding delete_duck restore_duck set_comments_locked delete_comment delete_sighting
      Ducks.set_deleted Ducks.set_comments_locked Ducks.update_duck
  moderation-Spares raw id locked =
      let any = resolve-any fpe app.codec raw w.db user plain in
      let sailing = resolve_sailing-any fpe app.codec raw w.db user plain in
      let found = resolve_any fpe app.codec raw w.db in
      (
        guarded raw found _ (λ f h. h)
            (λ f mine.
              run-Spares (Ducks.set_deleted f.0.id true) _
                (update_duck-Spares w.db user.id f.0.id mine _ (λ r. refl))),
        guarded raw found _ (λ f h. h)
            (λ f mine.
              run-Spares (Ducks.set_deleted f.0.id false) _
                (update_duck-Spares w.db user.id f.0.id mine _ (λ r. refl))),
        guarded raw (resolve fpe app.codec raw w.db) _ any (λ f mine.
            run-Spares (Ducks.set_comments_locked f.0.id locked) _
              (update_duck-Spares w.db user.id f.0.id mine _ (λ r. refl))),
        guarded raw (resolve_sailing fpe app.codec raw w.db) _ sailing (λ f mine.
            run-Spares (Social.delete_comment id f.0.id) _
              (delete_comment-Spares w.db user.id f.0.id mine id)),
        guarded raw (resolve_sailing fpe app.codec raw w.db) _ sailing (λ f mine.
            rest-Spares (map_err repo (Sightings.delete_sighting id f.0.id w.db).0)
              (λ o. forget_photo env app o >> pure (duck_url f.0.code []))
              (record w { db = (Sightings.delete_sighting id f.0.id w.db).1 })
              (λ o. forgotten _ o _) (delete_sighting-Spares w.db user.id f.0.id mine id)),
      )
