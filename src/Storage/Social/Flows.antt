-- ===== src/Storage/Social/Flows.antt =====
-- A login flow is taken at most once, and not after its life.
use duck_voyage.Prelude.{
  ◌+◌, ◌<◌, ◌≡◌, refl, Bool, true, false, none, some, ltb, ltb→lt, Option-cases, inl, inr,
  map_option, ◌&&◌, ap, sym, ◌∙◌,
}
use duck_voyage.Prelude.Results.{ok, ok_injective}
use duck_voyage.Prelude.Text.{Text, text_eq, text_eq_sound}
use duck_voyage.Prelude.Tables.{find}
use duck_voyage.Prelude.Tables.Laws
use duck_voyage.Storage.Db.{FlowRow, Db}
use duck_voyage.Storage.Social.{StoredLoginFlow, flow_life, take_flow, fresh, stored_flow}

-- Right after a request took the login flow of a state, a request with the same state finds none.
pub take_flow_once : (state : Text) (db : Db) → (take_flow state (take_flow state db).1).0 ≡ ok none
unfolding take_flow
take_flow_once state db =
    rw (
      Laws.find-none (fresh state db.now) _ (Laws.exists-delete_self (fresh state db.now) db.flows))

-- A login flow that is taken has the state that was asked for and was put less than fifteen
-- minutes ago.
pub take_flow_sound :
    (state : Text) (db : Db) (flow : StoredLoginFlow)
    → (take_flow state db).0 ≡ ok (some flow)
    → (flow.state ≡ state)
      × ((f : FlowRow) × (stored_flow f ≡ flow) × (db.now < f.created_at + flow_life))
unfolding take_flow
take_flow_sound state db flow h = elim (Option-cases (find (fresh state db.now) db.flows)) [
  | inl e ↦ absurd (bogus (ok_injective (sym (ap (λ o. ok (map_option stored_flow o)) e) ∙ h)))
  | inr (f, e) ↦
      let meets = Laws.find_sound (fresh state db.now) db.flows f e in
      let same : stored_flow f ≡ flow =
        some_injective (ok_injective (sym (ap (λ o. ok (map_option stored_flow o)) e) ∙ h)) in
      let (named, young) =
        both (text_eq f.state state) (ltb db.now (f.created_at + flow_life)) meets in
      (
        ap (λ (x : StoredLoginFlow). x.state) (sym same) ∙ text_eq_sound f.state state named,
        (f, same, ltb→lt db.now (f.created_at + flow_life) young),
      )
]
  where
    bogus : {A : Type 0} {a : A} → none ≡ some a → ⊥
    bogus h = cc

    some_injective : {A : Type 0} {a b : A} → some a ≡ some b → a ≡ b
    some_injective h = cc

    both : (a b : Bool) → (a && b) ≡ true → (a ≡ true) × (b ≡ true)
    both true b h = (refl, h)
    both false b h = cc
