-- ===== src/Storage/Overviews/Newest.antt =====
-- The activity feed of crates/storage/src/repos.rs: ORDER BY created_at DESC LIMIT, in whatever order rows
-- of one time come.
use duck_voyage.Prelude.{
  ◌≡◌, refl, ◌∙◌, ap, sym, subst, arith, ℕ, zero, suc, Bool, false, not, some, List, [], ◌∷◌, ◌==◌,
  ◌&&◌, All, ltb, leb, take, Bool-cases, inl, inr, if◌then◌else◌, is_some, and_then-some,
  map_option-some,
}
use duck_voyage.Prelude.Results.{Res, ok, ◌>>=◌, ok_injective, >>=-eq-ok}
use duck_voyage.Prelude.Int.{pos}
use duck_voyage.Prelude.Tables.{find, select, count}
use duck_voyage.Prelude.Tables.Laws
use duck_voyage.Domain.Codes.{parse_duck}
use duck_voyage.Domain.Entities.{Timestamp, Key}
use duck_voyage.Storage.Rows.{RepoError}
use duck_voyage.Storage.Db.{NotificationRow, Db}
use duck_voyage.Storage.Flocks.{collect_rows}
use duck_voyage.Storage.Views.{sort}
use duck_voyage.Storage.Boards.Order.{IsOrder, Ascending, sort-Ascending, sort-All, sort-count}
use duck_voyage.Storage.Boards.Silence.{joined-All}
use duck_voyage.Storage.Overviews.{
  FeedRow, NotificationView, code_of, duck_of, vessel_of, feed_row, feed_rows, feed,
}
use duck_voyage.Storage.Overviews.Complete.{feed_rows_complete}
use duck_voyage.Storage.Integrity.Reach.{Reach, IsSeeded}
use duck_voyage.Storage.Readable.{Converts, IsWhole}
use duck_voyage.Storage.Readable.History.{AllParsed, Reach-Readable}
use duck_voyage.Storage.Readable.Reads.{collect_rows-Succeeds}

module _ {A : Type 0} (at : A → Timestamp) where
  -- ORDER BY at DESC
  abbrev pub later : A → A → Bool
  later a b = ltb (at b) (at a)

  later-IsOrder : IsOrder later
  later-IsOrder = record {
    asymmetric = λ a b h. ground arith;
    transitive = λ a b c h k. ground arith;
  }

  -- At a time or newer.
  abbrev pub since : Timestamp → A → Bool
  since t a = leb t (at a)

  none_since :
      (t : Timestamp) (a : A) (rows : List A)
      → since t a ≡ false
      → All (λ b. later b a ≡ false) rows
      → count (since t) rows ≡ 0
  none_since t a [] h low = refl
  none_since t a (b ∷ rows) h (here, low) = ground (arith, none_since t a rows h low)

  -- The first rows of a list in order hold the newest.
  count-take :
      (t : Timestamp) (n : ℕ) (rows : List A)
      → Ascending later rows
      → count (since t) (take n rows)
        ≡ (if leb n (count (since t) rows) then n else count (since t) rows)
  count-take t zero rows h = ground arith
  count-take t (suc n) [] h = ground arith
  count-take t (suc n) (a ∷ rows) (low, h) = elim (Bool-cases (since t a)) [
    | inl e ↦ let ih = count-take t n rows h in rw (e, ih) (ground arith)
    | inr e ↦
        let ih = count-take t n rows h in
        let older = none_since t a rows e low in rw (e, ih, older) (ground arith)
  ]

  take-All : (P : A → Type 0) (n : ℕ) (rows : List A) → All P rows → All P (take n rows)
  take-All P zero rows h = tt
  take-All P (suc n) [] h = tt
  take-All P (suc n) (a ∷ rows) (here, h) = (here, take-All P n rows h)

  take-Ascending : (n : ℕ) (rows : List A) → Ascending later rows → Ascending later (take n rows)
  take-Ascending zero rows h = tt
  take-Ascending (suc n) [] h = tt
  take-Ascending (suc n) (a ∷ rows) (low, h) = (take-All _ n rows low, take-Ascending n rows h)

-- A conversion that keeps the time keeps the order and the counts.
module _ {A B : Type 0} (f : A → Res RepoError B) (at : A → Timestamp) (at' : B → Timestamp)
    (same : (a : A) (b : B) → f a ≡ ok b → at' b ≡ at a) where
  collect_rows-All :
      (P : Timestamp → Type 0) (rows : List A) (bs : List B)
      → collect_rows f rows ≡ ok bs
      → All (λ a. P (at a)) rows
      → All (λ b. P (at' b)) bs
  collect_rows-All P [] bs h low = subst (All _) (ok_injective h) tt
  collect_rows-All P (a ∷ rows) bs h (here, low) =
      let (b, e, h1) = >>=-eq-ok (f a) _ h in
      let (rest, e', h2) = >>=-eq-ok (collect_rows f rows) _ h1 in
      subst (All (λ b. P (at' b))) (ok_injective h2)
        (subst P (sym (same a b e)) here, collect_rows-All P rows rest e' low)

  collect_rows-Ascending :
      (rows : List A) (bs : List B)
      → collect_rows f rows ≡ ok bs
      → Ascending (later at) rows
      → Ascending (later at') bs
  collect_rows-Ascending [] bs h low = subst (Ascending (later at')) (ok_injective h) tt
  collect_rows-Ascending (a ∷ rows) bs h (here, low) =
      let (b, e, h1) = >>=-eq-ok (f a) _ h in
      let (rest, e', h2) = >>=-eq-ok (collect_rows f rows) _ h1 in
      subst (Ascending (later at')) (ok_injective h2) (
        subst (λ t. All (λ c. ltb t (at' c) ≡ false) rest) (sym (same a b e))
            (collect_rows-All (λ t. ltb (at a) t ≡ false) rows rest e' here),
        collect_rows-Ascending rows rest e' low,
      )

  collect_rows-count :
      (t : Timestamp) (rows : List A) (bs : List B)
      → collect_rows f rows ≡ ok bs
      → count (since at' t) bs ≡ count (since at t) rows
  collect_rows-count t [] bs h = subst (λ x. count (since at' t) x ≡ 0) (ok_injective h) refl
  collect_rows-count t (a ∷ rows) bs h =
      let (b, e, h1) = >>=-eq-ok (f a) _ h in
      let (rest, e', h2) = >>=-eq-ok (collect_rows f rows) _ h1 in
      subst (λ x. count (since at' t) x ≡ count (since at t) (a ∷ rows)) (ok_injective h2)
        (rw (same a b e, collect_rows-count t rows rest e') refl)

abbrev pub least : ℕ → ℕ → ℕ
least a b = if leb a b then a else b

abbrev pub told_at : NotificationView → Timestamp
told_at v = v.created_at

-- What a feed of at most `n` entries gives: the newest come first, and of the notifications of the
-- user since any time, as many as there are, up to `n`.
abbrev pub GivesNewest : Key → ℕ → Db → List NotificationView → Type 0
GivesNewest user n db views =
    Ascending (later told_at) views
    × ((t : Timestamp)
        → count (since told_at t) views
          ≡ least n (count (λ x. x.user_id == user && leb t x.created_at) db.notifications))

module _ (db : Db) (whole : All IsWhole db.ducks) where
  readable_ducks :
      (n : NotificationRow) (r : FeedRow) → feed_row db n ≡ some r → Converts parse_duck r.duck.code
  readable_ducks n r h =
      let (d, e, h1) = and_then-some (duck_of n.duck_id db) _ h in
      let (s, _, h2) = and_then-some (find (λ x. x.id == n.sighting_id) db.sightings) _ h1 in
      let (v, _, same) = map_option-some _ (vessel_of s.vessel_id db) h2 in
      let (_, code, _) = Laws.find-All (λ x. x.id == n.duck_id) IsWhole db.ducks d whole e in
      subst (λ (x : FeedRow). Converts parse_duck x.duck.code) same code

  feed_rows-Converts : (user : Key) → All (λ r. Converts parse_duck r.duck.code) (feed_rows user db)
  unfolding feed_rows
  feed_rows-Converts user =
      joined-All _ (feed_row db) _ (every (select (λ n. n.user_id == user) db.notifications))
    where
      every :
          (ns : List NotificationRow)
          → All (λ n. (r : FeedRow) → feed_row db n ≡ some r → Converts parse_duck r.duck.code) ns
      every [] = tt
      every (n ∷ ns) = (readable_ducks n, every ns)

abbrev notified_at : FeedRow → Timestamp
notified_at r = r.notification.created_at

-- The entry of a row of the feed.
abbrev entry : FeedRow → Res RepoError NotificationView
entry r = code_of r.duck >>= λ code. ok (record {
  duck_code = code;
  duck_name = r.duck.name;
  vessel_name = r.vessel.name;
  seen_at = r.sighting.seen_at;
  created_at = r.notification.created_at;
  unread = not (is_some r.notification.read_at);
})

entry-Converts : (r : FeedRow) → Converts parse_duck r.duck.code → Converts entry r
entry-Converts r (code, e) = rw e (_, refl)

entry_time : (r : FeedRow) (v : NotificationView) → entry r ≡ ok v → told_at v ≡ notified_at r
entry_time r v h =
    let (code, e, h1) = >>=-eq-ok (code_of r.duck) _ h in ap told_at (sym (ok_injective h1))

-- In tables that were reached from seeded ones by calls with parsed arguments, the activity feed
-- of a user, with a limit that is not negative, gives entries, the newest first, and for every
-- time, as many of the user's notifications from then on as there are, up to the limit.
pub feed-GivesNewest :
    {start db : Db} (reached : Reach start db)
    → AllParsed reached
    → IsSeeded start
    → (user : Key) (n : ℕ)
    → (views : List NotificationView) × (feed user (pos n) db ≡ ok views)
      × GivesNewest user n db views
unfolding feed
feed-GivesNewest {start} {db} reached parsed seeded user n =
    let rows = feed_rows user db in
    let sorted = sort (later notified_at) rows in
    let ordered = sort-Ascending (later notified_at) (later-IsOrder notified_at) rows in
    let whole = (Reach-Readable reached parsed seeded).1 in
    let readable = take-All notified_at _ n sorted (
      sort-All (later notified_at) (Converts entry) rows
        (Laws.All-map rows entry-Converts (feed_rows-Converts db whole user))) in
    let (views, e) = collect_rows-Succeeds entry (take n sorted) readable in
    (
      views,
      e,
      (
        collect_rows-Ascending entry notified_at told_at entry_time (take n sorted) views e
            (take-Ascending notified_at n sorted ordered),
        λ t.
            collect_rows-count entry notified_at told_at entry_time t (take n sorted) views e
            ∙ count-take notified_at t n sorted ordered
            ∙ ap (least n) (sort-count (later notified_at) (since notified_at t) rows ∙ total t),
      ),
    )
  where
    total :
        (t : Timestamp)
        → count (since notified_at t) (feed_rows user db)
          ≡ count (λ x. x.user_id == user && leb t x.created_at) db.notifications
    total t =
        sym (
          Laws.count-map (λ (x : NotificationRow). leb t x.created_at)
            (λ (r : FeedRow). r.notification) (feed_rows user db))
        ∙ ap (count (λ (x : NotificationRow). leb t x.created_at))
            (feed_rows_complete user reached seeded).0
        ∙ Laws.count-select (λ n. n.user_id == user) (λ x. leb t x.created_at) db.notifications
