-- ===== src/Notification/Seeder/Repeated.antt =====
-- Seeding the templates again.
use microservices_base_platf.Prelude.{
  ◌≡◌, refl, ap, subst, String, Option, none, some, List, [], ◌∷◌, ◌++◌, first, All, str_eq,
  str_eq_refl, Bool-cases, inl, inr,
}
use microservices_base_platf.Notification.Domain.{EventType, NotificationTemplate}
use microservices_base_platf.Notification.Seeder.{
  Answers, templates, Seeded, created, seed_missing, seed_all, seed_templates,
}

-- A template for an event type is found.
abbrev pub Has : List NotificationTemplate → EventType → Type 0
Has rows event = (t : NotificationTemplate) × (first (λ t. str_eq t.event_type event) rows ≡ some t)

Has-append :
    (rows more : List NotificationTemplate) (event : EventType)
    → Has rows event
    → Has (rows ++ more) event
Has-append [] more event (t, e) = cc
Has-append (x ∷ rows) more event (t, e) = elim (Bool-cases (str_eq x.event_type event)) [
  | inl y ↦ (x, rw y refl)
  | inr n ↦ let (u, h) = Has-append rows more event (t, rw n at e) in (u, rw n h)
]

-- After its insertion, at the latest.
Has-last :
    (rows : List NotificationTemplate) (t : NotificationTemplate)
    → Has (rows ++ t ∷ []) t.event_type
Has-last [] t = (t, rw (str_eq_refl t.event_type) refl)
Has-last (x ∷ rows) t = elim (Bool-cases (str_eq x.event_type t.event_type)) [
  | inl y ↦ (x, rw y refl)
  | inr n ↦ let (u, h) = Has-last rows t in (u, rw n h)
]

module _ (a : Answers) (up : (event : EventType) → a.find event ≡ none) where
  -- What is there when a run over some templates has succeeded.
  abbrev Grows : List NotificationTemplate → List NotificationTemplate → Seeded → Type 0
  Grows ts rows (some e, rows') = Unit
  Grows ts rows (none, rows') =
      ((event : EventType) → Has rows event → Has rows' event)
      × All (λ t. Has rows' t.event_type) ts

  further :
      (t : NotificationTemplate) (ts rows mid : List NotificationTemplate) (r : Seeded)
      → ((event : EventType) → Has rows event → Has mid event)
      → Has mid t.event_type
      → Grows ts mid r
      → Grows (t ∷ ts) rows r
  further t ts rows mid (some e, rows') k h g = tt
  further t ts rows mid (none, rows') k h g =
      ((λ event p. g.0 event (k event p)), (g.0 t.event_type h, g.1))

  seed_missing-Grows :
      (t : NotificationTemplate) (ts rows : List NotificationTemplate)
      (o : Option NotificationTemplate)
      → ((mid : List NotificationTemplate) → Grows ts mid (seed_all a ts mid))
      → first (λ u. str_eq u.event_type t.event_type) rows ≡ o
      → Grows (t ∷ ts) rows (seed_missing a o t rows (seed_all a ts))
  seed_missing-Grows t ts rows (some u) ih e =
      further t ts rows rows _ (λ event p. p) (u, e) (ih rows)
  seed_missing-Grows t ts rows none ih e = by_create (a.create t.event_type)
    where
      by_create : (o : Option String) → Grows (t ∷ ts) rows (created o t rows (seed_all a ts))
      by_create (some e) = tt
      by_create none =
          further t ts rows (rows ++ t ∷ []) _ (λ event p. Has-append rows (t ∷ []) event p)
            (Has-last rows t) (ih (rows ++ t ∷ []))

  seed_all-Grows : (ts rows : List NotificationTemplate) → Grows ts rows (seed_all a ts rows)
  unfolding seed_all
  seed_all-Grows [] rows = ((λ event p. p), tt)
  seed_all-Grows (t ∷ ts) rows =
      rw (up t.event_type) (seed_missing-Grows t ts rows _ (seed_all-Grows ts) refl)

  seed_all-none :
      (ts rows : List NotificationTemplate)
      → All (λ t. Has rows t.event_type) ts
      → seed_all a ts rows ≡ (none, rows)
  unfolding seed_all
  seed_all-none [] rows h = refl
  seed_all-none (t ∷ ts) rows ((u, e), h) = rw (up t.event_type, e) (seed_all-none ts rows h)

-- If the queries do not fail and a first run of the seeder succeeds, then every event type of its
-- list has a template, and a second run succeeds without changing anything, whatever its inserts
-- would be answered.
pub seed_templates-repeated :
    (a b : Answers) (rows rows' : List NotificationTemplate)
    → ((event : EventType) → a.find event ≡ none)
    → ((event : EventType) → b.find event ≡ none)
    → seed_templates a rows ≡ (none, rows')
    → All (λ t. Has rows' t.event_type) templates × (seed_templates b rows' ≡ (none, rows'))
unfolding seed_templates
seed_templates-repeated a b rows rows' up up' h =
    let present = by_result (seed_all a templates rows) h (seed_all-Grows a up templates rows) in
    (present, seed_all-none b up' templates rows' present)
  where
    by_result :
        (r : Seeded)
        → r ≡ (none, rows')
        → Grows a up templates rows r
        → All (λ t. Has rows' t.event_type) templates
    by_result (some e, rows'') q g = cc
    by_result (none, rows'') q g =
        subst (λ x. All (λ t. Has x t.event_type) templates) (ap (λ z. z.1) q) g.1
