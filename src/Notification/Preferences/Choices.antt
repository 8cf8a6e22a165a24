-- ===== src/Notification/Preferences/Choices.antt =====
-- Which answer a test gives after a user has changed the preferences.
use microservices_base_platf.Prelude.{
  ◌≡◌, refl, ap, subst, ◌∙◌, inl, inr, String, Bool, true, Option, none, some, List, [], ◌∷◌, first,
  str_eq, str_eq_iff, if◌then◌else◌, Bool-cases, arith,
}
use microservices_base_platf.Notification.Domain.{
  NotificationChannel, NotificationPreference, event_promotion,
}
use microservices_base_platf.Notification.Preferences.{
  PreferenceItem, PreferenceInput, World, Answers, Response, is_enabled, upsert,
  is_notification_enabled, preference_of, is_fixed, after_upsert, allowed, upsert_all,
  upsert_preferences,
}
use microservices_base_platf.Notification.Preferences.Coherent.{
  IsCoherent, is_notification_enabled_lem, upsert_preferences-IsCoherent,
}
use microservices_base_platf.Notification.Preferences.Upserts.{
  AllKept, upsert-is_enabled, upsert-AllKept,
}

-- The last choice for a channel, or else the one before.
abbrev pub choice : (Bool → Bool) → NotificationChannel → List PreferenceInput → Bool → Bool
choice written channel [] before = before
choice written channel (i ∷ inputs) before =
    choice written channel inputs (if str_eq i.channel channel then written i.enabled else before)

module _ (a : Answers) (user : String) (channel : NotificationChannel) where
  abbrev Chosen : List PreferenceInput → World → Response → Type 0
  Chosen inputs w r =
      (items : List PreferenceItem)
      → r.0 ≡ inr items
      → is_enabled user event_promotion channel r.1.rows
        ≡ choice a.written channel inputs (is_enabled user event_promotion channel w.rows)

  continued :
      (o : Option String) (w : World) (r : Response) (b : Bool)
      → ((items : List PreferenceItem)
          → r.0 ≡ inr items
          → is_enabled user event_promotion channel r.1.rows ≡ b)
      → (items : List PreferenceItem) → (after_upsert o w r).0 ≡ inr items
      → is_enabled user event_promotion channel (after_upsert o w r).1.rows ≡ b
  continued none w r b h items i = h items i
  continued (some e) w r b h items i = cc

  upsert_all-Chosen :
      (inputs : List PreferenceInput) (done : List NotificationPreference) (w : World)
      → first is_fixed inputs ≡ none
      → AllKept w.rows
      → Chosen inputs w (upsert_all a user inputs done w)
  unfolding upsert_all
  upsert_all-Chosen [] done w n k items s = elim (Bool-cases a.cache_delete) [
    | inl e ↦ rw e refl
    | inr e ↦ rw e refl
  ]
  upsert_all-Chosen (i ∷ inputs) done w n k items s =
      let new = preference_of a user i in
      elim (Bool-cases (is_fixed i)) [
        | inl f ↦ absurd (cc (rw f at n))
        | inr f ↦
            let promotion : i.event_type ≡ event_promotion =
              (str_eq_iff i.event_type event_promotion).0 (ground (arith, f)) in
            continued (a.upsert i.channel) w _ _
              (λ items' s'.
                upsert_all-Chosen inputs _ _ (rw f at n) (upsert-AllKept new w.rows refl k) items'
                  s'
                ∙ ap (choice a.written channel inputs) (
                    subst
                      (λ event. is_enabled user event channel (upsert new w.rows).1 ≡ (
                        if str_eq i.channel channel
                        then a.written i.enabled
                        else is_enabled user event channel w.rows))
                      promotion (upsert-is_enabled new refl channel w.rows k)))
              items s
      ]

upsert_preferences-Chosen :
    (a : Answers) (user : String) (channel : NotificationChannel) (inputs : List PreferenceInput)
    (w : World)
    → AllKept w.rows
    → Chosen a user channel inputs w (upsert_preferences a user inputs w)
unfolding upsert_preferences
upsert_preferences-Chosen a user channel inputs w k = by_check (first is_fixed inputs) refl
  where
    by_check :
        (o : Option PreferenceInput)
        → first is_fixed inputs ≡ o
        → Chosen a user channel inputs w (allowed o w (upsert_all a user inputs [] w))
    by_check none n items s = upsert_all-Chosen a user channel inputs [] w n k items s
    by_check (some i) n items s = cc

-- If a request to change preferences succeeds and reaches the cache, a later test for a promotion
-- on any channel, whose query does not fail, answers what the ORM wrote for the last choice among
-- the request's items for this channel, or as before if there is none, provided that no row has
-- been deleted and that the user's cached entry was coherent before.
pub upsert_preferences-test :
    (a b : Answers) (user : String) (channel : NotificationChannel) (inputs : List PreferenceInput)
    (w : World) (items : List PreferenceItem)
    → AllKept w.rows
    → IsCoherent w user
    → (upsert_preferences a user inputs w).0 ≡ inr items
    → a.cache_delete ≡ true
    → b.query ≡ none
    → is_notification_enabled b user event_promotion channel (upsert_preferences a user inputs w).1
      ≡ inr (choice a.written channel inputs (is_enabled user event_promotion channel w.rows))
upsert_preferences-test a b user channel inputs w items k h s d q =
    let w' = (upsert_preferences a user inputs w).1 in
    elim (is_notification_enabled_lem b user event_promotion channel w'
      (upsert_preferences-IsCoherent a user user inputs w h (inr ((items, s), d)))) [
        | inl e ↦ e ∙ ap inr (upsert_preferences-Chosen a user channel inputs w k items s)
        | inr (m, e, n) ↦ cc
      ]
