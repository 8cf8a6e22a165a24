-- ===== src/Notification/Preferences/Upserts.antt =====
-- What one stored choice changes in the table.
use microservices_base_platf.Prelude.{
  ◌≡◌, refl, ◌∙◌, inl, inr, Bool, true, false, Option, none, some, List, [], ◌∷◌, ◌++◌, first,
  update_where, str_eq, str_eq_iff, str_eq_refl, if◌then◌else◌, Bool-cases, Option-cases, All,
  All-append, All-update_where, arith,
}
use microservices_base_platf.Notification.Domain.{NotificationChannel, NotificationPreference}
use microservices_base_platf.Notification.Preferences.{
  is_row_for, enabled_in, is_enabled, conflicts, overwrite, stored, upsert,
}

-- No row has been deleted, which no statement does.
abbrev pub AllKept : List NotificationPreference → Type 0
AllKept = All λ p. p.deleted_at ≡ none

module _ (new : NotificationPreference) (kept : new.deleted_at ≡ none)
    (channel : NotificationChannel) where
  abbrev At : List NotificationPreference → Bool
  At rows = enabled_in (first (is_row_for new.user_id new.event_type channel) rows)

  matches_self :
      new.channel ≡ channel
      → (p : NotificationPreference) → p.deleted_at ≡ none
      → is_row_for new.user_id new.event_type channel p ≡ conflicts new p
  matches_self c p k = rw (← c, k) (ground arith)

  matches_new : new.channel ≡ channel → is_row_for new.user_id new.event_type channel new ≡ true
  matches_new c =
      rw (← c, kept, str_eq_refl new.user_id, str_eq_refl new.event_type, str_eq_refl new.channel)
        refl

  -- A row in conflict is one of the channel of `new`.
  misses :
      str_eq new.channel channel ≡ false
      → (p : NotificationPreference) → conflicts new p ≡ true
      → is_row_for new.user_id new.event_type channel p ≡ false
  misses n p e =
      let same : p.channel ≡ new.channel =
        (str_eq_iff p.channel new.channel).0 (ground (arith, e)) in
      let n' : str_eq p.channel channel ≡ false = rw same n in ground (arith, n')

  misses_new :
      str_eq new.channel channel ≡ false → is_row_for new.user_id new.event_type channel new ≡ false
  misses_new n = ground (arith, n)

  added_same :
      new.channel ≡ channel
      → (rows : List NotificationPreference) → AllKept rows
      → first (conflicts new) rows ≡ none
      → At (rows ++ new ∷ []) ≡ new.enabled
  added_same c [] k e = rw (matches_new c) refl
  added_same c (p ∷ rows) k e = elim (Bool-cases (conflicts new p)) [
    | inl f ↦ absurd (cc (rw f at e))
    | inr f ↦ rw (matches_self c p k.0 ∙ f) (added_same c rows k.1 (rw f at e))
  ]

  updated_same :
      new.channel ≡ channel
      → (rows : List NotificationPreference) → AllKept rows
      → (old : NotificationPreference) → first (conflicts new) rows ≡ some old
      → At (update_where (conflicts new) (overwrite new) rows) ≡ new.enabled
  updated_same c [] k old e = cc
  updated_same c (p ∷ rows) k old e = elim (Bool-cases (conflicts new p)) [
    | inl f ↦ rw f (rw (matches_self c p k.0 ∙ f) refl)
    | inr f ↦ rw f (rw (matches_self c p k.0 ∙ f) (updated_same c rows k.1 old (rw f at e)))
  ]

  added_other :
      str_eq new.channel channel ≡ false
      → (rows : List NotificationPreference) → At (rows ++ new ∷ []) ≡ At rows
  added_other n [] = rw (misses_new n) refl
  added_other n (p ∷ rows) = elim (Bool-cases (is_row_for new.user_id new.event_type channel p)) [
    | inl f ↦ rw f refl
    | inr f ↦ rw f (added_other n rows)
  ]

  updated_other :
      str_eq new.channel channel ≡ false
      → (rows : List NotificationPreference)
      → At (update_where (conflicts new) (overwrite new) rows) ≡ At rows
  updated_other n [] = refl
  updated_other n (p ∷ rows) = elim (Bool-cases (conflicts new p)) [
    | inl f ↦ rw f (rw (misses n p f) (updated_other n rows))
    | inr f ↦ rw f (elim (Bool-cases (is_row_for new.user_id new.event_type channel p)) [
      | inl g ↦ rw g refl
      | inr g ↦ rw g (updated_other n rows)
    ])
  ]

  pub upsert-is_enabled :
      (rows : List NotificationPreference)
      → AllKept rows
      → is_enabled new.user_id new.event_type channel (upsert new rows).1 ≡ (
          if str_eq new.channel channel
          then new.enabled
          else is_enabled new.user_id new.event_type channel rows)
  unfolding is_enabled upsert
  upsert-is_enabled rows k = by_row (first (conflicts new) rows) refl
    where
      by_row :
          (o : Option NotificationPreference)
          → first (conflicts new) rows ≡ o
          → At (stored new rows o).1 ≡ (if str_eq new.channel channel then new.enabled else At rows)
      by_row o e = elim (Bool-cases (str_eq new.channel channel)) [
        | inl c ↦ rw c (elim (Option-cases o) [
          | inl n ↦ rw n (added_same ((str_eq_iff new.channel channel).0 c) rows k (e ∙ n))
          | inr (old, n) ↦
              rw n (updated_same ((str_eq_iff new.channel channel).0 c) rows k old (e ∙ n))
        ])
        | inr c ↦ rw c (elim (Option-cases o) [
          | inl n ↦ rw n (added_other c rows)
          | inr (old, n) ↦ rw n (updated_other c rows)
        ])
      ]

pub upsert-AllKept :
    (new : NotificationPreference) (rows : List NotificationPreference)
    → new.deleted_at ≡ none
    → AllKept rows
    → AllKept (upsert new rows).1
unfolding upsert
upsert-AllKept new rows d k = by_row (first (conflicts new) rows)
  where
    by_row : (o : Option NotificationPreference) → AllKept (stored new rows o).1
    by_row none = All-append (λ p. p.deleted_at ≡ none) rows (new ∷ []) k (d, tt)
    by_row (some old) =
        All-update_where (λ p. p.deleted_at ≡ none) (conflicts new) (overwrite new) (λ p e h. h)
          rows k
