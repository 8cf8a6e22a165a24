-- ===== src/Notification/Preferences/Coherent.antt =====
-- What the cache holds is what the table says, and a test reads the last choice that was stored.
use microservices_base_platf.Prelude.{
  ◌≡◌, refl, sym, ap, ◌∙◌, ◌≢◌, ◌⊎◌, inl, inr, String, Bool, true, false, Option, none, some, List,
  [], ◌∷◌, ◌++◌, map, first, update_where, str_eq, str_eq_iff, str_eq_refl, if◌then◌else◌,
  Bool-cases, arith,
}
use microservices_base_platf.Notification.Domain.{
  EventType, NotificationChannel, NotificationPreference, event_promotion,
}
use microservices_base_platf.Notification.Preferences.{
  PreferenceItem, PreferenceInput, World, Answers, Response, item_of, is_of_user, get_by_user_id,
  is_for, enabled_by, is_row_for, enabled_in, is_enabled, query_enabled, enabled_with, conflicts,
  overwrite, stored, upsert, cached, get_preferences, is_notification_enabled, preference_of,
  is_fixed, after_upsert, allowed, get_uncached, get_with, upsert_all, upsert_preferences,
}

abbrev pub Agrees : Option (List PreferenceItem) → List PreferenceItem → Type 0
Agrees none items = Unit
Agrees (some cached) items = cached ≡ items

-- The entry of a user, if there is one, shows the rows of this user.
abbrev pub IsCoherent : World → String → Type 0
IsCoherent w user = Agrees (w.cache user) (map item_of (get_by_user_id user w.rows))

shown :
    (o : Option (List PreferenceItem)) (all : List PreferenceItem)
    → Agrees o all
    → (items : List PreferenceItem) → o ≡ some items
    → items ≡ all
shown none all h items e = cc
shown (some cached) all h items e = cc

agrees :
    (o : Option (List PreferenceItem)) (all : List PreferenceItem)
    → ((items : List PreferenceItem) → o ≡ some items → items ≡ all)
    → Agrees o all
agrees none all h = tt
agrees (some cached) all h = h cached refl

-- The answer of the table, for an event type that can be switched off or not.
abbrev pub setting : String → EventType → NotificationChannel → World → Bool
setting user event channel w =
    if str_eq event event_promotion then is_enabled user event channel w.rows else true

search_items :
    (user : String) (event : EventType) (channel : NotificationChannel)
    (rows : List NotificationPreference)
    → enabled_by (first (is_for event channel) (map item_of (get_by_user_id user rows)))
      ≡ enabled_in (first (is_row_for user event channel) rows)
search_items user event channel [] = refl
search_items user event channel (p ∷ rows) = elim (Bool-cases (is_of_user user p)) [
  | inl e ↦ elim (Bool-cases (is_for event channel (item_of p))) [
    | inl f ↦ rw (e, f)
    | inr f ↦ rw (e, f) (search_items user event channel rows)
  ]
  | inr e ↦ rw e (search_items user event channel rows)
]

abbrev Answered : Answers → Bool → String ⊎ Bool → Type 0
Answered a b r = (r ≡ inr b) ⊎ ((e : String) × (a.query ≡ some e) × (r ≡ inl e))

module _ (a : Answers) (user : String) (event : EventType) (channel : NotificationChannel)
    (w : World) where
  by_query :
      (q : Option String)
      → a.query ≡ q
      → Answered a (is_enabled user event channel w.rows) (query_enabled q user event channel w)
  unfolding is_enabled
  by_query none h = inl refl
  by_query (some e) h = inr (e, h, refl)

  by_entry :
      (o : Option (List PreferenceItem))
      → ((items : List PreferenceItem) → o ≡ some items → w.cache user ≡ some items)
      → IsCoherent w user
      → Answered a (is_enabled user event channel w.rows) (enabled_with a user event channel w o)
  unfolding is_enabled
  by_entry none k h = by_query a.query refl
  by_entry (some items) k h = inl (
      ap (λ is. inr (enabled_by (first (is_for event channel) is)))
        (shown _ _ h items (k items refl))
      ∙ ap inr (search_items user event channel w.rows))

-- If the cached entry of the user, if any, is coherent, `IsNotificationEnabled` answers what the
-- table says, from the cache or from the database, or returns the error of the query.
pub is_notification_enabled_lem :
    (a : Answers) (user : String) (event : EventType) (channel : NotificationChannel) (w : World)
    → IsCoherent w user
    → (is_notification_enabled a user event channel w ≡ inr (setting user event channel w))
      ⊎ ((e : String) × (a.query ≡ some e)
          × (is_notification_enabled a user event channel w ≡ inl e))
unfolding is_notification_enabled
is_notification_enabled_lem a user event channel w h =
    elim (Bool-cases (str_eq event event_promotion)) [
      | inr p ↦ inl (rw p refl)
      | inl p ↦
          rw p (by_entry a user event channel w (cached a user w) (λ items k. ground (arith, k)) h)
    ]

-- A stored choice is a matter of its own user.
get_by_user_id-upsert :
    (v : String) (new : NotificationPreference) (rows : List NotificationPreference)
    → v ≢ new.user_id
    → get_by_user_id v (upsert new rows).1 ≡ get_by_user_id v rows
unfolding upsert
get_by_user_id-upsert v new rows n = by_row (first (conflicts new) rows)
  where
    not_own : (p : NotificationPreference) → p.user_id ≡ new.user_id → is_of_user v p ≡ false
    not_own p h = elim (Bool-cases (str_eq p.user_id v)) [
      | inl e ↦ absurd (n (sym ((str_eq_iff p.user_id v).0 e) ∙ h))
      | inr e ↦ rw e refl
    ]

    other_append :
        (rows : List NotificationPreference)
        → get_by_user_id v (rows ++ new ∷ []) ≡ get_by_user_id v rows
    other_append [] = rw (not_own new refl) refl
    other_append (p ∷ rows) = elim (Bool-cases (is_of_user v p)) [
      | inl e ↦ rw e (rw (other_append rows))
      | inr e ↦ rw e (other_append rows)
    ]

    other_update :
        (rows : List NotificationPreference)
        → get_by_user_id v (update_where (conflicts new) (overwrite new) rows)
          ≡ get_by_user_id v rows
    other_update [] = refl
    other_update (p ∷ rows) = elim (Bool-cases (conflicts new p)) [
      | inl e ↦
          let m : is_of_user v p ≡ false =
            not_own p ((str_eq_iff p.user_id new.user_id).0 (ground (arith, e))) in
          rw (e, m) (other_update rows)
      | inr e ↦ elim (Bool-cases (is_of_user v p)) [
        | inl f ↦ rw (e, f) (rw (other_update rows))
        | inr f ↦ rw (e, f) (other_update rows)
      ]
    ]

    by_row :
        (o : Option NotificationPreference)
        → get_by_user_id v (stored new rows o).1 ≡ get_by_user_id v rows
    by_row none = other_append rows
    by_row (some old) = other_update rows

-- What keeps the entry of the user `v` right: it is another user's request, or one that succeeded
-- and reached the cache.
abbrev Keeps : Answers → String → String → Response → Type 0
Keeps a user v r =
    (v ≢ user) ⊎ (((items : List PreferenceItem) × (r.0 ≡ inr items)) × (a.cache_delete ≡ true))

module _ (a : Answers) (user v : String) where
  after_upsert-IsCoherent :
      (o : Option String) (w : World) (r : Response)
      → (v ≢ user → IsCoherent w v)
      → (Keeps a user v r → IsCoherent r.1 v)
      → Keeps a user v (after_upsert o w r)
      → IsCoherent (after_upsert o w r).1 v
  after_upsert-IsCoherent none w r h k g = k g
  after_upsert-IsCoherent (some e) w r h k (inl n) = h n
  after_upsert-IsCoherent (some e) w r h k (inr ((items, i), d)) = cc

  upsert_all-IsCoherent :
      (inputs : List PreferenceInput) (done : List NotificationPreference) (w : World)
      → (v ≢ user → IsCoherent w v)
      → Keeps a user v (upsert_all a user inputs done w)
      → IsCoherent (upsert_all a user inputs done w).1 v
  unfolding upsert_all
  upsert_all-IsCoherent [] done w h (inl n) = elim (Bool-cases a.cache_delete) [
    | inl e ↦ rw e (agrees _ _ (λ items k. shown _ _ (h n) items (ground (arith, k, other))))
    | inr e ↦ rw e (h n)
  ]
    where
      other : str_eq v user ≡ false
      other = elim (Bool-cases (str_eq v user)) [
        | inl f ↦ absurd (n ((str_eq_iff v user).0 f))
        | inr f ↦ f
      ]
  upsert_all-IsCoherent [] done w h (inr (o, e)) = rw e (
      agrees _ _ (λ items k. elim (Bool-cases (str_eq v user)) [
        | inl f ↦ ground (arith, k, f)
        | inr f ↦
            shown _ _ (h (λ s. cc (ap (str_eq v) s, str_eq_refl v, f))) items (ground (arith, k, f))
      ]))
  upsert_all-IsCoherent (i ∷ inputs) done w h g =
      after_upsert-IsCoherent (a.upsert i.channel) w _ h
        (upsert_all-IsCoherent inputs _ _
          (λ n. rw (get_by_user_id-upsert v (preference_of a user i) w.rows n) (h n)))
        g

-- The cache stays coherent for every user under requests to change preferences, whatever answers
-- they meet, except that a request which fails, or does not reach the cache, may leave an old entry
-- of its own user behind.
pub upsert_preferences-IsCoherent :
    (a : Answers) (user v : String) (inputs : List PreferenceInput) (w : World)
    → IsCoherent w v
    → (v ≢ user)
      ⊎ (((items : List PreferenceItem) × ((upsert_preferences a user inputs w).0 ≡ inr items))
          × (a.cache_delete ≡ true))
    → IsCoherent (upsert_preferences a user inputs w).1 v
unfolding upsert_preferences
upsert_preferences-IsCoherent a user v inputs w h g = by_check (first is_fixed inputs) g
  where
    by_check :
        (o : Option PreferenceInput)
        → Keeps a user v (allowed o w (upsert_all a user inputs [] w))
        → IsCoherent (allowed o w (upsert_all a user inputs [] w)).1 v
    by_check none k = upsert_all-IsCoherent a user v inputs [] w (λ n. h) k
    by_check (some i) k = h

-- A read that leaves the entry of `v` right.
abbrev pub IsRead : Answers → String → String → World → Response → Type 0
IsRead a user v w r =
    IsCoherent r.1 v
    × (r.1.rows ≡ w.rows)
    × ((r.0 ≡ inr (map item_of (get_by_user_id user w.rows))) ⊎ ((e : String) × (a.query ≡ some e)))

-- Reading the preferences keeps the entries coherent, whatever answers it meets, and returns what
-- the table says unless the query fails.
get_preferences-IsCoherent :
    (a : Answers) (user v : String) (w : World)
    → IsCoherent w user
    → IsCoherent w v
    → IsRead a user v w (get_preferences a user w)
unfolding get_preferences
get_preferences-IsCoherent a user v w h k = read (cached a user w) (λ items c. ground (arith, c))
  where
    queried : (q : Option String) → a.query ≡ q → IsRead a user v w (get_uncached a q user w)
    queried (some e) q = (k, refl, inr (e, q))
    queried none q = elim (Bool-cases a.cache_set) [
      | inl s ↦ rw s (agrees _ _ filled, refl, inl refl)
      | inr s ↦ rw s (k, refl, inl refl)
    ]
      where
        filled :
            (items : List PreferenceItem)
            → (if str_eq v user then some (map item_of (get_by_user_id user w.rows)) else w.cache v)
              ≡ some items
            → items ≡ map item_of (get_by_user_id v w.rows)
        filled items c = elim (Bool-cases (str_eq v user)) [
          | inl f ↦ rw ((str_eq_iff v user).0 f) (ground (arith, c, f))
          | inr f ↦ shown _ _ k items (ground (arith, c, f))
        ]

    read :
        (o : Option (List PreferenceItem))
        → ((items : List PreferenceItem) → o ≡ some items → w.cache user ≡ some items)
        → IsRead a user v w (get_with a user w o)
    read none c = queried a.query refl
    read (some items) c = (k, refl, inl (ap inr (shown _ _ h items (c items refl))))
