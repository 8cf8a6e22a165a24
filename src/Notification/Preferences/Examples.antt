-- ===== src/Notification/Preferences/Examples.antt =====
-- The preferences at concrete inputs.
use microservices_base_platf.Prelude.{◌≡◌, refl, inr, true, false, none, some, List, [], ◌∷◌, map}
use microservices_base_platf.Notification.Domain.{NotificationPreference, event_promotion}
use microservices_base_platf.Notification.Preferences.{
  PreferenceItem, PreferenceInput, World, Answers, item_of, get_by_user_id, is_enabled, upsert,
  is_notification_enabled, upsert_preferences,
}
use microservices_base_platf.Notification.Preferences.Coherent.{
  IsCoherent, upsert_preferences-IsCoherent,
}
use microservices_base_platf.Notification.Preferences.Choices.{upsert_preferences-test}

abbrev answers : Answers
answers = record {
  now = 100;
  cache_get = true;
  cache_set = true;
  cache_delete = true;
  query = none;
  upsert = λ c. none;
  new_id = λ c. 9;
  written = λ b. b;
}

abbrev on_email : NotificationPreference
on_email = record {
  id = 1;
  user_id = "u";
  event_type = event_promotion;
  channel = "email";
  enabled = true;
  updated_at = 5;
  deleted_at = none;
}

-- One row, and a cached entry for its user.
abbrev world : World
world = record {
  rows = on_email ∷ [];
  cache = λ u. some (map item_of (get_by_user_id u (on_email ∷ [])));
}

abbrev off : List PreferenceInput
off = record { event_type = event_promotion; channel = "email"; enabled = false } ∷ []

abbrev off_item : PreferenceItem
off_item = record {
  id = 1;
  event_type = event_promotion;
  channel = "email";
  enabled = false;
  updated_at = 100;
}

saved : (upsert_preferences answers "u" off world).0 ≡ inr (off_item ∷ [])
unfolding upsert_preferences upsert
saved = refl

upsert_preferences-IsCoherent_example : IsCoherent (upsert_preferences answers "u" off world).1 "u"
upsert_preferences-IsCoherent_example =
    upsert_preferences-IsCoherent answers "u" "u" off world refl
      (inr ((off_item ∷ [], saved), refl))

upsert_preferences-test_example :
    is_notification_enabled answers "u" event_promotion "email"
      (upsert_preferences answers "u" off world).1
    ≡ inr false
unfolding is_enabled
upsert_preferences-test_example =
    upsert_preferences-test answers answers "u" "email" off world (off_item ∷ []) (refl, tt) refl
      saved refl refl
