-- ===== src/Notification/Listing/Examples.antt =====
-- Pages of notifications at concrete inputs.
use Prim.Native.String.{[] as empty, ◌∷◌ as cons}
use Prim.Native.Char.{char, code}
use microservices_base_platf.Prelude.{
  ℕ, zero, suc, ◌≡◌, refl, ap, inl, inr, String, false, Option, none, some, List, [], ◌∷◌, ◌==◌,
  str_eq, str_eq_iff, if◌then◌else◌, Bool-cases, Distinct, arith,
}
use microservices_base_platf.Notification.Domain.{Uuid, Time, Notification, NotificationStatus}
use microservices_base_platf.Notification.Listing.{Library, ListRequest, item_of}
use microservices_base_platf.Notification.Listing.Whole.{
  IsFaithful, behind_cursor, read_all, read_all-whole,
}

-- A number in front of a text, as so many letters.
mark : ℕ → String → String
mark zero s = cons (char 98 tt) s
mark (suc n) s = cons (char 97 tt) (mark n s)

abbrev count_one : Option (ℕ × String) → Option (ℕ × String)
count_one none = none
count_one (some (n, s)) = some (suc n, s)

unmark : String → Option (ℕ × String)
unmark empty = none
unmark (cons c s) = if code c == 97 then count_one (unmark s) else some (0, s)

unmark-mark : (n : ℕ) (s : String) → unmark (mark n s) ≡ some (n, s)
unfolding mark unmark
unmark-mark zero s = refl
unmark-mark (suc n) s = ap count_one (unmark-mark n s)

abbrev number_of : Option (ℕ × String) → Option ℕ
number_of none = none
number_of (some (n, s)) = some n

mark-visible : (p : Time × String) → str_eq (mark p.0 p.1) "" ≡ false
unfolding mark
mark-visible (zero, s) = elim (Bool-cases (str_eq (cons (char 98 tt) s) "")) [
  | inl e ↦ cc ((str_eq_iff (cons (char 98 tt) s) "").0 e)
  | inr e ↦ e
]
mark-visible (suc n, s) = elim (Bool-cases (str_eq (cons (char 97 tt) (mark n s)) "")) [
  | inl e ↦ cc ((str_eq_iff (cons (char 97 tt) (mark n s)) "").0 e)
  | inr e ↦ e
]

abbrev library : Library
library = record {
  parse_time = λ s. number_of (unmark s);
  marshal = λ p. mark p.0 p.1;
  unmarshal = unmark;
  to_base64 = λ s. s;
  from_base64 = λ s. some s;
  text_of = λ id. mark id "";
  parse_uuid = λ s. number_of (unmark s);
}

faithful : IsFaithful library
faithful = record {
  from-to_base64 = λ s. refl;
  unmarshal-marshal = λ p. unmark-mark p.0 p.1;
  parse-text = λ id. ap number_of (unmark-mark id "");
  visible = mark-visible;
}

abbrev row : Uuid → String → Time → Notification
row id user created_at = record {
  id = id;
  event_type = "order_created";
  user_id = user;
  channel = "email";
  recipient = "a@b.c";
  subject = "Order";
  content = "Thanks";
  status = NotificationStatus.sent;
  retry_count = 0;
  error_message = none;
  metadata = "";
  sent_at = none;
  created_at = created_at;
  updated_at = created_at;
}

-- Two of the rows of the user are level in time.
abbrev rows : List Notification
rows = row 1 "u" 5 ∷ row 2 "u" 7 ∷ row 3 "v" 6 ∷ row 4 "u" 7 ∷ []

-- One item a page.
abbrev request : ListRequest
request = record {
  user_id = "u";
  status = "";
  channel = "";
  event_type = "order_created";
  from = "";
  to = "";
  cursor = "";
  limit = 1;
}

distinct : Distinct (λ (n : Notification). n.id) rows
distinct = ground arith

read_all-whole_example :
    read_all library 5 (behind_cursor request "") rows
    ≡ some (item_of (row 4 "u" 7) ∷ item_of (row 2 "u" 7) ∷ item_of (row 1 "u" 5) ∷ [])
read_all-whole_example = read_all-whole library request none none rows faithful refl refl distinct
