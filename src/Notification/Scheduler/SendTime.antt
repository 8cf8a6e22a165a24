-- ===== src/Notification/Scheduler/SendTime.antt =====
-- A time of day as a text, and back.
use microservices_base_platf.Prelude.{
  ℕ, ◌+◌, ◌-◌, ◌*◌, ◌^◌, ◌&&◌, ◌/◌, ◌%◌, ◌<◌, ◌≡◌, refl, ap, ◌∙◌, true, false, some, [], ◌∷◌, ◌==◌,
  leb, ltb, pos, arith,
}
use microservices_base_platf.Platform.Text.{Bytes, split_once, atoi, digits_from}
use microservices_base_platf.Notification.Scheduler.{
  both_numbers, split_time, in_range, hour_and_minute, validate_send_time,
}

-- A number below 100 as two digits.
abbrev pub two_digits : ℕ → Bytes
two_digits n = (b'0' + n / 10) ∷ (b'0' + n % 10) ∷ []

-- "HH:MM".
abbrev pub print_time : ℕ → ℕ → Bytes
print_time h m = (b'0' + h / 10) ∷ (b'0' + h % 10) ∷ b':' ∷ (b'0' + m / 10) ∷ (b'0' + m % 10) ∷ []

not_colon : (d : ℕ) → d < 10 → (b'0' + d == b':') ≡ false
not_colon d l = ground arith

split-print :
    (h m : ℕ) → h < 100 → split_once b':' (print_time h m) ≡ some (two_digits h, two_digits m)
unfolding split_once
split-print h m l = rw (not_colon (h / 10) (omega arith), not_colon (h % 10) (omega arith)) refl

-- A digit is read as one, and neither sign is a digit.
is_digit_byte :
    (d : ℕ)
    → d < 10
    → ((leb b'0' (b'0' + d) && leb (b'0' + d) b'9') ≡ true)
      × ((b'0' + d == b'-') ≡ false)
      × ((b'0' + d == b'+') ≡ false)
is_digit_byte d l = (ground arith, ground arith, ground arith)

value : (n : ℕ) → (0 * 10 + (b'0' + n / 10 - b'0')) * 10 + (b'0' + n % 10 - b'0') ≡ n
value n = omega arith

small : (n : ℕ) → n < 100 → ltb n (2 ^ 63) ≡ true
small n l = ground arith

atoi-two_digits : (n : ℕ) → n < 100 → atoi (two_digits n) ≡ some (pos n)
unfolding atoi digits_from
atoi-two_digits n l =
    let (a, minus, plus) = is_digit_byte (n / 10) (omega arith) in
    let b = (is_digit_byte (n % 10) (omega arith)).0 in
    rw (minus, plus, a, b, value n, small n l) refl

-- Every time of day, printed as HH:MM, is accepted as a schedule's time, and is read as this hour
-- and this minute when the schedule is tested.
pub hour_and_minute-print_time :
    (h m : ℕ)
    → h < 24
    → m < 60
    → (validate_send_time (print_time h m) ≡ true)
      × (hour_and_minute (print_time h m) ≡ some (pos h, pos m))
unfolding hour_and_minute validate_send_time
hour_and_minute-print_time h m lh lm =
    let read : hour_and_minute (print_time h m) ≡ some (pos h, pos m) =
      ap split_time (split-print h m (omega arith))
      ∙ ap (λ x. both_numbers x (atoi (two_digits m))) (atoi-two_digits h (omega arith))
      ∙ ap (both_numbers (some (pos h))) (atoi-two_digits m (omega arith)) in
    (ap in_range read ∙ ground arith, read)
