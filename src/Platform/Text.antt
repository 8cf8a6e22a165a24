-- ===== src/Platform/Text.antt =====
-- The functions of Go's `strings` package that the services use, on a string as its bytes.
use microservices_base_platf.Prelude.{
  ℕ, zero, suc, ◌+◌, ◌-◌, ◌*◌, ◌^◌, Bool, true, false, ◌||◌, ◌&&◌, Option, none, some, List, [],
  ◌∷◌, ◌==◌, leb, ltb, if◌then◌else◌, ℤ, pos, negsuc,
}
use mathlib.Core.List.{reverse}

abbrev pub Bytes : Type 0
Bytes = List ℕ

unfoldable pub bytes_eq : Bytes → Bytes → Bool
bytes_eq [] [] = true
bytes_eq [] (c ∷ cs) = false
bytes_eq (b ∷ bs) [] = false
bytes_eq (b ∷ bs) (c ∷ cs) = b == c && bytes_eq bs cs

abbrev prepend : ℕ → List Bytes → List Bytes
prepend b [] = (b ∷ []) ∷ []
prepend b (word ∷ words) = (b ∷ word) ∷ words

-- `strings.Split(s, sep)` at a separator of one byte.
unfoldable pub split : ℕ → Bytes → List Bytes
split sep [] = [] ∷ []
split sep (b ∷ bs) = if b == sep then [] ∷ split sep bs else prepend b (split sep bs)

unfoldable pub trim_left : (ℕ → Bool) → Bytes → Bytes
trim_left drops [] = []
trim_left drops (b ∷ bs) = if drops b then trim_left drops bs else b ∷ bs

unfoldable pub trim : (ℕ → Bool) → Bytes → Bytes
unfolding trim_left
trim drops s = reverse (trim_left drops (reverse (trim_left drops s)))

abbrev is_space : ℕ → Bool
is_space b = b == b' ' || leb 9 b && leb b 13

-- `strings.TrimSpace` on ASCII text.
unfoldable pub trim_space : Bytes → Bytes
unfolding trim
trim_space = trim is_space

-- `strings.Trim(s, "\"")`.
unfoldable pub trim_quotes : Bytes → Bytes
unfolding trim
trim_quotes = trim (λ b. b == b'"')

abbrev put_front : ℕ → Option (Bytes × Bytes) → Option (Bytes × Bytes)
put_front b none = none
put_front b (some (front, rest)) = some (b ∷ front, rest)

-- `strings.SplitN(s, sep, 2)` at a separator of one byte, if there are two parts.
unfoldable pub split_once : ℕ → Bytes → Option (Bytes × Bytes)
split_once sep [] = none
split_once sep (b ∷ bs) = if b == sep then some ([], bs) else put_front b (split_once sep bs)

abbrev is_digit : ℕ → Bool
is_digit b = leb b'0' b && leb b b'9'

-- The number that decimal digits spell behind the digits read so far.
unfoldable pub digits_from : ℕ → Bytes → Option ℕ
digits_from n [] = some n
digits_from n (b ∷ bs) = if is_digit b then digits_from (n * 10 + (b - b'0')) bs else none

abbrev digits : Bytes → Option ℕ
digits [] = none
digits (b ∷ bs) = digits_from 0 (b ∷ bs)

abbrev in_int64 : Option ℕ → Option ℤ
in_int64 none = none
in_int64 (some n) = if ltb n (2 ^ 63) then some (pos n) else none

abbrev negated : Option ℕ → Option ℤ
negated none = none
negated (some zero) = some (pos 0)
negated (some (suc n)) = if ltb n (2 ^ 63) then some (negsuc n) else none

abbrev signed : ℕ → Bytes → Option ℤ
signed b bs =
    if b == b'-'
    then negated (digits bs)
    else if b == b'+'
    then in_int64 (digits bs)
    else in_int64 (digits (b ∷ bs))

-- `strconv.Atoi`, where `int` has 64 bits; `none` is an error.
unfoldable pub atoi : Bytes → Option ℤ
unfolding digits_from
atoi [] = none
atoi (b ∷ bs) = signed b bs
