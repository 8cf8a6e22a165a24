-- ===== src/Prelude/Sorting.antt =====
-- `ORDER BY` over a strict order, and selections from the sorted rows.
use microservices_base_platf.Prelude.Tests.{if◌then◌else◌, Bool-cases}
use microservices_base_platf.Prelude.Lists.{All, All-select, All-map, select, drop, length}
use Prim.Native.Nat.{ℕ, zero, suc, ◌≤◌}
use mathlib.Core.Path.{◌≡◌, refl, ap, ◌∙◌, sym}
use mathlib.Core.Logic.{◌⊎◌, inl, inr}
use mathlib.Core.List.{List, [], ◌∷◌}
use mathlib.Core.Bool.{Bool, true, false}
use native.Mathlib.Omega.{arith}

-- `lt x y`: the row `x` comes before the row `y`.
pub record StrictOrder (A : Type 0) : Type 0 where
  pub lt : A → A → Bool
  pub irrefl : (x : A) → lt x x ≡ false
  pub trans : (x y z : A) → lt x y ≡ true → lt y z ≡ true → lt x z ≡ true

module _ {A : Type 0} where
  pub select-select :
      (p q : A → Bool)
      → ((x : A) → p x ≡ true → q x ≡ true)
      → (xs : List A) → select p (select q xs) ≡ select p xs
  select-select p q h [] = refl
  select-select p q h (x ∷ xs) = elim (Bool-cases (q x)) [
    | inl e ↦ rw e (rw (select-select p q h xs))
    | inr e ↦ elim (Bool-cases (p x)) [
      | inl f ↦ cc (h x f)
      | inr f ↦ rw (e, f) (select-select p q h xs)
    ]
  ]

  pub select-ext_on :
      (p q : A → Bool) (xs : List A) → All (λ x. p x ≡ q x) xs → select p xs ≡ select q xs
  select-ext_on p q [] h = refl
  select-ext_on p q (x ∷ xs) h = rw (h.0, select-ext_on p q xs h.1)

  pub select-all : (p : A → Bool) (xs : List A) → All (λ x. p x ≡ true) xs → select p xs ≡ xs
  select-all p [] h = refl
  select-all p (x ∷ xs) h = rw (h.0, select-all p xs h.1)

  pub select-none : (p : A → Bool) (xs : List A) → All (λ x. p x ≡ false) xs → select p xs ≡ []
  select-none p [] h = refl
  select-none p (x ∷ xs) h = rw (h.0, select-none p xs h.1)

  pub length-drop-le : (n : ℕ) (xs : List A) → length (drop n xs) ≤ length xs
  length-drop-le zero xs = omega arith
  length-drop-le (suc n) [] = omega arith
  length-drop-le (suc n) (y ∷ xs) = omega (arith, length-drop-le n xs)

  -- The last row of a page that begins with `x`.
  abbrev pub last_of : A → List A → A
  last_of x [] = x
  last_of x (y ∷ ys) = last_of y ys

  pub All-last_of : (P : A → Type 0) (x : A) (ys : List A) → P x → All P ys → P (last_of x ys)
  All-last_of P x [] h k = h
  All-last_of P x (y ∷ ys) h k = All-last_of P y ys k.0 k.1

module _ {A : Type 0} (o : StrictOrder A) where
  open o use {lt, irrefl, trans}

  abbrev pub insert_row : A → List A → List A
  insert_row x [] = x ∷ []
  insert_row x (y ∷ ys) = if lt y x then y ∷ insert_row x ys else x ∷ y ∷ ys

  abbrev pub sort_rows : List A → List A
  sort_rows [] = []
  sort_rows (x ∷ xs) = insert_row x (sort_rows xs)

  abbrev pub Apart : A → A → Type 0
  Apart x y = (lt x y ≡ true) ⊎ (lt y x ≡ true)

  -- No two rows are level.
  abbrev pub AllApart : List A → Type 0
  AllApart [] = Unit {0}
  AllApart (x ∷ xs) = All (Apart x) xs × AllApart xs

  abbrev pub IsStrict : List A → Type 0
  IsStrict [] = Unit {0}
  IsStrict (x ∷ xs) = All (λ y. lt x y ≡ true) xs × IsStrict xs

  pub asym : (x y : A) → lt x y ≡ true → lt y x ≡ false
  asym x y h = elim (Bool-cases (lt y x)) [ inl e ↦ cc (trans x y x h e, irrefl x) | inr e ↦ e ]

  -- Of two rows that are apart, the one that is not behind is in front.
  front : (x y : A) → Apart x y → lt y x ≡ false → lt x y ≡ true
  front x y (inl h) e = h
  front x y (inr h) e = cc

  pub All-insert_row :
      (P : A → Type 0) (x : A) (ys : List A) → P x → All P ys → All P (insert_row x ys)
  All-insert_row P x [] h k = (h, tt)
  All-insert_row P x (y ∷ ys) h k = elim (Bool-cases (lt y x)) [
    | inl e ↦ rw e (k.0, All-insert_row P x ys h k.1)
    | inr e ↦ rw e (h, k)
  ]

  length-insert_row : (x : A) (ys : List A) → length (insert_row x ys) ≡ suc (length ys)
  length-insert_row x [] = refl
  length-insert_row x (y ∷ ys) = ground (arith, length-insert_row x ys)

  pub length-sort_rows : (xs : List A) → length (sort_rows xs) ≡ length xs
  length-sort_rows [] = refl
  length-sort_rows (x ∷ xs) = length-insert_row x (sort_rows xs) ∙ ap suc (length-sort_rows xs)

  pub All-sort_rows : (P : A → Type 0) (xs : List A) → All P xs → All P (sort_rows xs)
  All-sort_rows P [] h = tt
  All-sort_rows P (x ∷ xs) h = All-insert_row P x (sort_rows xs) h.0 (All-sort_rows P xs h.1)

  -- All rows behind `y` are behind what comes before `y`.
  behind :
      (x y : A) (ys : List A)
      → lt x y ≡ true
      → All (λ z. lt y z ≡ true) ys
      → All (λ z. lt x z ≡ true) ys
  behind x y ys h = All-map (λ z. lt y z ≡ true) (λ z. lt x z ≡ true) (λ z. trans x y z h) ys

  insert_row-IsStrict :
      (x : A) (ys : List A) → All (Apart x) ys → IsStrict ys → IsStrict (insert_row x ys)
  insert_row-IsStrict x [] a s = (tt, tt)
  insert_row-IsStrict x (y ∷ ys) a s = elim (Bool-cases (lt y x)) [
    | inl e ↦
        rw e (All-insert_row (λ z. lt y z ≡ true) x ys e s.0, insert_row-IsStrict x ys a.1 s.1)
    | inr e ↦ let f = front x y a.0 e in rw e ((f, behind x y ys f s.0), s)
  ]

  pub sort_rows-IsStrict : (xs : List A) → AllApart xs → IsStrict (sort_rows xs)
  sort_rows-IsStrict [] a = tt
  sort_rows-IsStrict (x ∷ xs) a =
      insert_row-IsStrict x (sort_rows xs) (All-sort_rows (Apart x) xs a.0)
        (sort_rows-IsStrict xs a.1)

  pub AllApart-select : (p : A → Bool) (xs : List A) → AllApart xs → AllApart (select p xs)
  AllApart-select p [] a = tt
  AllApart-select p (x ∷ xs) a = elim (Bool-cases (p x)) [
    | inl e ↦ rw e (All-select (Apart x) (Apart x) p (λ y q h. h) xs a.0, AllApart-select p xs a.1)
    | inr e ↦ rw e (AllApart-select p xs a.1)
  ]

  pub IsStrict-select : (p : A → Bool) (xs : List A) → IsStrict xs → IsStrict (select p xs)
  IsStrict-select p [] s = tt
  IsStrict-select p (x ∷ xs) s = elim (Bool-cases (p x)) [
    | inl e ↦ rw e (
      All-select (λ y. lt x y ≡ true) (λ y. lt x y ≡ true) p (λ y q h. h) xs s.0,
      IsStrict-select p xs s.1,
    )
    | inr e ↦ rw e (IsStrict-select p xs s.1)
  ]

  -- A row that all others are behind is put in front of them.
  insert_row-front : (x : A) (ys : List A) → All (λ y. lt x y ≡ true) ys → insert_row x ys ≡ x ∷ ys
  insert_row-front x [] h = refl
  insert_row-front x (y ∷ ys) h = rw (asym x y h.0)

  select-insert_row :
      (p : A → Bool) (x : A) (ys : List A)
      → All (Apart x) ys
      → IsStrict ys
      → select p (insert_row x ys) ≡ (if p x then insert_row x (select p ys) else select p ys)
  select-insert_row p x [] a s = refl
  select-insert_row p x (y ∷ ys) a s = elim (Bool-cases (lt y x)) [
    | inl e ↦ elim (Bool-cases (p x)) [
      | inl f ↦ elim (Bool-cases (p y)) [
        | inl g ↦ rw (e, f, g, e) (rw (select-insert_row p x ys a.1 s.1, f))
        | inr g ↦ rw (e, f, g) (rw (select-insert_row p x ys a.1 s.1, f))
      ]
      | inr f ↦ rw (e, f) (rw (select-insert_row p x ys a.1 s.1, f))
    ]
    | inr e ↦ elim (Bool-cases (p x)) [
      | inl f ↦
          let l = front x y a.0 e in
          let first : All (λ z. lt x z ≡ true) (select p (y ∷ ys)) =
            All-select (λ z. lt x z ≡ true) (λ z. lt x z ≡ true) p (λ z q h. h) (y ∷ ys)
              (l, behind x y ys l s.0) in
          rw (e, f) (sym (insert_row-front x (select p (y ∷ ys)) first))
      | inr f ↦ rw (e, f)
    ]
  ]

  pub select-sort_rows :
      (p : A → Bool) (xs : List A) → AllApart xs → select p (sort_rows xs) ≡ sort_rows (select p xs)
  select-sort_rows p [] a = refl
  select-sort_rows p (x ∷ xs) a = elim (Bool-cases (p x)) [
    | inl e ↦ rw e (
        rw (← select-sort_rows p xs a.1) (
          select-insert_row p x (sort_rows xs) (All-sort_rows (Apart x) xs a.0)
            (sort_rows-IsStrict xs a.1)
          ∙ rw e))
    | inr e ↦ rw e (
        select-insert_row p x (sort_rows xs) (All-sort_rows (Apart x) xs a.0)
          (sort_rows-IsStrict xs a.1)
        ∙ rw e (select-sort_rows p xs a.1))
  ]
