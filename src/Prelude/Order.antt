-- ===== src/Prelude/Order.antt =====
-- `ORDER BY key ASC` as a stable insertion sort, and rows told apart by a numeric key.
use Prim.Native.Nat.{ℕ, zero, suc, ◌≤◌}
use mathlib.Core.Path.{◌≡◌, sym, ◌∙◌}
use mathlib.Core.Logic.{◌≢◌, inl, inr}
use mathlib.Core.List.{List, [], ◌∷◌}
use mathlib.Core.Bool.{Bool}
use native.Mathlib.Nat.{le_trans}
use microservices_base_platf.Prelude.Tests.{if◌then◌else◌, Bool-cases, leb, leb→le, leb-false}
use microservices_base_platf.Prelude.Lists.{
  All, All-select, All-take, All-map, All-update_where, select, take, update_where,
}

module _ {ℓ} {A : Type ℓ} (key : A → ℕ) where
  abbrev pub insert_by : A → List A → List A
  insert_by x [] = x ∷ []
  insert_by x (y ∷ ys) = if leb (key x) (key y) then x ∷ y ∷ ys else y ∷ insert_by x ys

  abbrev pub order_by : List A → List A
  order_by [] = []
  order_by (x ∷ xs) = insert_by x (order_by xs)

  -- No two rows have one key.
  abbrev pub Distinct : List A → Type 0
  Distinct [] = Unit {0}
  Distinct (x ∷ xs) = All (λ y. key y ≢ key x) xs × Distinct xs

  -- Each key is below all later ones.
  abbrev pub Ascending : List A → Type 0
  Ascending [] = Unit {0}
  Ascending (x ∷ xs) = All (λ y. key x ≤ key y) xs × Ascending xs

module _ {ℓ κ} {A : Type ℓ} (key : A → ℕ) (P : A → Type κ) where
  pub All-insert_by : (x : A) (xs : List A) → P x → All P xs → All P (insert_by key x xs)
  All-insert_by x [] h k = (h, tt)
  All-insert_by x (y ∷ ys) h k = elim (Bool-cases (leb (key x) (key y))) [
    | inl e ↦ rw e (h, k)
    | inr e ↦ rw e (k.0, All-insert_by x ys h k.1)
  ]

  pub All-order_by : (xs : List A) → All P xs → All P (order_by key xs)
  All-order_by [] h = tt
  All-order_by (x ∷ xs) h = All-insert_by x (order_by key xs) h.0 (All-order_by xs h.1)

module _ {ℓ} {A : Type ℓ} (order key : A → ℕ) where
  Distinct-insert_by :
      (x : A) (xs : List A)
      → All (λ y. key y ≢ key x) xs
      → Distinct key xs
      → Distinct key (insert_by order x xs)
  Distinct-insert_by x [] h d = (tt, tt)
  Distinct-insert_by x (y ∷ ys) h d = elim (Bool-cases (leb (order x) (order y))) [
    | inl e ↦ rw e (h, d)
    | inr e ↦ rw e (
      All-insert_by order (λ z. key z ≢ key y) x ys (λ p. h.0 (sym p)) d.0,
      Distinct-insert_by x ys h.1 d.1,
    )
  ]

  pub Distinct-order_by : (xs : List A) → Distinct key xs → Distinct key (order_by order xs)
  Distinct-order_by [] d = tt
  Distinct-order_by (x ∷ xs) d =
      Distinct-insert_by x (order_by order xs) (All-order_by order _ xs d.0)
        (Distinct-order_by xs d.1)

module _ {ℓ} {A : Type ℓ} (key : A → ℕ) where
  pub Distinct-select : (p : A → Bool) (xs : List A) → Distinct key xs → Distinct key (select p xs)
  Distinct-select p [] d = tt
  Distinct-select p (x ∷ xs) d = elim (Bool-cases (p x)) [
    | inl e ↦ rw e (
      All-select (λ y. key y ≢ key x) (λ y. key y ≢ key x) p (λ y e h. h) xs d.0,
      Distinct-select p xs d.1,
    )
    | inr e ↦ rw e (Distinct-select p xs d.1)
  ]

  pub Distinct-take : (n : ℕ) (xs : List A) → Distinct key xs → Distinct key (take n xs)
  Distinct-take zero xs d = tt
  Distinct-take (suc n) [] d = tt
  Distinct-take (suc n) (x ∷ xs) d = (All-take _ n xs d.0, Distinct-take n xs d.1)

  Ascending-insert_by :
      (x : A) (xs : List A) → Ascending key xs → Ascending key (insert_by key x xs)
  Ascending-insert_by x [] a = (tt, tt)
  Ascending-insert_by x (y ∷ ys) a = elim (Bool-cases (leb (key x) (key y))) [
    | inl e ↦ rw e (
      (
        leb→le _ _ e,
        All-map (λ z. key y ≤ key z) (λ z. key x ≤ key z) (λ z h. le_trans (leb→le _ _ e) h) ys a.0,
      ),
      a,
    )
    | inr e ↦ rw e (
      All-insert_by key (λ z. key y ≤ key z) x ys (leb-false _ _ e) a.0,
      Ascending-insert_by x ys a.1,
    )
  ]

  pub Ascending-order_by : (xs : List A) → Ascending key (order_by key xs)
  Ascending-order_by [] = tt
  Ascending-order_by (x ∷ xs) = Ascending-insert_by x (order_by key xs) (Ascending-order_by xs)

  -- Updates that keep every key keep rows distinct.
  keys-update_where :
      (p : A → Bool) (f : A → A) (x : A)
      → ((y : A) → key (f y) ≡ key y)
      → (xs : List A) → All (λ y. key y ≢ key x) xs
      → All (λ y. key y ≢ key x) (update_where p f xs)
  keys-update_where p f x k xs =
      All-update_where (λ y. key y ≢ key x) p f (λ y e h q. h (sym (k y) ∙ q)) xs

  pub Distinct-update_where :
      (p : A → Bool) (f : A → A)
      → ((y : A) → key (f y) ≡ key y)
      → (xs : List A) → Distinct key xs
      → Distinct key (update_where p f xs)
  Distinct-update_where p f k [] d = tt
  Distinct-update_where p f k (x ∷ xs) d = elim (Bool-cases (p x)) [
    | inl e ↦ rw e (
      All-map (λ y. key y ≢ key x) (λ y. key y ≢ key (f x)) (λ y h q. h (q ∙ k x)) _
          (keys-update_where p f x k xs d.0),
      Distinct-update_where p f k xs d.1,
    )
    | inr e ↦ rw e (keys-update_where p f x k xs d.0, Distinct-update_where p f k xs d.1)
  ]
