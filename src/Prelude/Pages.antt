-- ===== src/Prelude/Pages.antt =====
-- Reading rows page by page: sorted ones behind a cursor, or by the number of a page.

use microservices_base_platf.Prelude.Lists.{All, All-select, All-map, All-take, select, take, drop}
use Prim.Native.Nat.{ℕ, zero, suc, ◌+◌, ◌-◌, ◌*◌}
use native.Mathlib.Omega.{arith}
use mathlib.Core.Path.{◌≡◌, refl, ap, subst, ◌∙◌, sym}
use mathlib.Core.List.{List, [], ◌∷◌, ◌++◌}
use mathlib.Core.Bool.{Bool, true}
use microservices_base_platf.Prelude.Sorting.{
  StrictOrder, select-select, select-ext_on, select-all, last_of, sort_rows, AllApart, IsStrict,
  asym, All-sort_rows, sort_rows-IsStrict, AllApart-select, select-sort_rows,
}

module _ {A : Type 0} (o : StrictOrder A) where
  open o use {lt, irrefl, trans}

  lt-last_of :
      (x y : A) (ys : List A)
      → lt x y ≡ true
      → All (λ z. lt x z ≡ true) ys
      → lt x (last_of y ys) ≡ true
  lt-last_of x y [] h k = h
  lt-last_of x y (z ∷ ys) h k = lt-last_of x z ys k.0 k.1

  -- The rows behind the last row of a page are those that the page leaves out.
  pub select-behind_page :
      (n : ℕ) (x : A) (xs : List A)
      → IsStrict o (x ∷ xs)
      → select (lt (last_of x (take n xs))) (x ∷ xs) ≡ drop n xs
  select-behind_page zero x xs s = rw (irrefl x) (select-all (lt x) xs s.0)
  select-behind_page (suc n) x [] s = rw (irrefl x)
  select-behind_page (suc n) x (y ∷ xs) s =
      rw
        (asym o x (last_of y (take n xs))
          (lt-last_of x y (take n xs) s.0.0 (All-take (λ z. lt x z ≡ true) n xs s.0.1)))
        (select-behind_page n y xs s.1)

  -- All rows that a query selects pass its test.
  pub All-selected :
      (p : A → Bool) (rows : List A) → All (λ y. p y ≡ true) (sort_rows o (select p rows))
  All-selected p rows =
      All-sort_rows o (λ y. p y ≡ true) (select p rows)
        (All-select (λ y. Unit {0}) (λ y. p y ≡ true) p (λ y q u. q) rows (everywhere rows))
    where
      everywhere : (ys : List A) → All (λ y. Unit {0}) ys
      everywhere [] = tt
      everywhere (y ∷ ys) = (tt, everywhere ys)

  -- The page behind the last row of a page that ends with it: what is left of the rows that `p`
  -- selects, where `p'` selects those of them that come behind.
  pub select-next_page :
      (p p' : A → Bool) (rows : List A) (n : ℕ) (x : A) (xs : List A)
      → AllApart o rows
      → sort_rows o (select p rows) ≡ x ∷ xs
      → ((y : A) → p' y ≡ true → p y ≡ true)
      → ((y : A) → p y ≡ true → p' y ≡ lt (last_of x (take n xs)) y)
      → sort_rows o (select p' rows) ≡ drop n xs
  select-next_page p p' rows n x xs a e h k =
      let apart = AllApart-select o p rows a in
      let selected : All (λ y. p y ≡ true) (x ∷ xs) =
        subst (All (λ y. p y ≡ true)) e (All-selected p rows) in
      ap (sort_rows o) (sym (select-select p' p h rows))
      ∙ sym (select-sort_rows o p' (select p rows) apart)
      ∙ ap (select p') e
      ∙ select-ext_on p' (lt (last_of x (take n xs))) (x ∷ xs)
          (All-map (λ y. p y ≡ true) (λ y. p' y ≡ lt (last_of x (take n xs)) y) k (x ∷ xs) selected)
      ∙ select-behind_page n x xs
          (subst (IsStrict o) e (sort_rows-IsStrict o (select p rows) apart))

module _ {ℓ} {A : Type ℓ} where
  -- `Offset((page - 1) * size).Limit(size)`.
  abbrev pub offset_page : ℕ → ℕ → List A → List A
  offset_page page size xs = take size (drop ((page - 1) * size) xs)

  take_nil : (k : ℕ) → take {A = A} k [] ≡ []
  take_nil zero = refl
  take_nil (suc k) = refl

  take-drop-append : (m n : ℕ) (xs : List A) → take m xs ++ take n (drop m xs) ≡ take (m + n) xs
  take-drop-append zero n xs = ap (λ k. take k xs) (omega arith)
  take-drop-append (suc m) n [] =
      let same : suc m + n ≡ suc (m + n) = omega arith in rw same (take_nil n)
  take-drop-append (suc m) n (x ∷ xs) =
      let same : suc m + n ≡ suc (m + n) = omega arith in
      rw same (ap (◌∷◌ x) (take-drop-append m n xs))

  -- The first n pages, one after the other.
  abbrev pub offset_pages : ℕ → ℕ → List A → List A
  offset_pages zero size xs = []
  offset_pages (suc n) size xs = offset_pages n size xs ++ offset_page (suc n) size xs

  pub offset_pages-take : (n size : ℕ) (xs : List A) → offset_pages n size xs ≡ take (n * size) xs
  offset_pages-take zero size xs = let same : 0 * size ≡ 0 = omega arith in rw same refl
  offset_pages-take (suc n) size xs =
      let less : suc n - 1 ≡ n = omega arith in
      let same : suc n * size ≡ n * size + size = omega arith in
      rw (less, same, offset_pages-take n size xs) (take-drop-append (n * size) size xs)
