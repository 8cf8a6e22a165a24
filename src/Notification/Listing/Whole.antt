-- ===== src/Notification/Listing/Whole.antt =====
-- A client that follows the cursors, and what it has read at the end.
use microservices_base_platf.Prelude.{
  ℕ, zero, suc, ◌+◌, ◌<◌, ◌≡◌, refl, sym, ap, subst, ◌∙◌, ◌≢◌, ◌⊎◌, inl, inr, String, Bool, true,
  false, ◌&&◌, Option, none, some, List, [], ◌∷◌, ◌++◌, map, length, take, drop, take-append-drop,
  select, All, All-map, Bool-cases, ltb, str_eq, if◌then◌else◌, Distinct, arith, sort_rows, last_of,
  All-last_of, All-take, All-selected, ◌-◌, Apart, AllApart, select-next_page, length-sort_rows,
  length-select-le, length-drop-le,
}
use mathlib.Core.List.{map-append}
use microservices_base_platf.Notification.Domain.{Uuid, Time, Notification}
use microservices_base_platf.Notification.Listing.{
  RepoCursor, NotificationFilter, matches, precedes, is_behind, newest_first, behind, list, Library,
  ListRequest, ListError, NotificationItem, ListResponse, item_of, limit_of, encode_cursor,
  decode_cursor, bound_of, cursor_with, cursor_parts, cursor_of, filter_with, page_of, respond,
  list_notifications,
}

-- What the source relies on: base64, the cursor's JSON and the text of an id can be read back, and
-- the base64 text of a cursor is not empty.
pub record IsFaithful (lib : Library) : Type 0 where
  pub from-to_base64 : (s : String) → lib.from_base64 (lib.to_base64 s) ≡ some s
  pub unmarshal-marshal : (p : Time × String) → lib.unmarshal (lib.marshal p) ≡ some p
  pub parse-text : (id : Uuid) → lib.parse_uuid (lib.text_of id) ≡ some id
  pub visible : (p : Time × String) → str_eq (lib.to_base64 (lib.marshal p)) "" ≡ false

abbrev pub id_of : Notification → Uuid
id_of n = n.id

-- The request for the page behind a cursor.
abbrev pub behind_cursor : ListRequest → String → ListRequest
behind_cursor r cursor = record r { cursor = cursor }

abbrev pub append_rest :
    List NotificationItem → Option (List NotificationItem) → Option (List NotificationItem)
append_rest items none = none
append_rest items (some more) = some (items ++ more)

-- What a client reads that asks for one page after the other; `none` for an error, or without fuel.
abbrev pub follow :
    ListError ⊎ ListResponse
    → (String → Option (List NotificationItem))
    → Option (List NotificationItem)
follow (inl e) rest = none
follow (inr page) rest =
    if page.has_more then append_rest page.items (rest page.next_cursor) else some page.items

pub read_all : Library → ℕ → ListRequest → List Notification → Option (List NotificationItem)
unfolding list_notifications
read_all lib zero r rows = none
read_all lib (suc fuel) r rows =
    follow (list_notifications lib none r rows)
      (λ cursor. read_all lib fuel (behind_cursor r cursor) rows)

take-take : {A : Type 0} (n : ℕ) (xs : List A) → take n (take (suc n) xs) ≡ take n xs
take-take zero xs = refl
take-take (suc n) [] = refl
take-take (suc n) (x ∷ xs) = ap (◌∷◌ x) (take-take n xs)

take-short : {A : Type 0} (n : ℕ) (xs : List A) → length (take n xs) < n → take n xs ≡ xs
take-short zero xs h = absurd (omega arith)
take-short (suc n) [] h = refl
take-short (suc n) (x ∷ xs) h = ap (◌∷◌ x) (take-short n xs (omega arith))

Distinct-AllApart : (rows : List Notification) → Distinct id_of rows → AllApart newest_first rows
Distinct-AllApart [] d = tt
Distinct-AllApart (n ∷ rows) d = (
  All-map (λ v. v.id ≢ n.id) (Apart newest_first n) (λ v h. ground arith) rows d.0,
  Distinct-AllApart rows d.1,
)

is_behind_trans :
    (cursor : Option RepoCursor) (l v : Notification)
    → is_behind cursor l ≡ true
    → precedes v.created_at v.id l.created_at l.id ≡ true
    → is_behind cursor v ≡ true
is_behind_trans none l v h k = refl
is_behind_trans (some c) l v h k = ground arith

abbrev pub cursor_at : Notification → RepoCursor
cursor_at n = record { created_at = n.created_at; id = n.id }

-- A cursor that was handed out is read as the place of the last item.
cursor_of-encode_cursor :
    (lib : Library) (n : Notification)
    → IsFaithful lib
    → cursor_of lib (encode_cursor lib n.created_at (lib.text_of n.id)) ≡ inr (some (cursor_at n))
cursor_of-encode_cursor lib n f =
    rw (f.visible (n.created_at, lib.text_of n.id))
      (ap (cursor_parts lib) decoded ∙ ap (cursor_with lib n.created_at) (f.parse-text n.id))
  where
    decoded :
        decode_cursor lib (encode_cursor lib n.created_at (lib.text_of n.id))
        ≡ some (n.created_at, lib.text_of n.id)
    decoded =
        rw (f.from-to_base64 (lib.marshal (n.created_at, lib.text_of n.id)))
          (f.unmarshal-marshal (n.created_at, lib.text_of n.id))

no_more : (k : ℕ) → ltb (suc k) 0 ≡ false
no_more k = ground arith

-- One page of the rows that are left, and what the rest of the reading gives.
follow-page :
    (lib : Library) (k : ℕ) (left : List Notification)
    (rest : String → Option (List NotificationItem))
    → ((n : Notification) (m : List Notification)
        → left ≡ n ∷ m
        → let l = last_of n (take k m) in
          rest (encode_cursor lib l.created_at (lib.text_of l.id)) ≡ some (map item_of (drop k m)))
    → follow (inr (page_of lib (suc k) (take (suc (suc k)) left))) rest ≡ some (map item_of left)
follow-page lib k [] rest h = rw (no_more k) refl
follow-page lib k (n ∷ m) rest h = elim (Bool-cases (ltb (suc k) (suc (length (take (suc k) m))))) [
  | inl e ↦ rw e (
      rw (take-take k m) (
        rw (h n m refl) (
          ap some (
            sym (map-append item_of (n ∷ take k m) (drop k m))
            ∙ ap (λ t. map item_of (n ∷ t)) (take-append-drop k m)))))
  | inr e ↦ rw e (ap (λ t. some (map item_of (n ∷ t))) (take-short (suc k) m (ground arith)))
]

-- The filter of a request whose bounds of time have been read.
abbrev pub filter_at :
    ListRequest → Option Time → Option Time → Option RepoCursor → NotificationFilter
filter_at r from to cursor = record {
  user_id = r.user_id;
  status = r.status;
  channel = r.channel;
  event_type = r.event_type;
  from = from;
  to = to;
  cursor = cursor;
  limit = limit_of r.limit + 1;
}

and_right : (a b : Bool) → a && b ≡ true → b ≡ true
and_right true b h = h
and_right false b h = cc

and_left : (a b c : Bool) → a && b ≡ true → a && c ≡ c
and_left true b c h = refl
and_left false b c h = cc

select-and_true :
    (p : Notification → Bool) (rows : List Notification)
    → select (λ n. p n && true) rows ≡ select p rows
select-and_true p [] = refl
select-and_true p (n ∷ rows) = elim (Bool-cases (p n)) [
  | inl e ↦ rw e (rw (select-and_true p rows))
  | inr e ↦ rw e (select-and_true p rows)
]

module _ (lib : Library) (good : IsFaithful lib) (r : ListRequest) (from to : Option Time)
    (rows : List Notification) (hf : bound_of lib r.from ≡ some from)
    (ht : bound_of lib r.to ≡ some to) (d : Distinct id_of rows) where
  responds :
      (text : String) (cursor : Option RepoCursor)
      → cursor_of lib text ≡ inr cursor
      → list_notifications lib none (behind_cursor r text) rows
        ≡ inr (page_of lib (limit_of r.limit) (list (filter_at r from to cursor) rows))
  unfolding list_notifications
  responds text cursor h =
      ap
        (λ x.
          respond lib none (behind_cursor r text) rows
            (filter_with lib (behind_cursor r text) x (bound_of lib r.to) (cursor_of lib text)))
        hf
      ∙ ap
          (λ x.
            respond lib none (behind_cursor r text) rows
              (filter_with lib (behind_cursor r text) (some from) x (cursor_of lib text)))
          ht
      ∙ ap
          (λ x.
            respond lib none (behind_cursor r text) rows
              (filter_with lib (behind_cursor r text) (some from) (some to) x))
          h

  left_behind :
      (cursor : Option RepoCursor) (k : ℕ) (n : Notification) (m : List Notification)
      → behind (filter_at r from to none) cursor rows ≡ n ∷ m
      → behind (filter_at r from to none) (some (cursor_at (last_of n (take k m)))) rows ≡ drop k m
  left_behind cursor k n m e =
      let l = last_of n (take k m) in
      let p = λ (y : Notification). matches (filter_at r from to none) y && is_behind cursor y in
      let all : All (λ y. p y ≡ true) (n ∷ m) =
        subst (All (λ y. p y ≡ true)) e (All-selected newest_first p rows) in
      let at_last : p l ≡ true =
        All-last_of (λ y. p y ≡ true) n (take k m) all.0 (All-take _ k m all.1) in
      select-next_page newest_first p _ rows k n m (Distinct-AllApart rows d) e
        (λ y h. both cursor l y (and_right _ _ at_last) h) (λ y h. and_left _ _ _ h)
    where
      both :
          (cursor : Option RepoCursor) (l y : Notification)
          → is_behind cursor l ≡ true
          → matches (filter_at r from to none) y && precedes y.created_at y.id l.created_at l.id
            ≡ true
          → matches (filter_at r from to none) y && is_behind cursor y ≡ true
      both cursor l y h k = elim (Bool-cases (matches (filter_at r from to none) y)) [
        | inl e ↦ rw e (is_behind_trans cursor l y h (and_right _ _ k))
        | inr e ↦ cc (rw e at k)
      ]

  limit_of-suc : limit_of r.limit ≡ suc (limit_of r.limit - 1)
  limit_of-suc = ground arith

  read_all-rest :
      (fuel : ℕ) (text : String) (cursor : Option RepoCursor)
      → cursor_of lib text ≡ inr cursor
      → length (behind (filter_at r from to none) cursor rows) < fuel
      → read_all lib fuel (behind_cursor r text) rows
        ≡ some (map item_of (behind (filter_at r from to none) cursor rows))
  unfolding read_all list
  read_all-rest zero text cursor h l = absurd (omega arith)
  read_all-rest (suc fuel) text cursor h l =
      let k = limit_of r.limit - 1 in
      let left = behind (filter_at r from to none) cursor rows in
      let rest = λ (t : String). read_all lib fuel (behind_cursor r t) rows in
      ap (λ x. follow x rest)
        (responds text cursor h
          ∙ ap (λ j. inr (page_of lib j (take (j + 1) left))) limit_of-suc
          ∙ ap (λ j. inr (page_of lib (suc k) (take j left))) (more_by_one k))
      ∙ follow-page lib k left rest (λ n m e.
        let b = left_behind cursor k n m e in
        read_all-rest fuel _ _ (cursor_of-encode_cursor lib (last_of n (take k m)) good)
          (rw b (shorter k left n m e l))
        ∙ ap (λ ns. some (map item_of ns)) b)
    where
      more_by_one : (k : ℕ) → suc k + 1 ≡ suc (suc k)
      more_by_one k = omega arith

      shorter :
          (k : ℕ) (left : List Notification) (n : Notification) (m : List Notification)
          → left ≡ n ∷ m
          → length left < suc fuel
          → length (drop k m) < fuel
      shorter k left n m e l = omega (arith, length-drop-le k m, ap length e, l)

-- A client that starts without a cursor and follows the cursors has, after as many pages as there
-- are rows and one at most, read exactly the items of the user that the filters select, each once,
-- newest first, whatever limit it gives, if the ids are unique, the bounds of time are well-formed,
-- the queries do not fail, the rows do not change meanwhile and the cursors can be read back.
pub read_all-whole :
    (lib : Library) (r : ListRequest) (from to : Option Time) (rows : List Notification)
    → IsFaithful lib
    → bound_of lib r.from ≡ some from
    → bound_of lib r.to ≡ some to
    → Distinct id_of rows
    → read_all lib (suc (length rows)) (behind_cursor r "") rows
      ≡ some (
          map item_of
            (sort_rows newest_first (select (λ n. matches (filter_at r from to none) n) rows)))
read_all-whole lib r from to rows good hf ht d =
    read_all-rest lib good r from to rows hf ht d (suc (length rows)) "" none refl (
      omega (
        arith,
        length-sort_rows newest_first
            (select (λ n. matches (filter_at r from to none) n && true) rows),
        length-select-le {0} (λ n. matches (filter_at r from to none) n && true) rows,
      ))
    ∙ ap (λ ns. some (map item_of (sort_rows newest_first ns))) (select-and_true _ rows)
