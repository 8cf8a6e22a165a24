-- ===== src/Identity/Stream/Complete.antt =====
-- A stream sends every user that it should, in order, each once, or ends with an error.
use microservices_base_platf.Prelude.{
  ℕ, zero, suc, ◌-◌, ◌<◌, ◌≡◌, refl, sym, ap, ◌∙◌, ◌≢◌, ◌⊎◌, inl, inr, String, Bool, true, false,
  ◌&&◌, Option, none, some, List, [], ◌∷◌, ◌++◌, map, length, take, drop, select, All, All-map,
  Bool-cases, Option-cases, Distinct, arith, last_of, All-last_of, AllApart, Apart,
  select-next_page, All-selected, subst, length-drop-le, length-sort_rows, take-append-drop,
  length-select-le, All-take,
}
use mathlib.Core.List.{append-nil, append_assoc, map-append}
use microservices_base_platf.Identity.Users.{
  Uuid, User, by_id, is_listed, is_after, users_behind, list_users,
}
use microservices_base_platf.Identity.Stream.{
  UserRecord, record_of, StreamError, cancelled, out_of_fuel, list_failed, send_failed, Answers,
  batch_of, Streamed, send_page, after_page, stream_page, stream_pages, stream_users,
}

abbrev pub id_of : User → Uuid
id_of u = u.id

Distinct-AllApart : (rows : List User) → Distinct id_of rows → AllApart by_id rows
Distinct-AllApart [] d = tt
Distinct-AllApart (u ∷ rows) d = (
  All-map (λ v. v.id ≢ u.id) (Apart by_id u) (λ v h. ground arith) rows d.0,
  Distinct-AllApart rows d.1,
)

module _ (role : String) (rows : List User) (d : Distinct id_of rows) where
  is_after_trans :
      (cursor : Option Uuid) (l v : User)
      → is_after cursor l ≡ true
      → is_after (some l.id) v ≡ true
      → is_after cursor v ≡ true
  is_after_trans none l v h k = refl
  is_after_trans (some c) l v h k = ground arith

  -- The users behind the last one of a page are those that the page leaves out.
  users_behind_page :
      (cursor : Option Uuid) (n : ℕ) (u : User) (m : List User)
      → users_behind role cursor rows ≡ u ∷ m
      → users_behind role (some (last_of u (take n m)).id) rows ≡ drop n m
  users_behind_page cursor n u m e =
      let l = last_of u (take n m) in
      let q = λ (v : User). is_listed role v && is_after cursor v in
      let listed : All (λ v. q v ≡ true) (u ∷ m) =
        subst (All (λ v. q v ≡ true)) e (All-selected by_id q rows) in
      let at_last : q l ≡ true =
        All-last_of (λ v. q v ≡ true) u (take n m) listed.0 (All-take _ n m listed.1) in
      select-next_page by_id q _ rows n u m (Distinct-AllApart rows d) e
        (λ v h. ground (arith, is_after_trans cursor l v (ground (arith, at_last))))
        (λ v h. ground (arith, h))

-- An error that an answer explains.
abbrev pub Caused : Answers → Option StreamError → Type 0
Caused a none = ⊥
Caused a (some cancelled) = (page : ℕ) × (a.cancelled_at page ≡ true)
Caused a (some out_of_fuel) = ⊥
Caused a (some (list_failed e)) = (page : ℕ) × (a.list page ≡ some e)
Caused a (some (send_failed e)) = (id : Uuid) × (a.send id ≡ some e)

-- What was sent is the beginning of `all`, and all of it unless an error came from outside.
pub record IsPart (a : Answers) (all : List UserRecord) (r : Streamed) : Type 0 where
  pub rest : List UserRecord
  pub sent : r.0 ++ rest ≡ all
  pub ended : ((r.1 ≡ none) × (rest ≡ [])) ⊎ Caused a r.1

module _ (a : Answers) where
  send_page-IsPart :
      (us : List User) (sent : List UserRecord)
      → IsPart a (sent ++ map record_of us) (send_page a.send us sent)
  unfolding send_page
  send_page-IsPart [] sent = record { rest = []; sent = refl; ended = inl (refl, refl) }
  send_page-IsPart (u ∷ us) sent = elim (Option-cases (a.send u.id)) [
    | inl e ↦
        rw (e, send_page)
          (rw (append_assoc sent (record_of u ∷ []) (map record_of us)) at
            (send_page-IsPart us (sent ++ record_of u ∷ [])))
    | inr (m, e) ↦
        rw (e, send_page)
          (record { rest = map record_of (u ∷ us); sent = refl; ended = inr (u.id, e) })
  ]

  all_sent : (front : List UserRecord) (r : Streamed) → IsPart a front r → r.1 ≡ none → r.0 ≡ front
  all_sent front (s, none) p h = elim p.ended [
    | inl (n, e) ↦ sym (append-nil s) ∙ ap (◌++◌ s) (sym e) ∙ p.sent
    | inr c ↦ absurd c
  ]
  all_sent front (s, some e) p h = cc

  -- A page is followed by what is left: nothing, or what the next pages send.
  after_page-IsPart :
      (full : Bool) (r : Streamed) (next : List UserRecord → Streamed)
      (front left : List UserRecord)
      → IsPart a front r
      → (full ≡ false → left ≡ [])
      → (full ≡ true → IsPart a (front ++ left) (next front))
      → IsPart a (front ++ left) (after_page full r next)
  after_page-IsPart full (s, some e) next front left p h k = record {
    rest = p.rest ++ left;
    sent = sym (append_assoc s p.rest left) ∙ ap (λ t. t ++ left) p.sent;
    ended = elim p.ended [ inl (n, e') ↦ cc | inr c ↦ inr c ];
  }
  after_page-IsPart true (s, none) next front left p h k =
      rw (all_sent front (s, none) p refl) (k refl)
  after_page-IsPart false (s, none) next front left p h k = record {
    rest = [];
    sent = rw (h refl, all_sent front (s, none) p refl) refl;
    ended = inl (refl, refl);
  }

drop_short : (n : ℕ) (m : List User) → length (take n m) < n → drop n m ≡ []
drop_short zero m h = absurd (omega arith)
drop_short (suc n) [] h = refl
drop_short (suc n) (u ∷ m) h = drop_short n m (omega arith)

module _ (a : Answers) (role : String) (n : ℕ) (rows : List User) (d : Distinct id_of rows) where
  -- One page of the users that are left, given what the next pages send.
  stream_page-IsPart :
      (cursor : Option Uuid) (sent : List UserRecord) (us : List User)
      (next : Uuid → List UserRecord → Streamed)
      → users_behind role cursor rows ≡ us
      → ((last : Uuid) (sent' : List UserRecord)
          → length (users_behind role (some last) rows) < length us
          → IsPart a
              (sent' ++ map record_of (users_behind role (some last) rows))
              (next last sent'))
      → IsPart a (sent ++ map record_of us) (stream_page a.send (suc n) (take (suc n) us) sent next)
  stream_page-IsPart cursor sent [] next e k = record {
    rest = [];
    sent = refl;
    ended = inl (refl, refl);
  }
  stream_page-IsPart cursor sent (u ∷ m) next e k =
      let left = users_behind_page role rows d cursor n u m e in
      let last = (last_of u (take n m)).id in
      let pages : map record_of (u ∷ m) ≡ map record_of (u ∷ take n m) ++ map record_of (drop n m) =
        ap (map record_of) (sym (ap (◌∷◌ u) (take-append-drop n m)))
        ∙ map-append record_of (u ∷ take n m) (drop n m) in
      rw (pages, ← append_assoc sent (map record_of (u ∷ take n m)) (map record_of (drop n m)))
        (after_page-IsPart a _ _ (next last) _ (map record_of (drop n m))
          (send_page-IsPart a (u ∷ take n m) sent)
          (λ short. ap (map record_of) (drop_short n m (ground arith)))
          (λ full. rw (ap (map record_of) left) at (
            k last (sent ++ map record_of (u ∷ take n m))
              (rw left (omega (arith, length-drop-le n m))))))

  stream_pages-IsPart :
      (fuel page : ℕ) (cursor : Option Uuid) (sent : List UserRecord)
      → length (users_behind role cursor rows) < fuel
      → IsPart a
          (sent ++ map record_of (users_behind role cursor rows))
          (stream_pages a role (suc n) rows fuel page cursor sent)
  unfolding stream_pages list_users
  stream_pages-IsPart zero page cursor sent h = absurd (omega arith)
  stream_pages-IsPart (suc fuel) page cursor sent h = elim (Bool-cases (a.cancelled_at page)) [
    | inl e ↦ rw (e, stream_pages) (stopped (some cancelled) (page, e))
    | inr e ↦ elim (Option-cases (a.list page)) [
      | inl f ↦
          rw (e, f, stream_pages)
            (stream_page-IsPart cursor sent _ _ refl
              (λ last sent' l. stream_pages-IsPart fuel (suc page) (some last) sent' (omega arith)))
      | inr (m, f) ↦ rw (e, f, stream_pages) (stopped (some (list_failed m)) (page, f))
    ]
  ]
    where
      stopped :
          (error : Option StreamError)
          → Caused a error
          → IsPart a (sent ++ map record_of (users_behind role cursor rows)) (sent, error)
      stopped error c = record {
        rest = map record_of (users_behind role cursor rows);
        sent = refl;
        ended = inr c;
      }

batch_of-suc : (size : ℕ) → batch_of size ≡ suc (batch_of size - 1)
batch_of-suc size = ground arith

-- If the ids of the users are unique, a stream has sent a beginning of the list of all users that
-- the role selects, those behind the cursor, in the order of their ids, each once; and it is the
-- whole list, without an error, unless the context was cancelled, a page could not be read or a
-- user could not be sent. In particular the loop ends, for every batch size.
pub stream_users-IsPart :
    (a : Answers) (role : String) (cursor : Option Uuid) (size : ℕ) (rows : List User)
    → Distinct id_of rows
    → IsPart a
        (map record_of (users_behind role cursor rows))
        (stream_users a role cursor size rows)
unfolding stream_users
stream_users-IsPart a role cursor size rows d = rw (batch_of-suc size) (
    stream_pages-IsPart a role (batch_of size - 1) rows d (suc (length rows)) 0 cursor [] (
      omega (
        arith,
        length-sort_rows by_id (select (λ u. is_listed role u && is_after cursor u) rows),
        length-select-le {0} (λ u. is_listed role u && is_after cursor u) rows,
      )))
