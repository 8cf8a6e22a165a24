-- ===== src/Upload/Completion/Stuck.antt =====
-- A session that a failed request leaves in `completing`.
use microservices_base_platf.Prelude.{
  ℕ, ◌==◌, ◌≡◌, refl, ap, ◌∙◌, ◌≢◌, ◌⊎◌, inl, inr, some, List, [], ◌∷◌, Bool-cases, Option-cases,
  arith,
}
use microservices_base_platf.Platform.Text.{Bytes}
use microservices_base_platf.Platform.Errors.{Result, ok, err}
use microservices_base_platf.Upload.Domain.{
  Uuid, UploadSession, UploadPart, SessionStatus, parts_of, get_session, transition_session_status,
  set_status, same_session_status,
}
use microservices_base_platf.Upload.Effects.{World, Answers}
use microservices_base_platf.Upload.Session.{get_part_url, confirm_part}
use microservices_base_platf.Upload.Completion.{finish, complete_open, complete_session}
use microservices_base_platf.Upload.Completion.Laws.{IsErr, claimed_world}
use microservices_base_platf.Upload.Completion.Exclusive.{finish_ends}

-- A session in `completing` cannot be led on by its clients: every request to complete it, to get
-- a part's URL or to confirm a part is refused and changes nothing.
completing_refused :
    (a : Answers) (id number : ℕ) (raw_etag : Bytes) (s : UploadSession) (w : World)
    → get_session id w.sessions ≡ some s
    → s.status ≡ SessionStatus.completing
    → (IsErr (complete_session a id w).1 × ((complete_session a id w).0 ≡ w))
      × (IsErr (get_part_url a id number w).1 × ((get_part_url a id number w).0 ≡ w))
      × (IsErr (confirm_part a id number raw_etag w).1
          × ((confirm_part a id number raw_etag w).0 ≡ w))
unfolding complete_session get_part_url confirm_part
completing_refused a id number raw_etag s w h c = (ground arith, ground arith, ground arith)

-- The row of a session that is moved to `completing`.
get_session-transition :
    (id : Uuid) (rows : List UploadSession) (s : UploadSession)
    → get_session id rows ≡ some s
    → s.status ≡ SessionStatus.in_progress
    → (s.id ≡ id)
      × (get_session id
            (transition_session_status id SessionStatus.in_progress SessionStatus.completing rows).1
          ≡ some (set_status SessionStatus.completing s))
unfolding transition_session_status
get_session-transition id [] s h p = cc
get_session-transition id (r ∷ rows) s h p = elim (Bool-cases (r.id == id)) [
  | inl e ↦ ground (arith, e, h, p)
  | inr e ↦ ground (arith, e, h, p, get_session-transition id rows s)
]

complete_open_cases :
    (a : Answers) (s : UploadSession) (parts : List UploadPart) (w : World)
    → ((complete_open a s parts w).0.storage ≡ w.storage)
      ⊎ ((s.status ≡ SessionStatus.in_progress)
          × (complete_open a s parts w ≡ finish a s parts (claimed_world s w)))
unfolding complete_open
complete_open_cases a s parts w = ground arith

complete_session_cases :
    (a : Answers) (id : Uuid) (w : World)
    → ((complete_session a id w).0.storage ≡ w.storage)
      ⊎ ((s : UploadSession) × (get_session id w.sessions ≡ some s)
          × (complete_session a id w ≡ complete_open a s (parts_of s.id w.parts) w))
unfolding complete_session
complete_session_cases a id w = elim (Option-cases (get_session id w.sessions)) [
  | inl e ↦ inl (ground arith)
  | inr (s, e) ↦ elim (Option-cases a.read_session) [
    | inr (x, r) ↦ inl (ground arith)
    | inl r ↦ elim (Bool-cases (same_session_status s.status SessionStatus.completed)) [
      | inl c ↦ inl (rw (r, e, c) refl)
      | inr c ↦ inr (s, e, rw (r, e, c) refl)
    ]
  ]
]

-- If a request to complete a session returns an error although it has assembled the object, its
-- session is left in `completing`, and every later request to complete it, to get a part's URL or to
-- confirm a part is refused and changes nothing, whatever answers it meets.
pub complete_session_stuck :
    (a b : Answers) (id : Uuid) (number : ℕ) (raw_etag : Bytes) (w : World)
    → IsErr (complete_session a id w).1
    → (complete_session a id w).0.storage ≢ w.storage
    → let w' = (complete_session a id w).0 in
      (s : UploadSession) × (get_session id w'.sessions ≡ some s)
      × (s.status ≡ SessionStatus.completing)
      × ((IsErr (complete_session b id w').1 × ((complete_session b id w').0 ≡ w'))
          × (IsErr (get_part_url b id number w').1 × ((get_part_url b id number w').0 ≡ w'))
          × (IsErr (confirm_part b id number raw_etag w').1
              × ((confirm_part b id number raw_etag w').0 ≡ w')))
complete_session_stuck a b id number raw_etag w x n =
    let w' = (complete_session a id w).0 in
    let (s, e, c) = left in (s, e, c, completing_refused b id number raw_etag s w' e c)
  where
    no_err : {A : Type 0} (r : Result A) (y : A) → r ≡ ok y → IsErr r → ⊥
    no_err (ok z) y q k = k
    no_err (err z) y q k = cc

    left :
        (s : UploadSession) × (get_session id (complete_session a id w).0.sessions ≡ some s)
        × (s.status ≡ SessionStatus.completing)
    left = elim (complete_session_cases a id w) [
      | inl k ↦ absurd (n k)
      | inr (s, e, q) ↦ elim (complete_open_cases a s (parts_of s.id w.parts) w) [
        | inl k ↦ absurd (n (ap (λ t. t.0.storage) q ∙ k))
        | inr (p, f) ↦ elim (finish_ends a s (parts_of s.id w.parts) (claimed_world s w)) [
          | inl k ↦ absurd (n (ap (λ t. t.0.storage) (q ∙ f) ∙ k))
          | inr (inr (r, o, k)) ↦ absurd (no_err _ r (ap (λ t. t.1) (q ∙ f) ∙ o) x)
          | inr (inl k) ↦
              let (i, g) = get_session-transition id w.sessions s e p in
              (
                set_status SessionStatus.completing s,
                ap (λ t. get_session id t.0.sessions) (q ∙ f)
                    ∙ ap (get_session id) k
                    ∙ ap
                        (λ j.
                          get_session id
                            (transition_session_status j SessionStatus.in_progress
                              SessionStatus.completing w.sessions).1)
                        i
                    ∙ g,
                refl,
              )
        ]
      ]
    ]
