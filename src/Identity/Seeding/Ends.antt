-- ===== src/Identity/Seeding/Ends.antt =====
-- How long a seeding goes on, and when it never ends.
use microservices_base_platf.Prelude.{
  ℕ, zero, suc, ◌+◌, ◌*◌, ◌<◌, ◌≡◌, refl, ap, ◌⊎◌, inl, inr, String, Bool, true, false, Option,
  none, some, List, [], ◌∷◌, length, length-append, arith, Bool-cases, Option-cases, ◌≤◌, ltb, sym,
  ◌∙◌,
}
use microservices_base_platf.Identity.Seeding.{
  SeedUsersRequest, Library, Progress, SeedProgressEvent, channel_size, Step, takes, stores, counts,
  emits, quits, stops, finishes, reads, hangs_up, cancels, Later, now, then_step,
}

abbrev one_if_read : Bool → ℕ
one_if_read true = 1
one_if_read false = 0

abbrev two_if_open : Option SeedProgressEvent → ℕ
two_if_open none = 2
two_if_open (some e) = 0

-- A batch has five steps ahead of it: it is taken, answered and counted, and its event is sent and
-- read.
abbrev pub steps_left : Progress → ℕ
steps_left s =
    5 * length s.jobs
    + 4 * length s.working
    + 3 * length s.answered
    + 2 * s.emitting
    + s.workers
    + s.queued
    + two_if_open s.last
    + one_if_read s.is_read

module _ (lib : Library) (req : SeedUsersRequest) (hash : String) where
  Step-lowers :
      {s t : Progress}
      → Step lib req hash s t
      → (t ≡ record s { cancelled = true }) ⊎ (steps_left t < steps_left s)
  Step-lowers (takes b bs l e) = inr (omega (arith, ap length e))
  Step-lowers (stores before after b ids e q) =
      inr (omega (arith, ap length q, length-append before (b ∷ after), length-append before after))
  Step-lowers (counts before after b e q) = inr (
      omega (arith, ap length q, length-append before ((b, e) ∷ after), length-append before after))
  Step-lowers (emits l q) = inr (omega (arith, l))
  Step-lowers (quits l c) = inr (omega (arith, l))
  Step-lowers (stops before after b q c) =
      inr (omega (arith, ap length q, length-append before (b ∷ after), length-append before after))
  Step-lowers (finishes w a e j l q) = inr (omega (arith, ap two_if_open l))
  Step-lowers (reads e l) = inr (omega (arith, l))
  Step-lowers (hangs_up e) = inr (omega (arith, ap one_if_read e))
  Step-lowers cancels = inl refl

  -- A step that brings the seeding nearer to its end.
  abbrev pub Goes : Progress → Type 0
  Goes s = (t : Progress) × Step lib req hash s t × (steps_left t < steps_left s)

  progress_by :
      (s : Progress) {t : Progress} → Step lib req hash s t → steps_left t < steps_left s → Goes s
  progress_by s {t} st l = (t, st, l)

  -- The next step: a count, else a statement's answer, else an event, else a batch that an idle
  -- worker takes, else the last event; and the reader makes room for an event.
  next-Goes :
      (s : Progress) → s.last ≡ none → (s.is_read ≡ true) ⊎ (s.queued < channel_size) → Goes s
  next-Goes s o r = by_answered s.answered refl
    where
      read :
          (ltb s.queued channel_size ≡ false)
          → (s.is_read ≡ true) ⊎ (s.queued < channel_size)
          → Goes s
      read n (inl e) = progress_by s (reads e (ground (arith, n))) (ground (arith, n))
      read n (inr l) = absurd (ground (arith, n, l))

      finish :
          s.working ≡ []
          → s.answered ≡ []
          → s.emitting ≡ 0
          → (s.jobs ≡ []) ⊎ (s.workers ≡ 0)
          → Goes s
      finish w a m j = elim (Bool-cases (ltb s.queued channel_size)) [
        | inr n ↦ read n r
        | inl y ↦
            progress_by s (finishes w a m j o (ground (arith, y))) (omega (arith, ap two_if_open o))
      ]

      by_jobs :
          (js : List ℕ) → s.jobs ≡ js → s.working ≡ [] → s.answered ≡ [] → s.emitting ≡ 0 → Goes s
      by_jobs [] j w a m = finish w a m (inl j)
      by_jobs (b ∷ bs) j w a m = elim (Bool-cases (ltb 0 s.workers)) [
        | inr n ↦ finish w a m (inr (ground (arith, n)))
        | inl y ↦
            progress_by s (takes b bs (ground (arith, y, m, ap length w, ap length a)) j)
              (omega (arith, ap length j))
      ]

      by_emitting : (n : ℕ) → s.emitting ≡ n → s.working ≡ [] → s.answered ≡ [] → Goes s
      by_emitting zero m w a = by_jobs s.jobs refl w a m
      by_emitting (suc n) m w a = elim (Bool-cases (ltb s.queued channel_size)) [
        | inr k ↦ read k r
        | inl y ↦ progress_by s (emits (omega (arith, m)) (ground (arith, y))) (omega (arith, m))
      ]

      by_working : (ws : List ℕ) → s.working ≡ ws → s.answered ≡ [] → Goes s
      by_working [] w a = by_emitting s.emitting refl w a
      by_working (b ∷ after) w a =
          progress_by s (stores [] after b (λ n. n) none w) (omega (arith, ap length w))

      by_answered : (xs : List (ℕ × Option String)) → s.answered ≡ xs → Goes s
      by_answered [] a = by_working s.working refl a
      by_answered ((b, e) ∷ after) a =
          progress_by s (counts [] after b e a) (omega (arith, ap length a))

-- Each step but the cancellation of the request brings a seeding nearer to its end. And there is
-- such a step, unless the last event is sent, or nobody reads the events and their channel is full.
pub seeding_ends :
    (lib : Library) (req : SeedUsersRequest) (hash : String) (s t : Progress)
    → Step lib req hash s t
    → ((t ≡ record s { cancelled = true }) ⊎ (steps_left t < steps_left s))
      × (Goes lib req hash s
          ⊎ ((e : SeedProgressEvent) × (s.last ≡ some e))
          ⊎ ((s.is_read ≡ false) × (channel_size ≤ s.queued)))
seeding_ends lib req hash s t st = (
  Step-lowers lib req hash st,
  elim (Option-cases s.last) [
    | inr (e, q) ↦ inr (inl (e, q))
    | inl o ↦ elim (Bool-cases s.is_read) [
      | inl r ↦ inl (next-Goes lib req hash s o (inl r))
      | inr r ↦ elim (Bool-cases (ltb s.queued channel_size)) [
        | inl y ↦ inl (next-Goes lib req hash s o (inr (ground (arith, y))))
        | inr n ↦ inr (inr (r, ground (arith, n)))
      ]
    ]
  ],
)

module _ (lib : Library) (req : SeedUsersRequest) (hash : String) where
  -- Nobody reads the events, their channel is full, and the last one is not sent.
  abbrev pub IsBlocked : Progress → Type 0
  IsBlocked s = (s.is_read ≡ false) × (s.queued ≡ channel_size) × (s.last ≡ none)

  Step-IsBlocked : {s t : Progress} → Step lib req hash s t → IsBlocked s → IsBlocked t
  Step-IsBlocked (takes b bs l e) h = h
  Step-IsBlocked (stores before after b ids e q) h = h
  Step-IsBlocked (counts before after b e q) h = h
  Step-IsBlocked (emits l q) (r, f, o) = absurd (omega (arith, q, f))
  Step-IsBlocked (quits l c) h = h
  Step-IsBlocked (stops before after b q c) h = h
  Step-IsBlocked (finishes w a e j l q) (r, f, o) = absurd (omega (arith, q, f))
  Step-IsBlocked (reads e l) (r, f, o) = absurd (differs (sym r ∙ e))
    where
      differs : false ≡ true → ⊥
      differs h = cc
  Step-IsBlocked (hangs_up e) (r, f, o) = (refl, f, o)
  Step-IsBlocked cancels h = h

-- Once nobody reads the events while their channel is full and the last event is not sent, nothing
-- that happens later, the cancellation of the request included, lets the last event be sent: what
-- sends it waits for ever.
pub last_event-blocks :
    (lib : Library) (req : SeedUsersRequest) (hash : String) (s t : Progress)
    → IsBlocked lib req hash s
    → Later lib req hash s t
    → t.last ≡ none
last_event-blocks lib req hash s t h l = (by_steps l).2
  where
    by_steps : {u : Progress} → Later lib req hash s u → IsBlocked lib req hash u
    by_steps now = h
    by_steps (then_step k st) = Step-IsBlocked lib req hash st (by_steps k)
