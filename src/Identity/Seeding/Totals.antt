-- ===== src/Identity/Seeding/Totals.antt =====
-- The totals of a seeding, in whatever order its workers get on.
use microservices_base_platf.Prelude.{
  ℕ, zero, suc, ◌+◌, ◌-◌, ◌*◌, ◌/◌, ◌<◌, ◌≤◌, ◌^◌, ◌≡◌, refl, sym, ap, subst, ◌∙◌, min, String,
  Bool, true, false, Option, none, some, ◌⊎◌, inl, inr, List, [], ◌∷◌, ◌++◌, length, length-append,
  ℤ, pos, negsuc, arith, All, All-append,
}
use mathlib.Core.List.{append-nil, append_assoc}
use native.Mathlib.Nat.{lt-div-mul-add}
use microservices_base_platf.Identity.Users.{Uuid, User}
use microservices_base_platf.Identity.Seeding.{
  SeedUsersRequest, Library, or_default, batch_size, worker_count, num_batches, start_idx,
  current_batch_size, jobs_from, Progress, cancelled_by_client, done, users_from, Step, takes,
  stores, counts, emits, quits, stops, finishes, reads, hangs_up, cancels, SeedProgressEvent,
  batches_of, Reach, start, later, last_event,
}

-- The users of some batches together.
abbrev sizes : SeedUsersRequest → List ℕ → ℕ
sizes req [] = 0
sizes req (b ∷ bs) = current_batch_size req b + sizes req bs

sizes-append :
    (req : SeedUsersRequest) (bs cs : List ℕ) → sizes req (bs ++ cs) ≡ sizes req bs + sizes req cs
sizes-append req [] cs = omega arith
sizes-append req (b ∷ bs) cs = omega (arith, sizes-append req bs cs)

-- The users of the batches that were answered, all of them or those that were inserted.
abbrev answered_sizes : SeedUsersRequest → List (ℕ × Option String) → ℕ
answered_sizes req [] = 0
answered_sizes req ((b, e) ∷ bs) = current_batch_size req b + answered_sizes req bs

answered_sizes-append :
    (req : SeedUsersRequest) (bs cs : List (ℕ × Option String))
    → answered_sizes req (bs ++ cs) ≡ answered_sizes req bs + answered_sizes req cs
answered_sizes-append req [] cs = omega arith
answered_sizes-append req ((b, e) ∷ bs) cs = omega (arith, answered_sizes-append req bs cs)

abbrev inserted_sizes : SeedUsersRequest → List (ℕ × Option String) → ℕ
inserted_sizes req [] = 0
inserted_sizes req ((b, none) ∷ bs) = current_batch_size req b + inserted_sizes req bs
inserted_sizes req ((b, some e) ∷ bs) = inserted_sizes req bs

inserted_sizes-append :
    (req : SeedUsersRequest) (bs cs : List (ℕ × Option String))
    → inserted_sizes req (bs ++ cs) ≡ inserted_sizes req bs + inserted_sizes req cs
inserted_sizes-append req [] cs = omega arith
inserted_sizes-append req ((b, none) ∷ bs) cs = omega (arith, inserted_sizes-append req bs cs)
inserted_sizes-append req ((b, some e) ∷ bs) cs = inserted_sizes-append req bs cs

-- Queued batches cover a stretch of the numbers.
sizes-jobs_from :
    (req : SeedUsersRequest) (k n : ℕ)
    → sizes req (jobs_from k n) + min (k * batch_size req) req.count
      ≡ min ((k + n) * batch_size req) req.count
unfolding jobs_from
sizes-jobs_from req k zero =
    let same : (k + 0) * batch_size req ≡ k * batch_size req =
      ap (λ x. x * batch_size req) (omega arith) in
    rw same (omega arith)
sizes-jobs_from req k (suc n) =
    let ih = sizes-jobs_from req (suc k) n in
    let same : (k + suc n) * batch_size req ≡ (suc k + n) * batch_size req =
      ap (λ x. x * batch_size req) (omega arith) in
    rw same (omega arith)

all_covered : (total size : ℕ) → 0 < size → min ((total + size - 1) / size * size) total ≡ total
all_covered total size l = omega (arith, lt-div-mul-add {a = total + size - 1} {b = size} l)

positive : (d : ℕ) (n : ℤ) → 0 < d → 0 < or_default d n
positive d (pos zero) l = l
positive d (pos (suc n)) l = omega arith
positive d (negsuc n) l = l

exact : (sum size n : ℕ) → sum < 2 ^ 63 → batches_of sum size ≡ some n → sum / size ≡ n
exact sum size n l h = ground (arith, l, h)

-- Without a wrap-around the batches cover all users.
all_jobs :
    (req : SeedUsersRequest) (n : ℕ)
    → req.count + batch_size req ≤ 2 ^ 63
    → num_batches req ≡ some n
    → sizes req (jobs_from 0 n) ≡ req.count
all_jobs req n l h =
    let size = batch_size req in
    let big : 0 < batch_size req = positive 5000 req.batch_size (omega arith) in
    let quotient : (req.count + batch_size req - 1) / batch_size req ≡ n =
      exact (req.count + batch_size req - 1) (batch_size req) n (omega (arith, big, l)) h in
    let cover = sizes-jobs_from req 0 n in
    let all = all_covered req.count (batch_size req) big in
    let same : (0 + n) * batch_size req
        ≡ (req.count + batch_size req - 1) / batch_size req * batch_size req =
      ap (λ x. x * batch_size req) (omega (arith, quotient)) in
    omega (arith, cover, all, same)

module _ (lib : Library) (req : SeedUsersRequest) (hash : String) where
  -- Every user is in the queue, in a worker's hands, answered or counted, unless the request was
  -- cancelled; and no worker has returned before.
  abbrev IsConserved : Progress → Type 0
  IsConserved s =
      (s.cancelled ≡ true)
      ⊎ ((s.workers ≡ worker_count lib req)
          × (sizes req s.jobs
                + sizes req s.working
                + answered_sizes req s.answered
                + s.seeded
                + s.failed
              ≡ req.count))

  abbrev pub IsSeedUser : User → Type 0
  IsSeedUser u = (u.role ≡ "user") × (u.password_hash ≡ hash)

  -- The table has grown by n seeded users.
  abbrev pub Grown : ℕ → List User → List User → Type 0
  Grown n rows rows' =
      (added : List User) × (rows' ≡ rows ++ added) × (length added ≡ n) × All IsSeedUser added

  users_from-AreSeedUsers :
      (ids : ℕ → Uuid) (idx n : ℕ)
      → (length (users_from lib req hash ids idx n) ≡ n)
        × All IsSeedUser (users_from lib req hash ids idx n)
  unfolding users_from
  users_from-AreSeedUsers ids idx zero = (refl, tt)
  users_from-AreSeedUsers ids idx (suc n) =
      let (l, h) = users_from-AreSeedUsers ids (suc idx) n in (omega (arith, l), ((refl, refl), h))

  Grown-bulk_create :
      (n m : ℕ) (rows rows' users : List User)
      → length users ≡ m
      → All IsSeedUser users
      → Grown n rows rows'
      → Grown (n + m) rows (rows' ++ users)
  Grown-bulk_create n m rows rows' users l h (added, e, k, g) = (
    added ++ users,
    ap (λ x. x ++ users) e ∙ append_assoc rows added users,
    length-append added users ∙ omega arith,
    All-append IsSeedUser added users g h,
  )

  Step-IsConserved : {s t : Progress} → Step lib req hash s t → IsConserved s → IsConserved t
  Step-IsConserved {s} st (inl c) = inl (stays st)
    where
      stays : {t : Progress} → Step lib req hash s t → t.cancelled ≡ true
      stays (takes b bs l e) = c
      stays (stores before after b ids e h) = c
      stays (counts before after b e h) = c
      stays (stops before after b e h) = c
      stays (emits l e) = c
      stays (quits l e) = c
      stays (finishes w a e j l q) = c
      stays (reads e l) = c
      stays (hangs_up e) = c
      stays cancels = refl
  Step-IsConserved (takes b bs l e) (inr (n, h)) = inr (n, omega (arith, ap (sizes req) e, h))
  Step-IsConserved (stores before after b ids e q) (inr (n, h)) = inr (
    n,
    omega (
      arith,
      ap (sizes req) q,
      sizes-append req before (b ∷ after),
      sizes-append req before after,
      h,
    ),
  )
  Step-IsConserved (counts before after b none q) (inr (n, h)) = inr (
    n,
    omega (
      arith,
      ap (answered_sizes req) q,
      answered_sizes-append req before ((b, none) ∷ after),
      answered_sizes-append req before after,
      h,
    ),
  )
  Step-IsConserved (counts before after b (some e) q) (inr (n, h)) = inr (
    n,
    omega (
      arith,
      ap (answered_sizes req) q,
      answered_sizes-append req before ((b, some e) ∷ after),
      answered_sizes-append req before after,
      h,
    ),
  )
  Step-IsConserved (stops before after b e c) (inr (n, h)) = inl c
  Step-IsConserved (emits l e) (inr (n, h)) = inr (n, h)
  Step-IsConserved (quits l c) (inr (n, h)) = inl c
  Step-IsConserved (finishes w a e j l q) (inr (n, h)) = inr (n, h)
  Step-IsConserved (reads e l) (inr (n, h)) = inr (n, h)
  Step-IsConserved (hangs_up e) (inr (n, h)) = inr (n, h)
  Step-IsConserved cancels (inr (n, h)) = inl refl

  abbrev HasGrown : List User → Progress → Type 0
  HasGrown rows s = Grown (s.seeded + inserted_sizes req s.answered) rows s.rows

  Step-HasGrown :
      {s t : Progress} (rows : List User)
      → Step lib req hash s t
      → HasGrown rows s
      → HasGrown rows t
  Step-HasGrown rows (takes b bs l e) h = h
  Step-HasGrown {s} rows (stores before after b ids none q) h =
      let (l, k) = users_from-AreSeedUsers ids (start_idx req b) (current_batch_size req b) in
      subst
        (λ n.
          Grown n rows
            (s.rows ++ users_from lib req hash ids (start_idx req b) (current_batch_size req b)))
        (omega arith) (Grown-bulk_create _ _ rows s.rows _ l k h)
  Step-HasGrown rows (stores before after b ids (some e) q) h = h
  Step-HasGrown {s} rows (counts before after b none q) h =
      subst (λ n. Grown n rows s.rows)
        (omega (
          arith,
          ap (inserted_sizes req) q,
          inserted_sizes-append req before ((b, none) ∷ after),
          inserted_sizes-append req before after,
        ))
        h
  Step-HasGrown {s} rows (counts before after b (some e) q) h =
      subst (λ n. Grown n rows s.rows)
        (omega (
          arith,
          ap (inserted_sizes req) q,
          inserted_sizes-append req before ((b, some e) ∷ after),
          inserted_sizes-append req before after,
        ))
        h
  Step-HasGrown rows (stops before after b e c) h = h
  Step-HasGrown rows (emits l e) h = h
  Step-HasGrown rows (quits l c) h = h
  Step-HasGrown rows (finishes w a e j l q) h = h
  Step-HasGrown rows (reads e l) h = h
  Step-HasGrown rows (hangs_up e) h = h
  Step-HasGrown rows cancels h = h

  -- What the last event says, and that no worker is left to change it.
  abbrev IsTold : Progress → SeedProgressEvent → Type 0
  IsTold s e =
      (s.working ≡ [])
      × (s.answered ≡ [])
      × (s.emitting ≡ 0)
      × ((s.jobs ≡ []) ⊎ (s.workers ≡ 0))
      × ((e ≡ cancelled_by_client)
          ⊎ ((e ≡ done s.seeded s.failed req.count) × (s.seeded + s.failed ≡ req.count)))

  abbrev IsReported : Progress → Type 0
  IsReported s = (s.last ≡ none) ⊎ ((e : SeedProgressEvent) × (s.last ≡ some e) × IsTold s e)

  tells :
      (s : Progress)
      → 0 < lib.num_cpu
      → IsConserved s
      → s.working ≡ []
      → s.answered ≡ []
      → (s.jobs ≡ []) ⊎ (s.workers ≡ 0)
      → (last_event lib req hash s ≡ cancelled_by_client)
        ⊎ ((last_event lib req hash s ≡ done s.seeded s.failed req.count)
            × (s.seeded + s.failed ≡ req.count))
  tells s p c w a j = by_cancel s.cancelled refl c j
    where
      by_cancel :
          (b : Bool)
          → s.cancelled ≡ b
          → IsConserved s
          → (s.jobs ≡ []) ⊎ (s.workers ≡ 0)
          → (last_event lib req hash s ≡ cancelled_by_client)
            ⊎ ((last_event lib req hash s ≡ done s.seeded s.failed req.count)
                × (s.seeded + s.failed ≡ req.count))
      by_cancel true e c k = inl (rw e refl)
      by_cancel false e (inl c) k = cc
      by_cancel false e (inr (n, c)) (inr z) =
          absurd (omega (arith, n, z, positive (lib.num_cpu * 2) req.worker_count (omega arith)))
      by_cancel false e (inr (n, c)) (inl k) = inr (
        rw e refl,
        omega (arith, c, ap (sizes req) k, ap (sizes req) w, ap (answered_sizes req) a),
      )

  -- Nothing is in the middle of an empty list.
  nothing_in {ℓ} :
      {A : Type ℓ} (x : A) (before after xs : List A) → xs ≡ [] → xs ≡ before ++ x ∷ after → ⊥
  nothing_in x before after xs e q =
      omega (arith, ap length (sym e ∙ q), length-append before (x ∷ after))

  Step-IsReported :
      {s t : Progress}
      → 0 < lib.num_cpu
      → Step lib req hash s t
      → IsConserved s
      → IsReported s
      → IsReported t
  Step-IsReported p (takes b bs l e) c (inl h) = inl h
  Step-IsReported {s} p (takes b bs l e) c (inr (x, h, (w, a, m, inl j, r))) =
      absurd (nothing_in b [] bs s.jobs j e)
  Step-IsReported p (takes b bs l e) c (inr (x, h, (w, a, m, inr j, r))) =
      absurd (omega (arith, l, j))
  Step-IsReported p (stores before after b ids e q) c (inl h) = inl h
  Step-IsReported {s} p (stores before after b ids e q) c (inr (x, h, (w, a, m, j, r))) =
      absurd (nothing_in b before after s.working w q)
  Step-IsReported p (counts before after b e q) c (inl h) = inl h
  Step-IsReported {s} p (counts before after b e q) c (inr (x, h, (w, a, m, j, r))) =
      absurd (nothing_in (b, e) before after s.answered a q)
  Step-IsReported p (emits l q) c (inl h) = inl h
  Step-IsReported p (emits l q) c (inr (x, h, (w, a, m, j, r))) = absurd (omega (arith, l, m))
  Step-IsReported p (quits l q) c (inl h) = inl h
  Step-IsReported p (quits l q) c (inr (x, h, (w, a, m, j, r))) = absurd (omega (arith, l, m))
  Step-IsReported p (stops before after b q e) c (inl h) = inl h
  Step-IsReported {s} p (stops before after b q e) c (inr (x, h, (w, a, m, j, r))) =
      absurd (nothing_in b before after s.working w q)
  Step-IsReported {s} p (finishes w a m j l q) c h =
      inr (last_event lib req hash s, refl, (w, a, m, j, tells s p c w a j))
  Step-IsReported p (reads e l) c h = h
  Step-IsReported p (hangs_up e) c h = h
  Step-IsReported p cancels c h = h

  Reach-IsConserved :
      {rows : List User} {s : Progress}
      → 0 < lib.num_cpu
      → req.count + batch_size req ≤ 2 ^ 63
      → Reach lib req hash rows s
      → IsConserved s × HasGrown rows s × IsReported s
  Reach-IsConserved {rows = rows} p l (start n e) = (
    inr (refl, omega (arith, all_jobs req n l e)),
    ([], sym (append-nil rows), omega arith, tt),
    inl refl,
  )
  Reach-IsConserved {rows = rows} p l (later r st) =
      let (c, g, h) = Reach-IsConserved p l r in
      (Step-IsConserved st c, Step-HasGrown rows st g, Step-IsReported p st c h)

-- If the count and the batch size together do not exceed 2^63 and the machine has a processor, then
-- once the last event is sent, in whatever order the workers got on and whatever the statements were
-- answered, the table has grown by exactly the users that were counted as seeded, each with the role
-- "user" and the common hash; and the event reports a cancelled request, or it reports these totals,
-- and the seeded and the failed ones make up the count that was asked for.
pub last_event-totals :
    (lib : Library) (req : SeedUsersRequest) (hash : String) (rows : List User) (s : Progress)
    (e : SeedProgressEvent)
    → 0 < lib.num_cpu
    → req.count + batch_size req ≤ 2 ^ 63
    → Reach lib req hash rows s
    → s.last ≡ some e
    → Grown lib req hash s.seeded rows s.rows
      × ((e ≡ cancelled_by_client)
          ⊎ ((e ≡ done s.seeded s.failed req.count) × (s.seeded + s.failed ≡ req.count)))
last_event-totals lib req hash rows s e p l r h =
    let (c, g, told) = Reach-IsConserved lib req hash p l r in by_last g told
  where
    by_last :
        HasGrown lib req hash rows s
        → IsReported lib req hash s
        → Grown lib req hash s.seeded rows s.rows
          × ((e ≡ cancelled_by_client)
              ⊎ ((e ≡ done s.seeded s.failed req.count) × (s.seeded + s.failed ≡ req.count)))
    by_last g (inl n) = cc
    by_last g (inr (x, n, (w, a, m, j, t))) =
        let same : x ≡ e = cc in
        (
          subst (λ k. Grown lib req hash k rows s.rows) (omega (arith, ap (inserted_sizes req) a))
              g,
          subst
              (λ y.
                (y ≡ cancelled_by_client)
                ⊎ ((y ≡ done s.seeded s.failed req.count) × (s.seeded + s.failed ≡ req.count)))
              same t,
        )
