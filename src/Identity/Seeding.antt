-- ===== src/Identity/Seeding.antt =====
-- services/identity/internal/service/seed_service.go: test users, made in batches by workers that run
-- side by side. What a worker does between two points at which others can see it is one step: taking
-- a batch from the channel, the statement that inserts it, counting it under the mutex, and the
-- event that it sends. Hashes,
-- texts, new ids and the number of processors are parameters; speeds and percentages are left out.
pub mod Totals
pub mod Ends
mod Examples
use microservices_base_platf.Prelude.{
  ℕ, zero, suc, ◌+◌, ◌-◌, ◌*◌, ◌/◌, ◌^◌, ltb, ◌<◌, ◌≡◌, min, String, Bool, true, false, Option,
  none, some, ◌⊎◌, inl, inr, List, [], ◌∷◌, ◌++◌, length, ℤ, pos, negsuc, if◌then◌else◌,
}
use microservices_base_platf.Identity.Users.{Uuid, User}

-- `dto.SeedUsersRequest`; its binding wants a count of at least 1.
pub record SeedUsersRequest : Type 0 where
  pub count : ℕ
  pub prefix : String
  pub password : String
  pub batch_size : ℤ
  pub worker_count : ℤ

-- `bcrypt`, the email and the name of a user by its number, and `runtime.NumCPU`.
pub record Library : Type 0 where
  pub hash : String → Option String
  pub email_of : String → ℕ → String
  pub name_of : ℕ → String
  pub num_cpu : ℕ

abbrev pub or_default : ℕ → ℤ → ℕ
or_default d (pos zero) = d
or_default d (pos (suc n)) = suc n
or_default d (negsuc n) = d

abbrev pub batch_size : SeedUsersRequest → ℕ
batch_size req = or_default 5000 req.batch_size

abbrev pub worker_count : Library → SeedUsersRequest → ℕ
worker_count lib req = or_default (lib.num_cpu * 2) req.worker_count

-- A quotient of negative numbers, which rounds towards zero: no batch, or a number below zero.
abbrev pub negated_batches : ℕ → Option ℕ
negated_batches zero = some 0
negated_batches (suc n) = none

-- The sum as an `int` of 64 bits, in which it can wrap around, and the quotient; a quotient below
-- zero panics as the capacity of the channel of jobs.
abbrev pub batches_of : ℕ → ℕ → Option ℕ
batches_of sum size =
    if ltb sum (2 ^ 63) then some (sum / size) else negated_batches ((2 ^ 64 - sum) / size)

abbrev pub num_batches : SeedUsersRequest → Option ℕ
num_batches req = batches_of (req.count + batch_size req - 1) (batch_size req)

-- The capacity of the channel of progress events.
abbrev pub channel_size : ℕ
channel_size = 100

abbrev pub start_idx : SeedUsersRequest → ℕ → ℕ
start_idx req b = b * batch_size req

abbrev pub end_idx : SeedUsersRequest → ℕ → ℕ
end_idx req b = min (start_idx req b + batch_size req) req.count

abbrev pub current_batch_size : SeedUsersRequest → ℕ → ℕ
current_batch_size req b = end_idx req b - start_idx req b

-- The batches that are queued from k on.
unfoldable pub jobs_from : ℕ → ℕ → List ℕ
jobs_from k zero = []
jobs_from k (suc n) = k ∷ jobs_from (suc k) n

-- The error that a hash which fails leads to, the error of a cancelled request, or the totals.
pub data SeedProgressEvent : Type 0 where
  hash_failed cancelled_by_client : SeedProgressEvent
  done : ℕ → ℕ → ℕ → SeedProgressEvent

-- All workers together: how many have not returned, the channel of jobs, the batches that are being
-- made, those whose statement has been answered and which are not counted yet, the workers that
-- want to send a progress event, the table and the counters. Then the channel of events: how many it
-- holds, whether its reader, the handler, still reads, and the last event, once it is sent.
pub record Progress : Type 0 where
  pub cancelled : Bool
  pub workers : ℕ
  pub jobs : List ℕ
  pub working : List ℕ
  pub answered : List (ℕ × Option String)
  pub emitting : ℕ
  pub rows : List User
  pub seeded : ℕ
  pub failed : ℕ
  pub queued : ℕ
  pub is_read : Bool
  pub last : Option SeedProgressEvent

abbrev pub begin : Library → SeedUsersRequest → ℕ → List User → Progress
begin lib req batches rows = record {
  cancelled = false;
  workers = worker_count lib req;
  jobs = jobs_from 0 batches;
  working = [];
  answered = [];
  emitting = 0;
  rows = rows;
  seeded = 0;
  failed = 0;
  queued = 0;
  is_read = true;
  last = none;
}

module _ (lib : Library) (req : SeedUsersRequest) (hash : String) where
  abbrev pub user_at : Uuid → ℕ → User
  user_at id idx = record {
    id = id;
    email = lib.email_of req.prefix idx;
    role = "user";
    password_hash = hash;
    name = lib.name_of idx;
    deleted_at = none;
  }

  -- n users from a number on, with their new ids.
  unfoldable pub users_from : (ℕ → Uuid) → ℕ → ℕ → List User
  users_from ids idx zero = []
  users_from ids idx (suc n) = user_at (ids idx) idx ∷ users_from ids (suc idx) n

  -- `BulkCreate`, one statement for the whole batch.
  abbrev pub bulk_create : Option String → List User → List User → List User
  bulk_create none users rows = rows ++ users
  bulk_create (some e) users rows = rows

  -- A worker receives the next batch.
  abbrev pub taken : ℕ → List ℕ → Progress → Progress
  taken b bs s = record s { jobs = bs; working = b ∷ s.working }

  -- The statement of a batch is answered; `rest` are the batches of the other workers.
  abbrev pub stored : List ℕ → ℕ → (ℕ → Uuid) → Option String → Progress → Progress
  stored rest b ids e s = record s {
    working = rest;
    answered = (b, e) ∷ s.answered;
    rows = bulk_create e (users_from ids (start_idx req b) (current_batch_size req b)) s.rows;
  }

  abbrev pub add_seeded : Option String → ℕ → ℕ → ℕ
  add_seeded none size n = n + size
  add_seeded (some e) size n = n

  abbrev pub add_failed : Option String → ℕ → ℕ → ℕ
  add_failed none size n = n
  add_failed (some e) size n = n + size

  -- A batch is counted under the mutex.
  abbrev pub counted : List (ℕ × Option String) → ℕ → Option String → Progress → Progress
  counted rest b e s = record s {
    answered = rest;
    emitting = suc s.emitting;
    seeded = add_seeded e (current_batch_size req b) s.seeded;
    failed = add_failed e (current_batch_size req b) s.failed;
  }

  abbrev pub last_event : Progress → SeedProgressEvent
  last_event s = if s.cancelled then cancelled_by_client else done s.seeded s.failed req.count

  -- What can happen next. A worker holds one batch at a time. It gives up a batch that it has taken,
  -- or its event, if it finds the request cancelled, and returns. An event waits for room in the
  -- channel; the last one, when all workers have returned, does so without an alternative.
  pub data Step (s : Progress) : Progress → Type 0 where
    takes :
        (b : ℕ) (bs : List ℕ)
        → length s.working + length s.answered + s.emitting < s.workers
        → s.jobs ≡ b ∷ bs
        → Step s (taken b bs s)
    stores :
        (before after : List ℕ) (b : ℕ) (ids : ℕ → Uuid) (e : Option String)
        → s.working ≡ before ++ b ∷ after
        → Step s (stored (before ++ after) b ids e s)
    counts :
        (before after : List (ℕ × Option String)) (b : ℕ) (e : Option String)
        → s.answered ≡ before ++ (b, e) ∷ after
        → Step s (counted (before ++ after) b e s)
    emits :
        0 < s.emitting
        → s.queued < channel_size
        → Step s (record s { emitting = s.emitting - 1; queued = suc s.queued })
    quits :
        0 < s.emitting
        → s.cancelled ≡ true
        → Step s (record s { emitting = s.emitting - 1; workers = s.workers - 1 })
    stops :
        (before after : List ℕ) (b : ℕ)
        → s.working ≡ before ++ b ∷ after
        → s.cancelled ≡ true
        → Step s (record s { working = before ++ after; workers = s.workers - 1 })
    finishes :
        s.working ≡ []
        → s.answered ≡ []
        → s.emitting ≡ 0
        → (s.jobs ≡ []) ⊎ (s.workers ≡ 0)
        → s.last ≡ none
        → s.queued < channel_size
        → Step s (record s { last = some (last_event s); queued = suc s.queued })
    reads : s.is_read ≡ true → 0 < s.queued → Step s (record s { queued = s.queued - 1 })
    hangs_up : s.is_read ≡ true → Step s (record s { is_read = false })
    cancels : Step s (record s { cancelled = true })

  pub data Reach (rows : List User) : Progress → Type 0 where
    start : (n : ℕ) → num_batches req ≡ some n → Reach rows (begin lib req n rows)
    later : {s t : Progress} → Reach rows s → Step s t → Reach rows t

  -- What comes after a state.
  pub data Later (s : Progress) : Progress → Type 0 where
    now : Later s s
    then_step : {t u : Progress} → Later s t → Step t u → Later s u

-- The error event of a hash that fails, the panic of the channel of jobs, or the common hash and the
-- workers at their start.
pub data Started : Type 0 where
  failed_with : SeedProgressEvent → Started
  panicked : Started
  running : String → Progress → Started

abbrev pub queue_jobs : Library → SeedUsersRequest → List User → String → Option ℕ → Started
queue_jobs lib req rows h none = panicked
queue_jobs lib req rows h (some n) = running h (begin lib req n rows)

abbrev pub hashed : Library → SeedUsersRequest → List User → Option String → Started
hashed lib req rows none = failed_with hash_failed
hashed lib req rows (some h) = queue_jobs lib req rows h (num_batches req)

-- `SeedUsers` up to the start of its workers.
unfoldable pub seed_users : Library → SeedUsersRequest → List User → Started
seed_users lib req rows = hashed lib req rows (lib.hash req.password)
