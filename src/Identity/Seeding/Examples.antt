-- ===== src/Identity/Seeding/Examples.antt =====
-- A seeding of three users in two batches, and one whose events nobody reads.
use microservices_base_platf.Prelude.{
  ◌+◌, ◌<◌, ◌≤◌, ◌≡◌, refl, ◌⊎◌, inl, true, false, none, some, [], ◌∷◌, pos, arith,
}
use microservices_base_platf.Identity.Seeding.{
  SeedUsersRequest, Library, Progress, SeedProgressEvent, channel_size, takes, stores, counts,
  emits, finishes, cancels, Reach, start, later, now, then_step, begin, taken, stored, counted,
  last_event, cancelled_by_client, done, jobs_from,
}
use microservices_base_platf.Identity.Seeding.Totals.{Grown, last_event-totals}
use microservices_base_platf.Identity.Seeding.Ends.{
  steps_left, Goes, seeding_ends, last_event-blocks,
}

abbrev library : Library
library = record {
  hash = λ p. some "hash";
  email_of = λ prefix n. prefix;
  name_of = λ n. "Seed User";
  num_cpu = 4;
}

abbrev request : SeedUsersRequest
request = record {
  count = 3;
  prefix = "user";
  password = "Seed@1234";
  batch_size = pos 2;
  worker_count = pos 2;
}

-- Both batches are taken; the second is inserted first, the first one fails.
abbrev after_takes : Progress
after_takes =
    taken library request "hash" 1 []
      (taken library request "hash" 0 (1 ∷ []) (begin library request 2 []))

abbrev after_stores : Progress
after_stores =
    stored library request "hash" [] 0 (λ n. n) (some "timeout")
      (stored library request "hash" (0 ∷ []) 1 (λ n. n) none after_takes)

abbrev after_counts : Progress
after_counts =
    counted library request "hash" [] 1 none
      (counted library request "hash" ((1, none) ∷ []) 0 (some "timeout") after_stores)

-- Both events are sent, and the last one.
abbrev end : Progress
end = record after_counts {
  emitting = 0;
  queued = 3;
  last = some (last_event library request "hash" after_counts);
}

after_counts-Reach : Reach library request "hash" [] after_counts
unfolding jobs_from
after_counts-Reach =
    later
      (later
        (later
          (later
            (later (later (start 2 refl) (takes 0 (1 ∷ []) (ground arith) refl))
              (takes 1 [] (ground arith) refl))
            (stores [] (0 ∷ []) 1 (λ n. n) none refl))
          (stores [] [] 0 (λ n. n) (some "timeout") refl))
        (counts [] ((1, none) ∷ []) 0 (some "timeout") refl))
      (counts [] [] 1 none refl)

end-Reach : Reach library request "hash" [] end
end-Reach =
    later
      (later (later after_counts-Reach (emits (omega arith) (omega arith)))
        (emits (omega arith) (omega arith)))
      (finishes refl refl refl (inl refl) refl (omega arith))

last_event-totals_example :
    Grown library request "hash" end.seeded [] end.rows
    × ((done 1 2 3 ≡ cancelled_by_client)
        ⊎ ((done 1 2 3 ≡ done end.seeded end.failed request.count)
            × (end.seeded + end.failed ≡ request.count)))
last_event-totals_example =
    last_event-totals library request "hash" [] end (done 1 2 3) (omega arith) (omega arith)
      end-Reach refl

-- The first statement that is answered.
abbrev after_store : Progress
after_store = stored library request "hash" (0 ∷ []) 1 (λ n. n) none after_takes

seeding_ends_example :
    ((after_store ≡ record after_takes { cancelled = true })
      ⊎ (steps_left after_store < steps_left after_takes))
    × (Goes library request "hash" after_takes
        ⊎ ((e : SeedProgressEvent) × (after_takes.last ≡ some e))
        ⊎ ((after_takes.is_read ≡ false) × (channel_size ≤ after_takes.queued)))
seeding_ends_example =
    seeding_ends library request "hash" after_takes after_store
      (stores [] (0 ∷ []) 1 (λ n. n) none refl)

-- Everything is done, the handler has gone, and its channel is full of events.
abbrev full : Progress
full = record after_counts { emitting = 0; queued = 100; is_read = false }

last_event-blocks_example : (record full { cancelled = true }).last ≡ none
last_event-blocks_example =
    last_event-blocks library request "hash" full (record full { cancelled = true })
      (refl, refl, refl) (then_step now cancels)
