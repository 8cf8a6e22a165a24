-- ===== src/Notification/Scheduler/Daily.antt =====
-- The rounds of one day.
use microservices_base_platf.Prelude.{
  ℕ, ◌≡◌, refl, sym, ap, subst, ◌∙◌, ◌≢◌, ◌⊎◌, inl, inr, String, true, false, Option, List, [], ◌∷◌,
  All, Distinct, eqb_iff,
}
use microservices_base_platf.Notification.Domain.{Time, UserNotificationSchedule}
use microservices_base_platf.Notification.Creation.{Library}
use microservices_base_platf.Notification.Scheduler.{
  Clock, World, Answers, zone_of, sent_on, is_due, is_candidate, mark_sent, process_due_schedules,
}
use microservices_base_platf.Notification.Scheduler.Rounds.{
  id_of, Pointwise, Steps, process_due_schedules-Steps,
}

-- A row that was marked at a time of the day at which it was enabled, had not been sent for 20
-- hours, was due and had not been sent on this local day.
abbrev pub IsMarked :
    Clock → (String → ℕ) → UserNotificationSchedule → UserNotificationSchedule → Type 0
IsMarked clock day s s' =
    (now : Time) × ((zone : String) → clock.day_of zone now ≡ day zone)
    × (s' ≡ mark_sent now s)
    × (is_candidate now s ≡ true)
    × (is_due clock s now ≡ true)
    × (sent_on clock (zone_of clock s) now s.last_sent_at ≡ false)

-- A row before two stretches of rounds, between them and behind them: either it was marked in the
-- first one, and then the second one leaves it; or the first one leaves it, and the second one does
-- so too or marks it.
abbrev pub IsOnce :
    Clock
    → (String → ℕ)
    → UserNotificationSchedule
    → UserNotificationSchedule
    → UserNotificationSchedule
    → Type 0
IsOnce clock day s s1 s2 =
    (IsMarked clock day s s1 × (s2 ≡ s1)) ⊎ ((s1 ≡ s) × ((s2 ≡ s) ⊎ IsMarked clock day s s2))

-- Three tables that are related row by row.
abbrev pub Rowwise :
    (UserNotificationSchedule → UserNotificationSchedule → UserNotificationSchedule → Type 0)
    → List UserNotificationSchedule
    → List UserNotificationSchedule
    → List UserNotificationSchedule
    → Type 0
Rowwise R [] [] [] = Unit
Rowwise R [] [] (z ∷ zs) = ⊥
Rowwise R [] (y ∷ ys) zs = ⊥
Rowwise R (x ∷ xs) [] zs = ⊥
Rowwise R (x ∷ xs) (y ∷ ys) [] = ⊥
Rowwise R (x ∷ xs) (y ∷ ys) (z ∷ zs) = R x y z × Rowwise R xs ys zs

Rowwise-join :
    (R S : UserNotificationSchedule → UserNotificationSchedule → Type 0)
    (T : UserNotificationSchedule → UserNotificationSchedule → UserNotificationSchedule → Type 0)
    → ((x y z : UserNotificationSchedule) → R x y → S y z → T x y z)
    → (xs ys zs : List UserNotificationSchedule) → Pointwise R xs ys
    → Pointwise S ys zs
    → Rowwise T xs ys zs
Rowwise-join R S T f [] [] [] h k = tt
Rowwise-join R S T f [] [] (z ∷ zs) h k = k
Rowwise-join R S T f [] (y ∷ ys) zs h k = absurd h
Rowwise-join R S T f (x ∷ xs) [] zs h k = absurd h
Rowwise-join R S T f (x ∷ xs) (y ∷ ys) [] h k = k
Rowwise-join R S T f (x ∷ xs) (y ∷ ys) (z ∷ zs) h k =
    (f x y z h.0 k.0, Rowwise-join R S T f xs ys zs h.1 k.1)

Pointwise-map :
    (R S : UserNotificationSchedule → UserNotificationSchedule → Type 0)
    → ((x y : UserNotificationSchedule) → R x y → S x y)
    → (xs ys : List UserNotificationSchedule) → Pointwise R xs ys
    → Pointwise S xs ys
Pointwise-map R S f [] [] h = tt
Pointwise-map R S f [] (y ∷ ys) h = h
Pointwise-map R S f (x ∷ xs) [] h = h
Pointwise-map R S f (x ∷ xs) (y ∷ ys) h = (f x y h.0, Pointwise-map R S f xs ys h.1)

Pointwise-trans :
    (R S T : UserNotificationSchedule → UserNotificationSchedule → Type 0)
    → ((x y z : UserNotificationSchedule) → R x y → S y z → T x z)
    → (xs ys zs : List UserNotificationSchedule) → Pointwise R xs ys
    → Pointwise S ys zs
    → Pointwise T xs zs
Pointwise-trans R S T f [] [] [] h k = tt
Pointwise-trans R S T f [] [] (z ∷ zs) h k = k
Pointwise-trans R S T f [] (y ∷ ys) zs h k = absurd h
Pointwise-trans R S T f (x ∷ xs) [] zs h k = absurd h
Pointwise-trans R S T f (x ∷ xs) (y ∷ ys) [] h k = k
Pointwise-trans R S T f (x ∷ xs) (y ∷ ys) (z ∷ zs) h k =
    (f x y z h.0 k.0, Pointwise-trans R S T f xs ys zs h.1 k.1)

Pointwise-refl :
    (R : UserNotificationSchedule → UserNotificationSchedule → Type 0)
    → ((x : UserNotificationSchedule) → R x x)
    → (xs : List UserNotificationSchedule) → Pointwise R xs xs
Pointwise-refl R f [] = tt
Pointwise-refl R f (x ∷ xs) = (f x, Pointwise-refl R f xs)

abbrev SameId : UserNotificationSchedule → UserNotificationSchedule → Type 0
SameId x y = y.id ≡ x.id

differs_same :
    (i : ℕ) (xs ys : List UserNotificationSchedule)
    → Pointwise SameId xs ys
    → All (λ x. x.id ≢ i) xs
    → All (λ y. y.id ≢ i) ys
differs_same i [] [] h k = tt
differs_same i [] (y ∷ ys) h k = absurd h
differs_same i (x ∷ xs) [] h k = tt
differs_same i (x ∷ xs) (y ∷ ys) h k = ((λ e. k.0 (sym h.0 ∙ e)), differs_same i xs ys h.1 k.1)

Distinct-same :
    (xs ys : List UserNotificationSchedule)
    → Pointwise SameId xs ys
    → Distinct id_of xs
    → Distinct id_of ys
Distinct-same [] [] h d = tt
Distinct-same [] (y ∷ ys) h d = absurd h
Distinct-same (x ∷ xs) [] h d = tt
Distinct-same (x ∷ xs) (y ∷ ys) h d = (
  subst (λ i. All (λ z. z.id ≢ i) ys) (sym h.0) (differs_same x.id xs ys h.1 d.0),
  Distinct-same xs ys h.1 d.1,
)

Steps-SameId :
    (clock : Clock) (now : Time) (x y : UserNotificationSchedule) → Steps clock now x y → SameId x y
Steps-SameId clock now x y (inl e) = ap id_of e
Steps-SameId clock now x y (inr e) = ap id_of e.0

-- On the day on which a row was marked, it is not marked again.
marked-stays :
    (clock : Clock) (now last : Time) (s z : UserNotificationSchedule)
    → ((zone : String) → clock.day_of zone last ≡ clock.day_of zone now)
    → Steps clock now (mark_sent last s) z
    → z ≡ mark_sent last s
marked-stays clock now last s z same (inl e) = e
marked-stays clock now last s z same (inr (e, c, d, n)) =
    absurd (apart (sym ((eqb_iff _ _).1 (same (zone_of clock s))) ∙ n))
  where
    apart : true ≢ false
    apart h = cc

module _ (clock : Clock) where
  abbrev pub IsOnDay : (String → ℕ) → Answers → Type 0
  IsOnDay day a = (zone : String) → clock.day_of zone a.now ≡ day zone

  -- One round more after a row that was marked on this day, or before.
  abbrev IsFixed : (String → ℕ) → UserNotificationSchedule → Type 0
  IsFixed day s =
      (last : Time) × (r : UserNotificationSchedule) × (s ≡ mark_sent last r)
      × ((zone : String) → clock.day_of zone last ≡ day zone)

  -- What later rounds of the day do to a row: a marked one stays.
  abbrev IsDaily : (String → ℕ) → UserNotificationSchedule → UserNotificationSchedule → Type 0
  IsDaily day s s' = ((s' ≡ s) ⊎ IsMarked clock day s s') × (IsFixed day s → s' ≡ s)

  one_round :
      (day : String → ℕ) (a : Answers)
      → IsOnDay day a
      → (x y z : UserNotificationSchedule) → Steps clock a.now x y
      → IsDaily day y z
      → IsDaily day x z
  one_round day a on x y z (inl e) (o, k) = subst (λ v. IsDaily day v z) e (o, k)
  one_round day a on x y z (inr (e, c, d, n)) (o, k) =
      let stays : z ≡ mark_sent a.now x = k (a.now, x, e, on) ∙ e in
      (
        inr (a.now, on, stays, c, d, n),
        λ (last, r, q, f).
            k (a.now, x, e, on)
            ∙ subst (λ v. y ≡ v) (sym q)
                (marked-stays clock a.now last r y (λ zone. f zone ∙ sym (on zone))
                  (subst (λ v. Steps clock a.now v y) q (inr (e, c, d, n)))),
      )

module _ {Payload Metadata : Type 0} (lib : Library Payload Metadata) (clock : Clock)
    (decode : String → Option Payload) (empty : Payload) where
  -- The rounds of the worker, one after the other.
  pub run_rounds : List Answers → World → World
  run_rounds [] w = w
  run_rounds (a ∷ rounds) w = run_rounds rounds (process_due_schedules lib clock decode empty a w).1

  rounds-IsDaily :
      (day : String → ℕ) (rounds : List Answers) (w : World)
      → All (IsOnDay clock day) rounds
      → Distinct id_of w.schedules
      → Pointwise (IsDaily clock day) w.schedules (run_rounds rounds w).schedules
  unfolding run_rounds
  rounds-IsDaily day [] w on d =
      Pointwise-refl (IsDaily clock day) (λ s. (inl refl, λ f. refl)) w.schedules
  rounds-IsDaily day (a ∷ rounds) w on d =
      let step = process_due_schedules-Steps lib clock decode empty a w d in
      let ids = Pointwise-map (Steps clock a.now) SameId (Steps-SameId clock a.now) _ _ step in
      Pointwise-trans (Steps clock a.now) (IsDaily clock day) (IsDaily clock day)
        (one_round clock day a on.0) _ _ _ step
        (rounds-IsDaily day rounds _ on.1 (Distinct-same _ _ ids d))

daily-SameId :
    (clock : Clock) (day : String → ℕ) (x y : UserNotificationSchedule)
    → IsDaily clock day x y
    → SameId x y
daily-SameId clock day x y (inl e, k) = ap id_of e
daily-SameId clock day x y (inr (now, on, e, c, d, n), k) = ap id_of e

daily-IsOnce :
    (clock : Clock) (day : String → ℕ) (x y z : UserNotificationSchedule)
    → IsDaily clock day x y
    → IsDaily clock day y z
    → IsOnce clock day x y z
daily-IsOnce clock day x y z (inr (now, on, e, c, d, n), k) (o, k') =
    inl ((now, on, e, c, d, n), k' (now, x, e, on))
daily-IsOnce clock day x y z (inl e, k) (o, k') =
    inr (e, subst (λ v. (z ≡ v) ⊎ IsMarked clock day v z) e o)

-- If the ids are unique, any rounds of the scheduler that fall on one local day in every time zone,
-- cut into two stretches at any place, change the table row by row, whatever answers they meet: a row
-- that the first stretch changes is marked as sent by it, and the second stretch leaves it; a row
-- that the first one leaves is left by the second one too, or is marked by it. A row is marked only
-- at a time at which it was enabled, had not been sent for 20 hours, was due, and had not been sent
-- on this local day.
pub run_rounds-IsOnce :
    {Payload Metadata : Type 0} (lib : Library Payload Metadata) (clock : Clock)
    (decode : String → Option Payload) (empty : Payload) (day : String → ℕ)
    (before after : List Answers) (w : World)
    → All (IsOnDay clock day) before
    → All (IsOnDay clock day) after
    → Distinct id_of w.schedules
    → let w' = run_rounds lib clock decode empty before w in
      Rowwise
        (IsOnce clock day)
        w.schedules
        w'.schedules
        (run_rounds lib clock decode empty after w').schedules
run_rounds-IsOnce lib clock decode empty day before after w on on' d =
    let first = rounds-IsDaily lib clock decode empty day before w on d in
    let ids = Pointwise-map (IsDaily clock day) SameId (daily-SameId clock day) _ _ first in
    Rowwise-join (IsDaily clock day) (IsDaily clock day) (IsOnce clock day) (daily-IsOnce clock day)
      _ _ _ first (rounds-IsDaily lib clock decode empty day after _ on' (Distinct-same _ _ ids d))
