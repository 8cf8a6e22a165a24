-- ===== src/Notification/Scheduler/Rounds.antt =====
-- Which schedules a round marks as sent.
use microservices_base_platf.Prelude.{
  ◌≡◌, refl, sym, ap, subst, ◌∙◌, ◌≢◌, ◌⊎◌, inl, inr, String, true, false, Option, none, some, List,
  [], ◌∷◌, update_where, All, All-map, All-both, All-select, Distinct, ◌==◌, eqb_iff, if◌then◌else◌,
  Bool-cases, ℤ, arith,
}
use microservices_base_platf.Notification.Domain.{
  Uuid, Time, EventType, NotificationTemplate, UserNotificationSchedule,
}
use microservices_base_platf.Notification.Creation.{Library, Response, create_from_template}
use microservices_base_platf.Notification.Scheduler.{
  Clock, World, Answers, zone_of, sent_on, is_due_at, is_due, hour_and_minute, is_candidate,
  mark_sent, update_last_sent_at, marked, after_creation, request_of, dispatch, process_schedule,
  process_all, process_found, process_due_schedules,
}

abbrev pub id_of : UserNotificationSchedule → Uuid
id_of s = s.id

-- Two tables that agree row by row, up to a relation.
abbrev pub Pointwise :
    (UserNotificationSchedule → UserNotificationSchedule → Type 0)
    → List UserNotificationSchedule
    → List UserNotificationSchedule
    → Type 0
Pointwise R [] [] = Unit
Pointwise R [] (y ∷ ys) = ⊥
Pointwise R (x ∷ xs) [] = ⊥
Pointwise R (x ∷ xs) (y ∷ ys) = R x y × Pointwise R xs ys

-- A row that a round at `now` leaves alone, or one that it marks: enabled and not sent for 20 hours,
-- with its time of day behind it, and not sent on this local day.
abbrev pub Steps : Clock → Time → UserNotificationSchedule → UserNotificationSchedule → Type 0
Steps clock now s s' =
    (s' ≡ s)
    ⊎ ((s' ≡ mark_sent now s)
        × (is_candidate now s ≡ true)
        × (is_due clock s now ≡ true)
        × (sent_on clock (zone_of clock s) now s.last_sent_at ≡ false))

-- What is due has not been sent on this day.
is_due-fresh :
    (clock : Clock) (now : Time) (s : UserNotificationSchedule)
    → is_due clock s now ≡ true
    → sent_on clock (zone_of clock s) now s.last_sent_at ≡ false
unfolding is_due
is_due-fresh clock now s h = by_time (hour_and_minute s.send_time) h
  where
    by_time :
        (o : Option (ℤ × ℤ))
        → is_due_at clock o s now ≡ true
        → sent_on clock (zone_of clock s) now s.last_sent_at ≡ false
    by_time none k = cc
    by_time (some (hour, minute)) k = ground (arith, k)

-- The only row with its id.
abbrev IsOnly : List UserNotificationSchedule → UserNotificationSchedule → Type 0
IsOnly rows s = All (λ r. (r.id ≢ s.id) ⊎ (r ≡ s)) rows

all-IsOnly : (rows : List UserNotificationSchedule) → Distinct id_of rows → All (IsOnly rows) rows
all-IsOnly [] d = tt
all-IsOnly (x ∷ rows) d = (
  (inr refl, All-map (λ r. r.id ≢ x.id) (λ r. (r.id ≢ x.id) ⊎ (r ≡ x)) (λ r h. inl h) rows d.0),
  All-both (λ s. s.id ≢ x.id) (IsOnly rows) (IsOnly (x ∷ rows)) (λ s h k. (inl (λ e. h (sym e)), k))
      rows d.0 (all-IsOnly rows d.1),
)

module _ (clock : Clock) (now : Time) where
  -- Marking a row, or marking it again.
  marked-Steps :
      (s x y : UserNotificationSchedule)
      → is_candidate now s ≡ true
      → is_due clock s now ≡ true
      → x ≡ s
      → Steps clock now x y
      → Steps clock now x (mark_sent now y)
  marked-Steps s x y c d e h =
      let c' = subst (λ z. is_candidate now z ≡ true) (sym e) c in
      let d' = subst (λ z. is_due clock z now ≡ true) (sym e) d in
      inr (same h, c', d', is_due-fresh clock now x d')
    where
      same : Steps clock now x y → mark_sent now y ≡ mark_sent now x
      same (inl q) = ap (mark_sent now) q
      same (inr q) = ap (mark_sent now) q.0

  same_id : (x y : UserNotificationSchedule) → Steps clock now x y → y.id ≡ x.id
  same_id x y (inl q) = ap id_of q
  same_id x y (inr q) = ap id_of q.0

  row-Steps :
      (s x y : UserNotificationSchedule)
      → is_candidate now s ≡ true
      → is_due clock s now ≡ true
      → (x.id ≢ s.id) ⊎ (x ≡ s)
      → Steps clock now x y
      → Steps clock now x (if y.id == s.id then mark_sent now y else y)
  row-Steps s x y c d (inl n) h = elim (Bool-cases (y.id == s.id)) [
    | inl e ↦ absurd (n (sym (same_id x y h) ∙ (eqb_iff y.id s.id).0 e))
    | inr e ↦ rw e h
  ]
  row-Steps s x y c d (inr q) h = elim (Bool-cases (y.id == s.id)) [
    | inl e ↦ rw e (marked-Steps s x y c d q h)
    | inr e ↦ rw e h
  ]

  mark-Steps :
      (s : UserNotificationSchedule) (rows rows' : List UserNotificationSchedule)
      → is_candidate now s ≡ true
      → is_due clock s now ≡ true
      → IsOnly rows s
      → Pointwise (Steps clock now) rows rows'
      → Pointwise (Steps clock now) rows (update_where (λ r. r.id == s.id) (mark_sent now) rows')
  mark-Steps s [] [] c d o h = tt
  mark-Steps s [] (y ∷ ys) c d o h = h
  mark-Steps s (x ∷ xs) [] c d o h = h
  mark-Steps s (x ∷ xs) (y ∷ ys) c d o h =
      (row-Steps s x y c d o.0 h.0, mark-Steps s xs ys c d o.1 h.1)

  unmoved : (rows : List UserNotificationSchedule) → Pointwise (Steps clock now) rows rows
  unmoved [] = tt
  unmoved (x ∷ rows) = (inl refl, unmoved rows)

module _ {Payload Metadata : Type 0} (lib : Library Payload Metadata) (clock : Clock)
    (decode : String → Option Payload) (empty : Payload) (a : Answers) where
  -- A dispatch leaves the table alone, or marks the row.
  abbrev Touches : UserNotificationSchedule → World → World → Type 0
  Touches s w w' =
      (w'.schedules ≡ w.schedules) ⊎ (w'.schedules ≡ update_last_sent_at s.id a.now w.schedules)

  dispatch-Touches :
      (s : UserNotificationSchedule) (t : Option NotificationTemplate) (w : World)
      → Touches s w (dispatch lib clock decode empty a s t w)
  dispatch-Touches s none w = inl refl
  dispatch-Touches s (some t) w = created (
      create_from_template lib (a.create s.id) (request_of lib clock decode empty a s) t w.creation)
    where
      by_mark :
          (o : Option String) (v : World)
          → v.schedules ≡ w.schedules
          → Touches s w (marked lib clock decode empty a o s v)
      by_mark none v e = inr (ap (update_last_sent_at s.id a.now) e)
      by_mark (some m) v e = inl e

      created : (r : Response) → Touches s w (after_creation lib clock decode empty a s r w)
      created (inl e, v) = inl refl
      created (inr r, v) = by_mark (a.mark s.id) _ refl

  process-Steps :
      (s : UserNotificationSchedule) (t : Option NotificationTemplate)
      (rows : List UserNotificationSchedule) (w : World)
      → is_candidate a.now s ≡ true
      → IsOnly rows s
      → Pointwise (Steps clock a.now) rows w.schedules
      → Pointwise
          (Steps clock a.now)
          rows
          (process_schedule lib clock decode empty a s t w).schedules
  unfolding update_last_sent_at
  process-Steps s t rows w c o h = elim (Bool-cases (is_due clock s a.now)) [
    | inr n ↦ rw n h
    | inl d ↦ rw d (elim (dispatch-Touches s t w) [
      | inl e ↦ subst (Pointwise (Steps clock a.now) rows) (sym e) h
      | inr e ↦
          subst (Pointwise (Steps clock a.now) rows) (sym e)
            (mark-Steps clock a.now s rows w.schedules c d o h)
    ])
  ]

  process_all-Steps :
      (f : EventType → Option NotificationTemplate) (ss rows : List UserNotificationSchedule)
      (w : World)
      → All (λ s. (is_candidate a.now s ≡ true) × IsOnly rows s) ss
      → Pointwise (Steps clock a.now) rows w.schedules
      → Pointwise (Steps clock a.now) rows (process_all lib clock decode empty a f ss w).schedules
  unfolding process_all
  process_all-Steps f [] rows w k h = h
  process_all-Steps f (s ∷ ss) rows w k h =
      process_all-Steps f ss rows _ k.1 (process-Steps s (f s.event_type) rows w k.0.0 k.0.1 h)

-- If the ids are unique, a round of the scheduler changes the table row by row, whatever answers it
-- meets: a row stays as it is, or is marked as sent at the time of the round, and then it was
-- enabled, had not been sent for 20 hours, its time of day had come in its time zone, and it had not
-- been sent on this local day.
pub process_due_schedules-Steps :
    {Payload Metadata : Type 0} (lib : Library Payload Metadata) (clock : Clock)
    (decode : String → Option Payload) (empty : Payload) (a : Answers) (w : World)
    → Distinct id_of w.schedules
    → Pointwise
        (Steps clock a.now)
        w.schedules
        (process_due_schedules lib clock decode empty a w).1.schedules
unfolding process_due_schedules
process_due_schedules-Steps lib clock decode empty a w d = by_query a.find_candidates
  where
    by_query :
        (o : Option String)
        → Pointwise
            (Steps clock a.now)
            w.schedules
            (process_found lib clock decode empty a o w).1.schedules
    by_query (some e) = unmoved clock a.now w.schedules
    by_query none =
        process_all-Steps lib clock decode empty a _ _ w.schedules w
          (All-select (IsOnly w.schedules)
            (λ s. (is_candidate a.now s ≡ true) × IsOnly w.schedules s) (is_candidate a.now)
            (λ s c o. (c, o)) w.schedules (all-IsOnly w.schedules d))
          (unmoved clock a.now w.schedules)
