-- ===== src/Notification/Dlq/Laws.antt =====
-- What a replay of a dead-letter message does.
use microservices_base_platf.Prelude.{
  ◌≡◌, ap, ◌∙◌, ◌≢◌, inl, inr, String, Option, none, some, List, [], ◌∷◌, ◌++◌, ◌==◌, Bool-cases,
  Option-cases, arith,
}
use microservices_base_platf.Notification.Domain.{Uuid, NotificationTask, DlqMessage, DlqStatus}
use microservices_base_platf.Notification.Dlq.{
  Answers, World, get_message, replayed, mark_replayed, replay_read, replay_dlq_message,
}

get_message-mark_replayed :
    (id : Uuid) (m : DlqMessage) (rows : List DlqMessage)
    → get_message id rows ≡ some m
    → get_message id (mark_replayed id rows) ≡ some (replayed m)
get_message-mark_replayed id m [] h = cc
get_message-mark_replayed id m (r ∷ rows) h = elim (Bool-cases (r.id == id)) [
  | inl e ↦ ground (arith, e, h)
  | inr e ↦ ground (arith, e, get_message-mark_replayed id m rows)
]

module _ (decode : String → Option NotificationTask) (parse_uuid : String → Option Uuid)
    (exchange : String) where
  -- What a replay that succeeds has found and done.
  pub record IsReplayed (id : Uuid) (w w' : World) : Type 0 where
    pub message : DlqMessage
    pub task : NotificationTask
    pub found : get_message id w.messages ≡ some message
    pub waiting : message.status ≢ DlqStatus.replayed
    pub decoded : decode message.payload ≡ some task
    pub sent :
        w'.published
        ≡ w.published
          ++ record {
            exchange = exchange;
            routing_key = message.queue_name;
            task = record task { retry_count = 0 };
          }
            ∷ []
    pub marked : w'.messages ≡ mark_replayed id w.messages

  replay_read_success :
      (a : Answers) (id : Uuid) (w : World)
      → (replay_read decode parse_uuid a.read (get_message id w.messages) exchange a id w).1 ≡ none
      → IsReplayed id w
          (replay_read decode parse_uuid a.read (get_message id w.messages) exchange a id w).0
  replay_read_success a id w h = elim (Option-cases (get_message id w.messages)) [
    | inl e ↦ absurd (ground arith)
    | inr (m, e) ↦ elim (Option-cases (decode m.payload)) [
      | inl d ↦ absurd (ground arith)
      | inr (task, d) ↦ record {
        message = m;
        task = task;
        found = e;
        waiting = ground arith;
        decoded = d;
        sent = ground arith;
        marked = ground arith;
      }
    ]
  ]

  -- A replay that succeeds was asked for an id that parses, whose message exists, is not replayed
  -- yet and holds a task; it has published this task once, with its retry count set to 0, with the name of its queue as
  -- the routing key, and has marked the message as replayed.
  pub replay_dlq_message_success :
      (a : Answers) (id_text : String) (w : World)
      → (replay_dlq_message decode parse_uuid exchange a id_text w).1 ≡ none
      → (id : Uuid) × (parse_uuid id_text ≡ some id)
        × IsReplayed id w (replay_dlq_message decode parse_uuid exchange a id_text w).0
  unfolding replay_dlq_message
  replay_dlq_message_success a id_text w h = elim (Option-cases (parse_uuid id_text)) [
    | inl e ↦ absurd (ground arith)
    | inr (id, e) ↦ (id, e, rw e (replay_read_success a id w (rw e at h)))
  ]

  replay_again :
      (b : Answers) (id_text : String) (id : Uuid) (m : DlqMessage) (w : World)
      → parse_uuid id_text ≡ some id
      → get_message id w.messages ≡ some (replayed m)
      → ((replay_dlq_message decode parse_uuid exchange b id_text w).1 ≢ none)
        × ((replay_dlq_message decode parse_uuid exchange b id_text w).0 ≡ w)
  unfolding replay_dlq_message
  replay_again b id_text id m w p g = ground arith

  -- A message is replayed at most once: after a replay that succeeded, every other one of the same
  -- id is refused, whatever answers it meets, and changes nothing.
  pub replay_dlq_message_once :
      (a b : Answers) (id_text : String) (w : World)
      → (replay_dlq_message decode parse_uuid exchange a id_text w).1 ≡ none
      → let w' = (replay_dlq_message decode parse_uuid exchange a id_text w).0 in
        ((replay_dlq_message decode parse_uuid exchange b id_text w').1 ≢ none)
        × ((replay_dlq_message decode parse_uuid exchange b id_text w').0 ≡ w')
  replay_dlq_message_once a b id_text w h =
      let (id, p, r) = replay_dlq_message_success a id_text w h in
      replay_again b id_text id r.message _ p
        (ap (get_message id) r.marked ∙ get_message-mark_replayed id r.message w.messages r.found)
