-- ===== src/Lib.antt =====
-- A model of the services of this platform: a notification service that queues and delivers mail,
-- an identity service that knows the users, and an upload service for videos on an object storage.
--
-- The notification service turns a request into a notification and an outbox event, in one
-- transaction, unless the user's preferences refuse it. The outbox worker claims pending events and
-- publishes their payloads to the broker. The email worker takes them from its queue, sends the mail
-- through a circuit breaker, and publishes a retry or rejects the message to the dead-letter queue
-- when that fails. A user's notifications are listed page by page.
-- A campaign goes to all users of a role: the campaign worker claims it, opens a stream of users at
-- the identity service, which reads its table page by page behind a cursor, publishes a message for
-- each user in batches, and records on the campaign's row how far it has come. These mails come
-- through a queue of their own, and the email worker counts them on the campaign's row.
-- The scheduler creates the daily notifications that users ask for, and the webhook worker
-- sets a notification to sent when the mail server reports its delivery. All queues run over one
-- broker client, and requests over a rate limit and, for users, a token of the identity service.
-- The upload service hands out URLs to which a client uploads a video, whole or in parts, and
-- records the outcome; a janitor looks after the uploads that ran out of time.
--
-- Files and code (paths below services/, functions in the order of the file):
--   Platform/Errors: pkg/errors/errors.go (of the repository's root). `code` is the HTTP code.
--   Platform/Broker: pkg/broker/rabbitmq.go. `subscribe_queue` is subscribeQueue, `publish` is
--     Publish, `reestablish` the loop of the same name; Broker/Consumer has `handle_messages`, which
--     is handleMessages, and the queue behind it. Email, Outbox and Campaign state their own view of a
--     publication; Webhook and the campaign mails of Email run as consumers of this loop.
--   Platform/RateLimit: pkg/ratelimit. `lua_fixed_window` is the script, `gin_middleware` is
--     GinMiddlewareWithConfig.
--   Platform/Text: the functions of Go's `strings` package that the services call; strings whose
--     bytes matter are lists of bytes; and Atoi of `strconv`.
--   Notification/Domain, Notification/Repository: notification/internal/domain, dto/worker.go,
--     and the statements UpdateDeliveryStatus, Create, CreateRecipient, IncrementCampaignCounter.
--   Notification/Breaker: notification/internal/worker/circuit_breaker.go. `execute` is Execute.
--   Notification/Email: notification/internal/worker/email_worker.go. `send_email` is sendEmail,
--     `handle_message` is HandleMessage; Email/CampaignMail has HandleCampaignMessage.
--   Notification/Outbox: notification/internal/worker/outbox_worker.go and, in Outbox/Table,
--     repository/outbox_repository.go. `process_batch` is processBatch, `publish_event` is
--     publishEvent.
--   Notification/Campaign: notification/internal/worker/campaign_worker.go in Campaign/Dispatch
--     (`dispatch_campaign` is dispatchCampaign, `on_user` its callback, `publish_batch` is
--     publishBatch) and repository/campaign_repository.go in Campaign/Table. `receive_users` and
--     `received` are StreamUsers of grpc/identity_client.go.
--   Notification/Preferences: notification/internal/service/preference_service.go and
--     repository/preference_repository.go.
--   Notification/Creation, Notification/Listing: notification/internal/service/
--     notification_service.go. `create_from_template` is createFromTemplate, `transaction` is
--     createWithOutbox, `list_notifications` is ListNotifications; `list` is List of
--     repository/notification_repository.go.
--   Notification/Scheduler: notification/internal/service/scheduler_service.go and
--     repository/schedule_repository.go. `process_due_schedules` is ProcessDueSchedules, `is_due` is
--     isDue; Scheduler/Requests has UpsertSchedule, GetSchedules and DeleteSchedule.
--   Notification/Webhook: notification/internal/worker/webhook_worker.go, and HandleMailpitWebhook
--     and UpdateStatus of service/notification_service.go.
--   Notification/Seeder: notification/internal/service/seeder.go. Notification/Campaign/Service:
--     service/campaign_service.go, CreateCampaign and GetCampaignStats.
--   Identity/Users, Identity/Stream: identity/internal/domain/user.go,
--     repository/user_repository.go and grpc/user_service_server.go. `stream_users` is StreamUsers.
--   Identity/Auth: identity/internal/service/auth_service.go, with the tokens of pkg/auth/jwt.go (of
--     the repository's root). `login`, `refresh_token`, `login_with_google`, `logout` and `register`
--     are the methods of these names.
--     Auth/Middleware has ExtractToken and pkg/auth/middleware.go, Auth/Profile GetProfile.
--   Identity/Seeding: identity/internal/service/seed_service.go. `Step` is what its workers can do
--     next, `Reach` what comes of it in any order; their events go through the channel of 100 events
--     that handler/seed_handler.go makes.
--   Notification/Dlq: notification/internal/service/dlq_service.go (ReplayDLQMessage; in Dlq/Listing
--     ListDLQMessages),
--     worker/dlq_worker.go (saveToDLQ) and repository/dlq_repository.go.
--   Upload/Domain, Upload/Effects: upload/internal/domain, config and repository, and what a
--     handler acts on. Upload/Session and Upload/Completion: service/upload_session_service.go.
--     Upload/VideoService: service/video_service.go. Upload/Queries: ListVideos and GetSession, and
--     what a client reads page by page. Upload/Janitor: worker/janitor_worker.go.
--     Upload/Etags runs all of them in any order; Upload/Keeps has the rules of its proof.
--   Prelude/Sorting and Prelude/Pages have what the paged queries share: sorted rows, and the rows
--   behind a cursor.
--   The modules Laws, Plan, Counters, Delivery, Retries, Batches, Covers, Reaches, Complete,
--   Coherent, Upserts, Choices, Accepted, Whole, Rotation, Bearer, Channels, Reconnect, Window, Rounds,
--   Daily, Templates, SendTime, Settled, Requeued, Repeated, Totals, Ends, Mails, Exclusive and Stuck
--   hold the proofs, the modules Examples concrete inputs.
--
-- How the code is modelled:
--   A table is the list of its rows in insertion order. A handler is a function from the state
--   (`World`) to the state and a result; an error leaves what was done before it in place, since
--   the code has no transaction there. Where it has one, the statements change the tables together
--   or not at all.
--   What the code does not decide is an argument: an `Answers` record holds what the database, the
--   broker, SMTP, the object storage and the clock answer within one request or delivery, so a
--   theorem about all answers is one about all failures. A statement that is answered with an
--   error changes nothing. UUIDs and times are numbers, and the
--   parser of UUIDs and the decoder of stored payloads are parameters.
--   Sizes and counts are numbers without an upper bound: the configured limits keep them far below
--   the machine's. The number of batches of a seeding, whose sizes a request gives without a limit, is
--   computed in 64 bits and wraps around as in the code. The number of parts, which the code computes in floating point, is the exact
--   quotient rounded up; sizes are far below 2^53, where the two agree.
--   Functions recur on lists or numbers that are given; the endless loops of the workers are lists
--   of rounds or deliveries of any length. The loop of the user stream has fuel, one more than the
--   rows of the table: each round but the last one sends a user and passes it. A client that reads
--   the list of notifications page by page has as much. The loop that restores a connection has any
--   fuel; it needs one more than the dials that fail.
--   Two pages are read from the same rows: what a concurrent writer does in between is left out.
--   Concurrency is modelled at the points where the code guards against it: the claim of a row and
--   the transition of a session's status are single steps, as their SQL statements are. The workers
--   of a seeding are a relation of steps that they take in any order.
--   Libraries whose behaviour matters are interfaces with laws: the counters of Redis and the queues
--   of RabbitMQ. The Examples of the rate limit and of the broker have instances of them.
--
-- Not modelled: metrics, logs and traces; the HTTP handlers and routes; configuration and start-up;
-- the clients of the object storage and of Redis, which only call their libraries; statements of the
-- repositories that no service runs (of notifications ClaimPendingBatch, IncrementRetryAndReset and
-- ExistsByEventID, of users Update and Delete).
pub mod Prelude
pub mod Platform
pub mod Notification
pub mod Upload
pub mod Identity
