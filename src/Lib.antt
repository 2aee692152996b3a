-- ===== src/Lib.antt =====
-- A verification of the smartclass backend (backend/internal): classrooms, their timetables, accounts
-- and sessions, devices and scenes, sensors and alerts, events to websockets and phones, the audit log
-- and the credentials of Home Assistant.
--
-- The program is a Go service over PostgreSQL. A request is decoded by a handler, which calls a
-- service; a service checks its guards, calls the repositories of its package and of others, and
-- returns a result or an error. This development models the services and the repositories.
--
-- Files and what they model:
-- - Prelude: lists, sorting, finite maps (`Dict`) and texts. A table is a map from the primary key
--   to the row. A text that the program takes apart is the list of its bytes, read as ASCII; other
--   strings are atoms. A uuid is a number, and 0 is uuid.Nil. Times are whole seconds.
-- - Platform: the domain errors (backend/internal/platform/httpx/errors.go and the ErrNotFound and
--   ErrConflict of the packages), `Exec` for a method over the tables that it changes, and `Ctx`
--   for what a request gets from outside: the clock, fresh uuids, and which statements the
--   database fails. The keys, foreign keys and CHECK constraints of backend/migrations are conditions of
--   the statements, and ON DELETE is part of the DELETE. A statement that fails returns `internal` and changes nothing. Platform.Http is
--   `WriteError` of errors.go, and the envelope of backend/internal/platform/httpx/response.go.
-- - User: backend/internal/user/user.go, backend/internal/user/postgres.go (User.Repository) and
--   backend/internal/user/service.go (User.Service); the hasher of
--   backend/internal/platform/hasher is a record of functions with bcrypt's law.
-- - Classroom: backend/internal/classroom/classroom.go and backend/internal/classroom/postgres.go
--   (Classroom.Repository) and backend/internal/classroom/service.go (Classroom.Service).
--   `Authorize` guards the services of timetables, devices and scenes.
-- - Schedule: backend/internal/schedule/lesson.go (Schedule.TimeOfDay, Schedule.Lesson),
--   backend/internal/schedule/postgres.go (Schedule.Repository) and
--   backend/internal/schedule/service.go (Schedule.Service). Schedule.Race takes the transaction
--   of `withOverlapCheck` apart into its steps and runs two of them interleaved, with the locks
--   that SELECT ... FOR UPDATE takes on the rows it returns; its INSERT is that of the repository. Schedule.Bodies and
--   Schedule.Handler are backend/internal/schedule/handler.go, with dto.go beside it: what a request reads
--   as, and its answer; the decoding of JSON and the rules of the validator are parameters.
-- - Tokens: backend/internal/platform/tokens/tokens.go. Signing and checking are golang-jwt's, the
--   record `Jwt`.
-- - Auth: backend/internal/auth/refreshstore.go and backend/internal/auth/postgres.go
--   (Auth.Store), backend/internal/auth/memstore.go (Auth.MemStore) and
--   backend/internal/auth/service.go (Auth.Service). `refresh_tokens` takes as an argument what
--   other requests do to the tables between the two statements that read a token's row and mark it
--   used. Auth.Requests lists the requests, for statements about sequences of them.
-- - Device: backend/internal/devicectl/driver.go and backend/internal/devicectl/factory.go
--   (Device.Drivers, where a driver is what it answers), backend/internal/device/device.go and
--   backend/internal/device/postgres.go (Device.Repository) and backend/internal/device/service.go
--   (Device.Service), with the events, reports and records that a request hands to the broker, the
--   trigger and the audit log.
-- - Scene: backend/internal/scene/scene.go and backend/internal/scene/postgres.go
--   (Scene.Repository) and backend/internal/scene/service.go (Scene.Service). A run takes as an
--   argument after which steps the request has been cancelled; the limit of ten seconds for a step
--   is part of what the driver answers.
-- - Realtime: backend/internal/realtime/broker.go (Realtime.Events) and, of
--   backend/internal/realtime/ws, ticket.go (Realtime.Tickets), hub.go (Realtime.Hub), handler.go
--   (Realtime.Topics for `authorizeTopics`, Realtime.Handler for the upgrade) and
--   ticket_handler.go. Realtime.Sessions is the gate as a transition system: its steps are upgrades,
--   publications, writes to a connection and departures, each of them whole, in any order. The
--   spelling of uuids is google/uuid's, the record `Uuids` of Platform.
-- - Notification: backend/internal/notification/notification.go and
--   backend/internal/notification/postgres.go (Notification.Repository),
--   backend/internal/notification/service.go (Notification.Service) and
--   backend/internal/notification/trigger.go (Notification.Trigger). The members of a classroom are
--   read by Classroom.Repository, as the wiring of the server has it.
-- - Audit: backend/internal/auditlog/record.go, backend/internal/auditlog/repository.go and
--   backend/internal/auditlog/postgres.go (Audit.Repository) and
--   backend/internal/auditlog/service.go (Audit.Service). Each turn of a goroutine's `select` is a
--   function, and Audit.Steps performs them in any order; a Record that has seen the service running
--   may send later. What Records send while FlushSync runs, and the turn of its loop at which its
--   context ends, are arguments of `flush_sync`.
-- - Middleware: of backend/internal/platform/httpx/middleware, auth.go (Middleware.Authn) and
--   ratelimit.go (Middleware.RateLimit, with the buckets of golang.org/x/time/rate and the addresses
--   of net/netip as parameters).
-- - Sensor: backend/internal/sensor/reading.go and backend/internal/sensor/postgres.go
--   (Sensor.Repository) and backend/internal/sensor/service.go (Sensor.Service for `Ingest`, which
--   publishes on the broker and calls the rule engine of Notification.Trigger, and Sensor.Reads).
-- - Hass: of backend/internal/hass, hass.go and postgres.go (Hass.Credentials) and, of service.go,
--   Bootstrap and its retries (Hass.Service), Credentials, CurrentToken and SetToken (Hass.Access),
--   the config flows (Hass.Wizard), RunSelfCheck (Hass.SelfCheck) and Adopt (Hass.Adoption). What
--   other requests do before the lock of a refresh is held, and while Home Assistant answers it, are
--   arguments. The credentials are kept over a record of functions, `Remote`, which Hass.Client fills
--   with client.go: onboarding, tokens, flows, and the exchange over a websocket that lists the flows
--   in progress. What Home Assistant answers, and the decoding of its JSON, is the record `Network`.
-- - Drivers: of backend/internal/devicectl/drivers, generic/driver.go (Drivers.Generic),
--   smartthings/driver.go (Drivers.Smartthings) and homeassistant/driver.go (Hass.Driver for its
--   commands, Drivers.Probes for its probe), over HTTP and JSON, the record `Web`.
-- - Analytics: backend/internal/analytics/repository.go and backend/internal/analytics/postgres.go
--   (Analytics.Repository) and backend/internal/analytics/service.go (Analytics.Service), over the
--   tables of devices, of readings and of the audit log. GROUP BY is Analytics.Groups; AVG, MIN, MAX
--   and SUM on float64, and date_trunc, are the record `Aggregates`.
-- - Push: backend/internal/devicetoken/model.go, backend/internal/devicetoken/postgres.go and
--   backend/internal/devicetoken/service.go (Push.Tokens), and
--   backend/internal/pushnotif/client.go (Push.Client) and
--   backend/internal/pushnotif/pusher.go (Push.Pusher), over what Firebase answers.
--
-- Every definition terminates by structural recursion; no fuel is used. The five attempts of
-- FinishOnboarding count down. The tests at the end of each component (Examples) run the definitions on
-- small tables.
--
-- Not modelled: the other HTTP handlers and the in-memory repositories of the tests (but
-- Auth.MemStore), metrics and logging, which the services do not read, the texts of messages and
-- checks, the configuration and the wiring of the server, and the driver that stands in for devices in
-- the tests. What a foreign key deletes in the tables of another package is left out: deleting a
-- classroom takes its memberships with it here, but not its lessons, devices and scenes.
pub mod Prelude
pub mod Platform
pub mod User
pub mod Classroom
pub mod Schedule
pub mod Tokens
pub mod Auth
pub mod Device
pub mod Scene
pub mod Realtime
pub mod Notification
pub mod Audit
pub mod Middleware
pub mod Sensor
pub mod Hass
pub mod Push
pub mod Analytics
pub mod Drivers
