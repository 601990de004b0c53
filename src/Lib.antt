-- ===== src/Lib.antt =====
-- A model of the scheduling core of the District scheduler, with theorems about it.
--
-- The program offers times and takes bookings. internal/slots computes, from the weekly rules, the date
-- overrides and the busy times of hosts, the starts that a booker may choose; internal/booking writes the
-- chosen one into the tables inside a transaction that checks again that nobody is booked twice, and
-- cancels, reschedules, reassigns and lists bookings. The two meet only in the instants: what a slot
-- promised is decided anew by `hostBusy` when it is booked. The handlers keep the rules and overrides that
-- internal/slots reads, and the roles of the users; the worker runs the jobs that bookings leave behind, and
-- the server's middleware limits who may ask how often.
--
-- Which file models which part:
--   Slots/Interval      internal/slots/intervals.go: `subtract`, `cutOut`, `mergeIntervals`, `expandBusy`
--   Slots/WallClock     internal/slots/availability.go: `parseWallClock`, `wallClockInterval`,
--                       `sameLocalDate`
--   Slots/Day           internal/slots/availability.go: `resolveDay`
--   Slots/Routing       internal/slots/generate.go: `pickHosts`
--   Slots/Walk          internal/slots/generate.go: `newParams`, `alignUp`, `hostsByStart`
--   Slots/Generate      internal/slots/generate.go: `offer`, `generate` and its entry points
--   Slots/Failure       the errors of internal/slots
--   Booking/Store       the tables, and internal/booking/booking.go
--   Booking/Stamp       timestamps as the text that the queries compare
--   Booking/Conflict    internal/booking/service.go: `hostBusy`
--   Booking/Guarded     the invariant: no user attends two active bookings that meet
--   Booking/Create      internal/booking/service.go: `Create`, `pickRotationHost`, `leastLoadedHost`
--   Booking/Lifecycle   internal/booking/service.go: `Cancel`, `CancelByID`, `Reschedule`, `ReassignHost`;
--                       the two writes of internal/handler/reassign.go
--   Booking/Tokens      internal/booking/service.go: the manage tokens
--   Booking/Listing     internal/booking/list.go: `where`, `List`, `Counts`
--   Booking/Locks       internal/booking/hostlock.go: which locks are taken, in which order, also by
--                       `Reschedule` of service.go
--   Handler/Roles       internal/handler/roles.go and archive.go; the session look-up of
--                       internal/handler/auth.go
--   Handler/Hours       internal/handler/availability.go, and `validHHMM` of override.go
--   Handler/Overrides   internal/handler/override.go
--   Handler/Schedule    `loadHostSchedule` of internal/handler/slots_handler.go
--   Handler/Idempotency internal/handler/idempotency.go, and its use by `CreateBooking` of
--                       internal/handler/booking_handler.go
--   Worker/Queue        `Poll` of internal/worker/worker.go, as it treats the table of jobs
--   Webhook             internal/webhook/webhook.go
--   Db/Rebind           internal/db/rebind.go
--   Server/RateLimit    `rateLimiter` of internal/server/middleware.go
--   Server/ClientIp     `resolveClientIP` there
--   Server/Bucket       `rateLimitKey` and `requestCredential` there
-- The files below a part hold its proofs. Common holds what they share.
--
-- State. The tables are a record of lists of rows, `Store`; an operation takes the store and returns the one
-- after its commit, or an error, on which the transaction leaves the store as it was. Go's (value, error)
-- pairs are `Fallible`; its maps of starts are association lists in the order of insertion, and its sets
-- are lists. `sort.Slice` is an insertion sort.
--
-- Numbers. An instant is a number of nanoseconds since the start of the year 1 and a duration a number of
-- nanoseconds, both without upper bound; configured minutes and days are numbers from 0 up, so that the
-- checks for positive numbers are checks for 0. Widening a busy time stops at the year 1. Ids and texts
-- that are only compared are numbers, 0 for the empty one. A status, a routing mode and a role are data
-- types, one constructor of which stands for every other text where the code has a default.
--
-- Loops. The innermost loop over starts runs on `turns` of fuel and the loop over days on `days`;
-- `turns` exceeds the number of intervals that a window has room for and `days` the number of days in the
-- range, so that each loop leaves by its own test before the fuel is out.
--
-- A round of the worker takes how each job's run goes from an environment, a function of the job's id. Its
-- readings of the clock are cut to whole seconds where the code formats them so.
--
-- Parameters. `Zones` is the time-zone database, `Digests` and `digest` are SHA-256, `lower` is the
-- engine's LOWER, `Addresses` is what the net package says of addresses, and `TextFunctions` are the text
-- functions of the library that the rate-limit key uses. Ids that are drawn and readings of the clock are arguments.
--
-- Not modelled: faults of the engine other than a violated unique index, primary key or foreign key of the
-- tokens, waiting for locks and the interleaving of transactions and of handlers, the column that holds
-- external event ids, the texts of errors, the purges of `Poll` outside of the table of jobs, but for
-- that of the idempotency keys, of which any row may go at any time, what a job
-- does, and the other handlers and packages: mail, calendar providers, configuration, migrations
-- and the clients of outside services, which are input and output around this core.
pub mod Common
pub mod Slots
pub mod Booking
pub mod Db
pub mod Server
pub mod Handler
pub mod Worker
pub mod Webhook
