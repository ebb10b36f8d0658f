-- ===== src/Lib.antt =====
-- Verification of the Finskool backend (apps/backend): an Express and Prisma service for paid
-- investment communities, with a PostgreSQL database, Redis for live events and queues, MinIO for
-- uploads, Razorpay for payments and Firebase for pushes.
--
-- How the parts interact. Every module asks the access rules (lib/community-access.ts) who may see a
-- community or a member. Tickets, payments and the subscription jobs write rows, and tell members and
-- admins through the notification senders (lib/notify-once.ts, lib/admin-notify.ts,
-- lib/member-notify.ts), which save a row under a unique key, publish a live event and queue a push.
-- Tickets check attachments in the object storage. Paying a quote uses the amounts of the billing
-- helpers.
--
-- The files, with what they model under apps/backend/src:
--   Base: shared names, lists, tests and texts; Base/Table: findFirst, findMany, count and updateMany
--     on a table, which is the list of its rows in insertion order; Base/Errors:
--     shared/errors/index.ts; Base/Unique: unique keys.
--   Access: lib/community-access.ts over the tables User, Community, Subscription, CommunityAdmin.
--   Notify, Notify/Senders, Notify/Preview: lib/notification-routing.ts, push.ts, notify-once.ts,
--     admin-notify.ts and member-notify.ts. The inbox holds the rows, the live events and the queue;
--     Channels says whether Redis takes a live event and a job.
--   Tickets: the tables and the store; Tickets/Attachments: resolveAttachments of
--     modules/tickets/tickets.shared.ts with inspectTicketAttachment of lib/minio.ts; Tickets/Create
--     and Tickets/Member: tickets.service.ts; Tickets/Support and Tickets/Reply:
--     admin-tickets.service.ts; Tickets/Wire: what both sides publish; Tickets/Moves: the step relation
--     that specifies them, with Moves/Handle, one request after the other; Tickets/Listing: the
--     member's list, with its cursors.
--   Payments: the tables; Payments/Receipts: lib/plan-receipt.ts, as far as it counts in the
--     counters of the invoices; Payments/Settle, Start and Webhook: modules/services/services.payments.ts;
--     Payments/Close: cancel of services.service.ts and lib/service-quote-expiry.ts; Payments/Run: the
--     calls one after the other; Payments/Desk, Rating and Quotes: modules/services/admin-services.service.ts
--     with the rating and reading of services.service.ts; Payments/Moves: the step relation that
--     specifies the requests and the quotes; Payments/Money: what is counted through a run.
--   Plans: the tables and createOrder of modules/payments/payments.service.ts; Plans/Settle: its grant,
--     and settlePlanPurchase of services.payments.ts; Plans/Months: addMonths; Plans/Checkout:
--     payments.checkout.ts; Plans/Webhook: the gateway's deliveries over both sets of tables, with the
--     number of the receipt; Plans/Running: the running subscriptions under a grant;
--     Plans/Run: the calls on plan orders one after the other.
--   SignIn: registering of modules/mobile-auth/mobile-auth.service.ts; SignIn/Confirm: its code and the
--     account that it makes; SignIn/Reset: a forgotten password.
--   Billing: modules/services/services.billing.ts and lib/plan-gst.ts.
--   Performance: modules/performance/performance.visibility.ts.
--   Lifecycle: lib/subscription-lifecycle.ts.
-- Functions keep the source's names, in snake case. A method that the source writes as one block is
-- cut into helpers by its awaits and branches, and each helper says which part it is.
--
-- State and errors. A ticket operation is an action: a function from the store to a result and a store,
-- where an error is a value and what was written before it stays written, except under `transaction`,
-- which restores the store. The payment code passes its store explicitly. The messages of errors are
-- left out; their class and code are kept.
--
-- Interleaving. Between what a request reads and its transaction other requests may commit. Env.others
-- and PayEnv.others (and PlanEnv.others) stand for them: an arbitrary function on the store, applied at that
-- point. What is assumed of it is a named hypothesis of the theorem concerned (IsServed asks that the others make moves
-- of Tickets/Moves as well). A transaction is one step where its row locks and conditional updates
-- make it one. The grant of a plan is not: it locks the row of its order only, so PlanEnv.meanwhile stands
-- for the others that commit between its read of the running subscription and its writes. In a claim, a
-- reassignment, a message, a reply and a resolution of a ticket, others are also served between the
-- commit and the rows that are read for the answer.
--
-- Dates. A plan runs to a day of the calendar (year, month, day), and the day of a call is a parameter: the
-- server's time zone is taken to be the database's.
--
-- Numbers. Ids are natural numbers, and an id the database makes is the next unused one. Times are
-- milliseconds and amounts are whole paise. Nothing is a machine integer: the source's numbers are
-- doubles, exact up to 2 ^ 53, which the amounts in question stay below. Texts are lists of code units.
-- There is no fuel in the code's own loops, which are recursions on the lists that the source walks; a
-- client that follows cursors has fuel, one call more than there are tickets.
--
-- Not under the sources, and so a parameter: the object storage, whether channels are up, the gateway's
-- answers and signatures (booleans and ids that the calls receive), the date format, base64, random tokens and hashes.
--
-- A failing database is modelled in the expiry job, which catches the failure of each subscription; a run
-- of the reminder job is one in which it does not fail.
--
-- Not modelled: parsing and framing of HTTP and the socket, the other lists, what follows the commit
-- of a payment (live events, e-mails, what is printed on invoices and receipts), the other modules (posts, sessions,
-- administration, stocks, the writes of performance boards), and the web and mobile clients.
pub mod Base
pub mod Access
pub mod Notify
pub mod Tickets
pub mod Payments
pub mod Plans
pub mod SignIn
pub mod Billing
pub mod Performance
pub mod Lifecycle
