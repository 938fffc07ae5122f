-- ===== src/Lib.antt =====
-- Verification library of the VPN subscription bot: payments, the terms of subscriptions, the caches
-- of the bot, mass mailings, network monitoring and the administrators' sessions.
--
-- A payment begins with a request for a link (internal/service/order.go: requestPayment), which finds
-- or creates a payment intent in the order repository (internal/database/orders.go), claims it and
-- calls the provider Platega. The provider calls back with a confirmation (confirmPayment) or with a
-- cancellation or a chargeback (CancelPaymentByProvider), which move the order and its subscription in
-- one transaction, one callback at a time for each payment (lockPayment). A scan ends the terms that
-- have run out, and a renewal extends them. A worker asks for the provider's fee later (SyncProviderFees).
--
-- - Base: names of the libraries, Boolean tests on native numbers, list helpers, signed integers.
-- - Store: the tables of internal/database/models.go as records (Types); statements, transactions,
--   errors and alerts as a state and error monad (Monad). A statement may fail at any time: World.faults
--   says which ones do, and a transaction that ends in an error gives its tables back. World also logs
--   the alerts to the administrator, the calls of the provider and the cache entries dropped. Frame has
--   the relations between the tables before and after, Outcome what a success ensures, Calm that an
--   operation succeeds if no statement fails.
-- - Orders: internal/database/orders.go and the lookups of plans.go, products.go and subscriptions.go.
--   Rows, Intent (FindPendingPaymentOrder, FindOrCreatePendingPaymentOrder, MarkPaymentCreationUncertain,
--   SavePaymentDetails), Expiry (CalculatePaymentExpiry), Journal, Confirm (ConfirmOrderPaidCAS) and
--   Chargeback (CancelPaidOrderAndDowngradeCAS, CancelOrderCAS) are its operations; Diagram is the life
--   of an order as a step relation, Follow, Once and TermKept are proofs over
--   sequences of calls, PaidTerms and Activation over a confirmation.
-- - Money: internal/service/payment/platega, ParseCallbackAmount and CommissionCents, on texts as lists of
--   bytes with the strconv and strings functions that they use; int64 bounds are written out.
-- - Payments: internal/service/order.go. Outside is the record of what the service is given and the
--   repository cannot show: configuration, clock, payment lock, the Platega API, google/uuid, time.Parse,
--   strings.TrimSpace on texts of the provider and the subscription service. Confirm, Cancel, Request,
--   Provider, Link and Fees are the operations; the other children are proofs.
--   Lock has lockPayment and dropPaymentWaiter as a step relation over any number of callbacks, where the
--   operations take the lock as one answer; Exclusion, Joining, Release and Mutex are its proofs.
-- - Terms: internal/database/subscriptions.go (Expiring: ExpireSubscriptionWithPlanCAS and
--   ExpireSubscription) and subscription_renewal.go (Renewal: renewSubscription), and the reminders of both
--   files subscription_reminders.go (Reminders), over the tables of Store. A reminder's text is left out,
--   and whether the bot delivers it is an argument.
-- - Caches: internal/bot/cache.go and referral_cache.go. Elements has the two maps, the linked list and
--   the memory of SubscriptionCache, with an address for each list element; Rows is the plain list it
--   stands for, Linked the invariant between them, Uses the refinement over sequences of calls. Referrals
--   is ReferralCache without its send limit, which nothing but tests calls.
-- - Broadcast: internal/database/broadcast_recipients.go, mass mailings with leases on recipients.
-- - Monitor: internal/database/netmon_state.go, the state machine of a target with its outages, and the
--   statuses of countries.
-- - AdminAuth: internal/adminauth. Limiter (limiter.go) is the budget of attempts, Sessions (session.go)
--   the store of sessions, Handler (handler.go) the routes over both: the middleware, bootstrap, login,
--   logout and current. A request is a record of what the code reads of it.
-- - Markdown: internal/utils/markdown.go, the escapes for Telegram's dialects.
--
-- A time is its number of seconds, a nullable column an Option, the state of the database the list of
-- rows of each table in the order of ids. `SELECT ... FOR UPDATE` needs no counterpart, since a
-- transaction runs as one step. A Go map is a list of entries (Base.Maps). The loop of issue that draws
-- tokens has fuel for one draw more than there are sessions, which is enough where the tokens differ. The
-- pages of SyncProviderFees run on fuel; running out is an error.
--
-- Not modelled: the texts of alerts and journal rows, metrics and log lines, the time budget of a
-- fee pass, the JSON of the recipients column, and the rest of the bot (trials, invites, warm-up,
-- Telegram handlers, web server, subscription server, probes, scheduler, configuration).
pub mod Base
pub mod Store
pub mod Orders
pub mod Money
pub mod Payments
pub mod Broadcast
pub mod Monitor
pub mod AdminAuth
pub mod Caches
pub mod Terms
pub mod Markdown
