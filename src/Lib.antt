-- ===== src/Lib.antt =====
-- Verification of the marketplace of escrow-fx-marketplace: users post requests to exchange an
-- amount of one currency for another, others make offers on them, and the acceptance of an offer
-- locks the terms of a trade.
--
-- The parts and their files. Paths are those of the repository.
--   Domain    app/domain: enums, lifecycle tests, Money and Rate with their decimal arithmetic,
--             entities and exceptions. An identifier is a UUID by its integer value, an instant a
--             number of microseconds.
--   Store     app/repositories/sqlalchemy.py, app/infrastructure/database/unit_of_work.py,
--             app/infrastructure/idempotency.py and the publisher of app/services/outbox.py.
--             Store/Db is the database, Store/Action a step of a transaction: a function of an
--             environment and a session that returns a value or raises, with the next session. A
--             session holds what the transaction sees and what is committed. Store/Users,
--             Tokens, Verifications, RateLimits, Requests, Offers, Trades, Outbox, Idempotency and
--             References are the repositories, one function per method. Store/Ensures is the logic
--             in which the steps are proved, and LockOrder is about the order of the locks on users.
--   Service   app/services: Offers is exchange_offer.py, Requests and Terms are
--             exchange_request.py, Trades is trade.py, Expiry is marketplace_expiry.py, Locks is
--             what trade.py and exchange_request.py do with the rows they lock, Outcome is the
--             idempotency bracket around each mutation, Accounts is account.py with
--             `update_user_status` of admin.py, Dispatch is notification_dispatcher.py,
--             Preferences is notification_preferences.py. A function has the name of the method;
--             the body behind the idempotency claim is a second one, `..._claimed`. Replay,
--             RoundTrip and Cleanup are about the bracket, Leases about the dispatcher.
--   Market    the invariant of requests, offers and trades (Invariant), how each write of a row
--             acts on it (RequestWrites, OfferWrites, SettleRows, Sweep), and for each mutation
--             how it acts on the invariant (AcceptOffer, CancelRequest, CloseOffer, CreateOffer,
--             UpdateOffer, RequestOps, EditRequest, Expiry) and what it requires (the files of
--             guards with ValidTerms, and Accepted). Lifecycle is the histories of calls of all mutations.
--   Auth      app/services/auth.py over the users and the tables of tokens (Store/Tokens): Tokens is
--             the operations that issue and use links, Sessions those that admit a user, Passwords
--             and Admins the others. Recovery, Spent and SingleUse are about the links,
--             Silence about what is told of an address.
--   Identity  app/services/kyc.py over the verifications (Store/Verifications): Masking, Decision and
--             Kyc are its helpers, Reviews and Checks its operations. Progress is the order of the
--             statuses, which Reviewed, Checked and Lifecycle follow through the operations;
--             Applicants is about what a submission requires.
--   Limits    app/infrastructure/rate_limiting.py over the buckets (Store/RateLimits): Policies,
--             Windows and Enforce are the limiter, Client is `resolve_client_ip`. Fallback compares
--             the two implementations of `consume`, Counter the bucket with a counter; Bounds,
--             Refusals and Failures are about what a client is told.
--   Pages     app/infrastructure/pagination.py and the lists: Cursor is the page of a statement,
--             Filters its conditions, Board the lists of requests, Dealings those of offers and
--             trades, Admin those of admin.py. Order is about the order of a list, Slices and
--             Complete about its pages together, Visible and Creator about who is shown what.
--   Examples  a small marketplace at which each theorem is applied.
--
-- The environment gives the clock, the identifiers that uuid4 draws, and what other transactions
-- commit while this one waits for a row lock, which a bulk update may do too. A theorem takes
-- transactions to run one after the other (`IsSerial`) where it says so; the model itself does
-- not. A taken identifier raises as the constraint does; a theorem that needs new ones says so.
--
-- Every loop is over a list. The one recursion on fuel, `excess_digits`, counts the digits of a
-- coefficient beyond the precision of 28, and its fuel is the coefficient itself, which each
-- round divides by ten (Domain/Rounding).
--
-- Not modelled: the HTTP API, the providers of notifications and the categories of events, the
-- list of outbox events, the texts of cursors and of messages, the metadata of audit events, the
-- normalization of emails, country and currency codes and phone numbers, and the rounding of
-- stored amounts to the scale of a column. Hashes of passwords, of tokens, of identifiers and of
-- the limiter's keys are functions that are parameters, and so are the KYC provider with the
-- parser of its webhook, the sender of notifications, the gateway of their preferences, and how
-- the limiter's store runs a transaction. Of a provider's summary the model keeps what the service
-- reads.
pub mod Auth
pub mod Common
pub mod Domain
pub mod Identity
pub mod Limits
pub mod Pages
pub mod Store
pub mod Service
pub mod Market
pub mod Examples
