-- ===== src/Lib.antt =====
-- Slot is a booking platform of several Python services. A master opens slots, a client books one
-- and pays, a provider's webhook settles the payment, and the other services learn of it from
-- commands and events that a service writes into an outbox in the same transaction as its rows and
-- that a relay delivers later, at least once.
--
-- What models what:
--   Booking/Domain, Models, Events, Auth    services/booking/src/booking/{domain,models,events,auth}.py
--   Booking/Tokens                          services/booking/src/booking/auth.py (verify_token)
--   Booking/Service (Queries, Commands)     services/booking/src/booking/service.py
--   Booking/Outbox                          services/booking/src/booking/outbox.py
--   Booking/Http                            services/booking/src/booking/{app,schemas,payments_client}.py
--   Booking/Http/Edge, Payments/Http/Edge   settings, health and framework errors in app.py of each
--   Booking/Calendar                        what the service promises about a slot
--   Booking/System                          the calls and the relay run in any interleaving
--   Payments/Domain, Models                 services/payments/src/payments/{domain,models}.py
--   Payments/Clients                        services/payments/src/payments/{paystub,booking_client}.py
--   Payments/Service                        services/payments/src/payments/service.py
--   Payments/Http                           services/payments/src/payments/{app,schemas,domain}.py
--   Payments/Relay                          services/payments/src/payments/relay.py
--   Payments/System                         their transactions and the relay in any interleaving
--   Platform                                the payments relay with the booking service as its neighbour
--   Platform/Announced                      an event from booking's outbox to the notifier's table
--   Hub/Flakiness                           services/quality-hub/src/quality_hub/flakiness.py
--   Hub/Junit                               services/quality-hub/src/quality_hub/junit.py
--   Notifier/Domain, Models, Gateway        services/notifier/src/notifier/{domain,models,gateway}.py
--   Notifier/Consumer                       services/notifier/src/notifier/consumer.py (one message)
--   Notifier/Stream                         services/notifier/src/notifier/consumer.py (the loop)
--   Notifier/Http                           services/notifier/src/notifier/{app,service,schemas}.py
--   Web/Tokens                              services/web/src/web/domain.py (issue_token)
--   Web/Forms                               services/web/src/web/domain.py (forms)
--   Web/Login                               services/web/src/web/app.py (login)
--   Web/Browser                             services/web/src/web/app.py (start page, logout, cookies)
--   Web/BookingClient, Pages                services/web/src/web/{booking_client,app}.py
--   Web/Sessions                            a token from the front end to the booking service
--   Tools/AcceptedRisks                     tools/accepted_risks.py
--   Tools/DependencyAudit                   tools/dependency_audit.py
--   Tools/ChangedServices                   tools/changed_services.py
--   Tools/EventSchemaDiff                   tools/event_schema_diff.py
--   Tools/ImportBoundaries                  tools/import_boundaries.py
--   Prelude/Pages                           what the apps of booking, payments and notifier share
-- The functions keep the names of the source, without a leading underscore: `book_slot` is
-- `book_slot`, `_record_failure` is `record_failure`. Booking/Invariant, Payments/Invariant and the
-- other modules hold proofs about them; Examples has concrete runs.
--
-- How state is modelled. A database is a record of its committed tables, each a list of rows in any
-- order, the last inserted first. A use case is a function from the database to its answer and the
-- database after it; an error is a value of `Failure`. A use case of the booking service that reads
-- before it writes takes two databases: `seen`, which its reads saw, and `db`, at which its write
-- takes place, so that what other transactions commit between the two is a case of each theorem.
-- Unique indexes and primary keys are tests on the rows at the time of the write. In the payments
-- service the transactions that commit while the provider is asked are a function `meanwhile`, in the
-- notifier those of other consumers a function `others`. A text too long for its column is an error
-- of the statement in the notifier, whose texts come from outside; a text with a NUL, which PostgreSQL
-- refuses, is left out.
--
-- Conventions. Instants and durations are natural numbers of microseconds; where the source subtracts
-- a duration from an instant, the model adds it on the other side of the comparison. Amounts of money
-- are natural numbers of minor units. The ids that `uuid7` draws are arguments; uuids of version 7 are
-- ordered as they are drawn. Rates are compared as fractions. All loops run over finite lists and are
-- structural, so no fuel is needed. The endless loops of the notifier and of the booking relay are
-- modelled over a list of turns, the notifier's each with what the broker answers during it.
--
-- What is not modelled: the web framework (a request is what it has parsed), the ORM, the database
-- engine, Redis, the XML and JSON parsers and the neighbours outside this repository, which are
-- parameters (`Publisher`, `Neighbours`, `create_charge`, `parse_uuid`, `Gateway`, `Python`, `Stdlib`,
-- `Library`, `Service`, `Broker`, `Framework`, `Wire`); heartbeat files and the endless loops around
-- the relays; the texts of errors and the templates; schema migrations, which library code runs; and
-- the tests.
pub mod Prelude
pub mod Booking
pub mod Payments
pub mod Hub
pub mod Platform
pub mod Notifier
pub mod Web
pub mod Tools
