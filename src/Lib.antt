-- ===== src/Lib.antt =====
-- Reliable messaging: transactional outbox, relay and transaction protocol of the Go module.
--
-- A host appends messages to an outbox table in its own transaction (storage/mysql). A relay (relay)
-- claims due rows under a lease, publishes them and writes back what the publisher reported; every
-- write presents the claim, whose token and version fence out superseded holders. A second outbox
-- (delivery/mysql) waits for business receipts instead of broker confirmations. For transactional
-- sends a host freezes a plan with its branches (transaction/plan.go), reserves an execution with a
-- fence (transaction/store.go, storage/transaction/mysql), commits or aborts it in its own database,
-- and answers the broker from that evidence (transaction/evidence.go).
--
-- Files and the code that they model:
--   Base         bytes and UTF-8, big-endian lengths, decimal and hexadecimal text, results
--   Env          crypto/sha256, time.Parse(RFC3339Nano) and strings.TrimSpace, as parameters
--   Message      message/message.go: New, Valid, the fingerprint
--   Transaction  Plan is transaction/plan.go, Evidence is transaction/evidence.go, Execution is
--                transaction/store.go with Checker its StoreChecker, Receipt is
--                transaction/receipt.go, Codec is transaction/codec.go and
--                transaction/reference_codec.go with encoding/json as a parameter
--   Outbox       outbox/store.go: claims and sentinel errors; Status is outbox/status_builder.go
--   Storage      Mysql is storage/mysql: Rows the table of schema.sql, Append and Write and Claim
--                the operations of store.go and requeue.go, Operations their sequences; the other
--                files of Mysql hold the lemmas and theorems on them. Transactions is
--                storage/transaction/mysql: Rows the tables of schema.sql, Monad the database
--                transaction, Reading and Granting and Ending the operations of store.go and
--                guard.go, Receipts those of receipt.go and recovery_receipt.go, Steps their
--                sequences; the other files hold the lemmas and theorems
--   Catalog      catalog/config.go and catalog/catalog.go: validation and the index, with a map as
--                the list of its entries in the order of a loop over it
--   Delivery     delivery/mysql/outbox.go: Receipts when an operation gets through to its row, Outcomes
--                and Effects what it leaves there, Stages and Pending the theorems on stages and on
--                the selection
--   Transport    transport/publisher.go: the outcomes of a publication; Routing is the names of
--                transport/routing.go, routing_v2.go and routing_v3.go, Routes their validation and
--                the resolver, Canonical and Validated and Recorded the theorems on them
--   Relay        relay/relay.go: New, Run and deliver against a store interface; OverMysql puts the
--                MySQL store behind that interface
--   Examples     concrete runs, and each theorem applied to concrete values
--
-- A Go string or byte slice is a list of bytes, an error a value of Result. Times are counted from
-- Go's zero time, in microseconds in the table and in nanoseconds in Go; a duration is an integer of
-- nanoseconds. Columns of 64 bits are natural numbers: their overflow is not modelled. A statement
-- acts on the whole table at once, with an answer of the database as input: a result, an error
-- without effect, or an error behind a statement that took effect. An operation of the store is one
-- step, so that interleavings are sequences of operations; rows locked by other transactions are an
-- input of ClaimDue. A failed INSERT of a duplicate leaves the counter as it is, and any error of the
-- host's transaction that aborts it is the host's to model.
--
-- ClaimDue reads the database clock once for its selection and the lease, and once more in each of
-- its UPDATEs. Texts are compared by their bytes: schema.sql's collations also ignore trailing spaces,
-- so that the keys of rows and the arguments of calls are taken to have none.
--
-- A call of the transaction store is one step too: row locks order the transactions that meet at an
-- execution. Each statement may fail, a commit may be lost, an error rolls the transaction back. The
-- host's own statements between Bind and CommitWitness do not touch the store's tables.
--
-- A round of the relay takes as inputs what the goroutines and timers decide: where cancellation is
-- seen, what the publisher returns, the order of the writes, what other processes do in between, and
-- the signal that ends the wait. The loop recurses on the list of rounds, so no fuel is needed; a run
-- that does not end within the list returns no exit.
--
-- Not modelled: the Mongo stores, the wire formats, and the transports, which call
-- client libraries.
pub mod Base
pub mod Env
pub mod Message
pub mod Transaction
pub mod Outbox
pub mod Storage
pub mod Transport
pub mod Catalog
pub mod Delivery
pub mod Relay
pub mod Examples
