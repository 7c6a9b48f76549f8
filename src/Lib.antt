-- ===== src/Lib.antt =====
-- A model of OneCapture, which captures staff claims, vendor bills and ERP exports, computes their
-- emissions, and hands approved data on. The parts below are those that decide what is counted,
-- who may approve it, and what the trail can prove.
--
-- Prelude has the shared types: Boolean tests, lists, association lists, results, integers and texts
-- as lists of code points. Decimal is Python's decimal with the default context of 28 digits.
--
-- Core is src/core. Core/Carbon: `tco2e` and `quantise_tco2e` of carbon.py. Core/Json: the canonical
-- JSON. Core/Audit: `chain_hash` and `verify_chain` of audit.py.
-- Core/Release: the hash and the stubs of release.py.
--
-- ErpSync is src/erpsync, the import of ERP files. ErpSync/Pipeline is `run_import` of pipeline.py. It
-- validates the rows (ErpSync/Validate, ingest/validate.py), maps each accepted line to an entry
-- by a rule (ErpSync/Rules, rules/engine.py), a quantity (ErpSync/Quantity, quantity/resolver.py) and
-- a factor (ErpSync/Emissions, emissions/), holds back what the other channel owns (ErpSync/Dedup,
-- dedup/crosschannel.py), commits the rest to the store (ErpSync/Store, persistence/store.py) and
-- hashes it (ErpSync/Gate, release/gate.py). ErpSync/Domain has the data of domain/.
--
-- EClaim is src/eclaim. EClaim/Sod: the approval matrix and the gate on a claim, services/sod.py.
-- EClaim/Ap and its children: the bills of services/ap.py, with `mark_posted` of services/erp.py. A
-- session is the rows of the tables in creation order, an operation takes it to the next one or
-- returns the error that rolls the request back, and a denied approval leaves the one event that the
-- code commits apart. EClaim/Ap/Lifecycle has the sequences of requests, EClaim/Ap/Effects the table of
-- status moves, and EClaim/Ap/Moves where they lead.
--
-- ErpSync/Ledger has the staging table, the ledger and the batches with their constraints
-- (db/models.py), and the insertion of imported rows (erpsync/persistence/pg_staging.py).
-- ErpSync/Review is erpsync/review/service.py with the leaf of leaf.py, ErpSync/Release is
-- erpsync/release/service.py. ErpSync/Lifecycle has the sequences of imports, reviews and releases.
--
-- EClaim/Claims is the claim header of services/claims.py: EClaim/Claims/Money the sums and the
-- exchange rates, EClaim/Claims/Decide the decisions, EClaim/Claims/Settle what comes before and after
-- them, EClaim/Claims/Lifecycle the sequences of requests. Where `authorize_approval` refuses, `attempt`
-- leaves the denial that the code commits apart.
--
-- EClaim/RateLimit is the limiter of failed sign-ins, auth/ratelimit.py: EClaim/RateLimit/Calls has the
-- sequences of its calls, EClaim/RateLimit/History the failures of such a sequence. Its clock counts ticks, as many to a second as one likes.
--
-- EClaim/Rates is the table of exchange rates, services/fx.py: EClaim/Rates/Lookup what a lookup finds
-- after an upsert, EClaim/Rates/Table after a deletion, EClaim/Rates/Reached the sequences of changes.
-- What the column Numeric(18, 6) stores for a rate is a parameter. The list of the
-- admin page is not modelled.
--
-- Tests runs the model and applies the theorems to concrete inputs.
--
-- Messages and audit details are data, one constructor for each format string. Loops are structural
-- recursion; Decimal uses fuel where Python counts digits, as much as there are digits.
--
-- Parameters stand for what the repository does not contain: SHA-256, whose digest is a text and in one
-- theorem has 64 characters; pydantic's dump and reader of an entry, of which one theorem needs that
-- a dumped entry is read back; Python's `re.split` and `strptime`. Identifiers that the database
-- hands out, and the time, are arguments. Texts fold case in ASCII only. The database's rounding of
-- a stored amount, its foreign keys and its row locks are left out.
--
-- Not modelled: the lines of a claim being added, edited, merged and split, and its hand-off to
-- CarbonNext; the conversion of a bill into a claim, which needs them; HTTP, OCR, loading of YAML
-- and files; how `record_event` of services/audit.py finds the end of a trail. The unique
-- constraints that the database refuses with are part of the model where a row is inserted; the
-- primary key is where a row is staged, and elsewhere the id that the database draws is taken to
-- be new. The columns of the staging table hold what they are given; those of the ledger and its
-- batches refuse tonnes that are too large for them.
pub mod Prelude
pub mod Decimal
pub mod Core
pub mod ErpSync
pub mod EClaim
pub mod Tests
