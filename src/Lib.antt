-- ===== src/Lib.antt =====
-- A satellite that keeps tables of invoices and sends them to the tax agency (SII) through an
-- external system. Rows are loaded into a table, wait until their load is complete, are sent in
-- groups by a cron or by hand, and are answered later by a callback. All state is in its
-- Postgres database; the model takes each table as a list of records and each operation as a
-- function on them, none where the code throws and its transaction rolls back.
--
-- The parts, in the order in which a row meets them:
--
-- - Template, Rules: src/tables/entities/table-template.entity.ts, and the choice of a write
--   rule and its target in src/tables/table-rows.service.ts (resolveWriteRule,
--   resolveSendTarget). Rows: the rows of src/tables/entities/table-row.entity.ts and their
--   statuses. Json and Sql: the values of a row, and src/core/sql/sql-params.util.ts.
-- - Ingest: ingest, insertAppend, chunk1000 and createRow of src/tables/table-rows.service.ts.
--   Ingest/Transaction composes the steps of Ingest as the code does.
-- - Loads: markQueued, markStaged, stageLoadRows, sealLoad and flipLoadIfComplete of
--   src/tables/table-rows.service.ts. Loads/Delivery takes the messages of one load in any
--   order and any number.
-- - Sweep, Batch: src/tables/write-sweep-query.util.ts and
--   src/tables/table-write-batch.service.ts, which choose the rows of a sweep, partition them
--   and send each partition.
-- - Payload, Outbound, Submit: toCamelCase and submitGroup with its helpers in
--   src/tables/table-rows.service.ts, and src/tables/write-collapse.util.ts. Outbound holds the
--   tables and the gateway: the rows, the outbox, the run history and the requests made.
-- - Callback: src/callbacks/sii-result.mapper.ts, and in Callback/Apply
--   src/callbacks/sii-result.processor.ts.
-- - Tokens: src/core/auth/provisioned-token.service.ts and src/core/auth/mgmt-token.guard.ts.
-- - Edits, Filters, Deletes: updateAndWrite, applyFilters and deleteRows of
--   src/tables/table-rows.service.ts, with the ledger of deletions (recordDeleteEvent,
--   getStats, resetDeleteBaseline, findMissingIds) and, in Deletes/Outward,
--   propagateExternalDeletes.
-- - Templates: src/tables/dto/upsert-table-template.dto.ts and
--   src/tables/table-templates.service.ts; Templates/Indexes is
--   src/tables/table-index-manager.service.ts.
-- - Runs: src/tables/operation-run.service.ts and src/tables/maintenance.processor.ts;
--   Runs/Life is the life of one run as a relation of steps.
-- - Retention: src/retention/retention-catalog.ts, src/retention/retention.service.ts and
--   src/tables/retention-scheduler.service.ts.
-- - Landing: src/tables/ingest-table.operation.ts, which puts Templates, Connections, Loads and
--   Ingest together.
-- - Crypto: src/core/crypto/crypto.util.ts.
-- - Connections: src/connections/source-connections.service.ts, which encrypts with Crypto.
-- - Receiver: src/callbacks/sii-callback.controller.ts, which asks Connections for the secret
--   of a callback.
-- - Cron: src/tables/write-cron.service.ts as a relation of steps, and
--   src/tables/stale-load.cron.ts.
-- - Outbox: src/outbox/typeorm-outbox.store.ts and src/outbox/outbox-drain.cron.ts, which
--   publish the spooled events.
--
-- Parameters stand for code that is not in the repository: Platform (JavaScript's conversions,
-- md5, the ids that the database draws), Gateway (the network and whether a transaction goes
-- through, and with them what resolveById answers to a call, which may be anything), Engine
-- (the casts and pattern matches of Postgres), Cipher (AES, Base64, UTF-8 and JSON), and Host
-- and Digests (the random texts, HMAC and SHA-256). A string that is missing or empty where the
-- code makes no difference is the empty text. An id is a text, written as Postgres prints it;
-- other spellings of a uuid that a cast takes, as those with upper-case letters, are left out.
--
-- Loops run over lists by structural recursion. Two loops run on fuel: chunks starts with as
-- much as the list has entries, and each turn takes one entry at least; batched_delete starts
-- with one turn more than there are rows in question, and each turn but the last deletes one at
-- least.
--
-- Left out: the text of SQL statements (their effect is modelled), the row columns external_ref
-- and updated_at, concurrent sending within one connection, queries, the daily cron of the
-- templates, the controllers that describe the tables to the hub, backups and the wiring of the
-- framework.
pub mod Prelude
pub mod Json
pub mod Sql
pub mod Template
pub mod Rows
mod Samples
pub mod Loads
pub mod Http
pub mod Rules
pub mod Ingest
pub mod Sweep
pub mod Payload
pub mod Callback
pub mod Outbound
pub mod Submit
pub mod Batch
pub mod Tokens
pub mod Outbox
pub mod Edits
pub mod Filters
pub mod Deletes
pub mod Templates
pub mod Runs
pub mod Retention
pub mod Crypto
pub mod Connections
pub mod Receiver
pub mod Cron
pub mod Landing
