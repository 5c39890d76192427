-- ===== src/Lib.antt =====
-- The verification library of the Nordbank data platform: a model of the Python code that ingests
-- the bank's data, under airflow/plugins/nordbank_ops, and theorems about it.
--
-- An ingestion run opens a batch per entity in the batch registry, extracts the entity's rows,
-- passes them through the quarantine gate, and registers the batches in one transaction. The
-- state is the warehouse, a DuckDB file whose tables the code reads and writes with SQL.
--
-- Warehouse is the tables of infra/warehouse/schema, a record per row and a list per table.
--   Warehouse.Action is a call on that state which may raise; `transaction` is begin, commit and
--   rollback. Warehouse.Connect is `connect` of warehouse.py, which waits while the file is locked.
-- Registry is registry.py. `allocate` takes what the code passes by keyword as an `Opening`;
--   `mark_written` and `mark_failed` likewise. An `update ... where` is a map over the table. The
--   order `order by batch_sequence` is an insertion sort.
-- Contracts is contracts.py. `sync`, `select` and `body` on the recorded contract versions.
-- Validation is validation.py, with the fields of scripts/data_contract.py in Validation.Schema.
--   A Python value is a `Value`; a decimal is its unscaled integer and its scale.
-- Common is the shared names. A date is its ordinal and a timestamp the microseconds since day 0,
--   so that `isoformat` and `strftime` are computed from them (Common.Time). A raised exception is
--   a constructor of `Error`. The set of keys already seen is a list.
--
-- Tokenise is tokenise.py, the tokens that replace the identifiers of a row; the `token` of
-- Register's `Services` is its `token_of_text`.
--
-- Drift is schema_drift.py, the classification of the source's live shape. Register is register.py:
-- its small operations in Register, the transaction `register_run` in Register.Run, which applies
-- the registry's operations to the reports of the extract step. Feeds.Fetch is feeds/fetch.py, the
-- retry loop on a transport that answers attempt by attempt, with times in whole milliseconds;
-- Feeds.Rates is feeds/fx.py, one request per date, on JSON values of Feeds.Json; Feeds.Clearing
-- is feeds/clearing.py, the structure of a file as the rows of the CSV reader; Feeds.Identity
-- is feeds/identity.py, the recorded deliveries and their declarations; Feeds.Admission is `_admit`
-- of feeds/phases.py and the loop over deliveries that `settlement_open` runs, with `parked`;
-- Feeds.Allocation is `_allocate` and `_sequences_of`, Feeds.SettlementFile what a settlement file
-- declares and why it is refused, and Feeds.Settlement the whole of `settlement_open` under
-- `open_unit`, with the contracts on disk an argument (`Context`). Phases is phases.py, the
-- open step of a run, and in Phases.Closing the register step and the gate; a watermark less the
-- extract lag stops at time 0.
--
-- Generator is the part of generator that computes without a draw. Generator.Money is `cents` of
-- realism/distributions.py on decimals, Generator.Calendar realism/calendar.py on civil dates and
-- Generator.Lending the schedule of realism/lending.py. Generator.Drift is drift/timeline.py, whose
-- SQL is what it does to the list of the database's columns. Generator.Source is the platform
-- tables that mutation/state.py, mutation/report.py and mutation/reset.py write, Generator.Guard
-- mutation/guard.py, Generator.Tick one run of mutation/tick.py, a transaction whose exceptions
-- leave the source as it was, and Generator.Ticks the loop of mutation/__main__.py over days.
--
-- Backfill is scripts/backfill.py with the reports it reads (scripts/ingest_state.py and
-- scripts/feed_state.py, made of the batch registry): what a day lacks, and in Backfill.Days the
-- loop over days, whose state is the outside and the calls made on it, latest first.
--
-- Parameters of the model: what the backfill talks to (`Stack` of Backfill.Days: Airflow, the source
-- and the programs it starts, the deferral demonstration), the engine's answers to an opener
-- (Warehouse.Connect), the lake, the source database and the keyed hash (`Services` of Register),
-- that hash and `str` of a value that is no text (Tokenise), the transport, the random source and
-- the redaction of error texts (Feeds.Fetch), the parsers of JSON and of dates (`Formats` of
-- Feeds.Rates), the allocation of a delivery's batches (in Feeds.Admission; Feeds.Settlement gives
-- it), the power of a decimal (Generator.Lending), and, in Generator.Tick and Generator.Ticks, the
-- phases that change the book, the guard's queries on it, the sampling of accounts, the writing of
-- what the phases counted, the clock, the reconciliation and the synchronisation of the sequences.
--
-- Every loop is over a list and is a structural recursion; a retry loop counts the attempts that
-- are left, and no fuel is used but for the decimal digits of a number, which has at
-- most as many digits as its value plus one, for the digits of a rounded quotient, bounded by the
-- divisor and 28, and for the days up to a date, of which there are no more than its ordinal.
--
-- Not modelled: the connections to the lake and to the source, the settings and the closing of a
-- warehouse connection, the extract step, the landing and the registration of a feed's delivery
-- (feeds/land.py, feeds/register.py), the open steps of the feeds other than settlement, the
-- history range of feeds/fx.py, the parsing of the files of the feeds and of the contracts, the DAG
-- declarations, the operator scripts but for the loop of the backfill, the draws of the data
-- generator and its settlement and sanctions files, and the dbt project. A change of a column's
-- type is taken to succeed (Generator.Drift).
-- A settlement date is a day as `isoformat` writes it (Feeds.SettlementFile), and the transport
-- raises what fetch.py names (Feeds.Fetch). A batch id's last part is read as
-- decimal digits (`_sequences_of`), which is how the registry writes it.
pub mod Common
pub mod Validation
pub mod Warehouse
pub mod Registry
pub mod Contracts
pub mod Drift
pub mod Register
pub mod Feeds
pub mod Phases
pub mod Tokenise
pub mod Generator
pub mod Backfill
