-- ===== src/Register/Tests.antt =====
-- The register step at a run of two entities, and the vault at two values.
use nordbank_data_platform.Common.{
  str_eq, if◌then◌else◌, ℕ, ◌≡◌, refl, String, none, some, List, [], ◌∷◌, ok, err, vanished, ◌+◌,
  true,
}
use nordbank_data_platform.Common.Dict.{Dict}
use nordbank_data_platform.Common.Time.{midnight}
use nordbank_data_platform.Validation.Schema.{Contract}
use nordbank_data_platform.Warehouse.{Warehouse, empty_warehouse}
use nordbank_data_platform.Registry.{BatchKey, Opening, allocate, format_batch_id}
use nordbank_data_platform.Registry.Table.{IsWellFormed}
use nordbank_data_platform.Registry.History.{Statement, after, after_all, after_all-Evolution}
use nordbank_data_platform.Register.{Services, Entry, FirstSeen, upsert_vault}
use nordbank_data_platform.Register.Run.{register_run}
use nordbank_data_platform.Register.Outcome.{Outcome, register_run-Outcome}
use nordbank_data_platform.Register.Vault.{Stored, upsert_vault-Stored}

abbrev day_one : ℕ
day_one = 739817

abbrev services : Services
services = record {
  read_quarantine = λ _. ok [];
  select_distinct = λ _ _ _ _. ok ((some "Ann" ∷ []) ∷ (none ∷ []) ∷ (some "Ann" ∷ []) ∷ []);
  count_ticks = λ _. ok 1;
  sum_changed = λ _ _. ok 2;
  token = λ v. v;
}

abbrev contract : Contract
contract = record {
  source_system = "corebank";
  source_schema = "core";
  entity = "payments";
  contract_version = 1;
  watermark_column = "updated_at";
  primary_key = "payment_id";
  key_columns = [];
  columns =
      (record {
        name = "payer";
        data_type = "text";
        is_nullable = true;
        classification = "identifier";
        origin = "source";
      })
      ∷ [];
  in_force_from = none;
  dictionary_revision = some "r1";
  fingerprint = "f1";
  header_fields = [];
  fields = [];
}

abbrev opening : Opening
opening = record {
  source_schema = "core";
  ingest_date = day_one;
  interval_end = midnight (day_one + 1);
  contract_version = 1;
  watermark_from = none;
  opened_at = 5;
  triggering_run_id = "run";
  reusable = none;
}

abbrev key_of : String → BatchKey
key_of entity = record {
  source_system = "corebank";
  entity = entity;
  interval_start = midnight day_one;
}

abbrev script : List Statement
script =
    Statement.allocates (key_of "payments") opening
    ∷ Statement.allocates (key_of "loans") opening
    ∷ []

abbrev begun : Warehouse
begun = after_all script empty_warehouse

begun-IsWellFormed : IsWellFormed begun.batches
begun-IsWellFormed =
    (after_all-Evolution script empty_warehouse (record { unique = tt; named = tt })).0

abbrev landed : Entry
landed = record {
  entity = "payments";
  batch_id = "payments-20260720T000000-01";
  status = "written";
  rows_read = 3;
  rows_landed = 2;
  rows_quarantined = 1;
  watermark_from = none;
  watermark_to = some 900;
  quarantine_keys = "q" ∷ [];
  landed_by_source_date = ("2026-07-20", 2) ∷ [];
  drift = [];
  failure_reason = "";
}

abbrev drifted : Entry
drifted = record landed {
  entity = "loans";
  batch_id = "loans-20260720T000000-01";
  status = "failed";
  failure_reason = "column removed";
}

abbrev contracts : Dict Contract
contracts = ("payments", contract) ∷ ("loans", record contract { entity = "loans" }) ∷ []

register_run_runs :
    (register_run services day_one 7 contracts (landed ∷ drifted ∷ []) begun).0
    ≡ ok (record {
      registered = "payments" ∷ [];
      registered_batches =
          (record {
            batch_id = "payments-20260720T000000-01";
            entity = "payments";
            rows_landed = 2;
            empty_reason = none;
          })
          ∷ [];
      failed = ("loans", "column removed") ∷ [];
      vault_rows_added = 1;
      quarantine_rows_loaded = 0;
      reconciliation_rows = 1;
      drift_rows = 0;
    })
unfolding register_run after_all after allocate format_batch_id
register_run_runs = refl

-- A batch that is not in the registry rolls the whole step back.
register_run_rolls_back :
    register_run services day_one 7 contracts
      (landed ∷ record drifted { batch_id = "x" } ∷ [])
      begun
    ≡ (err (vanished "x"), begun)
unfolding register_run after_all after allocate format_batch_id
register_run_rolls_back = refl

register_run-Outcome_example :
    Outcome
      (landed ∷ drifted ∷ [])
      begun
      (register_run services day_one 7 contracts (landed ∷ drifted ∷ []) begun)
register_run-Outcome_example =
    register_run-Outcome services day_one 7 contracts (landed ∷ drifted ∷ []) begun
      begun-IsWellFormed

abbrev first_seen : FirstSeen
first_seen = record {
  source_system = "corebank";
  entity = "payments";
  column = "payer";
  batch_id = "b";
  now = 1;
}

-- A tokeniser under which two names collide.
abbrev shortened : String → String
shortened v = if str_eq v "Anna" then "Ann" else v

upsert_vault-Stored_example :
    (n : ℕ) × ((upsert_vault shortened first_seen ("Ann" ∷ "Bo" ∷ []) empty_warehouse).0 ≡ ok n)
    × Stored shortened
        ("Ann" ∷ "Bo" ∷ [])
        n
        empty_warehouse
        (upsert_vault shortened first_seen ("Ann" ∷ "Bo" ∷ []) empty_warehouse).1
upsert_vault-Stored_example =
    upsert_vault-Stored shortened first_seen ("Ann" ∷ "Bo" ∷ []) empty_warehouse
      (((λ e. refl), ((λ e. cc), tt)), (((λ e. cc), ((λ e. refl), tt)), tt)) tt tt tt
