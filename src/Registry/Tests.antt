-- ===== src/Registry/Tests.antt =====
-- The registry's theorems at concrete statements, and runs of its functions.
use nordbank_data_platform.Common.{ℕ, ◌≡◌, refl, true, false, none, some, List, [], ◌∷◌}
use nordbank_data_platform.Common.Time.{midnight}
use nordbank_data_platform.Warehouse.{
  opened, written, registered, failed, Warehouse, empty_warehouse,
}
use nordbank_data_platform.Registry.{
  BatchKey, Opening, Written, Failure, format_batch_id, choose_sequence, bronze_prefix,
}
use nordbank_data_platform.Registry.Sequence.{IsChoice, choose_sequence-IsChoice}
use nordbank_data_platform.Registry.Table.{IsWellFormed, Evolution, Later}
use nordbank_data_platform.Registry.Lifecycle.{Follows}
use nordbank_data_platform.Registry.History.{
  Statement, after, after_all, AnyRow, after-Follows, after_all-Evolution,
}

-- 2026-07-20
abbrev day_one : ℕ
day_one = 739817

abbrev payments : BatchKey
payments = record {
  source_system = "corebank";
  entity = "payments";
  interval_start = midnight day_one;
}

abbrev opening : Opening
opening = record {
  source_schema = "core";
  ingest_date = day_one;
  interval_end = midnight (739818);
  contract_version = 2;
  watermark_from = none;
  opened_at = 1000;
  triggering_run_id = "manual__1";
  reusable = none;
}

abbrev first_id : Prim.Native.String.String
first_id = "payments-20260720T000000-01"

abbrev landed : Written
landed = record {
  rows_read = 5;
  rows_landed = 4;
  rows_quarantined = 1;
  watermark_to = some 900;
  written_at = 2000;
  empty_reason = none;
}

abbrev refusal : Failure
refusal = record { reason = "late"; ended_at = 9; rows_read = 0; rows_quarantined = 0 }

abbrev script : List Statement
script =
    Statement.writes first_id landed
    ∷ Statement.registers first_id 2000
    ∷ Statement.fails first_id refusal
    ∷ Statement.allocates payments opening
    ∷ []

abbrev begun : Warehouse
begun = after (Statement.allocates payments opening) empty_warehouse

begun-IsWellFormed : IsWellFormed begun.batches
begun-IsWellFormed =
    (after-Follows (Statement.allocates payments opening) empty_warehouse
      (record { unique = tt; named = tt })).valid

id_runs : format_batch_id "payments" (midnight day_one) 1 ≡ first_id
unfolding format_batch_id
id_runs = refl

prefix_runs :
    bronze_prefix "corebank" "payments" day_one first_id
    ≡ "bronze/corebank/payments/ingest_date=2026-07-20/batch_id=payments-20260720T000000-01/"
unfolding bronze_prefix
prefix_runs = refl

-- A file's allocation reuses its own batch only.
sequences_run :
    (choose_sequence ((1, registered) ∷ (2, failed) ∷ []) none ≡ (3, false))
    × (choose_sequence ((1, opened) ∷ (2, written) ∷ []) none ≡ (2, true))
    × (choose_sequence ((1, opened) ∷ (2, written) ∷ []) (some (1 ∷ [])) ≡ (1, true))
    × (choose_sequence ((1, opened) ∷ (2, written) ∷ []) (some []) ≡ (3, false))
unfolding choose_sequence
sequences_run = (refl, refl, refl, refl)

choose_sequence-IsChoice_example :
    IsChoice
      ((1, opened) ∷ (2, written) ∷ [])
      (some (1 ∷ []))
      (choose_sequence ((1, opened) ∷ (2, written) ∷ []) (some (1 ∷ [])))
choose_sequence-IsChoice_example =
    choose_sequence-IsChoice ((1, opened) ∷ (2, written) ∷ []) (some (1 ∷ []))

after-Follows_example :
    Follows begun.batches (after (Statement.fails first_id refusal) begun).batches
after-Follows_example = after-Follows (Statement.fails first_id refusal) begun begun-IsWellFormed

after_all-Evolution_example :
    IsWellFormed (after_all script begun).batches
    × Evolution Later AnyRow begun.batches (after_all script begun).batches
after_all-Evolution_example = after_all-Evolution script begun begun-IsWellFormed
