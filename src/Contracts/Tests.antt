-- ===== src/Contracts/Tests.antt =====
-- The contract versions at two versions of one contract.
use nordbank_data_platform.Common.{
  ◌≡◌, refl, none, some, [], ◌∷◌, ok, err, sorted_set, none_in_force, edited_in_place,
}
use nordbank_data_platform.Common.Dict.{keys}
use nordbank_data_platform.Validation.Schema.{Contract}
use nordbank_data_platform.Warehouse.{Warehouse, empty_warehouse}
use nordbank_data_platform.Contracts.{VersionChains, sync, select, body}
use nordbank_data_platform.Contracts.Recorded.{AllRecorded, Grows, sync-Recorded}
use nordbank_data_platform.Contracts.InForce.{Answers, select-Answers}

abbrev first : Contract
first = record {
  source_system = "cardnet";
  source_schema = "cardnet";
  entity = "settlements";
  contract_version = 1;
  watermark_column = "";
  primary_key = "id";
  key_columns = [];
  columns = [];
  in_force_from = none;
  dictionary_revision = some "r1";
  fingerprint = "f1";
  header_fields = [];
  fields = [];
}

abbrev second : Contract
second = record first { contract_version = 2; in_force_from = some 100; fingerprint = "f2" }

abbrev chains : VersionChains
chains = ("settlements", first ∷ second ∷ []) ∷ []

abbrev synced : Warehouse
synced = (sync chains 7 empty_warehouse).1

sync_runs : (sync chains 7 empty_warehouse).0 ≡ ok 2
unfolding sync sorted_set
sync_runs = refl

sync_refuses :
    (sync (("settlements", record first { fingerprint = "f9" } ∷ []) ∷ []) 8 synced).0
    ≡ err (edited_in_place "settlements" 1)
unfolding sync sorted_set
sync_refuses = refl

select_runs :
    ((select "cardnet" "settlements" 99 synced).0 ≡ ok 1)
    × ((select "cardnet" "settlements" 100 synced).0 ≡ ok 2)
    × ((select "cardnet" "payments" 100 synced).0 ≡ err (none_in_force "payments" 100))
    × ((body chains "settlements" 2 synced).0 ≡ ok second)
unfolding sync select body sorted_set
select_runs = (refl, refl, refl, refl)

sync-Recorded_example :
    AllRecorded synced chains (keys chains)
    × Grows empty_warehouse synced
    × (sync chains 8 synced ≡ (ok 0, synced))
sync-Recorded_example = sync-Recorded chains 7 8 2 empty_warehouse sync_runs

select-Answers_example :
    Answers synced.versions "cardnet" "settlements" 99 (select "cardnet" "settlements" 99 synced).0
    × ((select "cardnet" "settlements" 99 synced).1 ≡ synced)
select-Answers_example = select-Answers "cardnet" "settlements" 99 synced
