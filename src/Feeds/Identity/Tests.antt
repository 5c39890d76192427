-- ===== src/Feeds/Identity/Tests.antt =====
-- A clearing file recorded once, and a second one that declares the same.
use nordbank_data_platform.Common.{Bool, ◌≡◌, refl, true, false, none, some, [], ◌∷◌, ok}
use nordbank_data_platform.Warehouse.{IngestedRow, Warehouse, empty_warehouse}
use nordbank_data_platform.Feeds.Identity.{
  Declaration, is_verdict, declared_conflict, record_ingested, landed_as,
}
use nordbank_data_platform.Feeds.Identity.Ingested.{
  DistinctContent, IsRecorded, record_ingested-IsRecorded,
}

abbrev file : IngestedRow
file = record {
  content_checksum = "sha256:a";
  source_system = "cardnet";
  entity = "settlements";
  object_key = "inbound/1.csv";
  byte_size = 10;
  business_date = some 739817;
  file_sequence = some 1;
  revision = some 0;
  publisher_version = none;
  batch_id = "b1";
  first_ingested_at = 5;
}

abbrev recorded : Warehouse
recorded = (record_ingested file empty_warehouse).1

abbrev declaration : Declaration
declaration = record {
  business_date = some 739817;
  file_sequence = some 1;
  revision = some 0;
  publisher_version = none;
}

identity_runs :
    ((record_ingested file recorded).0 ≡ ok false)
    × ((landed_as ("sha256:a" ∷ []) recorded).0 ≡ ok (("sha256:a", "b1") ∷ []))
    × ((declared_conflict "cardnet" "sha256:b" declaration recorded).0 ≡ ok (some "b1"))
    × ((declared_conflict "cardnet" "sha256:a" declaration recorded).0 ≡ ok none)
    × (is_verdict (some "breaking drift: removed column") ≡ true)
    × (is_verdict (some "the extract task did not report") ≡ false)
unfolding record_ingested landed_as declared_conflict is_verdict
identity_runs = (refl, refl, refl, refl, refl, refl)

record_ingested-IsRecorded_example :
    (b : Bool) × ((record_ingested file empty_warehouse).0 ≡ ok b)
    × IsRecorded file empty_warehouse b (record_ingested file empty_warehouse).1
    × DistinctContent (record_ingested file empty_warehouse).1.ingested
record_ingested-IsRecorded_example = record_ingested-IsRecorded file empty_warehouse tt
