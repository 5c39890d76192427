-- ===== src/Feeds/Identity/Declared.antt =====
-- What a declaration conflict is.
use nordbank_data_platform.Common.{
  String, ◌≡◌, ◌≢◌, Bool, true, not, ◌&&◌, Option, none, some, List, All, Any, str_eq,
}
use nordbank_data_platform.Warehouse.{IngestedRow, Warehouse}
use nordbank_data_platform.Feeds.Identity.{Declaration, declares}

-- A row that declares the same over other content.
abbrev pub Conflicts : String → String → Declaration → IngestedRow → Type 0
Conflicts system checksum d r = (declares system d r ≡ true) × (r.content_checksum ≢ checksum)

-- The answer names the batch of such a row, or every row that declares the same has the content.
abbrev pub IsVerdictOn : String → String → Declaration → List IngestedRow → Option String → Type 0
IsVerdictOn system checksum d rows none =
    All (λ (r : IngestedRow). declares system d r ≡ true → r.content_checksum ≡ checksum) rows
IsVerdictOn system checksum d rows (some id) =
    Any (λ (r : IngestedRow). Conflicts system checksum d r × (r.batch_id ≡ id)) rows

module _ (system checksum : String) (d : Declaration) where
  conflicts : IngestedRow → Bool
  conflicts r = declares system d r && not (str_eq r.content_checksum checksum)
