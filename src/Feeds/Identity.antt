-- ===== src/Feeds/Identity.antt =====
-- airflow/plugins/nordbank_ops/feeds/identity.py: a delivery is known by its checksum. A query with
-- `limit 1` answers with the first row of the table that satisfies it.
pub mod Declared
pub mod Ingested
mod Tests
use nordbank_data_platform.Common.{
  ℕ, String, ◌==◌, Bool, true, false, not, ◌||◌, ◌&&◌, Option, none, some, List, [], ◌∷◌, ◌++◌, any,
  filter, has_name, str_eq, if◌then◌else◌,
}
use Prim.Native.Char.{Char, code}
use nordbank_data_platform.Warehouse.{IngestedRow, SightingRow, Warehouse}
use nordbank_data_platform.Warehouse.Action.{Action, pure, gets, modify}

abbrev pub verdicts : List String
verdicts = "breaking drift" ∷ "structurally malformed" ∷ "declaration conflict" ∷ []

-- `text.startswith(prefix)`
abbrev pub starts : String → String → Bool
starts String.[] text = true
starts (String.◌∷◌ c prefix) String.[] = false
starts (String.◌∷◌ c prefix) (String.◌∷◌ d text) =
    if code c == code d then starts prefix text else false

unfoldable pub is_verdict : Option String → Bool
is_verdict none = false
is_verdict (some reason) = not (str_eq reason "") && any (λ prefix. starts prefix reason) verdicts

pub record Candidate : Type 0 where
  pub key : String
  pub checksum : String
  pub size : ℕ

-- For each checksum that has landed, the batch it landed as.
abbrev pub landed_in : List IngestedRow → List String → List (String × String)
landed_in [] checksums = []
landed_in (r ∷ rs) checksums =
    let rest = landed_in rs checksums in
    if has_name r.content_checksum checksums then (r.content_checksum, r.batch_id) ∷ rest else rest

unfoldable pub landed_as : List String → Action Warehouse (List (String × String))
landed_as checksums = gets (λ w. landed_in w.ingested checksums)

-- What a delivery declares of itself.
pub record Declaration : Type 0 where
  pub business_date : Option ℕ
  pub file_sequence : Option ℕ
  pub revision : Option ℕ
  pub publisher_version : Option String

abbrev pub same_number : Option ℕ → ℕ → Bool
same_number none n = false
same_number (some m) n = m == n

abbrev pub same_text : Option String → String → Bool
same_text none t = false
same_text (some s) t = str_eq s t

abbrev pub first_batch : (IngestedRow → Bool) → List IngestedRow → Option String
first_batch test [] = none
first_batch test (r ∷ rs) = if test r then some r.batch_id else first_batch test rs

-- The rows of a source system that declare the same.
abbrev pub declares_version : String → String → IngestedRow → Bool
declares_version system version r =
    str_eq r.source_system system && same_text r.publisher_version version

abbrev pub declares_file : String → ℕ → ℕ → ℕ → IngestedRow → Bool
declares_file system date sequence revision r =
    str_eq r.source_system system
    && (same_number r.business_date date
        && (same_number r.file_sequence sequence && same_number r.revision revision))

-- A publisher's version decides where it is given, and otherwise the date, the sequence and the
-- revision where all three are.
abbrev pub declares_all : String → Option ℕ → Option ℕ → Option ℕ → IngestedRow → Bool
declares_all system (some date) (some sequence) (some revision) r =
    declares_file system date sequence revision r
declares_all system _ _ _ r = false

abbrev pub declares_as : String → Option String → Declaration → IngestedRow → Bool
declares_as system (some version) d r = declares_version system version r
declares_as system none d r = declares_all system d.business_date d.file_sequence d.revision r

abbrev pub declares : String → Declaration → IngestedRow → Bool
declares system d r = declares_as system d.publisher_version d r

unfoldable pub declared_conflict : String → String → Declaration → Action Warehouse (Option String)
declared_conflict system checksum d = gets (λ w.
    first_batch (λ r. declares system d r && not (str_eq r.content_checksum checksum)) w.ingested)

unfoldable pub record_sighting : SightingRow → Action Warehouse Unit
record_sighting r = modify (λ w. record w { sightings = w.sightings ++ r ∷ [] })

abbrev pub has_checksum : String → IngestedRow → Bool
has_checksum c r = str_eq r.content_checksum c

-- False where the checksum had landed.
unfoldable pub record_ingested : IngestedRow → Action Warehouse Bool
record_ingested r w =
    if any (has_checksum r.content_checksum) w.ingested
    then pure false w
    else (pure true (record w { ingested = w.ingested ++ r ∷ [] }))
