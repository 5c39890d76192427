-- ===== src/Feeds/Clearing.antt =====
-- airflow/plugins/nordbank_ops/feeds/clearing.py: whether a clearing file is whole, and whether its
-- column line is the contract's. A file is the rows that the CSV reader yields.
pub mod Whole
pub mod ColumnLine
mod Tests
use nordbank_data_platform.Common.{
  ℕ, String, Bool, true, false, not, ◌||◌, Option, none, some, List, [], ◌∷◌, ◌++◌, map, filter,
  length, has_name, sorted_set, str_eq, str_of, if◌then◌else◌,
}
use nordbank_data_platform.Feeds.Rates.{FeedDrift}

-- The faults that the messages tell apart, with what they name.
pub data Fault : Type 0 where
  no_header_record no_column_line no_end_record : Fault
  unknown_record_types : List String → Fault
  miscounted : String → ℕ → Fault

-- `row and row[0] == name`
abbrev pub starts_with : String → List String → Bool
starts_with name [] = false
starts_with name (f ∷ fs) = str_eq f name

-- `{row[0] for row in rows if row}`
abbrev pub record_types : List (List String) → List String
record_types [] = []
record_types ([] ∷ rows) = record_types rows
record_types ((f ∷ fs) ∷ rows) = f ∷ record_types rows

abbrev pub is_known : String → Bool
is_known t = str_eq t "D" || str_eq t "T"

abbrev pub unknown_types : List (List String) → List String
unknown_types rows = sorted_set (filter (λ t. not (is_known t)) (record_types rows))

abbrev pub detail_count : List (List String) → ℕ
detail_count rows = length (filter (starts_with "D") rows)

-- `rows[2:-1]` and `rows[-1]`, of the rows after the column line.
unfoldable pub split_last : List String → List (List String) → List (List String) × List String
split_last row [] = ([], row)
split_last row (next ∷ rows) = let (body, last) = split_last next rows in (row ∷ body, last)

abbrev pub check_count : List (List String) → String → Option Fault
check_count body declared =
    if str_eq (str_of (detail_count body)) declared
    then none
    else some (miscounted declared (detail_count body))

abbrev pub check_types : List (List String) → String → List String → Option Fault
check_types body declared [] = check_count body declared
check_types body declared (t ∷ ts) = some (unknown_record_types (t ∷ ts))

unfoldable pub check_end : List (List String) → List String → Option Fault
check_end body (kind ∷ declared ∷ []) =
    if str_eq kind "Z" then check_types body declared (unknown_types body) else some no_end_record
check_end body _ = some no_end_record

abbrev pub check_body : List (List String) × List String → Option Fault
check_body (body, last) = check_end body last

unfoldable pub check_columns : List (List String) → Option Fault
unfolding check_end split_last
check_columns (columns ∷ row ∷ rows) =
    if starts_with "record_type" columns
    then check_body (split_last row rows)
    else some no_column_line
check_columns _ = some no_column_line

-- `_structure`
unfoldable pub structure : List (List String) → Option Fault
unfolding check_columns
structure [] = some no_header_record
structure (header ∷ rows) =
    if starts_with "H" header then check_columns rows else some no_header_record

-- Why a column line breaks the contract.
pub data Disorder : Type 0 where
  removed_columns : List String → Disorder
  reordered : Disorder

abbrev pub unexpected : List String → List String → List FeedDrift
unexpected line expected =
    map
      (λ n. record {
        column = n;
        kind = "additive";
        detail = "a field the contract does not describe";
        action = "logged, not landed";
      })
      (filter (λ n. not (has_name n expected)) line)

abbrev pub absent_fields : List String → List String → List String
absent_fields line expected = filter (λ n. not (has_name n line)) expected

abbrev pub names_eq : List String → List String → Bool
names_eq [] [] = true
names_eq (n ∷ ns) (m ∷ ms) = if str_eq n m then names_eq ns ms else false
names_eq _ _ = false

abbrev pub present_fields : List String → List String → List String
present_fields line expected = filter (λ n. has_name n expected) line

-- The text of a `field_order` observation, which quotes both lists, is not modelled.
unfoldable pub check_order : List String → List String → List FeedDrift × Option Disorder
check_order line expected =
    if names_eq (present_fields line expected) expected then (unexpected line expected, none) else (
      unexpected line expected
          ++ (record {
            column = "*";
            kind = "field_order";
            detail = "";
            action = "file quarantined, batch failed";
          })
            ∷ [],
      some reordered,
    )

unfoldable pub classify_absent :
    List String → List String → List String → List FeedDrift × Option Disorder
unfolding check_order
classify_absent line expected [] = check_order line expected
classify_absent line expected (m ∷ ms) = (
  unexpected line expected
      ++ map
          (λ n. record {
            column = n;
            kind = "removed_column";
            detail = "a field the contract requires is absent from the column line";
            action = "file quarantined, batch failed";
          })
          (m ∷ ms),
  some (removed_columns (m ∷ ms)),
)

unfoldable pub classify_column_line : List String → List String → List FeedDrift × Option Disorder
unfolding classify_absent
classify_column_line line expected = classify_absent line expected (absent_fields line expected)
