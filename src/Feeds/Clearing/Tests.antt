-- ===== src/Feeds/Clearing/Tests.antt =====
-- A clearing file of two details and a total, and column lines.
use nordbank_data_platform.Common.{
  String, ◌≡◌, ◌↔◌, refl, none, some, List, [], ◌∷◌, str_of, sorted_set,
}
use nordbank_data_platform.Feeds.Clearing.{
  miscounted, no_end_record, unknown_record_types, removed_columns, reordered, structure,
  classify_column_line, present_fields,
}
use nordbank_data_platform.Feeds.Clearing.Whole.{IsWholeFile, structure-IsWholeFile}
use nordbank_data_platform.Feeds.Clearing.ColumnLine.{classify_column_line-accepts}

abbrev opening : List (List String) → List (List String)
opening rest = ("H" ∷ "20260720" ∷ []) ∷ ("record_type" ∷ "amount" ∷ []) ∷ rest

abbrev file : List (List String)
file = opening (("D" ∷ "1" ∷ []) ∷ ("D" ∷ "2" ∷ []) ∷ ("T" ∷ "3" ∷ []) ∷ ("Z" ∷ "2" ∷ []) ∷ [])

structure_runs :
    (structure file ≡ none)
    × (structure (opening (("D" ∷ "1" ∷ []) ∷ ("Z" ∷ "2" ∷ []) ∷ [])) ≡ some (miscounted "2" 1))
    × (structure (opening (("D" ∷ "1" ∷ []) ∷ [])) ≡ some no_end_record)
    × (structure (opening (("X" ∷ []) ∷ ("Z" ∷ "0" ∷ []) ∷ []))
        ≡ some (unknown_record_types ("X" ∷ [])))
unfolding structure str_of sorted_set
structure_runs = (refl, refl, refl, refl)

columns_run :
    ((classify_column_line ("a" ∷ "x" ∷ "b" ∷ []) ("a" ∷ "b" ∷ [])).1 ≡ none)
    × ((classify_column_line ("b" ∷ "a" ∷ []) ("a" ∷ "b" ∷ [])).1 ≡ some reordered)
    × ((classify_column_line ("b" ∷ []) ("a" ∷ "b" ∷ [])).1 ≡ some (removed_columns ("a" ∷ [])))
unfolding classify_column_line
columns_run = (refl, refl, refl)

structure-IsWholeFile_example : (structure file ≡ none) ↔ IsWholeFile file
structure-IsWholeFile_example = structure-IsWholeFile file

classify_column_line-accepts_example :
    ((classify_column_line ("a" ∷ "x" ∷ "b" ∷ []) ("a" ∷ "b" ∷ [])).1 ≡ none)
    ↔ (present_fields ("a" ∷ "x" ∷ "b" ∷ []) ("a" ∷ "b" ∷ []) ≡ "a" ∷ "b" ∷ [])
classify_column_line-accepts_example =
    classify_column_line-accepts ("a" ∷ "x" ∷ "b" ∷ []) ("a" ∷ "b" ∷ [])
