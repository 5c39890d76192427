-- ===== src/Feeds/SettlementFile.antt =====
-- airflow/plugins/nordbank_ops/feeds/phases.py, what a settlement file declares, and the reason for
-- which the open step refuses it.
pub mod Agreed
use Prim.Native.String.{◌++◌ as joined}
use nordbank_data_platform.Common.{
  ℕ, String, ◌==◌, Bool, ◌&&◌, Option, none, some, List, [], ◌∷◌, str_eq, if◌then◌else◌, str_of,
}
use nordbank_data_platform.Common.Time.{isoformat}
use nordbank_data_platform.Feeds.Identity.{Candidate}

-- What the discovery step says of a file: what it declares, and what is wrong with its structure.
-- A settlement date is a day's number, as `isoformat` writes it; no other spelling is modelled.
pub record SettlementFile : Type 0 where
  pub candidate : Candidate
  pub settlement_date : Option ℕ
  pub file_sequence : Option ℕ
  pub revision : Option ℕ
  pub structural_fault : Option String

-- The declarations of the run, each with the first batch that made it and the file's checksum.
abbrev pub Declared : Type 0
Declared = List ((ℕ × ℕ × ℕ) × (String × String))

abbrev pub same_declaration : ℕ × ℕ × ℕ → ℕ × ℕ × ℕ → Bool
same_declaration (a, b, c) (d, e, f) = a == d && (b == e && c == f)

abbrev pub earlier_of : ℕ × ℕ × ℕ → Declared → Option (String × String)
earlier_of d [] = none
earlier_of d ((e, entry) ∷ rest) = if same_declaration d e then some entry else earlier_of d rest

-- `(business, file_sequence, revision)`, where none of them is missing.
abbrev pub declaration_of : ℕ → Option ℕ → Option ℕ → Option (ℕ × ℕ × ℕ)
declaration_of business (some sequence) (some revision) = some (business, sequence, revision)
declaration_of business _ _ = none

abbrev pub earlier_in : Option (ℕ × ℕ × ℕ) → Declared → Option (String × String)
earlier_in none declared = none
earlier_in (some d) declared = earlier_of d declared

-- `declared_here.setdefault(declaration, ...)`
abbrev pub declare : Option (ℕ × ℕ × ℕ) → String × String → Declared → Declared
declare none entry declared = declared
declare (some d) entry declared = elim (earlier_of d declared) [
  | none ↦ (d, entry) ∷ declared
  | some held ↦ declared
]

-- A conflict with a file that has landed, and otherwise with an earlier file of the run.
abbrev pub conflict_with : Option String → Option (String × String) → String → Option String
conflict_with (some batch_id) earlier checksum = some batch_id
conflict_with none none checksum = none
conflict_with none (some (batch_id, held)) checksum =
    if str_eq held checksum then none else some batch_id

abbrev pub concat : List String → String
concat [] = ""
concat (s ∷ ss) = joined s (concat ss)

abbrev pub shown : Option ℕ → String
unfolding str_of
shown none = "None"
shown (some n) = str_of n

unfoldable pub conflict_text : ℕ → SettlementFile → Option String → Option String
unfolding isoformat str_of
conflict_text business f none = none
conflict_text business f (some conflict) = some (
    concat (
      "declaration conflict: "
      ∷ f.candidate.key
      ∷ " declares settlement date "
      ∷ isoformat business
      ∷ ", sequence "
      ∷ shown f.file_sequence
      ∷ ", revision "
      ∷ shown f.revision
      ∷ ", which "
      ∷ conflict
      ∷ " already carries with different content"
      ∷ []))

-- One primary reason: the file's structure, then its declaration.
unfoldable pub refusal_of : ℕ → SettlementFile → Option String → Option String → Option String
unfolding conflict_text
refusal_of business f none conflict = conflict_text business f conflict
refusal_of business f (some fault) conflict =
    if str_eq fault ""
    then conflict_text business f conflict
    else (some (concat ("structurally malformed file " ∷ f.candidate.key ∷ ": " ∷ fault ∷ [])))
