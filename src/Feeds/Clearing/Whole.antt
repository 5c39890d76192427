-- ===== src/Feeds/Clearing/Whole.antt =====
-- Which files are whole.
use nordbank_data_platform.Common.{
  String, ◌≡◌, ◌↔◌, refl, sym, ap, ◌∙◌, true, false, not, Option, none, some, List, [], ◌∷◌, ◌++◌,
  filter, filter-All, filter-from-All, All, All-impl, sorted_set-All, sorted_set-keeps-All, str_of,
  str_eq, str_eq_iff, str_eq_refl, Bool-cases, inl, inr,
}
use mathlib.Core.Path.{subst}
use nordbank_data_platform.Feeds.Clearing.{
  Fault, miscounted, no_end_record, no_column_line, no_header_record, starts_with, record_types,
  is_known, unknown_types, detail_count, split_last, check_types, check_end, check_body,
  check_columns, structure,
}

-- A header record, a column line, detail and trailer records, and an end record that counts the
-- detail records.
pub record IsWholeFile (rows : List (List String)) : Type 0 where
  pub header : List String
  pub columns : List String
  pub body : List (List String)
  pub parts :
      rows
      ≡ ("H" ∷ header) ∷ ("record_type" ∷ columns) ∷ body
        ++ ("Z" ∷ str_of (detail_count body) ∷ []) ∷ []
  pub types : All (λ t. is_known t ≡ true) (record_types body)

split_last-parts :
    (row : List String) (rows : List (List String))
    → row ∷ rows ≡ (split_last row rows).0 ++ (split_last row rows).1 ∷ []
unfolding split_last
split_last-parts row [] = refl
split_last-parts row (next ∷ rows) = ap (λ x. row ∷ x) (split_last-parts next rows)

split_last-append :
    (row : List String) (rows body : List (List String)) (last : List String)
    → row ∷ rows ≡ body ++ last ∷ []
    → split_last row rows ≡ (body, last)
unfolding split_last
split_last-append row [] [] last h = cc
split_last-append row [] (b ∷ []) last h = cc
split_last-append row [] (b ∷ c ∷ body) last h = cc
split_last-append row (next ∷ rows) [] last h = cc
split_last-append row (next ∷ rows) (b ∷ body) last h =
    let rest : next ∷ rows ≡ body ++ last ∷ [] = cc in
    let same : row ≡ b = cc in rw (split_last-append next rows body last rest, same) refl

starts_with-parts :
    (name : String) (row : List String)
    → starts_with name row ≡ true
    → (fields : List String) × (row ≡ name ∷ fields)
starts_with-parts name [] h = cc
starts_with-parts name (f ∷ fs) h = (fs, ap (λ x. x ∷ fs) ((str_eq_iff f name).0 h))

no_unknown :
    (body : List (List String))
    → unknown_types body ≡ []
    → All (λ t. is_known t ≡ true) (record_types body)
no_unknown body h =
    All-impl (λ t. not (is_known t) ≡ true → ⊥) (λ t. is_known t ≡ true) (record_types body)
      (λ t n. elim (Bool-cases (is_known t)) [ inl e ↦ e | inr e ↦ absurd (n (rw e refl)) ])
      (filter-All (λ _. ⊥) (λ t. not (is_known t)) (record_types body)
        (sorted_set-All (λ _. ⊥) (filter (λ t. not (is_known t)) (record_types body))
          (subst (All (λ _. ⊥)) (sym h) tt)))

none_in : (ts : List String) → All (λ _. ⊥) ts → ts ≡ []
none_in [] h = refl
none_in (t ∷ ts) h = absurd h.0

all_known :
    (body : List (List String))
    → All (λ t. is_known t ≡ true) (record_types body)
    → unknown_types body ≡ []
all_known body h = none_in (unknown_types body) (
    sorted_set-keeps-All (λ _. ⊥) (filter (λ t. not (is_known t)) (record_types body))
      (filter-from-All (λ _. ⊥) (λ t. not (is_known t)) (record_types body)
        (All-impl (λ t. is_known t ≡ true) (λ t. not (is_known t) ≡ true → ⊥) (record_types body)
          (λ t e n. let k : false ≡ true = rw e at n in cc) h)))

-- The end record that is accepted, for a body.
abbrev Ends : List (List String) → List String → Type 0
Ends body last =
    (last ≡ "Z" ∷ str_of (detail_count body) ∷ [])
    × All (λ t. is_known t ≡ true) (record_types body)

check_types-Ends :
    (body : List (List String)) (declared : String) (unknown : List String)
    → unknown_types body ≡ unknown
    → check_types body declared unknown ≡ none
    → Ends body ("Z" ∷ declared ∷ [])
check_types-Ends body declared (t ∷ ts) e h = cc
check_types-Ends body declared [] e h =
    elim (Bool-cases (str_eq (str_of (detail_count body)) declared)) [
      | inl q ↦ (ap (λ x. "Z" ∷ x ∷ []) (sym ((str_eq_iff _ declared).0 q)), no_unknown body e)
      | inr q ↦
          let k : Path (Option Fault) (some (miscounted declared (detail_count body))) none =
            rw q at h in
          cc
    ]

check_end-Ends :
    (body : List (List String)) (last : List String) → check_end body last ≡ none → Ends body last
unfolding check_end
check_end-Ends body [] h = cc
check_end-Ends body (k ∷ []) h = cc
check_end-Ends body (k ∷ d ∷ x ∷ xs) h = cc
check_end-Ends body (k ∷ d ∷ []) h = elim (Bool-cases (str_eq k "Z")) [
  | inl q ↦
      let same = (str_eq_iff k "Z").0 q in
      let (e, t) = check_types-Ends body d (unknown_types body) refl (rw q at h) in
      (ap (λ x. x ∷ d ∷ []) same ∙ e, t)
  | inr q ↦ let z : Path (Option Fault) (some no_end_record) none = rw q at h in cc
]

Ends-check_end :
    (body : List (List String))
    → All (λ t. is_known t ≡ true) (record_types body)
    → check_end body ("Z" ∷ str_of (detail_count body) ∷ []) ≡ none
unfolding check_end
Ends-check_end body h = rw (all_known body h, str_eq_refl (str_of (detail_count body))) refl

-- The rows after the header record that are accepted.
record IsBody (rows : List (List String)) : Type 0 where
  columns : List String
  body : List (List String)
  parts : rows ≡ ("record_type" ∷ columns) ∷ body ++ ("Z" ∷ str_of (detail_count body) ∷ []) ∷ []
  types : All (λ t. is_known t ≡ true) (record_types body)

check_columns-IsBody : (rows : List (List String)) → check_columns rows ≡ none → IsBody rows
unfolding check_columns
check_columns-IsBody [] h = cc
check_columns-IsBody (c ∷ []) h = cc
check_columns-IsBody (c ∷ row ∷ rows) h = elim (Bool-cases (starts_with "record_type" c)) [
  | inl q ↦
      let (fields, e) = starts_with-parts "record_type" c q in
      let body = (split_last row rows).0 in
      let (last, types) = check_end-Ends body (split_last row rows).1 (rw q at h) in
      record {
        columns = fields;
        body = body;
        parts =
            ap (λ x. x ∷ row ∷ rows) e
            ∙ ap (λ x. ("record_type" ∷ fields) ∷ x)
                (split_last-parts row rows ∙ ap (λ x. body ++ x ∷ []) last);
        types = types;
      }
  | inr q ↦ let z : Path (Option Fault) (some no_column_line) none = rw q at h in cc
]

IsBody-check_columns :
    (columns : List String) (body : List (List String))
    → All (λ t. is_known t ≡ true) (record_types body)
    → check_columns
        (("record_type" ∷ columns) ∷ body ++ ("Z" ∷ str_of (detail_count body) ∷ []) ∷ [])
      ≡ none
unfolding check_columns
IsBody-check_columns columns [] h = Ends-check_end [] h
IsBody-check_columns columns (b ∷ body) h =
    let last = "Z" ∷ str_of (detail_count (b ∷ body)) ∷ [] in
    subst (λ x. check_body x ≡ none)
      (sym (split_last-append b (body ++ last ∷ []) (b ∷ body) last refl))
      (Ends-check_end (b ∷ body) h)

-- A file has no structural fault exactly where it is whole.
pub structure-IsWholeFile : (rows : List (List String)) → (structure rows ≡ none) ↔ IsWholeFile rows
unfolding structure
structure-IsWholeFile rows = (to rows, from)
  where
    to : (rows : List (List String)) → structure rows ≡ none → IsWholeFile rows
    to [] h = cc
    to (header ∷ rows) h = elim (Bool-cases (starts_with "H" header)) [
      | inl q ↦
          let (fields, e) = starts_with-parts "H" header q in
          let rest = check_columns-IsBody rows (rw q at h) in
          record {
            header = fields;
            columns = rest.columns;
            body = rest.body;
            parts = ap (λ x. x ∷ rows) e ∙ ap (λ x. ("H" ∷ fields) ∷ x) rest.parts;
            types = rest.types;
          }
      | inr q ↦ let z : Path (Option Fault) (some no_header_record) none = rw q at h in cc
    ]

    from : IsWholeFile rows → structure rows ≡ none
    from w =
        subst (λ x. structure x ≡ none) (sym w.parts)
          (IsBody-check_columns w.columns w.body w.types)
