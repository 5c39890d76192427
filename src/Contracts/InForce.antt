-- ===== src/Contracts/InForce.antt =====
-- What `select` answers, against the rows of `meta.contract_version`.
use nordbank_data_platform.Common.{
  ℕ, ◌≤◌, String, ◌≡◌, refl, inl, inr, Bool, true, false, Option, none, some, List, [], ◌∷◌, All,
  All-impl, Any, Any-impl, leb, Result, arith, Bool-cases, ok, err, none_in_force,
}
use nordbank_data_platform.Warehouse.{VersionRow, Warehouse}
use nordbank_data_platform.Contracts.{is_candidate, greater, max_version, selected, select}

-- `v` is the greatest version of the entity that is in force on the day.
pub record IsInForce (rows : List VersionRow) (system entity : String) (day v : ℕ) : Type 0 where
  pub recorded :
      Any
        (λ (r : VersionRow). (is_candidate system entity day r ≡ true) × (r.contract_version ≡ v))
        rows
  pub latest :
      All
        (λ (r : VersionRow). is_candidate system entity day r ≡ true → r.contract_version ≤ v)
        rows

abbrev pub NoneInForce : List VersionRow → String → String → ℕ → Type 0
NoneInForce rows system entity day =
    All (λ (r : VersionRow). is_candidate system entity day r ≡ false) rows

abbrev pub IsMaximum : List VersionRow → String → String → ℕ → Option ℕ → Type 0
IsMaximum rows system entity day none = NoneInForce rows system entity day
IsMaximum rows system entity day (some v) = IsInForce rows system entity day v

false-ne-true : {b : Bool} → b ≡ false → b ≡ true → ⊥
false-ne-true f t = cc

max_version-IsMaximum :
    (rows : List VersionRow) (system entity : String) (day : ℕ)
    → IsMaximum rows system entity day (max_version rows system entity day)
unfolding max_version
max_version-IsMaximum [] system entity day = tt
max_version-IsMaximum (r ∷ rs) system entity day =
    elim (Bool-cases (is_candidate system entity day r)) [
      | inr e ↦
          rw e (
            passed (max_version rs system entity day) e
              (max_version-IsMaximum rs system entity day))
      | inl e ↦
          rw e (
            taken (max_version rs system entity day) e (max_version-IsMaximum rs system entity day))
    ]
  where
    passed :
        (o : Option ℕ)
        → is_candidate system entity day r ≡ false
        → IsMaximum rs system entity day o
        → IsMaximum (r ∷ rs) system entity day o
    passed none e h = (e, h)
    passed (some v) e h = record {
      recorded = inr h.recorded;
      latest = ((λ c. absurd (false-ne-true e c)), h.latest);
    }

    taken :
        (o : Option ℕ)
        → is_candidate system entity day r ≡ true
        → IsMaximum rs system entity day o
        → IsMaximum (r ∷ rs) system entity day (greater r.contract_version o)
    taken none e h = record {
      recorded = inl (e, refl);
      latest = ((λ _. omega arith), All-impl _ _ rs (λ x f t. absurd (false-ne-true f t)) h);
    }
    taken (some v) e h = record {
      recorded = elim (Bool-cases (leb v r.contract_version)) [
        | inl above ↦ inl (e, ground arith)
        | inr below ↦ inr (Any-impl _ _ rs (λ x (c, q). (c, ground arith)) h.recorded)
      ];
      latest = ((λ _. omega arith), All-impl _ _ rs (λ x f t. let k = f t in omega arith) h.latest);
    }

-- What an answer of `select` says of the table: the version in force, or that there is none.
abbrev pub Answers : List VersionRow → String → String → ℕ → Result ℕ → Type 0
Answers rows system entity day (ok v) = IsInForce rows system entity day v
Answers rows system entity day (err e) =
    NoneInForce rows system entity day × (e ≡ none_in_force entity day)

-- `select` answers with the greatest version in force on the day, or raises where none is, and
-- changes nothing.
pub select-Answers :
    (system entity : String) (day : ℕ) (w : Warehouse)
    → Answers w.versions system entity day (select system entity day w).0
      × ((select system entity day w).1 ≡ w)
unfolding select
select-Answers system entity day w =
    go (max_version w.versions system entity day)
      (max_version-IsMaximum w.versions system entity day)
  where
    go :
        (o : Option ℕ)
        → IsMaximum w.versions system entity day o
        → Answers w.versions system entity day (selected entity day o w).0
          × ((selected entity day o w).1 ≡ w)
    go none h = ((h, refl), refl)
    go (some v) h = (h, refl)
