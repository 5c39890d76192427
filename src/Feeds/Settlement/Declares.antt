-- ===== src/Feeds/Settlement/Declares.antt =====
-- What the files of a settlement run declare, and which of them it refuses for that.
use nordbank_data_platform.Common.{
  ℕ, String, ◌≡◌, ◌≢◌, refl, sym, ap, ◌∙◌, inl, inr, Bool, true, false, Option, none, some, List,
  [], ◌∷◌, ◌++◌, All, All-append, All-impl, Bool-cases, str_eq, str_eq_iff, ok, ok-injective,
  Result, err,
}
use mathlib.Core.Path.{subst}
use nordbank_data_platform.Common.Dict.{lookup, insert, lookup-insert}
use nordbank_data_platform.Warehouse.{Warehouse}
use nordbank_data_platform.Warehouse.Action.{lift, pure, settle, bind-ok, then-ok, ◌>>◌}
use nordbank_data_platform.Common.Time.{date_of, compact_stamp}
use nordbank_data_platform.Contracts.{sync}
use nordbank_data_platform.Feeds.Settlement.Opened.{nothing_yet}
use nordbank_data_platform.Feeds.Identity.{declared_conflict, landed_as, landed_in}
use nordbank_data_platform.Feeds.Admission.{
  Run, Attempted, OpenedUnit, parked, parked_in, first_id, open_delivery,
}
use nordbank_data_platform.Feeds.Admission.Sighted.{
  OneOpened, passed_over, attempted_now, open_delivery-OneOpened,
}
use nordbank_data_platform.Feeds.SettlementFile.{
  SettlementFile, Declared, earlier_of, earlier_in, declaration_of, declare, conflict_with,
  refusal_of,
}
use nordbank_data_platform.Feeds.SettlementFile.Agreed.{
  earlier_of-declare_any, refusal_of-none, conflict_with-none, declared-Backed,
}
use nordbank_data_platform.Feeds.Allocation.{OpenedBatch, or_else, sequences_of}
use nordbank_data_platform.Feeds.Settlement.{
  Context, cardnet, settlement_entities, checksums_of, run_of, open_within, open_run,
  settlement_open, open_empty, allocate_empty, empty_unit, SettlementUnit, Progress, business_of,
  with_unit, allocate_file, judge_file, open_file, open_files,
}

-- The settlement date, the sequence and the revision that the file of a unit declares.
abbrev pub declared_by : ℕ → SettlementUnit → Option (ℕ × ℕ × ℕ)
declared_by day u = elim u.file [
  | none ↦ none
  | some f ↦ declaration_of (or_else f.settlement_date day) f.file_sequence f.revision
]

-- A unit that declares this, and is not refused.
abbrev pub Carries : ℕ → ℕ × ℕ × ℕ → SettlementUnit → Type 0
Carries day d u = (u.refuse ≡ none) × (declared_by day u ≡ some d)

-- Of the units that declare the same, one at most is not refused.
abbrev pub DeclaresOnce : ℕ → List SettlementUnit → Type 0
DeclaresOnce day [] = Unit
DeclaresOnce day (u ∷ us) =
    All (λ (v : SettlementUnit). (d : ℕ × ℕ × ℕ) → Carries day d u → ¬ Carries day d v) us
    × DeclaresOnce day us

pub DeclaresOnce-last :
    (day : ℕ) (us : List SettlementUnit) (v : SettlementUnit)
    → DeclaresOnce day us
    → All (λ (u : SettlementUnit). (d : ℕ × ℕ × ℕ) → Carries day d u → ¬ Carries day d v) us
    → DeclaresOnce day (us ++ v ∷ [])
DeclaresOnce-last day [] v once h = (tt, tt)
DeclaresOnce-last day (u ∷ us) v once h =
    (All-append _ us (v ∷ []) once.0 (h.0, tt), DeclaresOnce-last day us v once.1 h.1)

abbrev pub checksum_in : SettlementUnit → String
checksum_in u = elim u.file [ none ↦ "" | some f ↦ f.candidate.checksum ]

-- The declaration of a unit that is not refused is recorded with its own checksum.
abbrev pub IsBacked : ℕ → Declared → SettlementUnit → Type 0
IsBacked day declared u =
    (d : ℕ × ℕ × ℕ)
    → Carries day d u
    → (id : String) × (earlier_of d declared ≡ some (id, checksum_in u))

abbrev pub IsTried : Attempted → SettlementUnit → Type 0
IsTried attempted u = lookup (checksum_in u) attempted ≢ none

abbrev pub IsKnown : ℕ → Declared → Attempted → SettlementUnit → Type 0
IsKnown day declared attempted u = IsBacked day declared u × IsTried attempted u

pub record IsDeclared (day : ℕ) (p : Progress) : Type 0 where
  pub once : DeclaresOnce day p.units
  pub known : All (IsKnown day p.declared p.attempted) p.units

insert-IsTried :
    (checksum : String) (entry : String × String) (attempted : Attempted) (u : SettlementUnit)
    → IsTried attempted u
    → IsTried (insert checksum entry attempted) u
insert-IsTried checksum entry attempted u h = elim (Bool-cases (str_eq checksum (checksum_in u))) [
  | inl e ↦ λ none_there.
      let k = lookup-insert checksum (checksum_in u) entry attempted in
      let hit : lookup (checksum_in u) (insert checksum entry attempted) ≡ some entry = rw e at k in
      cc
  | inr e ↦ λ none_there.
      let k = lookup-insert checksum (checksum_in u) entry attempted in
      let same : lookup (checksum_in u) (insert checksum entry attempted)
          ≡ lookup (checksum_in u) attempted =
        rw e at k in
      h (sym same ∙ none_there)
]

inserted : (k : String) (v : String × String) (d : Attempted) → lookup k (insert k v d) ≡ some v
inserted k v d =
    let found = lookup-insert k k v d in
    let same : str_eq k k ≡ true = (str_eq_iff k k).1 refl in cc

module _ (r : Run) where
  -- The unit of a file that is attempted.
  abbrev unit_of : SettlementFile → OpenedUnit → Option String → Declared → SettlementUnit
  unfolding refusal_of
  unit_of f u landed declared = record {
    file = some f;
    batches = u.batches;
    refuse = refusal_of (business_of r f) f f.structural_fault (
        conflict_with landed
          (earlier_in (declaration_of (business_of r f) f.file_sequence f.revision) declared)
          f.candidate.checksum);
    empty_reason = none;
  }

  carried :
      (f : SettlementFile) (u : OpenedUnit) (landed : Option String) (declared : Declared)
      (d : ℕ × ℕ × ℕ)
      → Carries r.day d (unit_of f u landed declared)
      → conflict_with landed (earlier_of d declared) f.candidate.checksum ≡ none
  unfolding refusal_of unit_of
  carried f u landed declared d (refuse, declares) =
      let agreed = refusal_of-none (business_of r f) f f.structural_fault _ refuse in
      subst (λ o. conflict_with landed (earlier_in o declared) f.candidate.checksum ≡ none) declares
        agreed

  apart_from :
      (f : SettlementFile) (u : OpenedUnit) (landed : Option String) (declared : Declared)
      (attempted : Attempted) (v : SettlementUnit)
      → lookup f.candidate.checksum attempted ≡ none
      → IsKnown r.day declared attempted v
      → (d : ℕ × ℕ × ℕ) → Carries r.day d v
      → ¬ Carries r.day d (unit_of f u landed declared)
  apart_from f u landed declared attempted v fresh (backed, tried) d held again =
      let (id, recorded) = backed d held in
      let agreed = carried f u landed declared d again in
      let same =
        conflict_with-none landed id (checksum_in v) f.candidate.checksum (rw recorded at agreed) in
      tried (ap (λ c. lookup c attempted) same ∙ fresh)

  with_unit-IsDeclared :
      (f : SettlementFile) (u : OpenedUnit) (id : String) (entry : String × String)
      (landed : Option String) (attempted : Attempted) (p : Progress)
      → IsDeclared r.day (record p { attempted = attempted })
      → lookup f.candidate.checksum attempted ≡ none
      → IsDeclared r.day (
          with_unit r f u id landed
            (record p { attempted = insert f.candidate.checksum entry attempted }))
  unfolding with_unit
  with_unit-IsDeclared f u id entry landed attempted p h fresh =
      let cs = f.candidate.checksum in
      let o = declaration_of (business_of r f) f.file_sequence f.revision in
      record {
        once = DeclaresOnce-last r.day p.units (unit_of f u landed p.declared) h.once (
            All-impl _ _ p.units (λ v k. apart_from f u landed p.declared attempted v fresh k)
              h.known);
        known =
            All-append _ p.units _
              (All-impl _ _ p.units
                (λ v k. (
                  (λ d c.
                      let (i, e) = k.0 d c in
                      (i, earlier_of-declare_any d o (id, cs) _ p.declared e)),
                  insert-IsTried cs entry attempted v k.1,
                ))
                h.known)
              (
                (
                  (λ d c.
                      subst
                        (λ o.
                          (i : String) × (earlier_of d (declare o (id, cs) p.declared)
                            ≡ some (i, cs)))
                        (sym c.1)
                        (declared-Backed d (earlier_of d p.declared) landed id cs p.declared refl
                          (carried f u landed p.declared d c))),
                  (λ missing. let found = inserted cs entry attempted in cc),
                ),
                tt,
              );
      }

  judge_file-IsDeclared :
      (f : SettlementFile) (one : List OpenedUnit × Attempted) (p q : Progress) (w : Warehouse)
      → OneOpened r f.candidate p.attempted one
      → IsDeclared r.day p
      → (judge_file r f one.0 (record p { attempted = one.1 }) w).0 ≡ ok q
      → IsDeclared r.day q
  unfolding judge_file declared_conflict
  judge_file-IsDeclared f _ p q w passed_over h e = subst (IsDeclared r.day) (ok-injective e) h
  judge_file-IsDeclared f _ p q w (attempted_now outcome id batches fresh) h e =
      let u : OpenedUnit = record {
        candidate = f.candidate;
        outcome = outcome;
        batches = batches;
      } in
      let two = bind-ok (lift (first_id batches)) _ w q e in
      subst (IsDeclared r.day) (ok-injective two.rest)
        (with_unit-IsDeclared f u two.value (outcome, id) _ p.attempted p h fresh.0)

  open_file-IsDeclared :
      (f : SettlementFile) (p q : Progress) (w : Warehouse)
      → IsDeclared r.day p
      → (open_file r f p w).0 ≡ ok q
      → IsDeclared r.day q
  unfolding open_file
  open_file-IsDeclared f p q w h e =
      let delivery = open_delivery r (λ _. allocate_file r f) f.candidate p.attempted in
      let one =
        bind-ok delivery (λ one. judge_file r f one.0 (record p { attempted = one.1 })) w q e in
      judge_file-IsDeclared f one.value p q (delivery w).1
        (open_delivery-OneOpened r (λ _. allocate_file r f) f.candidate p.attempted w one.value
          one.first)
        h one.rest

  pub open_files-IsDeclared :
      (fs : List SettlementFile) (p q : Progress) (w : Warehouse)
      → IsDeclared r.day p
      → (open_files r fs p w).0 ≡ ok q
      → IsDeclared r.day q
  unfolding open_files
  open_files-IsDeclared [] p q w h e = subst (IsDeclared r.day) (ok-injective e) h
  open_files-IsDeclared (f ∷ fs) p q w h e =
      let one = bind-ok (open_file r f p) (open_files r fs) w q e in
      open_files-IsDeclared fs one.value q (open_file r f p w).1
        (open_file-IsDeclared f p one.value w h one.first) one.rest

apart_from_empty :
    (day : ℕ) (us : List SettlementUnit) (batches : List OpenedBatch)
    → All
        (λ (u : SettlementUnit).
          (d : ℕ × ℕ × ℕ) → Carries day d u → ¬ Carries day d (empty_unit batches))
        us
apart_from_empty day [] batches = tt
apart_from_empty day (u ∷ us) batches =
    ((λ d held carries. let declares = carries.1 in cc), apart_from_empty day us batches)

open_empty-DeclaresOnce :
    (r : Run) (has_file : Bool) (start : ℕ) (us after : List SettlementUnit) (w : Warehouse)
    → DeclaresOnce r.day us
    → (open_empty r has_file start us w).0 ≡ ok after
    → DeclaresOnce r.day after
unfolding open_empty
open_empty-DeclaresOnce r true start us after w h e = subst (DeclaresOnce r.day) (ok-injective e) h
open_empty-DeclaresOnce r false start us after w h e =
    let one = bind-ok (sequences_of cardnet none (compact_stamp start)) _ w after e in
    let empties = allocate_empty r start one.value settlement_entities in
    let v : Warehouse = (sequences_of cardnet none (compact_stamp start) w).1 in
    let two = bind-ok empties (λ bs. pure (us ++ empty_unit bs ∷ [])) v after one.rest in
    subst (DeclaresOnce r.day) (ok-injective two.rest)
      (DeclaresOnce-last r.day us (empty_unit two.value) h (apart_from_empty r.day us two.value))

open_within-DeclaresOnce :
    (c : Context) (files : List SettlementFile) (found : Bool) (w : Warehouse)
    (us : List SettlementUnit)
    → (open_within c files found w).0 ≡ ok us
    → DeclaresOnce (date_of c.start) us
unfolding open_within landed_as parked open_run
open_within-DeclaresOnce c files found w us e =
    let r =
      run_of c (landed_in w.ingested (checksums_of files))
        (parked_in w cardnet (checksums_of files)) in
    let one = bind-ok (open_files r files nothing_yet) _ w us e in
    let p : Progress = one.value in
    let done =
      open_files-IsDeclared r files nothing_yet p w (record { once = tt; known = tt }) one.first in
    open_empty-DeclaresOnce r _ c.start p.units us (open_files r files nothing_yet w).1 done.once
      one.rest

settle-ok :
    (r : Result (List SettlementUnit)) (w v : Warehouse) (us : List SettlementUnit)
    → (settle r w v).0 ≡ ok us
    → r ≡ ok us
settle-ok (ok us) w v after e = e
settle-ok (err x) w v after e = e

-- Of the units that the open step of the settlement feed hands on and that declare the same
-- settlement date, sequence and revision, one at most is not refused.
pub settlement_open-DeclaresOnce :
    (c : Context) (files : List SettlementFile) (found : Bool) (w : Warehouse)
    (us : List SettlementUnit)
    → (settlement_open c files found w).0 ≡ ok us
    → DeclaresOnce (date_of c.start) us
unfolding settlement_open
settlement_open-DeclaresOnce c files found w us e =
    let body = sync c.chains c.now >> open_within c files found in
    let one =
      then-ok (sync c.chains c.now) (open_within c files found) w us
        (settle-ok (body w).0 w (body w).1 us e) in
    open_within-DeclaresOnce c files found (sync c.chains c.now w).1 us one.rest
