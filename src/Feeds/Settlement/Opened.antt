-- ===== src/Feeds/Settlement/Opened.antt =====
-- What the open step of the settlement feed leaves of the registry, and what it hands on.
use nordbank_data_platform.Common.{
  ℕ, ◌≡◌, refl, sym, inl, inr, Bool, true, ◌||◌, List, [], any, Any-impl, Any_of_any, Result, ok,
  err, Bool-cases,
}
use mathlib.Core.Path.{subst}
use nordbank_data_platform.Warehouse.{Warehouse}
use nordbank_data_platform.Warehouse.Action.{settle, bind-ok, then-ok, ◌>>◌}
use nordbank_data_platform.Common.Time.{date_of}
use nordbank_data_platform.Contracts.{sync}
use nordbank_data_platform.Registry.Table.{IsWellFormed}
use nordbank_data_platform.Register.Frame.{Kept, Keeps, bind-Keeps}
use nordbank_data_platform.Phases.Frame.{sync-Leaves}
use nordbank_data_platform.Feeds.Identity.{landed_as, landed_in}
use nordbank_data_platform.Feeds.Admission.{Run, parked, parked_in}
use nordbank_data_platform.Feeds.SettlementFile.{SettlementFile}
use nordbank_data_platform.Feeds.Settlement.{
  SettlementUnit, Progress, covers, open_files, open_empty, open_run, Context, checksums_of, run_of,
  open_within, settlement_open, cardnet,
}
use nordbank_data_platform.Feeds.Settlement.Placed.{UnitsStandIn}
use nordbank_data_platform.Feeds.Settlement.Files.{open_files-Places, open_files-Keeps}
use nordbank_data_platform.Feeds.Settlement.Empty.{
  IsCoveredOn, open_empty-Keeps, open_empty-UnitsStandIn, open_empty-IsCoveredOn,
}

abbrev pub nothing_yet : Progress
nothing_yet = record { units = []; attempted = []; declared = [] }

module _ (r : Run) where
  open_run-Keeps :
      (start : ℕ) (files : List SettlementFile) (found : Bool)
      → Keeps (open_run r start files found)
  unfolding open_run
  open_run-Keeps start files found = bind-Keeps _ _ (open_files-Keeps r files nothing_yet) (λ p.
      open_empty-Keeps r (any (λ (u : SettlementUnit). covers r.day u.file) p.units || found) start
        p.units)

  covered_by :
      (found : Bool) (us : List SettlementUnit)
      → any (λ (u : SettlementUnit). covers r.day u.file) us || found ≡ true
      → IsCoveredOn r.day found us
  covered_by found us h = elim (Bool-cases (any (λ (u : SettlementUnit). covers r.day u.file) us)) [
    | inl e ↦ inr (
        Any-impl _ _ us (λ u h. inl h)
          (Any_of_any (λ (u : SettlementUnit). covers r.day u.file ≡ true)
            (λ (u : SettlementUnit). covers r.day u.file) (λ u. ((λ h. h), (λ h. h))) us e))
    | inr e ↦ inl (rw e at h)
  ]

  open_run-Outcome :
      (start : ℕ) (files : List SettlementFile) (found : Bool) (w : Warehouse)
      (us : List SettlementUnit)
      → IsWellFormed w.batches
      → (open_run r start files found w).0 ≡ ok us
      → UnitsStandIn (open_run r start files found w).1.batches us × IsCoveredOn r.day found us
  unfolding open_run
  open_run-Outcome start files found w us valid e =
      let one =
        bind-ok (open_files r files nothing_yet) (λ p. open_empty r (has_file p) start p.units) w us
          e in
      let v : Warehouse = (open_files r files nothing_yet w).1 in
      let p : Progress = one.value in
      let fine = (open_files-Keeps r files nothing_yet).kept w valid in
      let stand = open_files-Places r files nothing_yet w p valid tt one.first in
      (
        subst (λ (x : Warehouse). UnitsStandIn x.batches us) (sym one.state)
            (open_empty-UnitsStandIn r (has_file p) start p.units v us fine.valid stand one.rest),
        open_empty-IsCoveredOn r (has_file p) found start p.units v us (covered_by found p.units)
            one.rest,
      )
    where
      has_file : Progress → Bool
      has_file p = any (λ (u : SettlementUnit). covers r.day u.file) p.units || found

-- What an open step that returned has done.
pub record OpenedRun (day : ℕ) (found : Bool) (us : List SettlementUnit) (w w' : Warehouse)
    : Type 0 where
  pub kept : Kept w.batches w'.batches
  pub stands : UnitsStandIn w'.batches us
  pub covered : IsCoveredOn day found us

abbrev pub OpenedOutcome : ℕ → Bool → Warehouse → Result (List SettlementUnit) × Warehouse → Type 0
OpenedOutcome day found w (ok us, w') = OpenedRun day found us w w'
OpenedOutcome day found w (err e, w') = w' ≡ w

settle-OpenedOutcome :
    (day : ℕ) (found : Bool) (w : Warehouse) (r : Result (List SettlementUnit)) (v : Warehouse)
    → ((us : List SettlementUnit) → r ≡ ok us → OpenedRun day found us w v)
    → OpenedOutcome day found w (settle r w v)
settle-OpenedOutcome day found w (ok us) v h = h us refl
settle-OpenedOutcome day found w (err e) v h = refl

-- From a well-formed registry, the open step of the settlement feed either raises and changes
-- nothing, or every old batch has evolved along the lifecycle, the batches of every unit stand in
-- the registry, and the day is accounted for: a file that covers it was opened, or the sensor saw
-- one, or a unit without a file says that none arrived.
pub settlement_open-OpenedOutcome :
    (c : Context) (files : List SettlementFile) (found : Bool) (w : Warehouse)
    → IsWellFormed w.batches
    → OpenedOutcome (date_of c.start) found w (settlement_open c files found w)
unfolding settlement_open open_within landed_as parked
settlement_open-OpenedOutcome c files found w valid =
    settle-OpenedOutcome (date_of c.start) found w _ _ done
  where
    v : Warehouse
    v = (sync c.chains c.now w).1

    same : v.batches ≡ w.batches
    same = (sync-Leaves c.chains c.now).same w

    fine : IsWellFormed v.batches
    fine = subst IsWellFormed (sym same) valid

    r : Run
    r =
        run_of c (landed_in v.ingested (checksums_of files))
          (parked_in v cardnet (checksums_of files))

    done :
        (us : List SettlementUnit)
        → ((sync c.chains c.now >> open_within c files found) w).0 ≡ ok us
        → OpenedRun
            (date_of c.start)
            found
            us
            w
            ((sync c.chains c.now >> open_within c files found) w).1
    done us e =
        let one = then-ok (sync c.chains c.now) (open_within c files found) w us e in
        let outcome = open_run-Outcome r c.start files found v us fine one.rest in
        let kept = (open_run-Keeps r c.start files found).kept v fine in
        subst (OpenedRun (date_of c.start) found us w) (sym one.state) (record {
          kept = subst (λ rows. Kept rows (open_run r c.start files found v).1.batches) same kept;
          stands = outcome.0;
          covered = outcome.1;
        })
