-- ===== src/Phases/Closing/Complete.antt =====
-- The register step of a run as a whole, and what its gate lets pass.
use nordbank_data_platform.Common.{
  Result-cases, ℕ, String, ◌≡◌, refl, sym, ap, ◌∙◌, Bool, true, false, ◌||◌, Bool-cases, inl, inr,
  Option, none, some, List, [], ◌∷◌, ◌++◌, All, All-impl, has_name, str_eq, str_eq_iff, sorted_set,
  Result, err, ok, ◌>>=◌, bind-eq-ok, ok-injective,
}
use mathlib.Core.Path.{subst}
use nordbank_data_platform.Common.Dict.{Dict, lookup, insert, keys, lookup-insert}
use nordbank_data_platform.Common.Time.{date_of}
use nordbank_data_platform.Validation.Schema.{Contract}
use nordbank_data_platform.Warehouse.{BatchRow, Warehouse}
use nordbank_data_platform.Contracts.{VersionChains, body}
use nordbank_data_platform.Registry.{find_batch}
use nordbank_data_platform.Registry.Table.{IsWellFormed}
use nordbank_data_platform.Register.{Services, Entry}
use nordbank_data_platform.Register.Run.{RegisterReport, empty_report, contract_for, register_run}
use nordbank_data_platform.Register.Frame.{Kept}
use nordbank_data_platform.Register.Statuses.{HasStatus, IsFinal}
use nordbank_data_platform.Register.Settled.{IsSettled, is_failed, failed_entities}
use nordbank_data_platform.Register.Outcome.{RunDone, Outcome, register_run-Outcome}
use nordbank_data_platform.Phases.Closing.{
  current_contracts, opened_contract, gate_on, opened_contracts, current_reports, reported_entities,
  unreported_all, by_entity, read_run, register_phase, gate_phase,
}
use nordbank_data_platform.Phases.Closing.Reported.{
  by_entity-All, IsClosed, unreported_all-IsClosed, append-All,
}

neither : (a b : Bool) → (a || b) ≡ false → (a ≡ false) × (b ≡ false)
neither true b h = cc
neither false b h = (refl, h)

opened_contract-lookup :
    (chains : VersionChains) (w : Warehouse) (report : Entry) (found : Option BatchRow)
    (before : Dict Contract) {after : Dict Contract} (entity : String)
    → opened_contract chains w report found before ≡ ok after
    → str_eq report.entity entity ≡ false
    → lookup entity after ≡ lookup entity before
unfolding opened_contract
opened_contract-lookup chains w report none before entity h other_entity =
    ap (lookup entity) (sym (ok-injective h))
opened_contract-lookup chains w report (some opened) before entity h other_entity =
    let read =
      bind-eq-ok (body chains report.entity opened.contract_version w).0
        (λ c. ok (insert report.entity c before)) h in
    ap (lookup entity) (sym (ok-injective read.2))
    ∙ lookup-insert report.entity entity read.0 before
    ∙ rw other_entity refl

other_way : (a b : String) → str_eq a b ≡ false → str_eq b a ≡ false
other_way a b h = elim (Bool-cases (str_eq b a)) [
  | inl e ↦ let same : str_eq a b ≡ true = (str_eq_iff a b).1 (sym ((str_eq_iff b a).0 e)) in cc
  | inr e ↦ e
]

-- The contract of an entity without a report is the current one.
opened_contracts-lookup :
    (chains : VersionChains) (w : Warehouse) (reports : List Entry) (current : Dict Contract)
    {contracts : Dict Contract} (entity : String)
    → opened_contracts chains w reports current ≡ ok contracts
    → has_name entity (reported_entities reports) ≡ false
    → lookup entity contracts ≡ lookup entity current
unfolding opened_contracts
opened_contracts-lookup chains w [] current entity h unreported =
    ap (lookup entity) (sym (ok-injective h))
opened_contracts-lookup chains w (report ∷ reports) current entity h unreported =
    let apart =
      neither (str_eq entity report.entity) (has_name entity (reported_entities reports))
        unreported in
    let step =
      bind-eq-ok (opened_contract chains w report (find_batch w.batches report.batch_id) current)
        (λ next. opened_contracts chains w reports next) h in
    opened_contracts-lookup chains w reports step.0 entity step.2 apart.1
    ∙ opened_contract-lookup chains w report (find_batch w.batches report.batch_id) current entity
        step.1 (other_way entity report.entity apart.0)

-- What the register step of a run has done when it returned.
pub record PhaseDone (chains : VersionChains) (start : ℕ) (reports : List Entry) (w w' : Warehouse)
    (report : RegisterReport) : Type 0 where
  pub kept : Kept w.batches w'.batches
  pub reports_settled : All (IsSettled w'.batches) reports
  pub current : Dict Contract
  pub current_is : current_contracts chains ≡ ok current
  pub closed :
      All
        (IsClosed current start (reported_entities reports) w.batches w'.batches)
        (sorted_set (keys chains))
  pub gated :
      gate_phase report ≡ ok tt
      → All (λ (e : Entry). HasStatus IsFinal e.batch_id w'.batches) reports

abbrev pub PhaseOutcome :
    VersionChains → ℕ → List Entry → Warehouse → Result RegisterReport × Warehouse → Type 0
PhaseOutcome chains start reports w (ok report, w') = PhaseDone chains start reports w w' report
PhaseOutcome chains start reports w (err e, w') = w' ≡ w

none_failed :
    (es : List Entry) → failed_entities es ≡ [] → All (λ (e : Entry). is_failed e ≡ false) es
none_failed [] h = tt
none_failed (e ∷ es) h = elim (Bool-cases (is_failed e)) [
  | inl failed ↦
      let named : (e.entity, e.failure_reason) ∷ failed_entities es ≡ [] = rw failed at h in cc
  | inr landed ↦ (landed, none_failed es (rw landed at h))
]

nothing_failed : (failed : List (String × String)) → gate_on failed ≡ ok tt → failed ≡ []
nothing_failed [] h = refl
nothing_failed (f ∷ failed) h = cc

gate_open : (report : RegisterReport) → gate_phase report ≡ ok tt → report.failed ≡ []
unfolding gate_phase
gate_open report h = nothing_failed report.failed h

final_where_landed :
    (rows : List BatchRow) (es : List Entry)
    → All (IsSettled rows) es
    → All (λ (e : Entry). is_failed e ≡ false) es
    → All (λ (e : Entry). HasStatus IsFinal e.batch_id rows) es
final_where_landed rows [] h k = tt
final_where_landed rows (e ∷ es) h k = (h.0.landed k.0, final_where_landed rows es h.1 k.1)

-- The entities that are closed under the contracts of a run are so under the current ones.
IsClosed-current :
    (chains : VersionChains) (w w' : Warehouse) (start : ℕ) (reports : List Entry)
    (current contracts : Dict Contract) (entities : List String)
    → opened_contracts chains w reports current ≡ ok contracts
    → All (IsClosed contracts start (reported_entities reports) w.batches w'.batches) entities
    → All (IsClosed current start (reported_entities reports) w.batches w'.batches) entities
IsClosed-current chains w w' start reports current contracts entities opened closed =
    All-impl _ _ entities
      (λ entity f unreported.
        let c = f unreported in
        (
          c.0,
          ap (contract_for entity)
                (sym (opened_contracts-lookup chains w reports current entity opened unreported))
              ∙ c.1,
          c.2,
        ))
      closed

done_with :
    (s : Services) (chains : VersionChains) (start now : ℕ) (reports missing : List Entry)
    (current contracts : Dict Contract) (w w' : Warehouse) (report : RegisterReport)
    → IsWellFormed w.batches
    → current_contracts chains ≡ ok current
    → opened_contracts chains w reports current ≡ ok contracts
    → unreported_all contracts start
        (reported_entities reports)
        w.batches
        (sorted_set (keys chains))
      ≡ ok missing
    → RunDone (by_entity (reports ++ missing)) empty_report report w w'
    → PhaseDone chains start reports w w' report
done_with s chains start now reports missing current contracts w w' report valid at_current opened
      found run =
    let settled =
      append-All (IsSettled w'.batches) reports missing
        (by_entity-All (IsSettled w'.batches) (reports ++ missing) run.settled) in
    let closed =
      unreported_all-IsClosed contracts start (reported_entities reports) w.batches w'.batches
        (sorted_set (keys chains)) valid.named run.kept.evolved found settled.1 in
    record {
      kept = run.kept;
      reports_settled = settled.0;
      current = current;
      current_is = at_current;
      closed =
          IsClosed-current chains w w' start reports current contracts (sorted_set (keys chains))
            opened closed;
      gated = λ passed.
          let landed =
            none_failed (by_entity (reports ++ missing))
              (sym run.failed_names ∙ gate_open report passed) in
          let all_landed =
            (append-All (λ e. is_failed e ≡ false) reports missing
              (by_entity-All (λ e. is_failed e ≡ false) (reports ++ missing) landed)).0 in
          final_where_landed w'.batches reports settled.0 all_landed;
    }

after_reading :
    (s : Services) (chains : VersionChains) (start now : ℕ) (allocated : List String)
    (pulled : List Entry) (w : Warehouse) (run : Dict Contract × List Entry)
    → IsWellFormed w.batches
    → read_run chains start allocated pulled w ≡ ok run
    → (ended : Result RegisterReport × Warehouse) → Outcome run.1 w ended
    → PhaseOutcome chains start (current_reports allocated pulled) w ended
unfolding read_run
after_reading s chains start now allocated pulled w run valid read (err e, w') h = h
after_reading s chains start now allocated pulled w run valid read (ok report, w') h =
    let reports : List Entry = current_reports allocated pulled in
    let step =
      bind-eq-ok (current_contracts chains)
        (λ current. opened_contracts chains w reports current >>= λ contracts.
          unreported_all contracts start (reported_entities reports) w.batches
            (sorted_set (keys chains))
          >>= λ missing. ok (contracts, by_entity (reports ++ missing)))
        read in
    let opened =
      bind-eq-ok (opened_contracts chains w reports step.0)
        (λ contracts.
          unreported_all contracts start (reported_entities reports) w.batches
            (sorted_set (keys chains))
          >>= λ missing. ok (contracts, by_entity (reports ++ missing)))
        step.2 in
    let found =
      bind-eq-ok
        (unreported_all opened.0 start (reported_entities reports) w.batches
          (sorted_set (keys chains)))
        (λ missing. ok (opened.0, by_entity (reports ++ missing))) opened.2 in
    done_with s chains start now reports found.0 step.0 opened.0 w w' report valid step.1 opened.1
      found.1
      (subst (λ (r : Dict Contract × List Entry). RunDone r.1 empty_report report w w')
        (sym (ok-injective found.2)) h)

-- From a well-formed registry, the register step of a run either raises and changes nothing, or has
-- settled the batch of every report of this run, and of every entity of the contracts without one
-- has ended each batch of the interval; each old batch has evolved along the lifecycle. Where the
-- gate lets the summary pass, the batch of every report is registered.
pub register_phase-PhaseOutcome :
    (s : Services) (chains : VersionChains) (start now : ℕ) (allocated : List String)
    (pulled : List Entry) (w : Warehouse)
    → IsWellFormed w.batches
    → PhaseOutcome chains start
        (current_reports allocated pulled)
        w
        (register_phase s chains start now allocated pulled w)
unfolding register_phase
register_phase-PhaseOutcome s chains start now allocated pulled w valid =
    elim (Result-cases (read_run chains start allocated pulled w)) [
      | inr raised ↦ rw raised.1 refl
      | inl read ↦
          let run : Dict Contract × List Entry = read.0 in
          rw read.1 (
            after_reading s chains start now allocated pulled w run valid read.1
              (register_run s (date_of start) now run.0 run.1 w)
              (register_run-Outcome s (date_of start) now run.0 run.1 w valid))
    ]
