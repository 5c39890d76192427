-- ===== src/Register/Settled.antt =====
-- What the registration of one report has done with its batch, and what it adds to the step's own
-- report.
use nordbank_data_platform.Common.{
  ℕ, String, ◌+◌, ◌≡◌, refl, sym, ap, ◌∙◌, Bool, true, false, not, Option, none, some, List, [],
  ◌∷◌, ◌++◌, map, filter, str_eq, Bool-cases, inl, inr, ok, ok-injective, arith, append_nil,
}
use mathlib.Core.Path.{subst}
use nordbank_data_platform.Common.Dict.{Dict, lookup}
use nordbank_data_platform.Validation.Schema.{Contract, identifier_columns}
use nordbank_data_platform.Warehouse.{BatchRow, Warehouse}
use nordbank_data_platform.Warehouse.Action.{
  Action, pure, lift, resume, bind-ok, then-ok, ◌>>=◌, ◌>>◌,
}
use nordbank_data_platform.Registry.{
  find_batch, update_batches, batch, mark_failed, mark_written, mark_registered, advance_watermark,
}
use nordbank_data_platform.Register.{
  Services, Entry, load_quarantine, write_reconciliation, record_drift, claimed_by_source,
}
use nordbank_data_platform.Register.Run.{
  RegisterReport, with_failed, with_registered, failure_of, written_of, contract_for, present,
  upsert_columns, register_failed, index_landed, register_landed, register_as, register_entry,
}
use nordbank_data_platform.Register.Frame.{
  Kept, Leaves, after-Leaves, bind-Leaves, then-Leaves, pure-Leaves, load_quarantine-Leaves,
  advance_watermark-Leaves, index_landed-Leaves,
}
use nordbank_data_platform.Register.Statuses.{
  HasStatus, IsFinal, IsEnded, Evolution-HasStatus, IsFinal-stays, IsEnded-stays, refused-HasStatus,
  find_batch-id, mark_registered-HasStatus,
}

abbrev pub is_failed : Entry → Bool
is_failed e = str_eq e.status "failed"

-- Where one report's batch stands after the step: registered, or ended where the report failed.
pub record IsSettled (rows : List BatchRow) (e : Entry) : Type 0 where
  pub landed : is_failed e ≡ false → HasStatus IsFinal e.batch_id rows
  pub ended : is_failed e ≡ true → HasStatus IsEnded e.batch_id rows

pub Kept-IsSettled :
    (rows rows' : List BatchRow) (e : Entry)
    → Kept rows rows'
    → IsSettled rows e
    → IsSettled rows' e
Kept-IsSettled rows rows' e k h = record {
  landed =
      λ q. Evolution-HasStatus IsFinal IsFinal-stays e.batch_id rows rows' k.evolved (h.landed q);
  ended =
      λ q. Evolution-HasStatus IsEnded IsEnded-stays e.batch_id rows rows' k.evolved (h.ended q);
}

-- What the reports name as registered, and as failed with a reason.
abbrev pub registered_entities : List Entry → List String
registered_entities es = map (λ (e : Entry). e.entity) (filter (λ e. not (is_failed e)) es)

abbrev pub failed_entities : List Entry → List (String × String)
failed_entities es = map (λ (e : Entry). (e.entity, e.failure_reason)) (filter is_failed es)

-- One report settled, and named once in the step's own report.
pub record EntryDone (e : Entry) (before after : RegisterReport) (rows : List BatchRow)
    : Type 0 where
  pub settled : IsSettled rows e
  pub registered_names : after.registered ≡ before.registered ++ registered_entities (e ∷ [])
  pub failed_names : after.failed ≡ before.failed ++ failed_entities (e ∷ [])

with_failed-registered :
    (e : Entry) (n : ℕ) (report : RegisterReport)
    → is_failed e ≡ true
    → (with_failed e n report).registered ≡ report.registered ++ registered_entities (e ∷ [])
with_failed-registered e n report q = rw q (sym (append_nil report.registered))

with_failed-failed :
    (e : Entry) (n : ℕ) (report : RegisterReport)
    → is_failed e ≡ true
    → (with_failed e n report).failed ≡ report.failed ++ failed_entities (e ∷ [])
with_failed-failed e n report q = rw q refl

with_registered-registered :
    (e : Entry) (b : BatchRow) (n m : ℕ) (report : RegisterReport)
    → is_failed e ≡ false
    → (with_registered e b n m report).registered
      ≡ report.registered ++ registered_entities (e ∷ [])
with_registered-registered e b n m report q = rw q refl

with_registered-failed :
    (e : Entry) (b : BatchRow) (n m : ℕ) (report : RegisterReport)
    → is_failed e ≡ false
    → (with_registered e b n m report).failed ≡ report.failed ++ failed_entities (e ∷ [])
with_registered-failed e b n m report q = rw q (sym (append_nil report.failed))

module _ (s : Services) (date now : ℕ) where
  register_failed-EntryDone :
      (b : BatchRow) (e : Entry) (report next : RegisterReport) (w : Warehouse) (r : BatchRow)
      → is_failed e ≡ true
      → b.batch_id ≡ e.batch_id
      → find_batch w.batches b.batch_id ≡ some r
      → (register_failed s date now b e report w).0 ≡ ok next
      → EntryDone e report next (register_failed s date now b e report w).1.batches
  unfolding register_failed mark_failed update_batches
  register_failed-EntryDone b e report next w r q same found h =
      let n : Action Warehouse RegisterReport =
        load_quarantine s e.quarantine_keys >>= λ loaded. pure (with_failed e loaded report) in
      let one = then-ok (mark_failed b.batch_id (failure_of now e)) n w next h in
      let two = bind-ok (load_quarantine s e.quarantine_keys) _ _ next one.rest in
      let value : with_failed e two.value report ≡ next = ok-injective two.rest in
      let leaves : Leaves n =
        bind-Leaves _ _ (load_quarantine-Leaves s e.quarantine_keys) (λ _. pure-Leaves _) in
      record {
        settled = record {
          landed = λ t. absurd (ground arith);
          ended = λ _.
              subst (HasStatus IsEnded e.batch_id)
                (sym (after-Leaves (mark_failed b.batch_id (failure_of now e)) n leaves w))
                (rw (← same) (refused-HasStatus b.batch_id (failure_of now e) w.batches r found));
        };
        registered_names =
            subst (λ x. x.registered ≡ report.registered ++ registered_entities (e ∷ [])) value
              (with_failed-registered e two.value report q);
        failed_names =
            subst (λ x. x.failed ≡ report.failed ++ failed_entities (e ∷ [])) value
              (with_failed-failed e two.value report q);
      }

  index_landed-names :
      (c : Contract) (b : BatchRow) (e : Entry) (report next : RegisterReport) (w : Warehouse)
      → is_failed e ≡ false
      → (index_landed s date now c b e report w).0 ≡ ok next
      → (next.registered ≡ report.registered ++ registered_entities (e ∷ []))
        × (next.failed ≡ report.failed ++ failed_entities (e ∷ []))
  unfolding index_landed write_reconciliation
  index_landed-names c b e report next w q h =
      let one = bind-ok (upsert_columns s c b now e (identifier_columns c)) _ w next h in
      let two = bind-ok (load_quarantine s e.quarantine_keys) _ _ next one.rest in
      let three = bind-ok (lift (claimed_by_source s c date)) _ _ next two.rest in
      let value : with_registered e b one.value two.value report ≡ next = ok-injective three.rest in
      (
        subst (λ x. x.registered ≡ report.registered ++ registered_entities (e ∷ [])) value
            (with_registered-registered e b one.value two.value report q),
        subst (λ x. x.failed ≡ report.failed ++ failed_entities (e ∷ [])) value
            (with_registered-failed e b one.value two.value report q),
      )

  register_landed-EntryDone :
      (c : Contract) (b : BatchRow) (e : Entry) (report next : RegisterReport) (w : Warehouse)
      → is_failed e ≡ false
      → b.batch_id ≡ e.batch_id
      → (register_landed s date now c b e report w).0 ≡ ok next
      → EntryDone e report next (register_landed s date now c b e report w).1.batches
  unfolding register_landed
  register_landed-EntryDone c b e report next w q same h =
      let id = b.batch_id in
      let index = index_landed s date now c b e report in
      let to = e.watermark_to in
      let advance = advance_watermark b.source_system e.entity to id now in
      let rest = mark_registered id now >> (advance >> index) in
      let one = then-ok (mark_written id (written_of now e)) rest w next h in
      let v : Warehouse = (mark_written id (written_of now e) w).1 in
      let two = then-ok (mark_registered id now) (advance >> index) v next one.rest in
      let v' : Warehouse = (mark_registered id now v).1 in
      let three = then-ok advance index v' next two.rest in
      let leaves : Leaves (advance >> index) =
        then-Leaves advance index (advance_watermark-Leaves b.source_system e.entity to id now)
          (index_landed-Leaves s date now c b e report) in
      let names = index_landed-names c b e report next (advance v').1 q three.rest in
      record {
        settled = record {
          landed = λ _.
              subst (HasStatus IsFinal e.batch_id)
                (sym (
                  ap (λ (v : Warehouse). v.batches) one.state
                  ∙ after-Leaves (mark_registered id now) (advance >> index) leaves v))
                (subst (λ x. HasStatus IsFinal x v'.batches) same
                  (mark_registered-HasStatus id now v two.value two.first));
          ended = λ t. absurd (ground arith);
        };
        registered_names = names.0;
        failed_names = names.1;
      }

  register_as-EntryDone :
      (c : Contract) (b : BatchRow) (e : Entry) (report next : RegisterReport) (w : Warehouse)
      (r : BatchRow)
      → b.batch_id ≡ e.batch_id
      → find_batch w.batches b.batch_id ≡ some r
      → (register_as s date now c b e report w).0 ≡ ok next
      → EntryDone e report next (register_as s date now c b e report w).1.batches
  unfolding register_as
  register_as-EntryDone c b e report next w r same found h = elim (Bool-cases (is_failed e)) [
    | inl q ↦ rw q (register_failed-EntryDone b e report next w r q same found (rw q at h))
    | inr q ↦ rw q (register_landed-EntryDone c b e report next w q same (rw q at h))
  ]

  -- The rest of an entry, once its contract and its batch have been looked up.
  after_batch-EntryDone :
      (c : Contract) (e : Entry) (report next : RegisterReport) (w : Warehouse)
      (found : Option BatchRow)
      → find_batch w.batches e.batch_id ≡ found
      → (resume
          (present e.batch_id found)
          (λ b. record_drift b e.drift now >>= λ drift.
            register_as s date now c b e (record report { drift_rows = report.drift_rows + drift }))
          w).0
        ≡ ok next
      → EntryDone e report next
          (resume
            (present e.batch_id found)
            (λ b. record_drift b e.drift now >>= λ drift.
              register_as s date now c b e
                (record report { drift_rows = report.drift_rows + drift }))
            w).1.batches
  unfolding record_drift
  after_batch-EntryDone c e report next w none q h = cc
  after_batch-EntryDone c e report next w (some b) q h =
      let same = find_batch-id w.batches e.batch_id b q in
      let done =
        register_as-EntryDone c b e _ next _ b same (ap (find_batch w.batches) same ∙ q) h in
      record {
        settled = done.settled;
        registered_names = done.registered_names;
        failed_names = done.failed_names;
      }

  after_contract-EntryDone :
      (o : Option Contract) (e : Entry) (report next : RegisterReport) (w : Warehouse)
      → (resume
          (contract_for e.entity o)
          (λ c. batch e.batch_id >>= λ found. lift (present e.batch_id found) >>= λ b.
            record_drift b e.drift now >>= λ drift.
            register_as s date now c b e (record report { drift_rows = report.drift_rows + drift }))
          w).0
        ≡ ok next
      → EntryDone e report next
          (resume
            (contract_for e.entity o)
            (λ c. batch e.batch_id >>= λ found. lift (present e.batch_id found) >>= λ b.
              record_drift b e.drift now >>= λ drift.
              register_as s date now c b e
                (record report { drift_rows = report.drift_rows + drift }))
            w).1.batches
  unfolding batch
  after_contract-EntryDone none e report next w h = cc
  after_contract-EntryDone (some c) e report next w h =
      after_batch-EntryDone c e report next w (find_batch w.batches e.batch_id) refl h

  pub register_entry-EntryDone :
      (contracts : Dict Contract) (e : Entry) (report next : RegisterReport) (w : Warehouse)
      → (register_entry s date now contracts e report w).0 ≡ ok next
      → EntryDone e report next (register_entry s date now contracts e report w).1.batches
  unfolding register_entry
  register_entry-EntryDone contracts e report next w h =
      after_contract-EntryDone (lookup e.entity contracts) e report next w h
