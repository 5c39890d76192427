-- ===== src/Register/Frame.antt =====
-- What the register step leaves of the batch registry, whether it returns or raises.
use nordbank_data_platform.Common.{
  ℕ, String, ◌+◌, ◌≡◌, refl, sym, ◌∙◌, Option, List, [], ◌∷◌, str_eq, Bool-cases, inl, inr, Result,
  ok, err,
}
use mathlib.Core.Path.{subst}
use nordbank_data_platform.Common.Dict.{Dict, lookup}
use nordbank_data_platform.Validation.Schema.{Contract, identifier_columns}
use nordbank_data_platform.Warehouse.{BatchRow, QuarantineRow, ReconciliationRow, Warehouse}
use nordbank_data_platform.Warehouse.Action.{Action, pure, lift, resume, ◌>>=◌, ◌>>◌}
use nordbank_data_platform.Drift.{DriftObservation}
use nordbank_data_platform.Registry.{
  Written, Failure, batch, mark_written, mark_failed, mark_registered, advance_watermark,
}
use nordbank_data_platform.Registry.Table.{IsWellFormed, Evolution, Later, Moves, IsOpen}
use nordbank_data_platform.Registry.Lifecycle.{
  Follows, mark_written-Follows, mark_failed-Follows, mark_registered-Follows,
}
use nordbank_data_platform.Registry.History.{
  AnyRow, Evolution-trans, Evolution-refl_Later, Moves-Later, Later-trans,
}
use nordbank_data_platform.Register.{
  Services, Entry, read_identifier_values, claimed_by_source, upsert_vault, FirstSeen, index_rows,
  load_quarantine, write_reconciliation, record_drift,
}
use nordbank_data_platform.Register.Run.{
  RegisterReport, upsert_columns, contract_for, present, register_failed, index_landed,
  register_landed, register_as, register_entry,
}

-- A table that is still well-formed, and into which `rows` has evolved.
pub record Kept (rows rows' : List BatchRow) : Type 0 where
  pub valid : IsWellFormed rows'
  pub evolved : Evolution Later AnyRow rows rows'

pub Kept-refl : (rows : List BatchRow) → IsWellFormed rows → Kept rows rows
Kept-refl rows h = record { valid = h; evolved = Evolution-refl_Later rows }

pub Kept-trans : (xs ys zs : List BatchRow) → Kept xs ys → Kept ys zs → Kept xs zs
Kept-trans xs ys zs h k = record {
  valid = k.valid;
  evolved = Evolution-trans Later AnyRow Later-trans xs ys zs h.evolved k.evolved;
}

pub Follows-Kept : (xs ys : List BatchRow) → Follows xs ys → Kept xs ys
Follows-Kept xs ys h = record {
  valid = h.valid;
  evolved = Evolution-trans Moves IsOpen Moves-Later xs ys ys h.evolved (Evolution-refl_Later ys);
}

-- An action that keeps the registry, and one that does not write to it.
pub record Keeps {A : Type 0} (m : Action Warehouse A) : Type 0 where
  pub kept : (w : Warehouse) → IsWellFormed w.batches → Kept w.batches (m w).1.batches

pub record Leaves {A : Type 0} (m : Action Warehouse A) : Type 0 where
  pub same : (w : Warehouse) → (m w).1.batches ≡ w.batches

pub Leaves-Keeps : {A : Type 0} (m : Action Warehouse A) → Leaves m → Keeps m
Leaves-Keeps m h = record {
  kept = λ w valid. subst (Kept w.batches) (sym (h.same w)) (Kept-refl w.batches valid);
}

module _ {A B : Type 0} (f : A → Action Warehouse B) where
  resume-Leaves : ((a : A) → Leaves (f a)) → (r : Result A) → Leaves (resume r f)
  resume-Leaves h (ok a) = record { same = (h a).same }
  resume-Leaves h (err e) = record { same = λ _. refl }

  resume-Keeps : ((a : A) → Keeps (f a)) → (r : Result A) → Keeps (resume r f)
  resume-Keeps h (ok a) = record { kept = (h a).kept }
  resume-Keeps h (err e) = record { kept = λ w. Kept-refl w.batches }

module _ {A B : Type 0} (m : Action Warehouse A) (f : A → Action Warehouse B) where
  pub bind-Leaves : Leaves m → ((a : A) → Leaves (f a)) → Leaves (m >>= f)
  bind-Leaves h k = record { same = λ w. (resume-Leaves f k (m w).0).same (m w).1 ∙ h.same w }

  pub bind-Keeps : Keeps m → ((a : A) → Keeps (f a)) → Keeps (m >>= f)
  bind-Keeps h k = record {
    kept = λ w valid.
        let first = h.kept w valid in
        Kept-trans w.batches (m w).1.batches ((m >>= f) w).1.batches first
          ((resume-Keeps f k (m w).0).kept (m w).1 first.valid);
  }

module _ {A B : Type 0} (m : Action Warehouse A) (n : Action Warehouse B) where
  pub then-Leaves : Leaves m → Leaves n → Leaves (m >> n)
  then-Leaves h k = bind-Leaves m (λ _. n) h (λ _. k)

  then-Keeps : Keeps m → Keeps n → Keeps (m >> n)
  then-Keeps h k = bind-Keeps m (λ _. n) h (λ _. k)

  -- What follows and does not write leaves the registry as the first step left it.
  pub after-Leaves : Leaves n → (w : Warehouse) → ((m >> n) w).1.batches ≡ (m w).1.batches
  after-Leaves k w = (resume-Leaves (λ _. n) (λ _. k) (m w).0).same (m w).1

pub lift-Leaves : {A : Type 0} (r : Result A) → Leaves (lift r)
lift-Leaves r = record { same = λ _. refl }

pub pure-Leaves : {A : Type 0} (a : A) → Leaves (pure a)
pure-Leaves a = record { same = λ _. refl }

upsert_vault-Leaves :
    (token : String → String) (f : FirstSeen) (vs : List String) → Leaves (upsert_vault token f vs)
unfolding upsert_vault
upsert_vault-Leaves token f [] = record { same = λ _. refl }
upsert_vault-Leaves token f (v ∷ vs) = record { same = λ _. refl }

module _ (s : Services) where
  index_rows-Leaves : (rows : List QuarantineRow) → Leaves (index_rows rows)
  unfolding index_rows
  index_rows-Leaves rows = record { same = λ _. refl }

  pub load_quarantine-Leaves : (keys : List String) → Leaves (load_quarantine s keys)
  unfolding load_quarantine
  load_quarantine-Leaves [] = pure-Leaves 0
  load_quarantine-Leaves (key ∷ keys) =
      bind-Leaves _ _ (lift-Leaves (s.read_quarantine key)) (λ rows.
        then-Leaves (index_rows rows) _ (index_rows-Leaves rows)
          (bind-Leaves _ _ (load_quarantine-Leaves keys) (λ loaded. record { same = λ _. refl })))

  upsert_columns-Leaves :
      (c : Contract) (b : BatchRow) (now : ℕ) (e : Entry) (columns : List String)
      → Leaves (upsert_columns s c b now e columns)
  unfolding upsert_columns
  upsert_columns-Leaves c b now e [] = pure-Leaves 0
  upsert_columns-Leaves c b now e (column ∷ columns) =
      bind-Leaves _ _
        (lift-Leaves (read_identifier_values s c (column ∷ []) e.watermark_from e.watermark_to))
        (λ values. bind-Leaves _ _ (upsert_vault-Leaves s.token _ _) (λ _.
          bind-Leaves _ _ (upsert_columns-Leaves c b now e columns)
            (λ _. record { same = λ _. refl })))

mark_written-Keeps : (id : String) (p : Written) → Keeps (mark_written id p)
mark_written-Keeps id p = record {
  kept = λ w h. Follows-Kept w.batches _ (mark_written-Follows id p w h);
}

mark_failed-Keeps : (id : String) (f : Failure) → Keeps (mark_failed id f)
mark_failed-Keeps id f = record {
  kept = λ w h. Follows-Kept w.batches _ (mark_failed-Follows id f w h);
}

mark_registered-Keeps : (id : String) (t : ℕ) → Keeps (mark_registered id t)
mark_registered-Keeps id t = record {
  kept = λ w h. Follows-Kept w.batches _ (mark_registered-Follows id t w h);
}

pub advance_watermark-Leaves :
    (system entity : String) (to : Option ℕ) (id : String) (now : ℕ)
    → Leaves (advance_watermark system entity to id now)
unfolding advance_watermark
advance_watermark-Leaves system entity to id now = record { same = λ _. refl }

batch-Leaves : (id : String) → Leaves (batch id)
unfolding batch
batch-Leaves id = record { same = λ _. refl }

pub record_drift-Leaves :
    (b : BatchRow) (os : List DriftObservation) (now : ℕ) → Leaves (record_drift b os now)
unfolding record_drift
record_drift-Leaves b os now = record { same = λ _. refl }

write_reconciliation-Leaves : (r : ReconciliationRow) → Leaves (write_reconciliation r)
unfolding write_reconciliation
write_reconciliation-Leaves r = record { same = λ _. refl }

module _ (s : Services) (date now : ℕ) where
  pub index_landed-Leaves :
      (c : Contract) (b : BatchRow) (e : Entry) (report : RegisterReport)
      → Leaves (index_landed s date now c b e report)
  unfolding index_landed
  index_landed-Leaves c b e report =
      bind-Leaves _ _ (upsert_columns-Leaves s c b now e (identifier_columns c)) (λ added.
        bind-Leaves _ _ (load_quarantine-Leaves s e.quarantine_keys) (λ loaded.
          bind-Leaves _ _ (lift-Leaves (claimed_by_source s c date))
            (λ claimed. then-Leaves _ _ (write_reconciliation-Leaves _) (pure-Leaves _))))

  pub register_failed-Keeps :
      (b : BatchRow) (e : Entry) (report : RegisterReport)
      → Keeps (register_failed s date now b e report)
  unfolding register_failed
  register_failed-Keeps b e report = then-Keeps _ _ (mark_failed-Keeps b.batch_id _) (
      Leaves-Keeps _
        (bind-Leaves _ _ (load_quarantine-Leaves s e.quarantine_keys) (λ _. pure-Leaves _)))

  pub register_landed-Keeps :
      (c : Contract) (b : BatchRow) (e : Entry) (report : RegisterReport)
      → Keeps (register_landed s date now c b e report)
  unfolding register_landed
  register_landed-Keeps c b e report = then-Keeps _ _ (mark_written-Keeps b.batch_id _) (
      then-Keeps _ _ (mark_registered-Keeps b.batch_id now) (
        Leaves-Keeps _ (
          then-Leaves _ _
            (advance_watermark-Leaves b.source_system e.entity e.watermark_to b.batch_id now)
            (index_landed-Leaves c b e report))))

  register_as-Keeps :
      (c : Contract) (b : BatchRow) (e : Entry) (report : RegisterReport)
      → Keeps (register_as s date now c b e report)
  unfolding register_as
  register_as-Keeps c b e report = elim (Bool-cases (str_eq e.status "failed")) [
    | inl q ↦ rw q (register_failed-Keeps b e report)
    | inr q ↦ rw q (register_landed-Keeps c b e report)
  ]

  pub register_entry-Keeps :
      (contracts : Dict Contract) (e : Entry) (report : RegisterReport)
      → Keeps (register_entry s date now contracts e report)
  unfolding register_entry
  register_entry-Keeps contracts e report =
      bind-Keeps _ _
        (Leaves-Keeps _ (lift-Leaves (contract_for e.entity (lookup e.entity contracts))))
        (λ c. bind-Keeps _ _ (Leaves-Keeps _ (batch-Leaves e.batch_id)) (λ found.
          bind-Keeps _ _ (Leaves-Keeps _ (lift-Leaves (present e.batch_id found))) (λ b.
            bind-Keeps _ _ (Leaves-Keeps _ (record_drift-Leaves b e.drift now)) (λ drift.
              register_as-Keeps c b e (record report { drift_rows = report.drift_rows + drift })))))
