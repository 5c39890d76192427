-- ===== src/Registry/Lifecycle.antt =====
-- What each statement of registry.py does to the batches of the registry: it keeps the table
-- well-formed, moves each batch along the lifecycle only, and leaves a registered batch as it is.
use nordbank_data_platform.Common.{
  ℕ, String, ◌≡◌, ◌≢◌, refl, inl, inr, Bool, true, false, Option, none, some, List, [], ◌∷◌, any,
  All, All-impl, Any-impl, Any-with-All, arith, Bool-cases, str_eq_iff,
}
use nordbank_data_platform.Warehouse.{
  Status, opened, written, registered, failed, BatchRow, Warehouse, is_unregistered, is_registered,
  is_written,
}
use nordbank_data_platform.Warehouse.Action.{◌>>◌, then_pure_state}
use nordbank_data_platform.Registry.{
  BatchKey, Allocation, Opening, Written, format_batch_id, choose_sequence, existing_in, has_id,
  find_batch, reopened, new_row, insert_batch, reserve, allocate, Failure, wrote, refused, finished,
  mark_written, mark_failed, update_batches, check_registrable, mark_registered, is_of_key,
}
use nordbank_data_platform.Registry.Sequence.{IsReuse, IsChoice, choose_sequence-IsChoice}
use nordbank_data_platform.Registry.Table.{
  IsWellFormed, IsNamed, Evolves, Evolution, Moves, IsOpen, Evolution-refl, update_where-Evolution,
  append-Evolution, update_where-IsWellFormed, append-IsWellFormed, only_row, find_batch-Any,
  existing_in-Any,
}

-- A table that is still well-formed, and into which `rows` has evolved by one statement.
pub record Follows (rows rows' : List BatchRow) : Type 0 where
  pub valid : IsWellFormed rows'
  pub evolved : Evolution Moves IsOpen rows rows'

pub Follows-refl : (rows : List BatchRow) → IsWellFormed rows → Follows rows rows
Follows-refl rows h = record { valid = h; evolved = Evolution-refl rows }

-- A fact about every row is one about each row of a table.
every : (P : BatchRow → Type 0) (rows : List BatchRow) → ((r : BatchRow) → P r) → All P rows
every P [] f = tt
every P (r ∷ rs) f = (f r, every P rs f)

unregistered-Moves : (s t : Status) → is_unregistered s ≡ true → t ≢ registered → Moves s t
unregistered-Moves opened t h n = n
unregistered-Moves written t h n = tt
unregistered-Moves registered t h n = cc
unregistered-Moves failed t h n = cc

-- The four changes of a row, each where the statement's condition lets it happen.
reopened-Evolves :
    (o : Opening) (r : BatchRow) → is_unregistered r.status ≡ true → Evolves Moves r (reopened o r)
unfolding reopened
reopened-Evolves o r h = record {
  batch_id = refl;
  source_system = refl;
  entity = refl;
  interval_start = refl;
  batch_sequence = refl;
  ingest_date = refl;
  contract_version = refl;
  object_prefix = refl;
  opened_at = refl;
  moved = unregistered-Moves r.status opened h (λ e. cc);
  final = λ e. absurd (ground arith);
}

wrote-Evolves :
    (p : Written) (r : BatchRow) → is_unregistered r.status ≡ true → Evolves Moves r (wrote p r)
unfolding wrote
wrote-Evolves p r h = record {
  batch_id = refl;
  source_system = refl;
  entity = refl;
  interval_start = refl;
  batch_sequence = refl;
  ingest_date = refl;
  contract_version = refl;
  object_prefix = refl;
  opened_at = refl;
  moved = unregistered-Moves r.status written h (λ e. cc);
  final = λ e. absurd (ground arith);
}

refused-Evolves :
    (f : Failure) (r : BatchRow) → is_registered r.status ≡ false → Evolves Moves r (refused f r)
unfolding refused
refused-Evolves f r h = record {
  batch_id = refl;
  source_system = refl;
  entity = refl;
  interval_start = refl;
  batch_sequence = refl;
  ingest_date = refl;
  contract_version = refl;
  object_prefix = refl;
  opened_at = refl;
  moved = fails r.status h;
  final = λ e. absurd (ground arith);
}
  where
    fails : (s : Status) → is_registered s ≡ false → Moves s failed
    fails opened h = λ e. cc
    fails written h = tt
    fails registered h = cc
    fails failed h = refl

finished-Evolves : (t : ℕ) (r : BatchRow) → r.status ≡ written → Evolves Moves r (finished t r)
unfolding finished
finished-Evolves t r h = record {
  batch_id = refl;
  source_system = refl;
  entity = refl;
  interval_start = refl;
  batch_sequence = refl;
  ingest_date = refl;
  contract_version = refl;
  object_prefix = refl;
  opened_at = refl;
  moved = rw h tt;
  final = λ e. absurd (ground arith);
}

pub mark_written-Follows :
    (id : String) (p : Written) (w : Warehouse)
    → IsWellFormed w.batches
    → Follows w.batches (mark_written id p w).1.batches
unfolding mark_written
mark_written-Follows id p w h = record {
  valid = update_where-IsWellFormed _ _ (λ r. refl) (λ r n. n) w.batches h;
  evolved =
      update_where-Evolution _ _ w.batches
        (every _ w.batches (λ r e. wrote-Evolves p r (ground arith)));
}

pub mark_failed-Follows :
    (id : String) (f : Failure) (w : Warehouse)
    → IsWellFormed w.batches
    → Follows w.batches (mark_failed id f w).1.batches
unfolding mark_failed
mark_failed-Follows id f w h = record {
  valid = update_where-IsWellFormed _ _ (λ r. refl) (λ r n. n) w.batches h;
  evolved =
      update_where-Evolution _ _ w.batches
        (every _ w.batches (λ r e. refused-Evolves f r (ground arith)));
}

is_written-eq : (s : Status) → is_written s ≡ true → s ≡ written
is_written-eq s h = ground arith

-- The row that `mark_registered` reads is the only one with its id.
registrable-Follows :
    (id : String) (t : ℕ) (w : Warehouse) (o : Option BatchRow)
    → IsWellFormed w.batches
    → find_batch w.batches id ≡ o
    → Follows w.batches
        ((check_registrable id o >> update_batches (has_id id) (finished t)) w).1.batches
unfolding check_registrable update_batches finished
registrable-Follows id t w none h e = Follows-refl w.batches h
registrable-Follows id t w (some r) h e = elim (Bool-cases (is_registered r.status)) [
  | inl done ↦ rw done (Follows-refl w.batches h)
  | inr open_still ↦ rw open_still (elim (Bool-cases (is_written r.status)) [
    | inr unwritten ↦ rw unwritten (Follows-refl w.batches h)
    | inl was_written ↦ rw was_written (record {
      valid = update_where-IsWellFormed _ _ (λ r. refl) (λ r n. n) w.batches h;
      evolved = update_where-Evolution _ _ w.batches (
          All-impl _ _ w.batches
            (λ x k m. finished-Evolves t x (k ((str_eq_iff x.batch_id id).0 m)))
            (only_row (λ x. x.status ≡ written) id w.batches h.unique
              (Any-impl _ _ w.batches (λ x q. (q.0, rw (q.1) (is_written-eq r.status was_written)))
                (find_batch-Any w.batches id r e))));
    })
  ])
]

pub mark_registered-Follows :
    (id : String) (t : ℕ) (w : Warehouse)
    → IsWellFormed w.batches
    → Follows w.batches (mark_registered id t w).1.batches
unfolding mark_registered
mark_registered-Follows id t w h = registrable-Follows id t w (find_batch w.batches id) h refl

-- The row whose sequence is reused has the batch id that is formatted from it.
named_id :
    (key : BatchKey) (s : ℕ) (r : BatchRow)
    → is_of_key key r ≡ true
    → r.batch_sequence ≡ s
    → IsNamed r
    → r.batch_id ≡ format_batch_id key.entity key.interval_start s
named_id key s r k e n =
    ground (arith, str_eq_iff r.source_system key.source_system, str_eq_iff r.entity key.entity)

reuse_unregistered :
    (key : BatchKey) (reusable : Option (List ℕ)) (s : ℕ) (rows : List BatchRow)
    → IsWellFormed rows
    → IsReuse (existing_in rows key) reusable s
    → All
        (λ (r : BatchRow).
          r.batch_id ≡ format_batch_id key.entity key.interval_start s
          → is_unregistered r.status ≡ true)
        rows
reuse_unregistered key reusable s rows h c =
    only_row (λ r. is_unregistered r.status ≡ true) _ rows h.unique
      (Any-impl _ _ rows (λ r q. (named_id key s r q.0.0 q.0.1.0 q.1, q.0.1.1.0))
        (Any-with-All _ _ rows (existing_in-Any _ rows key c.recorded) h.named))

insert_batch-Follows :
    (r : BatchRow) (w : Warehouse)
    → IsNamed r
    → r.status ≡ opened
    → IsWellFormed w.batches
    → Follows w.batches (insert_batch r w).1.batches
unfolding insert_batch
insert_batch-Follows r w n s h = elim (Bool-cases (any (has_id r.batch_id) w.batches)) [
  | inl taken ↦ rw taken (Follows-refl w.batches h)
  | inr free ↦ rw free (record {
    valid = append-IsWellFormed w.batches r free n h;
    evolved = append-Evolution w.batches r s;
  })
]

reserve-Follows :
    (key : BatchKey) (o : Opening) (choice : ℕ × Bool) (w : Warehouse)
    → IsWellFormed w.batches
    → IsChoice (existing_in w.batches key) o.reusable choice
    → Follows w.batches (reserve key o choice w).1.batches
unfolding reserve
reserve-Follows key o (s, true) w h c =
    let id = format_batch_id key.entity key.interval_start s in
    record {
      valid = update_where-IsWellFormed _ _ (λ r. refl) (λ r n. n) w.batches h;
      evolved = update_where-Evolution _ _ w.batches (
          All-impl _ _ w.batches
            (λ r k m. reopened-Evolves o r (k ((str_eq_iff r.batch_id id).0 m)))
            (reuse_unregistered key o.reusable s w.batches h c));
    }
reserve-Follows key o (s, false) w h c =
    let id = format_batch_id key.entity key.interval_start s in
    let row = new_row key o id s in
    let a : Allocation = record { batch_id = id; sequence = s; reused = false } in
    rw (then_pure_state (insert_batch row) a w) (insert_batch-Follows row w refl refl h)

pub allocate-Follows :
    (key : BatchKey) (o : Opening) (w : Warehouse)
    → IsWellFormed w.batches
    → Follows w.batches (allocate key o w).1.batches
unfolding allocate
allocate-Follows key o w h =
    reserve-Follows key o (choose_sequence (existing_in w.batches key) o.reusable) w h
      (choose_sequence-IsChoice (existing_in w.batches key) o.reusable)
