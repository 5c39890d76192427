-- ===== src/Registry/History.antt =====
-- Any sequence of the registry's statements, in any order and with any arguments: a statement that
-- raises ends alone, and the next one goes on from the table as it is.
use nordbank_data_platform.Common.{ℕ, String, ◌≡◌, refl, ◌∙◌, Option, List, [], ◌∷◌, All, sym}
use nordbank_data_platform.Warehouse.{
  Status, opened, written, registered, failed, BatchRow, Warehouse,
}
use nordbank_data_platform.Registry.{
  BatchKey, Opening, Written, Failure, allocate, mark_written, mark_failed, mark_registered,
  advance_watermark,
}
use nordbank_data_platform.Registry.Table.{IsWellFormed, Evolves, Evolution, Moves, Later, IsOpen}
use nordbank_data_platform.Registry.Lifecycle.{
  Follows, Follows-refl, mark_written-Follows, mark_failed-Follows, mark_registered-Follows,
  allocate-Follows,
}

pub data Statement : Type 0 where
  allocates : BatchKey → Opening → Statement
  writes : String → Written → Statement
  fails : String → Failure → Statement
  registers : String → ℕ → Statement
  advances : String → String → Option ℕ → String → ℕ → Statement

-- The warehouse after one statement.
unfoldable pub after : Statement → Warehouse → Warehouse
after (allocates key o) w = (allocate key o w).1
after (writes id p) w = (mark_written id p w).1
after (fails id f) w = (mark_failed id f w).1
after (registers id t) w = (mark_registered id t w).1
after (advances system entity to id now) w = (advance_watermark system entity to id now w).1

unfoldable pub after_all : List Statement → Warehouse → Warehouse
unfolding after
after_all [] w = w
after_all (s ∷ ss) w = after_all ss (after s w)

-- One statement keeps the table well-formed and moves each batch one step along its lifecycle.
pub after-Follows :
    (s : Statement) (w : Warehouse) → IsWellFormed w.batches → Follows w.batches (after s w).batches
unfolding after advance_watermark
after-Follows (allocates key o) w h = allocate-Follows key o w h
after-Follows (writes id p) w h = mark_written-Follows id p w h
after-Follows (fails id f) w h = mark_failed-Follows id f w h
after-Follows (registers id t) w h = mark_registered-Follows id t w h
after-Follows (advances system entity to id now) w h = Follows-refl w.batches h

abbrev pub AnyRow : BatchRow → Type 0
AnyRow r = Unit

pub Moves-Later : (s t u : Status) → Moves s t → Later t u → Later s u
Moves-Later opened t u m l = tt
Moves-Later written t u m l = tt
Moves-Later registered t u m l = later_registered (sym m) l
  where
    later_registered : {s : Status} → registered ≡ s → Later s u → u ≡ registered
    later_registered e l = rw (← e) at l
Moves-Later failed t u m l = later_failed (sym m) l
  where
    later_failed : {s : Status} → failed ≡ s → Later s u → u ≡ failed
    later_failed e l = rw (← e) at l

pub Later-trans : (s t u : Status) → Later s t → Later t u → Later s u
Later-trans opened t u m l = tt
Later-trans written t u m l = tt
Later-trans registered t u m l = Moves-Later registered t u m l
Later-trans failed t u m l = Moves-Later failed t u m l

Later-refl : (s : Status) → Later s s
Later-refl opened = tt
Later-refl written = tt
Later-refl registered = refl
Later-refl failed = refl

pub Evolution-refl_Later : (rows : List BatchRow) → Evolution Later AnyRow rows rows
Evolution-refl_Later [] = tt
Evolution-refl_Later (r ∷ rs) = (
  record {
    batch_id = refl;
    source_system = refl;
    entity = refl;
    interval_start = refl;
    batch_sequence = refl;
    ingest_date = refl;
    contract_version = refl;
    object_prefix = refl;
    opened_at = refl;
    moved = Later-refl r.status;
    final = λ _. refl;
  },
  Evolution-refl_Later rs,
)

all_rows : (rows : List BatchRow) → All AnyRow rows
all_rows [] = tt
all_rows (r ∷ rs) = (tt, all_rows rs)

-- A change of a table followed by a history of it.
module _ (R : Status → Status → Type 0) (N : BatchRow → Type 0)
    (compose : (s t u : Status) → R s t → Later t u → Later s u) where
  Evolves-trans : (r s t : BatchRow) → Evolves R r s → Evolves Later s t → Evolves Later r t
  Evolves-trans r s t e f = record {
    batch_id = f.batch_id ∙ e.batch_id;
    source_system = f.source_system ∙ e.source_system;
    entity = f.entity ∙ e.entity;
    interval_start = f.interval_start ∙ e.interval_start;
    batch_sequence = f.batch_sequence ∙ e.batch_sequence;
    ingest_date = f.ingest_date ∙ e.ingest_date;
    contract_version = f.contract_version ∙ e.contract_version;
    object_prefix = f.object_prefix ∙ e.object_prefix;
    opened_at = f.opened_at ∙ e.opened_at;
    moved = compose r.status s.status t.status e.moved f.moved;
    final = λ h. f.final (rw (e.final h) h) ∙ e.final h;
  }

  pub Evolution-trans :
      (xs ys zs : List BatchRow)
      → Evolution R N xs ys
      → Evolution Later AnyRow ys zs
      → Evolution Later AnyRow xs zs
  Evolution-trans [] ys zs e f = all_rows zs
  Evolution-trans (x ∷ xs) [] zs e f = absurd e
  Evolution-trans (x ∷ xs) (y ∷ ys) [] e f = absurd f
  Evolution-trans (x ∷ xs) (y ∷ ys) (z ∷ zs) e f =
      (Evolves-trans x y z e.0 f.0, Evolution-trans xs ys zs e.1 f.1)

-- After any statements the table is well-formed, every batch of before is there with its identity
-- unchanged, a failed one has failed, and a registered one is the same row.
pub after_all-Evolution :
    (ss : List Statement) (w : Warehouse)
    → IsWellFormed w.batches
    → IsWellFormed (after_all ss w).batches
      × Evolution Later AnyRow w.batches (after_all ss w).batches
unfolding after_all
after_all-Evolution [] w h = (h, Evolution-refl_Later w.batches)
after_all-Evolution (s ∷ ss) w h =
    let step = after-Follows s w h in
    let (valid, rest) = after_all-Evolution ss (after s w) step.valid in
    (
      valid,
      Evolution-trans Moves IsOpen Moves-Later w.batches (after s w).batches
          (after_all ss (after s w)).batches step.evolved rest,
    )
