-- ===== src/Registry/Table.antt =====
-- Lemmas on the rows of `ops.batch_registry`: what an update, an insertion and a primary key do.
use nordbank_data_platform.Common.{
  ℕ, String, ◌≡◌, ◌≢◌, refl, sym, ◌∙◌, ◌⊎◌, inl, inr, Bool, true, false, List, [], ◌∷◌, ◌++◌, map,
  any, filter, filter-Any, map-Any, All, Any, All-impl, arith, Bool-cases, str_eq_iff,
  eq_of_some-eq, if◌then◌else◌, some, leb,
}
use nordbank_data_platform.Warehouse.{Status, opened, written, registered, failed, BatchRow}
use nordbank_data_platform.Registry.{
  BatchKey, format_batch_id, has_id, update_where, find_batch, is_of_key, sequence_and_status,
  insert_by_sequence, by_sequence, existing_in,
}

-- The primary key: no two rows have one batch id.
abbrev pub Unique : List BatchRow → Type 0
Unique [] = Unit
Unique (r ∷ rs) = All (λ (x : BatchRow). r.batch_id ≢ x.batch_id) rs × Unique rs

-- A row's batch id is the one that its entity, interval and sequence give.
abbrev pub IsNamed : BatchRow → Type 0
IsNamed r = r.batch_id ≡ format_batch_id r.entity r.interval_start r.batch_sequence

pub record IsWellFormed (rows : List BatchRow) : Type 0 where
  pub unique : Unique rows
  pub named : All IsNamed rows

-- What a change of a row never touches, how its status moved, and that a registered row is final.
pub record Evolves (R : Status → Status → Type 0) (r s : BatchRow) : Type 0 where
  pub batch_id : s.batch_id ≡ r.batch_id
  pub source_system : s.source_system ≡ r.source_system
  pub entity : s.entity ≡ r.entity
  pub interval_start : s.interval_start ≡ r.interval_start
  pub batch_sequence : s.batch_sequence ≡ r.batch_sequence
  pub ingest_date : s.ingest_date ≡ r.ingest_date
  pub contract_version : s.contract_version ≡ r.contract_version
  pub object_prefix : s.object_prefix ≡ r.object_prefix
  pub opened_at : s.opened_at ≡ r.opened_at
  pub moved : R r.status s.status
  pub final : r.status ≡ registered → s ≡ r

-- A table that has grown at its end, each old row having evolved in place.
abbrev pub Evolution :
    (Status → Status → Type 0) → (BatchRow → Type 0) → List BatchRow → List BatchRow → Type 0
Evolution R N [] rows = All N rows
Evolution R N (r ∷ rs) [] = ⊥
Evolution R N (r ∷ rs) (s ∷ ss) = Evolves R r s × Evolution R N rs ss

-- The statuses that one statement moves a batch between.
abbrev pub Moves : Status → Status → Type 0
Moves opened s = s ≢ registered
Moves written s = Unit
Moves registered s = s ≡ registered
Moves failed s = s ≡ failed

-- The statuses that a history moves a batch between.
abbrev pub Later : Status → Status → Type 0
Later opened s = Unit
Later written s = Unit
Later registered s = s ≡ registered
Later failed s = s ≡ failed

abbrev pub IsOpen : BatchRow → Type 0
IsOpen r = r.status ≡ opened

Moves-refl : (s : Status) → Moves s s
Moves-refl opened = λ e. cc
Moves-refl written = tt
Moves-refl registered = refl
Moves-refl failed = refl

pub Evolves-refl : (r : BatchRow) → Evolves Moves r r
Evolves-refl r = record {
  batch_id = refl;
  source_system = refl;
  entity = refl;
  interval_start = refl;
  batch_sequence = refl;
  ingest_date = refl;
  contract_version = refl;
  object_prefix = refl;
  opened_at = refl;
  moved = Moves-refl r.status;
  final = λ _. refl;
}

pub Evolution-refl : (rows : List BatchRow) → Evolution Moves IsOpen rows rows
Evolution-refl [] = tt
Evolution-refl (r ∷ rs) = (Evolves-refl r, Evolution-refl rs)

-- An update under which every row that it hits evolves.
pub update_where-Evolution :
    (test : BatchRow → Bool) (f : BatchRow → BatchRow) (rows : List BatchRow)
    → All (λ r. test r ≡ true → Evolves Moves r (f r)) rows
    → Evolution Moves IsOpen rows (update_where test f rows)
update_where-Evolution test f [] h = tt
update_where-Evolution test f (r ∷ rs) h = elim (Bool-cases (test r)) [
  | inl e ↦ rw e (h.0 e, update_where-Evolution test f rs h.1)
  | inr e ↦ rw e (Evolves-refl r, update_where-Evolution test f rs h.1)
]

pub append-Evolution :
    (rows : List BatchRow) (r : BatchRow)
    → r.status ≡ opened
    → Evolution Moves IsOpen rows (rows ++ r ∷ [])
append-Evolution [] r h = (h, tt)
append-Evolution (s ∷ ss) r h = (Evolves-refl s, append-Evolution ss r h)

module _ (test : BatchRow → Bool) (f : BatchRow → BatchRow)
    (ids : (r : BatchRow) → (f r).batch_id ≡ r.batch_id)
    (names : (r : BatchRow) → IsNamed r → IsNamed (f r)) where
  updated_id : (r : BatchRow) → (if test r then f r else r).batch_id ≡ r.batch_id
  updated_id r = elim (Bool-cases (test r)) [ inl e ↦ rw e (ids r) | inr e ↦ rw e refl ]

  updated_name : (r : BatchRow) → IsNamed r → IsNamed (if test r then f r else r)
  updated_name r h = elim (Bool-cases (test r)) [ inl e ↦ rw e (names r h) | inr e ↦ rw e h ]

  others_ids :
      (id : String) (rows : List BatchRow)
      → All (λ (x : BatchRow). id ≢ x.batch_id) rows
      → All (λ (x : BatchRow). id ≢ x.batch_id) (update_where test f rows)
  others_ids id [] h = tt
  others_ids id (r ∷ rs) h = ((λ e. h.0 (e ∙ updated_id r)), others_ids id rs h.1)

  update_where-Unique : (rows : List BatchRow) → Unique rows → Unique (update_where test f rows)
  update_where-Unique [] h = tt
  update_where-Unique (r ∷ rs) h =
      (rw (updated_id r) (others_ids r.batch_id rs h.0), update_where-Unique rs h.1)

  update_where-IsNamed :
      (rows : List BatchRow) → All IsNamed rows → All IsNamed (update_where test f rows)
  update_where-IsNamed [] h = tt
  update_where-IsNamed (r ∷ rs) h = (updated_name r h.0, update_where-IsNamed rs h.1)

  pub update_where-IsWellFormed :
      (rows : List BatchRow) → IsWellFormed rows → IsWellFormed (update_where test f rows)
  update_where-IsWellFormed rows h = record {
    unique = update_where-Unique rows h.unique;
    named = update_where-IsNamed rows h.named;
  }

append-others :
    (id : String) (rows : List BatchRow) (r : BatchRow)
    → id ≢ r.batch_id
    → All (λ (x : BatchRow). id ≢ x.batch_id) rows
    → All (λ (x : BatchRow). id ≢ x.batch_id) (rows ++ r ∷ [])
append-others id [] r n h = (n, tt)
append-others id (x ∷ xs) r n h = (h.0, append-others id xs r n h.1)

append-Unique :
    (rows : List BatchRow) (r : BatchRow)
    → any (has_id r.batch_id) rows ≡ false
    → Unique rows
    → Unique (rows ++ r ∷ [])
append-Unique [] r n h = (tt, tt)
append-Unique (x ∷ xs) r n h = (
  append-others x.batch_id xs r (ground (arith, str_eq_iff x.batch_id r.batch_id)) h.0,
  append-Unique xs r (ground arith) h.1,
)

append-IsNamed :
    (rows : List BatchRow) (r : BatchRow)
    → IsNamed r
    → All IsNamed rows
    → All IsNamed (rows ++ r ∷ [])
append-IsNamed [] r n h = (n, tt)
append-IsNamed (x ∷ xs) r n h = (h.0, append-IsNamed xs r n h.1)

pub append-IsWellFormed :
    (rows : List BatchRow) (r : BatchRow)
    → any (has_id r.batch_id) rows ≡ false
    → IsNamed r
    → IsWellFormed rows
    → IsWellFormed (rows ++ r ∷ [])
append-IsWellFormed rows r fresh n h = record {
  unique = append-Unique rows r fresh h.unique;
  named = append-IsNamed rows r n h.named;
}

-- Under the primary key, what holds of one row with an id holds of every row with it.
id_elsewhere :
    (P : BatchRow → Type 0) (id x : String) (rows : List BatchRow)
    → x ≡ id
    → All (λ (r : BatchRow). x ≢ r.batch_id) rows
    → Any (λ (r : BatchRow). (r.batch_id ≡ id) × P r) rows
    → ⊥
id_elsewhere P id x [] e h m = absurd m
id_elsewhere P id x (r ∷ rs) e h (inl m) = h.0 (e ∙ sym m.0)
id_elsewhere P id x (r ∷ rs) e h (inr m) = id_elsewhere P id x rs e h.1 m

pub only_row :
    (P : BatchRow → Type 0) (id : String) (rows : List BatchRow)
    → Unique rows
    → Any (λ (r : BatchRow). (r.batch_id ≡ id) × P r) rows
    → All (λ (r : BatchRow). r.batch_id ≡ id → P r) rows
only_row P id [] u m = tt
only_row P id (r ∷ rs) u (inl m) =
    ((λ _. m.1), All-impl _ _ rs (λ x n e. absurd (n (m.0 ∙ sym e))) u.0)
only_row P id (r ∷ rs) u (inr m) =
    ((λ e. absurd (id_elsewhere P id r.batch_id rs e u.0 m)), only_row P id rs u.1 m)

pub find_batch-Any :
    (rows : List BatchRow) (id : String) (r : BatchRow)
    → find_batch rows id ≡ some r
    → Any (λ (x : BatchRow). (x.batch_id ≡ id) × (x ≡ r)) rows
unfolding find_batch
find_batch-Any [] id r h = cc
find_batch-Any (x ∷ xs) id r h = elim (Bool-cases (has_id id x)) [
  | inl e ↦ inl ((str_eq_iff x.batch_id id).0 e, eq_of_some-eq (rw e at h))
  | inr e ↦ inr (find_batch-Any xs id r (rw e at h))
]

-- What `existing_batches` lists stands in the table, under its key.
insert_by_sequence-Any :
    (P : ℕ × Status → Type 0) (p : ℕ × Status) (ps : List (ℕ × Status))
    → Any P (insert_by_sequence p ps)
    → P p ⊎ Any P ps
unfolding insert_by_sequence
insert_by_sequence-Any P p [] h = h
insert_by_sequence-Any P p (q ∷ qs) h = elim (Bool-cases (leb p.0 q.0)) [
  | inl e ↦ rw e at h
  | inr e ↦
      let k : Any P (q ∷ insert_by_sequence p qs) = rw e at h in
      elim k [ inl m ↦ inr (inl m) | inr m ↦ later (insert_by_sequence-Any P p qs m) ]
]
  where
    later : P p ⊎ Any P qs → P p ⊎ (P q ⊎ Any P qs)
    later (inl m) = inl m
    later (inr m) = inr (inr m)

by_sequence-Any :
    (P : ℕ × Status → Type 0) (ps : List (ℕ × Status)) → Any P (by_sequence ps) → Any P ps
unfolding by_sequence
by_sequence-Any P [] h = h
by_sequence-Any P (p ∷ ps) h = elim (insert_by_sequence-Any P p (by_sequence ps) h) [
  | inl m ↦ inl m
  | inr m ↦ inr (by_sequence-Any P ps m)
]

pub existing_in-Any :
    (P : ℕ × Status → Type 0) (rows : List BatchRow) (key : BatchKey)
    → Any P (existing_in rows key)
    → Any (λ (r : BatchRow). (is_of_key key r ≡ true) × P (sequence_and_status r)) rows
unfolding existing_in
existing_in-Any P rows key h = filter-Any _ (is_of_key key) rows (
    map-Any P sequence_and_status (filter (is_of_key key) rows)
      (by_sequence-Any P (map sequence_and_status (filter (is_of_key key) rows)) h))
