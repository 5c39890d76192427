-- ===== src/Register/Statuses.antt =====
-- Statuses that a batch keeps once it has them, and the statements that give them.
use nordbank_data_platform.Common.{
  ℕ, String, ◌≡◌, refl, sym, ap, ◌∙◌, ◌⊎◌, true, not, Option, none, some, List, [], ◌∷◌, Any,
  str_eq_iff, Bool-cases, inl, inr, Result, ok, err, already_registered, not_written, eq_of_some-eq,
  ◌&&◌,
}
use mathlib.Core.Path.{subst}
use nordbank_data_platform.Warehouse.{
  Status, opened, written, registered, failed, BatchRow, Warehouse, is_registered, is_written,
}
use nordbank_data_platform.Warehouse.Action.{◌>>◌}
use nordbank_data_platform.Registry.{
  Failure, refused, finished, has_id, find_batch, update_where, update_batches, batch,
  mark_registered, check_registrable,
}
use nordbank_data_platform.Registry.Table.{Evolution, Later}
use nordbank_data_platform.Registry.History.{AnyRow}

-- The table has a batch with an id, in a status of which P holds.
abbrev pub HasStatus : (Status → Type 0) → String → List BatchRow → Type 0
HasStatus P id rows = Any (λ (r : BatchRow). (r.batch_id ≡ id) × P r.status) rows

abbrev pub IsFinal : Status → Type 0
IsFinal s = s ≡ registered

abbrev pub IsEnded : Status → Type 0
IsEnded s = (s ≡ failed) ⊎ (s ≡ registered)

pub Evolution-HasStatus :
    (P : Status → Type 0) (stays : (s t : Status) → P s → Later s t → P t) (id : String)
    (rows rows' : List BatchRow)
    → Evolution Later AnyRow rows rows'
    → HasStatus P id rows
    → HasStatus P id rows'
Evolution-HasStatus P stays id [] rows' e h = absurd h
Evolution-HasStatus P stays id (r ∷ rs) [] e h = absurd e
Evolution-HasStatus P stays id (r ∷ rs) (s ∷ ss) e (inl h) =
    inl (e.0.batch_id ∙ h.0, stays r.status s.status h.1 e.0.moved)
Evolution-HasStatus P stays id (r ∷ rs) (s ∷ ss) e (inr h) =
    inr (Evolution-HasStatus P stays id rs ss e.1 h)

pub IsFinal-stays : (s t : Status) → IsFinal s → Later s t → IsFinal t
IsFinal-stays s t h l = let k : Later registered t = subst (λ x. Later x t) h l in k

pub IsEnded-stays : (s t : Status) → IsEnded s → Later s t → IsEnded t
IsEnded-stays s t (inl h) l = let k : Later failed t = subst (λ x. Later x t) h l in inl k
IsEnded-stays s t (inr h) l = inr (IsFinal-stays s t h l)

finished-HasStatus :
    (id : String) (t : ℕ) (rows : List BatchRow) (r : BatchRow)
    → find_batch rows id ≡ some r
    → HasStatus IsFinal id (update_where (has_id id) (finished t) rows)
unfolding find_batch finished
finished-HasStatus id t [] r h = cc
finished-HasStatus id t (x ∷ xs) r h = elim (Bool-cases (has_id id x)) [
  | inl e ↦ rw e (inl ((str_eq_iff x.batch_id id).0 e, refl))
  | inr e ↦ inr (finished-HasStatus id t xs r (rw e at h))
]

pub refused-HasStatus :
    (id : String) (f : Failure) (rows : List BatchRow) (r : BatchRow)
    → find_batch rows id ≡ some r
    → HasStatus IsEnded id
        (update_where (λ x. has_id id x && not (is_registered x.status)) (refused f) rows)
unfolding find_batch refused
refused-HasStatus id f [] r h = cc
refused-HasStatus id f (x ∷ xs) r h = elim (Bool-cases (has_id id x)) [
  | inl e ↦ elim (Bool-cases (is_registered x.status)) [
    | inl q ↦ rw (e, q) (inl ((str_eq_iff x.batch_id id).0 e, inr (registered_status x.status q)))
    | inr q ↦ rw (e, q) (inl ((str_eq_iff x.batch_id id).0 e, inl refl))
  ]
  | inr e ↦ inr (refused-HasStatus id f xs r (rw e at h))
]
  where
    registered_status : (s : Status) → is_registered s ≡ true → s ≡ registered
    registered_status opened h = cc
    registered_status written h = cc
    registered_status registered h = refl
    registered_status failed h = cc

pub find_batch-id :
    (rows : List BatchRow) (id : String) (r : BatchRow)
    → find_batch rows id ≡ some r
    → r.batch_id ≡ id
unfolding find_batch
find_batch-id [] id r h = cc
find_batch-id (x ∷ xs) id r h = elim (Bool-cases (has_id id x)) [
  | inl e ↦
      let k : some x ≡ some r = rw e at h in
      ap (λ (y : BatchRow). y.batch_id) (sym (eq_of_some-eq k)) ∙ (str_eq_iff x.batch_id id).0 e
  | inr e ↦ find_batch-id xs id r (rw e at h)
]

registers_found :
    (id : String) (t : ℕ) (w : Warehouse) (o : Option BatchRow) (u : Unit {0})
    → find_batch w.batches id ≡ o
    → ((check_registrable id o >> update_batches (has_id id) (finished t)) w).0 ≡ ok u
    → HasStatus IsFinal id
        ((check_registrable id o >> update_batches (has_id id) (finished t)) w).1.batches
unfolding check_registrable update_batches
registers_found id t w none u e h = cc
registers_found id t w (some r) u e h = elim (Bool-cases (is_registered r.status)) [
  | inl q ↦ let k : Path (Result (Unit {0})) (err (already_registered id)) (ok u) = rw q at h in cc
  | inr q ↦ elim (Bool-cases (is_written r.status)) [
    | inl p ↦ rw (q, p) (finished-HasStatus id t w.batches r e)
    | inr p ↦ let k : Path (Result (Unit {0})) (err (not_written id)) (ok u) = rw (q, p) at h in cc
  ]
]

pub mark_registered-HasStatus :
    (id : String) (t : ℕ) (w : Warehouse) (u : Unit {0})
    → (mark_registered id t w).0 ≡ ok u
    → HasStatus IsFinal id (mark_registered id t w).1.batches
unfolding mark_registered batch
mark_registered-HasStatus id t w u h = registers_found id t w (find_batch w.batches id) u refl h
