-- ===== src/Phases/Divided.antt =====
-- Which entities of a run the open step opens a batch for, and which it passes over.
use nordbank_data_platform.Common.{
  ℕ, String, ◌≡◌, refl, ◌∙◌, ◌↔◌, inl, inr, true, false, Bool, List, [], ◌∷◌, ◌++◌, map, filter,
  any, All, Any, Any-impl, Any-with-All, Any_of_any, filter-All, Bool-cases, arith, str_eq_iff,
  ==_iff, ◌==◌, ok, ok-injective,
}
use nordbank_data_platform.Validation.Schema.{Contract}
use nordbank_data_platform.Warehouse.{
  Status, opened, written, registered, failed, BatchRow, Warehouse, is_registered,
}
use nordbank_data_platform.Contracts.{VersionChains, chain_of, find_body, body}
use nordbank_data_platform.Registry.{
  BatchKey, Opening, is_of_key, existing_in, sequence_and_status, update_where, update_batches,
  insert_batch, has_id, reopened, new_row, format_batch_id, choose_sequence, reserve, allocate,
  existing_batches,
}
use nordbank_data_platform.Registry.Table.{Evolution, Later, existing_in-Any}
use nordbank_data_platform.Registry.History.{AnyRow}
use nordbank_data_platform.Register.Statuses.{IsFinal-stays}
use nordbank_data_platform.Phases.{Opened, has_registered}
use nordbank_data_platform.Phases.Closing.Reported.{by_sequence-All, map-All}

-- The row is a registered batch of the source, the entity and the interval.
abbrev pub IsRegisteredOf : BatchKey → BatchRow → Type 0
IsRegisteredOf key r =
    (r.source_system ≡ key.source_system)
    × (r.entity ≡ key.entity)
    × (r.interval_start ≡ key.interval_start)
    × (r.status ≡ registered)

abbrev pub HasRegistered : BatchKey → List BatchRow → Type 0
HasRegistered key rows = Any (IsRegisteredOf key) rows

-- The entities of a run, in their order: each is passed over, where a registered batch of its
-- interval stands, or has a batch opened, where none does. The key is that of a version of the
-- entity's contract.
pub data Divided (chains : VersionChains) (start : ℕ) (rows : List BatchRow)
    : List String → List Opened → List String → Type 0 where
  nothing : Divided chains start rows [] [] []
  passing :
      (entity : String) (c : Contract) (es : List String) (os : List Opened) (ks : List String)
      → Any (λ (x : Contract). x ≡ c) (chain_of entity chains)
      → HasRegistered
          (record { source_system = c.source_system; entity = entity; interval_start = start })
          rows
      → Divided chains start rows es os ks
      → Divided chains start rows (entity ∷ es) os (entity ∷ ks)
  opening :
      (entity : String) (c : Contract) (o : Opened) (es : List String) (os : List Opened)
      (ks : List String)
      → Any (λ (x : Contract). x ≡ c) (chain_of entity chains)
      → ¬ HasRegistered
          (record { source_system = c.source_system; entity = entity; interval_start = start })
          rows
      → o.entity ≡ entity
      → Divided chains start rows es os ks
      → Divided chains start rows (entity ∷ es) (o ∷ os) ks

of_key_iff :
    (key : BatchKey) (r : BatchRow)
    → (is_of_key key r ≡ true) ↔ (
        (r.source_system ≡ key.source_system)
        × (r.entity ≡ key.entity)
        × (r.interval_start ≡ key.interval_start))
of_key_iff key r = ground (
  arith,
  str_eq_iff r.source_system key.source_system,
  str_eq_iff r.entity key.entity,
  ==_iff r.interval_start key.interval_start,
)

registered_iff : (s : Status) → (is_registered s ≡ true) ↔ (s ≡ registered)
registered_iff opened = ((λ h. cc), (λ h. cc))
registered_iff written = ((λ h. cc), (λ h. cc))
registered_iff registered = ((λ _. refl), (λ _. refl))
registered_iff failed = ((λ h. cc), (λ h. cc))

pub has_registered-HasRegistered :
    (key : BatchKey) (rows : List BatchRow)
    → has_registered (existing_in rows key) ≡ true
    → HasRegistered key rows
has_registered-HasRegistered key rows h =
    Any-impl _ _ rows
      (λ r k. let of_key = (of_key_iff key r).0 k.0 in (of_key.0, of_key.1, of_key.2, k.1))
      (existing_in-Any (λ p. p.1 ≡ registered) rows key
        (Any_of_any (λ (p : ℕ × Status). p.1 ≡ registered) (λ p. is_registered p.1)
          (λ p. registered_iff p.1) (existing_in rows key) h))

none_of_any :
    (p : ℕ × Status → Bool) (xs : List (ℕ × Status)) → any p xs ≡ false → All (λ x. p x ≡ false) xs
none_of_any p [] h = tt
none_of_any p (x ∷ xs) h = elim (Bool-cases (p x)) [
  | inl e ↦ let k = rw e at h in cc
  | inr e ↦ (e, none_of_any p xs (rw e at h))
]

nowhere : (rows : List BatchRow) → Any (λ (r : BatchRow). ⊥) rows → ⊥
nowhere [] h = h
nowhere (r ∷ rs) (inl h) = h
nowhere (r ∷ rs) (inr h) = nowhere rs h

pub has_registered-none :
    (key : BatchKey) (rows : List BatchRow)
    → has_registered (existing_in rows key) ≡ false
    → ¬ HasRegistered key rows
unfolding existing_in
has_registered-none key rows h there =
    let test = λ (p : ℕ × Status). is_registered p.1 in
    let listed =
      by_sequence-All (λ p. is_registered p.1 ≡ false)
        (map sequence_and_status (filter (is_of_key key) rows)) (none_of_any test _ h) in
    let each =
      filter-All (λ (r : BatchRow). is_registered r.status ≡ false) (is_of_key key) rows
        (map-All (λ p. is_registered p.1 ≡ false) sequence_and_status (filter (is_of_key key) rows)
          listed) in
    nowhere rows (
      Any-impl _ (λ _. ⊥) rows
        (λ r k.
          let shut = k.1 ((of_key_iff key r).1 (k.0.0, k.0.1, k.0.2)) in
          let is = (registered_iff r.status).1 k.0.3 in cc)
        (Any-with-All (IsRegisteredOf key) _ rows there each))

-- A registered batch stays so.
pub Evolution-HasRegistered :
    (key : BatchKey) (rows rows' : List BatchRow)
    → Evolution Later AnyRow rows rows'
    → HasRegistered key rows
    → HasRegistered key rows'
Evolution-HasRegistered key [] rows' e h = absurd h
Evolution-HasRegistered key (r ∷ rs) [] e h = absurd e
Evolution-HasRegistered key (r ∷ rs) (s ∷ ss) e (inl h) = inl (
  e.0.source_system ∙ h.0,
  e.0.entity ∙ h.1,
  e.0.interval_start ∙ h.2,
  IsFinal-stays r.status s.status h.3 e.0.moved,
)
Evolution-HasRegistered key (r ∷ rs) (s ∷ ss) e (inr h) =
    inr (Evolution-HasRegistered key rs ss e.1 h)

-- An allocation registers no batch.
reopened-HasRegistered :
    (key : BatchKey) (id : String) (o : Opening) (rows : List BatchRow)
    → HasRegistered key (update_where (has_id id) (reopened o) rows)
    → HasRegistered key rows
unfolding reopened
reopened-HasRegistered key id o [] h = absurd h
reopened-HasRegistered key id o (r ∷ rs) (inr h) = inr (reopened-HasRegistered key id o rs h)
reopened-HasRegistered key id o (r ∷ rs) (inl h) = elim (Bool-cases (has_id id r)) [
  | inl e ↦ let k = rw e at h in let shut = k.3 in cc
  | inr e ↦ inl (rw e at h)
]

append-HasRegistered :
    (key : BatchKey) (rows : List BatchRow) (r : BatchRow)
    → r.status ≡ opened
    → HasRegistered key (rows ++ r ∷ [])
    → HasRegistered key rows
append-HasRegistered key [] r e (inl h) = let shut = h.3 in cc
append-HasRegistered key [] r e (inr h) = absurd h
append-HasRegistered key (x ∷ xs) r e (inl h) = inl h
append-HasRegistered key (x ∷ xs) r e (inr h) = inr (append-HasRegistered key xs r e h)

reserve-HasRegistered :
    (key k : BatchKey) (o : Opening) (choice : ℕ × Bool) (w : Warehouse)
    → HasRegistered k (reserve key o choice w).1.batches
    → HasRegistered k w.batches
unfolding reserve update_batches insert_batch new_row
reserve-HasRegistered key k o (sequence, true) w h =
    reopened-HasRegistered k (format_batch_id key.entity key.interval_start sequence) o w.batches h
reserve-HasRegistered key k o (sequence, false) w h =
    elim (Bool-cases
      (any (has_id (format_batch_id key.entity key.interval_start sequence)) w.batches)) [
        | inl e ↦ rw e at h
        | inr e ↦
            append-HasRegistered k w.batches
              (new_row key o (format_batch_id key.entity key.interval_start sequence) sequence) refl
              (rw e at h)
      ]

pub allocate-HasRegistered :
    (key k : BatchKey) (o : Opening) (w : Warehouse)
    → HasRegistered k (allocate key o w).1.batches
    → HasRegistered k w.batches
unfolding allocate existing_batches
allocate-HasRegistered key k o w h =
    reserve-HasRegistered key k o (choose_sequence (existing_in w.batches key) o.reusable) w h

-- What `body` gives is of the entity's chain.
find_body-InChain :
    (cs : List Contract) (entity : String) (version : ℕ) (w : Warehouse) (c : Contract)
    → (find_body cs entity version w).0 ≡ ok c
    → Any (λ (x : Contract). x ≡ c) cs
unfolding find_body
find_body-InChain [] entity version w c h = cc
find_body-InChain (d ∷ ds) entity version w c h =
    elim (Bool-cases (d.contract_version == version)) [
      | inl e ↦ inl (ok-injective (rw e at h))
      | inr e ↦ inr (find_body-InChain ds entity version w c (rw e at h))
    ]

pub body-InChain :
    (chains : VersionChains) (entity : String) (version : ℕ) (w : Warehouse) (c : Contract)
    → (body chains entity version w).0 ≡ ok c
    → Any (λ (x : Contract). x ≡ c) (chain_of entity chains)
unfolding body
body-InChain chains entity version w c h =
    find_body-InChain (chain_of entity chains) entity version w c h
