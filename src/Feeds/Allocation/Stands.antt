-- ===== src/Feeds/Allocation/Stands.antt =====
-- The batches that a feed allocates stand in the registry, which has evolved along its lifecycle.
use nordbank_data_platform.Common.{
  String, ◌≡◌, refl, sym, ap, ◌∙◌, Option, none, some, List, [], ◌∷◌, All, All-impl, Any-impl, ok,
  ok-injective, Bool,
}
use mathlib.Core.Path.{subst}
use nordbank_data_platform.Common.Time.{date_of}
use nordbank_data_platform.Validation.Schema.{Contract}
use nordbank_data_platform.Warehouse.{BatchRow, Warehouse}
use nordbank_data_platform.Warehouse.Action.{pure, lift, resume, bind-ok}
use nordbank_data_platform.Contracts.{VersionChains, chain_of, select, body}
use nordbank_data_platform.Registry.{find_batch, allocate, batch}
use nordbank_data_platform.Registry.Table.{IsWellFormed, find_batch-Any}
use nordbank_data_platform.Register.Frame.{
  Kept, Keeps, Leaves-Keeps, bind-Keeps, bind-Leaves, lift-Leaves, pure-Leaves,
}
use nordbank_data_platform.Register.Statuses.{HasStatus, Evolution-HasStatus}
use nordbank_data_platform.Phases.{current_of, read_back}
use nordbank_data_platform.Phases.Frame.{select-Leaves, body-Leaves, batch-Leaves, allocate-Keeps}
use nordbank_data_platform.Feeds.Allocation.{
  Placement, OpenedBatch, or_else, opening_for, key_for, opened_batch, allocate_under, allocate_one,
  allocate_each,
}

-- The batch has a row of the registry.
abbrev pub StandsIn : List BatchRow → OpenedBatch → Type 0
StandsIn rows b = HasStatus (λ _. Unit) b.opened.batch_id rows

pub Kept-StandsIn :
    (rows rows' : List BatchRow) (bs : List OpenedBatch)
    → Kept rows rows'
    → All (StandsIn rows) bs
    → All (StandsIn rows') bs
Kept-StandsIn rows rows' bs k h =
    All-impl (StandsIn rows) (StandsIn rows') bs
      (λ b m.
        Evolution-HasStatus (λ _. Unit) (λ s t u l. tt) b.opened.batch_id rows rows' k.evolved m)
      h

read_back-StandsIn :
    (entity id : String) (reused : Bool) (w : Warehouse) (found : Option BatchRow) (b : OpenedBatch)
    → find_batch w.batches id ≡ found
    → (resume (read_back id found) (λ row. pure (opened_batch entity reused row)) w).0 ≡ ok b
    → StandsIn
        (resume (read_back id found) (λ row. pure (opened_batch entity reused row)) w).1.batches
        b
read_back-StandsIn entity id reused w none b e h = cc
read_back-StandsIn entity id reused w (some row) b e h =
    subst (StandsIn w.batches) (ok-injective h) (
      Any-impl _ _ w.batches (λ x m. (ap (λ (y : BatchRow). y.batch_id) m.1, tt))
        (find_batch-Any w.batches id row e))

allocate_under-StandsIn :
    (entity : String) (p : Placement) (c : Contract) (w : Warehouse) (b : OpenedBatch)
    → (allocate_under entity p c w).0 ≡ ok b
    → StandsIn (allocate_under entity p c w).1.batches b
unfolding allocate_under batch
allocate_under-StandsIn entity p c w b h =
    let one = bind-ok (allocate (key_for c entity p) (opening_for c p)) _ w b h in
    let v : Warehouse = (allocate (key_for c entity p) (opening_for c p) w).1 in
    subst (λ (x : Warehouse). StandsIn x.batches b) (sym one.state)
      (read_back-StandsIn entity one.value.batch_id one.value.reused v
        (find_batch v.batches one.value.batch_id) b refl one.rest)

allocate_under-Keeps :
    (entity : String) (p : Placement) (c : Contract) → Keeps (allocate_under entity p c)
unfolding allocate_under
allocate_under-Keeps entity p c =
    bind-Keeps _ _ (allocate-Keeps (key_for c entity p) (opening_for c p)) (λ allocation.
      bind-Keeps _ _ (Leaves-Keeps _ (batch-Leaves allocation.batch_id)) (λ found. Leaves-Keeps _ (
        bind-Leaves _ _ (lift-Leaves (read_back allocation.batch_id found))
          (λ row. pure-Leaves (opened_batch entity allocation.reused row)))))

module _ (chains : VersionChains) where
  pub allocate_one-Keeps : (entity : String) (p : Placement) → Keeps (allocate_one chains entity p)
  unfolding allocate_one
  allocate_one-Keeps entity p =
      bind-Keeps _ _ (Leaves-Keeps _ (lift-Leaves (current_of (chain_of entity chains))))
        (λ current.
          bind-Keeps _ _
            (Leaves-Keeps _ (
              select-Leaves current.source_system entity
                (or_else p.selected_on (date_of p.interval_start))))
            (λ version.
              bind-Keeps _ _ (Leaves-Keeps _ (body-Leaves chains entity version))
                (λ c. allocate_under-Keeps entity p c)))

  pub allocate_one-StandsIn :
      (entity : String) (p : Placement) (w : Warehouse) (b : OpenedBatch)
      → (allocate_one chains entity p w).0 ≡ ok b
      → StandsIn (allocate_one chains entity p w).1.batches b
  unfolding allocate_one
  allocate_one-StandsIn entity p w b h =
      let one = bind-ok (lift (current_of (chain_of entity chains))) _ w b h in
      let day = or_else p.selected_on (date_of p.interval_start) in
      let two = bind-ok (select one.value.source_system entity day) _ w b one.rest in
      let v : Warehouse = (select one.value.source_system entity day w).1 in
      let three = bind-ok (body chains entity two.value) _ v b two.rest in
      let u : Warehouse = (body chains entity two.value v).1 in
      subst (λ (x : Warehouse). StandsIn x.batches b) (sym (one.state ∙ two.state ∙ three.state))
        (allocate_under-StandsIn entity p three.value u b three.rest)

  pub allocate_each-Keeps :
      (entities : List String) (placed : String → Placement)
      → Keeps (allocate_each chains entities placed)
  unfolding allocate_each
  allocate_each-Keeps [] placed = Leaves-Keeps _ (pure-Leaves [])
  allocate_each-Keeps (entity ∷ entities) placed =
      bind-Keeps _ _ (allocate_one-Keeps entity (placed entity)) (λ b.
        bind-Keeps _ _ (allocate_each-Keeps entities placed)
          (λ rest. Leaves-Keeps _ (pure-Leaves (b ∷ rest))))

  pub allocate_each-StandsIn :
      (entities : List String) (placed : String → Placement) (w : Warehouse) (bs : List OpenedBatch)
      → IsWellFormed w.batches
      → (allocate_each chains entities placed w).0 ≡ ok bs
      → All (StandsIn (allocate_each chains entities placed w).1.batches) bs
  unfolding allocate_each
  allocate_each-StandsIn [] placed w bs valid h =
      subst (All (StandsIn w.batches)) (ok-injective h) tt
  allocate_each-StandsIn (entity ∷ entities) placed w bs valid h =
      let first = allocate_one chains entity (placed entity) in
      let one = bind-ok first _ w bs h in
      let v : Warehouse = (first w).1 in
      let two =
        bind-ok (allocate_each chains entities placed) (λ rest. pure (one.value ∷ rest)) v bs
          one.rest in
      let fine = (allocate_one-Keeps entity (placed entity)).kept w valid in
      let rest = allocate_each-StandsIn entities placed v two.value fine.valid two.first in
      let kept = (allocate_each-Keeps entities placed).kept v fine.valid in
      let here =
        Kept-StandsIn v.batches (allocate_each chains entities placed v).1.batches (one.value ∷ [])
          kept (allocate_one-StandsIn entity (placed entity) w one.value one.first, tt) in
      subst
        (λ (x : List OpenedBatch).
          All (StandsIn (allocate_each chains (entity ∷ entities) placed w).1.batches) x)
        (ok-injective two.rest)
        (subst (λ (x : Warehouse). All (StandsIn x.batches) (one.value ∷ two.value))
          (sym (one.state ∙ two.state)) (here.0, rest))
