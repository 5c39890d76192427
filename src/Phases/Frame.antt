-- ===== src/Phases/Frame.antt =====
-- What the open step leaves of the batch registry, whether it returns or raises.
use nordbank_data_platform.Common.{
  ℕ, String, refl, inl, inr, Option, none, some, List, [], ◌∷◌, sorted_set, Bool-cases, ◌==◌,
}
use nordbank_data_platform.Common.Dict.{keys}
use nordbank_data_platform.Common.Time.{date_of}
use nordbank_data_platform.Validation.Schema.{Contract}
use nordbank_data_platform.Warehouse.{Status, VersionRow, Warehouse}
use nordbank_data_platform.Warehouse.Action.{gets}
use nordbank_data_platform.Contracts.{
  VersionChains, chain_of, agrees, sync_found, sync_one, sync_chain, sync_entities, sync, selected,
  select, find_body, body, max_version,
}
use nordbank_data_platform.Registry.{
  BatchKey, Opening, existing_batches, watermark, allocate, batch,
}
use nordbank_data_platform.Registry.Lifecycle.{allocate-Follows}
use nordbank_data_platform.Register.Frame.{
  Follows-Kept, Keeps, Leaves, Leaves-Keeps, bind-Keeps, bind-Leaves, lift-Leaves, pure-Leaves,
}
use nordbank_data_platform.Phases.{
  OpenReport, current_of, has_registered, read_back, opened_as, with_opened, with_already, key_of,
  open_batch, open_unless, open_entity,
}

sync_found-Leaves :
    (entity : String) (c : Contract) (now : ℕ) (o : Option VersionRow)
    → Leaves (sync_found entity c now o)
unfolding sync_found
sync_found-Leaves entity c now none = record { same = λ _. refl }
sync_found-Leaves entity c now (some r) = elim (Bool-cases (agrees r c)) [
  | inl e ↦ rw e (record { same = λ _. refl })
  | inr e ↦ rw e (record { same = λ _. refl })
]

pub gets-Leaves : {A : Type 0} (f : Warehouse → A) → Leaves (gets f)
gets-Leaves f = record { same = λ _. refl }

sync_chain-Leaves :
    (entity : String) (cs : List Contract) (now : ℕ) → Leaves (sync_chain entity cs now)
unfolding sync_chain sync_one
sync_chain-Leaves entity [] now = pure-Leaves 0
sync_chain-Leaves entity (c ∷ cs) now =
    bind-Leaves (sync_one entity c now) _
      (bind-Leaves _ _ (gets-Leaves _) (λ row. sync_found-Leaves entity c now row))
      (λ a. bind-Leaves _ _ (sync_chain-Leaves entity cs now) (λ b. record { same = λ _. refl }))

sync_entities-Leaves :
    (chains : VersionChains) (es : List String) (now : ℕ) → Leaves (sync_entities chains es now)
unfolding sync_entities
sync_entities-Leaves chains [] now = pure-Leaves 0
sync_entities-Leaves chains (e ∷ es) now =
    bind-Leaves _ _ (sync_chain-Leaves e (chain_of e chains) now)
      (λ a. bind-Leaves _ _ (sync_entities-Leaves chains es now) (λ b. record { same = λ _. refl }))

pub sync-Leaves : (chains : VersionChains) (now : ℕ) → Leaves (sync chains now)
unfolding sync
sync-Leaves chains now = sync_entities-Leaves chains (sorted_set (keys chains)) now

selected-Leaves : (entity : String) (day : ℕ) (o : Option ℕ) → Leaves (selected entity day o)
selected-Leaves entity day none = record { same = λ _. refl }
selected-Leaves entity day (some v) = record { same = λ _. refl }

pub select-Leaves : (system entity : String) (day : ℕ) → Leaves (select system entity day)
unfolding select
select-Leaves system entity day =
    bind-Leaves _ _ (gets-Leaves (λ w. max_version w.versions system entity day))
      (λ found. selected-Leaves entity day found)

find_body-Leaves : (cs : List Contract) (entity : String) (v : ℕ) → Leaves (find_body cs entity v)
unfolding find_body
find_body-Leaves [] entity v = record { same = λ _. refl }
find_body-Leaves (c ∷ cs) entity v = elim (Bool-cases (c.contract_version == v)) [
  | inl e ↦ rw e (record { same = λ _. refl })
  | inr e ↦ rw e (find_body-Leaves cs entity v)
]

pub body-Leaves : (chains : VersionChains) (entity : String) (v : ℕ) → Leaves (body chains entity v)
unfolding body
body-Leaves chains entity v = find_body-Leaves (chain_of entity chains) entity v

watermark-Leaves : (system entity : String) → Leaves (watermark system entity)
unfolding watermark
watermark-Leaves system entity = record { same = λ _. refl }

pub existing_batches-Leaves : (key : BatchKey) → Leaves (existing_batches key)
unfolding existing_batches
existing_batches-Leaves key = record { same = λ _. refl }

pub batch-Leaves : (id : String) → Leaves (batch id)
unfolding batch
batch-Leaves id = record { same = λ _. refl }

pub allocate-Keeps : (key : BatchKey) (o : Opening) → Keeps (allocate key o)
allocate-Keeps key o = record {
  kept = λ w h. Follows-Kept w.batches _ (allocate-Follows key o w h);
}

module _ (chains : VersionChains) (start opened_at : ℕ) (run_id : String) (lag : ℕ) where
  open_batch-Keeps :
      (entity : String) (c : Contract) (held : Option ℕ) (report : OpenReport)
      → Keeps (open_batch chains start opened_at run_id lag entity c held report)
  unfolding open_batch
  open_batch-Keeps entity c held report = bind-Keeps _ _ (allocate-Keeps _ _) (λ allocation.
      bind-Keeps _ _ (Leaves-Keeps _ (batch-Leaves allocation.batch_id)) (λ found. Leaves-Keeps _ (
        bind-Leaves _ _ (lift-Leaves (read_back allocation.batch_id found))
          (λ b. pure-Leaves (with_opened (opened_as entity b allocation.reused) report)))))

  open_unless-Keeps :
      (entity : String) (c : Contract) (held : Option ℕ) (report : OpenReport)
      (existing : List (ℕ × Status))
      → Keeps (open_unless chains start opened_at run_id lag entity c held report existing)
  unfolding open_unless
  open_unless-Keeps entity c held report existing = elim (Bool-cases (has_registered existing)) [
    | inl e ↦ rw e (Leaves-Keeps _ (pure-Leaves (with_already entity report)))
    | inr e ↦ rw e (open_batch-Keeps entity c held report)
  ]

  pub open_entity-Keeps :
      (entity : String) (report : OpenReport)
      → Keeps (open_entity chains start opened_at run_id lag entity report)
  unfolding open_entity
  open_entity-Keeps entity report =
      bind-Keeps _ _ (Leaves-Keeps _ (lift-Leaves (current_of (chain_of entity chains))))
        (λ current.
          bind-Keeps _ _
            (Leaves-Keeps _ (select-Leaves current.source_system entity (date_of start)))
            (λ version. bind-Keeps _ _ (Leaves-Keeps _ (body-Leaves chains entity version)) (λ c.
              bind-Keeps _ _ (Leaves-Keeps _ (watermark-Leaves c.source_system entity)) (λ held.
                bind-Keeps _ _
                  (Leaves-Keeps _
                    (existing_batches-Leaves (key_of chains start opened_at run_id lag c entity)))
                  (λ existing. open_unless-Keeps entity c held report existing)))))
