-- ===== src/Feeds/Settlement/Empty.antt =====
-- The batches that a settlement run opens on a day without a file.
use nordbank_data_platform.Common.{
  ℕ, String, ◌≡◌, ◌⊎◌, refl, sym, ◌∙◌, inl, inr, Bool, true, false, none, some, List, [], ◌∷◌, ◌++◌,
  All, All-append, Any, ok, ok-injective,
}
use mathlib.Core.Path.{subst}
use nordbank_data_platform.Warehouse.{Status, Warehouse}
use nordbank_data_platform.Warehouse.Action.{pure, bind-ok, ◌>>=◌}
use nordbank_data_platform.Common.Time.{compact_stamp}
use nordbank_data_platform.Registry.{BatchKey, existing_batches, existing_in}
use nordbank_data_platform.Registry.Table.{IsWellFormed}
use nordbank_data_platform.Register.Frame.{Keeps, Leaves-Keeps, bind-Keeps, pure-Leaves}
use nordbank_data_platform.Phases.Frame.{existing_batches-Leaves}
use nordbank_data_platform.Feeds.Allocation.{Placement, OpenedBatch, allocate_one, sequences_of}
use nordbank_data_platform.Feeds.Allocation.Stands.{
  StandsIn, Kept-StandsIn, allocate_one-Keeps, allocate_one-StandsIn,
}
use nordbank_data_platform.Feeds.Admission.{Run}
use nordbank_data_platform.Feeds.Settlement.{
  settlement_entities, empty_unit, empty_placement, untaken, SettlementUnit, covers, allocate_empty,
  open_empty, cardnet, no_arrival,
}
use nordbank_data_platform.Feeds.Settlement.Placed.{sequences_of-Leaves, UnitsStandIn}
use nordbank_data_platform.Feeds.Settlement.Files.{Kept-UnitsStandIn}

Any-last : {A : Type 0} (P : A → Type 0) (xs : List A) (x : A) → P x → Any P (xs ++ x ∷ [])
Any-last P [] x h = inl h
Any-last P (y ∷ xs) x h = inr (Any-last P xs x h)

-- The day is accounted for: a file of its date was opened, or the sensor saw one, or a unit says that
-- none came.
abbrev pub IsCoveredOn : ℕ → Bool → List SettlementUnit → Type 0
IsCoveredOn day found us =
    (found ≡ true)
    ⊎ Any
        (λ (u : SettlementUnit).
          (covers day u.file ≡ true) ⊎ (u.file ≡ none) × (u.empty_reason ≡ some no_arrival))
        us

module _ (r : Run) where
  allocate_empty-Keeps :
      (start : ℕ) (taken : List ℕ) (entities : List String)
      → Keeps (allocate_empty r start taken entities)
  unfolding allocate_empty
  allocate_empty-Keeps start taken [] = Leaves-Keeps _ (pure-Leaves [])
  allocate_empty-Keeps start taken (entity ∷ entities) =
      bind-Keeps (existing_batches (key_at entity)) _
        (Leaves-Keeps _ (existing_batches-Leaves (key_at entity)))
        (λ existing.
          bind-Keeps (allocate_one r.chains entity (placed existing)) _
            (allocate_one-Keeps r.chains entity (placed existing))
            (λ b.
              bind-Keeps _ _ (allocate_empty-Keeps start taken entities)
                (λ rest. Leaves-Keeps _ (pure-Leaves (b ∷ rest)))))
    where
      key_at : String → BatchKey
      key_at e = record { source_system = cardnet; entity = e; interval_start = start }

      placed : List (ℕ × Status) → Placement
      placed existing = empty_placement r start (untaken taken existing)

  allocate_empty-StandsIn :
      (start : ℕ) (taken : List ℕ) (entities : List String) (w : Warehouse) (bs : List OpenedBatch)
      → IsWellFormed w.batches
      → (allocate_empty r start taken entities w).0 ≡ ok bs
      → All (StandsIn (allocate_empty r start taken entities w).1.batches) bs
  unfolding allocate_empty existing_batches
  allocate_empty-StandsIn start taken [] w bs valid e =
      subst (All (StandsIn w.batches)) (ok-injective e) tt
  allocate_empty-StandsIn start taken (entity ∷ entities) w bs valid e =
      let existing =
        existing_in w.batches
          (record { source_system = cardnet; entity = entity; interval_start = start }) in
      let first = allocate_one r.chains entity (empty_placement r start (untaken taken existing)) in
      let one =
        bind-ok first (λ b. allocate_empty r start taken entities >>= λ rest. pure (b ∷ rest)) w bs
          e in
      let v : Warehouse = (first w).1 in
      let two =
        bind-ok (allocate_empty r start taken entities) (λ rest. pure (one.value ∷ rest)) v bs
          one.rest in
      let fine =
        (allocate_one-Keeps r.chains entity (empty_placement r start (untaken taken existing))).kept
          w valid in
      let rest = allocate_empty-StandsIn start taken entities v two.value fine.valid two.first in
      let kept = (allocate_empty-Keeps start taken entities).kept v fine.valid in
      let here =
        Kept-StandsIn v.batches (allocate_empty r start taken entities v).1.batches (one.value ∷ [])
          kept
          (
            allocate_one-StandsIn r.chains entity (empty_placement r start (untaken taken existing))
                w one.value one.first,
            tt,
          ) in
      subst
        (λ (x : List OpenedBatch).
          All (StandsIn (allocate_empty r start taken (entity ∷ entities) w).1.batches) x)
        (ok-injective two.rest)
        (subst (λ (x : Warehouse). All (StandsIn x.batches) (one.value ∷ two.value))
          (sym (one.state ∙ two.state)) (here.0, rest))

  pub open_empty-Keeps :
      (has_file : Bool) (start : ℕ) (us : List SettlementUnit)
      → Keeps (open_empty r has_file start us)
  unfolding open_empty
  open_empty-Keeps true start us = Leaves-Keeps _ (pure-Leaves us)
  open_empty-Keeps false start us =
      bind-Keeps (sequences_of cardnet none (compact_stamp start)) _
        (Leaves-Keeps _ (sequences_of-Leaves cardnet none (compact_stamp start)))
        (λ taken.
          bind-Keeps _ _ (allocate_empty-Keeps start taken settlement_entities)
            (λ bs. Leaves-Keeps _ (pure-Leaves _)))

  pub open_empty-UnitsStandIn :
      (has_file : Bool) (start : ℕ) (us : List SettlementUnit) (w : Warehouse)
      (after : List SettlementUnit)
      → IsWellFormed w.batches
      → UnitsStandIn w.batches us
      → (open_empty r has_file start us w).0 ≡ ok after
      → UnitsStandIn (open_empty r has_file start us w).1.batches after
  unfolding open_empty sequences_of
  open_empty-UnitsStandIn true start us w after valid h e =
      subst (UnitsStandIn w.batches) (ok-injective e) h
  open_empty-UnitsStandIn false start us w after valid h e =
      let one = bind-ok (sequences_of cardnet none (compact_stamp start)) _ w after e in
      let empties = allocate_empty r start one.value settlement_entities in
      let two = bind-ok empties (λ bs. pure (us ++ empty_unit bs ∷ [])) w after one.rest in
      let rows = (empties w).1.batches in
      let kept = (allocate_empty-Keeps start one.value settlement_entities).kept w valid in
      let stand =
        allocate_empty-StandsIn start one.value settlement_entities w two.value valid two.first in
      subst (λ (x : Warehouse). UnitsStandIn x.batches after) (sym (one.state ∙ two.state))
        (subst (UnitsStandIn rows) (ok-injective two.rest) (
          All-append _ us (empty_unit two.value ∷ []) (Kept-UnitsStandIn w.batches rows us kept h)
            (stand, tt)))

  pub open_empty-IsCoveredOn :
      (has_file found : Bool) (start : ℕ) (us : List SettlementUnit) (w : Warehouse)
      (after : List SettlementUnit)
      → (has_file ≡ true → IsCoveredOn r.day found us)
      → (open_empty r has_file start us w).0 ≡ ok after
      → IsCoveredOn r.day found after
  unfolding open_empty sequences_of
  open_empty-IsCoveredOn true found start us w after h e =
      subst (IsCoveredOn r.day found) (ok-injective e) (h refl)
  open_empty-IsCoveredOn false found start us w after h e =
      let one = bind-ok (sequences_of cardnet none (compact_stamp start)) _ w after e in
      let empties = allocate_empty r start one.value settlement_entities in
      let two = bind-ok empties (λ bs. pure (us ++ empty_unit bs ∷ [])) w after one.rest in
      subst (IsCoveredOn r.day found) (ok-injective two.rest)
        (inr (Any-last _ us (empty_unit two.value) (inr (refl, refl))))
