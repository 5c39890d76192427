-- ===== src/Feeds/Settlement/Placed.antt =====
-- The batches of a settlement file that is attempted stand in the registry.
use nordbank_data_platform.Common.{
  String, ◌≡◌, refl, sym, inl, inr, Option, none, some, List, [], ◌∷◌, All, All-append, ok,
  ok-injective, Bool-cases,
}
use mathlib.Core.Path.{subst}
use nordbank_data_platform.Warehouse.{BatchRow, Warehouse}
use nordbank_data_platform.Warehouse.Action.{Action, lift, bind-ok, ◌>>=◌}
use nordbank_data_platform.Registry.Table.{IsWellFormed}
use nordbank_data_platform.Register.Frame.{
  Keeps, Leaves, Leaves-Keeps, bind-Keeps, bind-Leaves, lift-Leaves, pure-Leaves,
}
use nordbank_data_platform.Feeds.Identity.{Candidate, record_sighting, declared_conflict}
use nordbank_data_platform.Feeds.Allocation.{OpenedBatch, allocate_each, sequences_of}
use nordbank_data_platform.Feeds.Allocation.Stands.{
  StandsIn, allocate_each-Keeps, allocate_each-StandsIn,
}
use nordbank_data_platform.Feeds.Admission.{
  Run, Parked, Attempted, OpenedUnit, admit, admit_attempted, admit_landed, admit_held,
  admit_parked, in_force, sighted, same_pairs, first_id, open_with, open_admitted, open_delivery,
}
use nordbank_data_platform.Feeds.SettlementFile.{SettlementFile}
use nordbank_data_platform.Feeds.Settlement.{
  settlement_entities, business_of, file_placement, SettlementUnit, Progress, with_unit,
  allocate_file, judge_file, cardnet,
}
use nordbank_data_platform.Common.Dict.{lookup}
use nordbank_data_platform.Common.Time.{midnight, compact_stamp}

-- A call that keeps the registry, and whose result stands in it where it returned.
pub record Places {A : Type 0} (P : List BatchRow → A → Type 0) (m : Action Warehouse A)
    : Type 0 where
  pub keeps : Keeps m
  pub stands :
      (w : Warehouse) (a : A) → IsWellFormed w.batches → (m w).0 ≡ ok a → P (m w).1.batches a

pub Leaves-Places : {A : Type 0} (m : Action Warehouse A) → Leaves m → Places (λ rows a. Unit {0}) m
Leaves-Places m h = record { keeps = Leaves-Keeps m h; stands = λ w a valid e. tt }

pub bind-Places :
    {A B : Type 0} (P : List BatchRow → A → Type 0) (Q : List BatchRow → B → Type 0)
    (m : Action Warehouse A) (f : A → Action Warehouse B)
    → Places P m
    → ((a : A) → Keeps (f a))
    → ((a : A) (w : Warehouse) (b : B)
        → IsWellFormed w.batches
        → P w.batches a
        → (f a w).0 ≡ ok b
        → Q (f a w).1.batches b)
    → Places Q (m >>= f)
bind-Places P Q m f h k g = record {
  keeps = bind-Keeps m f h.keeps k;
  stands = λ w b valid e.
      let one = bind-ok m f w b e in
      subst (λ (x : Warehouse). Q x.batches b) (sym one.state)
        (g one.value (m w).1 b (h.keeps.kept w valid).valid (h.stands w one.value valid one.first)
          one.rest);
}

pub sequences_of-Leaves :
    (system : String) (checksum : Option String) (stamp : String)
    → Leaves (sequences_of system checksum stamp)
unfolding sequences_of
sequences_of-Leaves system checksum stamp = record { same = λ _. refl }

-- The batches of the run's units stand.
abbrev pub UnitsStandIn : List BatchRow → List SettlementUnit → Type 0
UnitsStandIn rows us = All (λ (u : SettlementUnit). All (StandsIn rows) u.batches) us

module _ (r : Run) where
  sighted-Leaves : (c : Candidate) (outcome id : String) → Leaves (sighted r c outcome id)
  unfolding sighted record_sighting
  sighted-Leaves c outcome id = record { same = λ _. refl }

  admit_held-Leaves : (c : Candidate) (held : Option Parked) → Leaves (admit_held r c held)
  unfolding admit_held in_force admit_parked
  admit_held-Leaves c none = pure-Leaves (some "new")
  admit_held-Leaves c (some held) =
      bind-Leaves (in_force r.chains r.selected_on r.entities)
        (λ current. admit_parked r c held current) (record { same = λ _. refl })
        (λ current. elim (Bool-cases (same_pairs held.fingerprints current)) [
          | inl e ↦ rw e (sighted-Leaves c "parked" held.batch_id)
          | inr e ↦ rw e (pure-Leaves (some "reattempted"))
        ])

  admit_landed-Leaves : (c : Candidate) (landed : Option String) → Leaves (admit_landed r c landed)
  unfolding admit_landed
  admit_landed-Leaves c none = admit_held-Leaves c (lookup c.checksum r.held)
  admit_landed-Leaves c (some id) = sighted-Leaves c "already_ingested" id

  admit_attempted-Leaves :
      (c : Candidate) (o : Option (String × String)) → Leaves (admit_attempted r c o)
  unfolding admit_attempted
  admit_attempted-Leaves c none = admit_landed-Leaves c (lookup c.checksum r.landed)
  admit_attempted-Leaves c (some (outcome, id)) = sighted-Leaves c outcome id

  allocate_file-Places :
      (f : SettlementFile) → Places (λ rows bs. All (StandsIn rows) bs) (allocate_file r f)
  unfolding allocate_file
  allocate_file-Places f =
      let interval = midnight (business_of r f) in
      let placed = file_placement r interval in
      bind-Places (λ rows a. Unit {0}) (λ rows bs. All (StandsIn rows) bs)
        (sequences_of cardnet (some f.candidate.checksum) (compact_stamp interval))
        (λ own. allocate_each r.chains settlement_entities (placed own))
        (Leaves-Places _
          (sequences_of-Leaves cardnet (some f.candidate.checksum) (compact_stamp interval)))
        (λ own. allocate_each-Keeps r.chains settlement_entities (placed own))
        (λ own w bs valid u e.
          allocate_each-StandsIn r.chains settlement_entities (placed own) w bs valid e)

  open_with-Leaves :
      (c : Candidate) (attempted : Attempted) (outcome : String) (bs : List OpenedBatch)
      → Leaves (open_with r c attempted outcome bs)
  unfolding open_with record_sighting
  open_with-Leaves c attempted outcome [] = record { same = λ _. refl }
  open_with-Leaves c attempted outcome (b ∷ bs) = record { same = λ _. refl }

  -- The batches of every unit stand.
  abbrev pub OpenStandsIn : List BatchRow → List OpenedUnit × Attempted → Type 0
  OpenStandsIn rows one = All (λ (u : OpenedUnit). All (StandsIn rows) u.batches) one.0

  open_with-OpenStandsIn :
      (c : Candidate) (attempted : Attempted) (outcome : String) (bs : List OpenedBatch)
      (w : Warehouse) (one : List OpenedUnit × Attempted)
      → All (StandsIn w.batches) bs
      → (open_with r c attempted outcome bs w).0 ≡ ok one
      → OpenStandsIn (open_with r c attempted outcome bs w).1.batches one
  unfolding open_with record_sighting
  open_with-OpenStandsIn c attempted outcome [] w one h e = cc
  open_with-OpenStandsIn c attempted outcome (b ∷ bs) w one h e =
      subst (OpenStandsIn w.batches) (ok-injective e) (h, tt)

  open_admitted-Places :
      (f : SettlementFile) (attempted : Attempted) (o : Option String)
      → Places OpenStandsIn (open_admitted r (λ _. allocate_file r f) f.candidate attempted o)
  unfolding open_admitted
  open_admitted-Places f attempted none = record {
    keeps = Leaves-Keeps _ (pure-Leaves ([], attempted));
    stands = λ w one valid e. subst (OpenStandsIn w.batches) (ok-injective e) tt;
  }
  open_admitted-Places f attempted (some outcome) =
      bind-Places (λ rows bs. All (StandsIn rows) bs) OpenStandsIn (allocate_file r f)
        (open_with r f.candidate attempted outcome) (allocate_file-Places f)
        (λ bs. Leaves-Keeps _ (open_with-Leaves f.candidate attempted outcome bs))
        (λ bs w one valid h e. open_with-OpenStandsIn f.candidate attempted outcome bs w one h e)

  pub open_delivery-Places :
      (f : SettlementFile) (attempted : Attempted)
      → Places OpenStandsIn (open_delivery r (λ _. allocate_file r f) f.candidate attempted)
  unfolding open_delivery admit
  open_delivery-Places f attempted =
      bind-Places (λ rows a. Unit {0}) OpenStandsIn (admit r f.candidate attempted)
        (open_admitted r (λ _. allocate_file r f) f.candidate attempted)
        (Leaves-Places _
          (admit_attempted-Leaves f.candidate (lookup f.candidate.checksum attempted)))
        (λ o. (open_admitted-Places f attempted o).keeps)
        (λ o w one valid u e. (open_admitted-Places f attempted o).stands w one valid e)

  pub judge_file-Leaves :
      (f : SettlementFile) (us : List OpenedUnit) (p : Progress) → Leaves (judge_file r f us p)
  unfolding judge_file declared_conflict
  judge_file-Leaves f [] p = pure-Leaves p
  judge_file-Leaves f (u ∷ us) p =
      bind-Leaves _ _ (lift-Leaves (first_id u.batches)) (λ id. record { same = λ _. refl })

  pub judged_units :
      (f : SettlementFile) (us : List OpenedUnit) (p q : Progress) (w : Warehouse)
      → All (λ (u : OpenedUnit). All (StandsIn w.batches) u.batches) us
      → UnitsStandIn w.batches p.units
      → (judge_file r f us p w).0 ≡ ok q
      → UnitsStandIn w.batches q.units
  unfolding judge_file declared_conflict with_unit
  judged_units f [] p q w h k e =
      subst (λ (x : Progress). UnitsStandIn w.batches x.units) (ok-injective e) k
  judged_units f (u ∷ us) p q w h k e =
      let one = bind-ok (lift (first_id u.batches)) _ w q e in
      subst (λ (x : Progress). UnitsStandIn w.batches x.units) (ok-injective one.rest)
        (All-append _ p.units _ k (h.0, tt))
