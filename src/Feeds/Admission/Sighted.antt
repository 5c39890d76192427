-- ===== src/Feeds/Admission/Sighted.antt =====
-- A run attempts a delivery at most once, and sights every one it found.
use nordbank_data_platform.Common.{
  String, ◌≡◌, ◌≢◌, refl, sym, ap, ◌∙◌, Bool, true, false, Option, none, some, List, [], ◌∷◌, ◌++◌,
  map, All, All-impl, append_nil, append_assoc, map-append, str_eq, str_eq_iff, if◌then◌else◌,
  Result, ok, err, ok-injective,
}
use mathlib.Core.Path.{subst}
use nordbank_data_platform.Common.Dict.{lookup, insert, lookup-insert}
use nordbank_data_platform.Warehouse.{SightingRow, Warehouse}
use nordbank_data_platform.Warehouse.Action.{Action, pure, resume, bind-ok, ◌>>=◌}
use nordbank_data_platform.Feeds.Identity.{Candidate, record_sighting}
use nordbank_data_platform.Feeds.Allocation.{OpenedBatch}
use nordbank_data_platform.Feeds.Admission.{
  Run, Attempted, sighting_of, admit, OpenedUnit, open_with, open_admitted, open_delivery,
  open_deliveries,
}
use nordbank_data_platform.Feeds.Admission.Decided.{
  Sights, Decided, IsFresh, Admitted, admit-Decided,
}

-- The sightings that a number of deliveries add, one each, in their order.
pub record AddsSightings (keys : List String) (w w' : Warehouse) : Type 0 where
  pub added : List SightingRow
  pub appended : w'.sightings ≡ w.sightings ++ added
  pub of_each : map (λ (s : SightingRow). s.object_key) added ≡ keys

AddsSightings-append :
    (keys later_keys : List String) (u v w : Warehouse)
    → AddsSightings keys u v
    → AddsSightings later_keys v w
    → AddsSightings (keys ++ later_keys) u w
AddsSightings-append keys later_keys u v w h k = record {
  added = h.added ++ k.added;
  appended =
      k.appended ∙ ap (λ l. l ++ k.added) h.appended ∙ append_assoc u.sightings h.added k.added;
  of_each =
      map-append (λ (s : SightingRow). s.object_key) h.added k.added
      ∙ ap (λ l. l ++ map (λ (s : SightingRow). s.object_key) k.added) h.of_each
      ∙ ap (λ l. keys ++ l) k.of_each;
}

-- What opening one delivery gives: nothing and the same attempts, or the delivery and the attempts
-- with it.
pub data OneOpened (r : Run) (c : Candidate) (attempted : Attempted)
    : List OpenedUnit × Attempted → Type 0 where
  passed_over : OneOpened r c attempted ([], attempted)
  attempted_now :
      (outcome batch_id : String) (batches : List OpenedBatch)
      → IsFresh r attempted c
      → OneOpened r c attempted (
        record { candidate = c; outcome = outcome; batches = batches } ∷ [],
        insert c.checksum (outcome, batch_id) attempted,
      )

-- The allocation of batches leaves the sightings as they are.
abbrev pub LeavesSightings : (Candidate → Action Warehouse (List OpenedBatch)) → Type 0
LeavesSightings allocate =
    (c : Candidate) (w : Warehouse) → (allocate c w).1.sightings ≡ w.sightings

module _ (r : Run) (allocate : Candidate → Action Warehouse (List OpenedBatch)) where
  allocated-OneOpened :
      (c : Candidate) (attempted : Attempted) (outcome : String) (m : Result (List OpenedBatch))
      (v : Warehouse) (one : List OpenedUnit × Attempted)
      → IsFresh r attempted c
      → (resume m (open_with r c attempted outcome) v).0 ≡ ok one
      → OneOpened r c attempted one
  unfolding open_with record_sighting
  allocated-OneOpened c attempted outcome (err e) v one fresh h = cc
  allocated-OneOpened c attempted outcome (ok []) v one fresh h = cc
  allocated-OneOpened c attempted outcome (ok (b ∷ bs)) v one fresh h =
      subst (OneOpened r c attempted) (ok-injective h)
        (attempted_now outcome b.opened.batch_id (b ∷ bs) fresh)

  open_admitted-OneOpened :
      (c : Candidate) (attempted : Attempted) (o : Option String) (w : Warehouse)
      (one : List OpenedUnit × Attempted)
      → Admitted r attempted c o
      → (open_admitted r allocate c attempted o w).0 ≡ ok one
      → OneOpened r c attempted one
  unfolding open_admitted
  open_admitted-OneOpened c attempted none w one admitted h =
      subst (OneOpened r c attempted) (ok-injective h) passed_over
  open_admitted-OneOpened c attempted (some outcome) w one admitted h =
      allocated-OneOpened c attempted outcome (allocate c w).0 (allocate c w).1 one admitted h

  pub open_delivery-OneOpened :
      (c : Candidate) (attempted : Attempted) (w : Warehouse) (one : List OpenedUnit × Attempted)
      → (open_delivery r allocate c attempted w).0 ≡ ok one
      → OneOpened r c attempted one
  unfolding open_delivery
  open_delivery-OneOpened c attempted w one h =
      let b = bind-ok (admit r c attempted) (open_admitted r allocate c attempted) w one h in
      let decided = admit-Decided r c attempted w b.value b.first in
      open_admitted-OneOpened c attempted b.value (admit r c attempted w).1 one decided.1 b.rest

module _ (r : Run) (allocate : Candidate → Action Warehouse (List OpenedBatch))
    (leaves : LeavesSightings allocate) where
  allocated-AddsSightings :
      (c : Candidate) (attempted : Attempted) (outcome : String) (m : Result (List OpenedBatch))
      (u v : Warehouse) (one : List OpenedUnit × Attempted)
      → v.sightings ≡ u.sightings
      → (resume m (open_with r c attempted outcome) v).0 ≡ ok one
      → AddsSightings (c.key ∷ []) u (resume m (open_with r c attempted outcome) v).1
  unfolding open_with record_sighting
  allocated-AddsSightings c attempted outcome (err e) u v one same h = cc
  allocated-AddsSightings c attempted outcome (ok []) u v one same h = cc
  allocated-AddsSightings c attempted outcome (ok (b ∷ bs)) u v one same h = record {
    added = sighting_of r c outcome b.opened.batch_id ∷ [];
    appended = ap (λ l. l ++ (sighting_of r c outcome b.opened.batch_id ∷ [])) same;
    of_each = refl;
  }

  open_admitted-AddsSightings :
      (c : Candidate) (attempted : Attempted) (o : Option String) (u w : Warehouse)
      (one : List OpenedUnit × Attempted)
      → Decided r c u o w
      → (open_admitted r allocate c attempted o w).0 ≡ ok one
      → AddsSightings (c.key ∷ []) u (open_admitted r allocate c attempted o w).1
  unfolding open_admitted Sights
  open_admitted-AddsSightings c attempted none u w one decided h = record {
    added = decided.0 ∷ [];
    appended = decided.1;
    of_each = ap (λ k. k ∷ []) decided.2;
  }
  open_admitted-AddsSightings c attempted (some outcome) u w one decided h =
      allocated-AddsSightings c attempted outcome (allocate c w).0 u (allocate c w).1 one
        (leaves c w ∙ ap (λ (v : Warehouse). v.sightings) decided) h

  open_delivery-AddsSightings :
      (c : Candidate) (attempted : Attempted) (w : Warehouse) (one : List OpenedUnit × Attempted)
      → (open_delivery r allocate c attempted w).0 ≡ ok one
      → AddsSightings (c.key ∷ []) w (open_delivery r allocate c attempted w).1
  unfolding open_delivery
  open_delivery-AddsSightings c attempted w one h =
      let b = bind-ok (admit r c attempted) (open_admitted r allocate c attempted) w one h in
      let decided = admit-Decided r c attempted w b.value b.first in
      subst (AddsSightings (c.key ∷ []) w) (sym b.state) (
        open_admitted-AddsSightings c attempted b.value w (admit r c attempted w).1 one decided.0
          b.rest)

-- No two of the deliveries that are attempted have one checksum.
abbrev pub AreOnce : List OpenedUnit → Type 0
AreOnce [] = Unit
AreOnce (u ∷ us) =
    All (λ (v : OpenedUnit). v.candidate.checksum ≢ u.candidate.checksum) us × AreOnce us

-- What the loop over the deliveries has done.
pub record OpenedAll (r : Run) (attempted : Attempted) (candidates : List Candidate)
    (units : List OpenedUnit) (w w' : Warehouse) : Type 0 where
  pub fresh : All (λ (u : OpenedUnit). IsFresh r attempted u.candidate) units
  pub once : AreOnce units
  pub sightings : AddsSightings (map (λ (c : Candidate). c.key) candidates) w w'

not_inserted :
    (checksum other : String) (entry : String × String) (attempted : Attempted)
    → lookup other (insert checksum entry attempted) ≡ none
    → (lookup other attempted ≡ none) × (other ≢ checksum)
not_inserted checksum other entry attempted h =
    split (str_eq checksum other) refl (sym (lookup-insert checksum other entry attempted) ∙ h)
  where
    split :
        (b : Bool)
        → str_eq checksum other ≡ b
        → (if b then some entry else lookup other attempted) ≡ none
        → (lookup other attempted ≡ none) × (other ≢ checksum)
    split true e k = cc
    split false e k = (
      k,
      λ same.
          let hit : str_eq checksum other ≡ true = (str_eq_iff checksum other).1 (sym same) in cc,
    )

one_more :
    (r : Run) (c : Candidate) (attempted : Attempted) (one : List OpenedUnit × Attempted)
    (units : List OpenedUnit)
    → OneOpened r c attempted one
    → All (λ (u : OpenedUnit). IsFresh r one.1 u.candidate) units
    → AreOnce units
    → All (λ (u : OpenedUnit). IsFresh r attempted u.candidate) (one.0 ++ units)
      × AreOnce (one.0 ++ units)
one_more r c attempted _ units passed_over fresh once = (fresh, once)
one_more r c attempted _ units (attempted_now outcome batch_id batches is_fresh) fresh once =
    let apart =
      All-impl _
        (λ (u : OpenedUnit). IsFresh r attempted u.candidate × (u.candidate.checksum ≢ c.checksum))
        units
        (λ u f.
          let k = not_inserted c.checksum u.candidate.checksum (outcome, batch_id) attempted f.0 in
          ((k.0, f.1), k.1))
        fresh in
    (
      (is_fresh, All-impl _ _ units (λ u k. k.0) apart),
      (All-impl _ _ units (λ u k. k.1) apart, once),
    )

-- When the allocation of batches leaves the sightings as they are, a run that opened its deliveries
-- has attempted none twice, none that it had attempted before and none that has landed, and has
-- added one sighting for every delivery found, in their order.
pub open_deliveries-OpenedAll :
    (r : Run) (allocate : Candidate → Action Warehouse (List OpenedBatch))
    (candidates : List Candidate) (attempted : Attempted) (w : Warehouse) (units : List OpenedUnit)
    (last : Attempted)
    → LeavesSightings allocate
    → (open_deliveries r allocate candidates attempted w).0 ≡ ok (units, last)
    → OpenedAll r attempted candidates units w (open_deliveries r allocate candidates attempted w).1
unfolding open_deliveries
open_deliveries-OpenedAll r allocate [] attempted w units last leaves h =
    subst (λ (x : List OpenedUnit × Attempted). OpenedAll r attempted [] x.0 w w) (ok-injective h)
      (record {
        fresh = tt;
        once = tt;
        sightings = record { added = []; appended = sym (append_nil w.sightings); of_each = refl };
      })
open_deliveries-OpenedAll r allocate (c ∷ cs) attempted w units last leaves h =
    let b =
      bind-ok (open_delivery r allocate c attempted)
        (λ one. open_deliveries r allocate cs one.1 >>= λ rest. pure (one.0 ++ rest.0, rest.1)) w
        (units, last) h in
    let one : List OpenedUnit × Attempted = b.value in
    let v : Warehouse = (open_delivery r allocate c attempted w).1 in
    let opened = open_delivery-OneOpened r allocate c attempted w one b.first in
    let sighted = open_delivery-AddsSightings r allocate leaves c attempted w one b.first in
    let d =
      bind-ok (open_deliveries r allocate cs one.1) (λ rest. pure (one.0 ++ rest.0, rest.1)) v
        (units, last) b.rest in
    let rest = open_deliveries-OpenedAll r allocate cs one.1 v d.value.0 d.value.1 leaves d.first in
    let joined = one_more r c attempted one d.value.0 opened rest.fresh rest.once in
    subst
      (λ (x : List OpenedUnit × Attempted).
        OpenedAll r attempted (c ∷ cs) x.0 w (open_deliveries r allocate (c ∷ cs) attempted w).1)
      (ok-injective d.rest)
      (record {
        fresh = joined.0;
        once = joined.1;
        sightings =
            subst (AddsSightings (map (λ (x : Candidate). x.key) (c ∷ cs)) w)
              (sym (b.state ∙ d.state))
              (AddsSightings-append (c.key ∷ []) (map (λ (x : Candidate). x.key) cs) w v _ sighted
                rest.sightings);
      })
