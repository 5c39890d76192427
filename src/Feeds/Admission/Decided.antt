-- ===== src/Feeds/Admission/Decided.antt =====
-- The decision on one delivery: it is sighted, or it is let through and nothing changes.
use nordbank_data_platform.Common.{
  String, ◌≡◌, refl, inl, inr, Bool-cases, Option, none, some, List, [], ◌∷◌, ◌++◌, Result, ok, err,
}
use nordbank_data_platform.Common.Dict.{lookup}
use nordbank_data_platform.Warehouse.{SightingRow, Warehouse}
use nordbank_data_platform.Warehouse.Action.{pure, resume}
use nordbank_data_platform.Feeds.Identity.{Candidate, record_sighting}
use nordbank_data_platform.Feeds.Admission.{
  Parked, Run, Attempted, in_force, same_pairs, sighting_of, sighted, admit_parked, admit_held,
  admit_landed, admit_attempted, admit,
}

-- What the decision on one delivery does: it sights the delivery, or it changes nothing and lets a
-- delivery through that this run has not attempted and that has not landed.
unfoldable pub Sights : Run → Candidate → Warehouse → Warehouse → Type 0
Sights r c w w' =
    (s : SightingRow) × (w'.sightings ≡ w.sightings ++ (s ∷ [])) × (s.object_key ≡ c.key)

abbrev pub Decided : Run → Candidate → Warehouse → Option String → Warehouse → Type 0
Decided r c w none w' = Sights r c w w'
Decided r c w (some outcome) w' = w' ≡ w

let_through :
    (r : Run) (c : Candidate) (w : Warehouse) (o : Option String) {outcome : String}
    → (pure (some outcome) w).0 ≡ ok o
    → Decided r c w o w
let_through r c w none h = cc
let_through r c w (some o) h = refl

sighted-Decided :
    (r : Run) (c : Candidate) (outcome batch_id : String) (w : Warehouse) (o : Option String)
    → (sighted r c outcome batch_id w).0 ≡ ok o
    → Decided r c w o (sighted r c outcome batch_id w).1
unfolding sighted record_sighting Sights
sighted-Decided r c outcome batch_id w none h = (sighting_of r c outcome batch_id, refl, refl)
sighted-Decided r c outcome batch_id w (some o) h = cc

admit_parked-Decided :
    (r : Run) (c : Candidate) (held : Parked) (current : List (String × String)) (w : Warehouse)
    (o : Option String)
    → (admit_parked r c held current w).0 ≡ ok o
    → Decided r c w o (admit_parked r c held current w).1
unfolding admit_parked
admit_parked-Decided r c held current w o h =
    elim (Bool-cases (same_pairs held.fingerprints current)) [
      | inl same ↦ rw same (sighted-Decided r c "parked" held.batch_id w o (rw same at h))
      | inr changed ↦ rw changed (let_through r c w o (rw changed at h))
    ]

after_in_force :
    (r : Run) (c : Candidate) (held : Parked) (m : Result (List (String × String))) (w : Warehouse)
    (o : Option String)
    → (resume m (λ current. admit_parked r c held current) w).0 ≡ ok o
    → Decided r c w o (resume m (λ current. admit_parked r c held current) w).1
after_in_force r c held (ok current) w o h = admit_parked-Decided r c held current w o h
after_in_force r c held (err e) w o h = cc

admit_held-Decided :
    (r : Run) (c : Candidate) (held : Option Parked) (w : Warehouse) (o : Option String)
    → (admit_held r c held w).0 ≡ ok o
    → Decided r c w o (admit_held r c held w).1
unfolding admit_held in_force
admit_held-Decided r c none w o h = let_through r c w o h
admit_held-Decided r c (some held) w o h =
    after_in_force r c held (in_force r.chains r.selected_on r.entities w).0 w o h

-- What is let through is neither attempted before nor landed.
abbrev pub IsFresh : Run → Attempted → Candidate → Type 0
IsFresh r attempted c = (lookup c.checksum attempted ≡ none) × (lookup c.checksum r.landed ≡ none)

abbrev pub Admitted : Run → Attempted → Candidate → Option String → Type 0
Admitted r attempted c none = Unit
Admitted r attempted c (some outcome) = IsFresh r attempted c

IsFresh-Admitted :
    (r : Run) (attempted : Attempted) (c : Candidate) (o : Option String)
    → IsFresh r attempted c
    → Admitted r attempted c o
IsFresh-Admitted r attempted c none h = tt
IsFresh-Admitted r attempted c (some o) h = h

sighted-Admitted :
    (r : Run) (attempted : Attempted) (c : Candidate) (outcome batch_id : String) (w : Warehouse)
    (o : Option String)
    → (sighted r c outcome batch_id w).0 ≡ ok o
    → Admitted r attempted c o
unfolding sighted record_sighting
sighted-Admitted r attempted c outcome batch_id w none h = tt
sighted-Admitted r attempted c outcome batch_id w (some o) h = cc

admit_landed-Decided :
    (r : Run) (c : Candidate) (attempted : Attempted) (found : Option String) (w : Warehouse)
    (o : Option String)
    → lookup c.checksum attempted ≡ none
    → lookup c.checksum r.landed ≡ found
    → (admit_landed r c found w).0 ≡ ok o
    → Decided r c w o (admit_landed r c found w).1 × Admitted r attempted c o
unfolding admit_landed
admit_landed-Decided r c attempted none w o unattempted at_found h = (
  admit_held-Decided r c (lookup c.checksum r.held) w o h,
  IsFresh-Admitted r attempted c o (unattempted, at_found),
)
admit_landed-Decided r c attempted (some batch_id) w o unattempted at_found h = (
  sighted-Decided r c "already_ingested" batch_id w o h,
  sighted-Admitted r attempted c "already_ingested" batch_id w o h,
)

admit_attempted-Decided :
    (r : Run) (c : Candidate) (attempted : Attempted) (found : Option (String × String))
    (w : Warehouse) (o : Option String)
    → lookup c.checksum attempted ≡ found
    → (admit_attempted r c found w).0 ≡ ok o
    → Decided r c w o (admit_attempted r c found w).1 × Admitted r attempted c o
unfolding admit_attempted
admit_attempted-Decided r c attempted none w o at_found h =
    admit_landed-Decided r c attempted (lookup c.checksum r.landed) w o at_found refl h
admit_attempted-Decided r c attempted (some (outcome, batch_id)) w o at_found h = (
  sighted-Decided r c outcome batch_id w o h,
  sighted-Admitted r attempted c outcome batch_id w o h,
)

pub admit-Decided :
    (r : Run) (c : Candidate) (attempted : Attempted) (w : Warehouse) (o : Option String)
    → (admit r c attempted w).0 ≡ ok o
    → Decided r c w o (admit r c attempted w).1 × Admitted r attempted c o
unfolding admit
admit-Decided r c attempted w o h =
    admit_attempted-Decided r c attempted (lookup c.checksum attempted) w o refl h
