-- ===== src/Feeds/Admission.antt =====
-- airflow/plugins/nordbank_ops/feeds/phases.py, which of the deliveries found in the inbound prefix
-- a run attempts, and `parked` of feeds/identity.py. The allocation of a delivery's batches, which
-- is the feed's own, is a parameter.
pub mod Decided
pub mod Sighted
mod Tests
use nordbank_data_platform.Common.{
  ℕ, String, ◌&&◌, ◌||◌, not, Bool, true, false, Option, none, some, List, [], ◌∷◌, ◌++◌, map,
  filter, any, ltb, str_lt, str_eq, has_name, if◌then◌else◌, ◌==◌, Result, ok, err, other,
  ◌>>=◌ as ◌>>=R◌,
}
use Prim.Native.Char.{Char, code}
use nordbank_data_platform.Common.Dict.{Dict, lookup, insert}
use nordbank_data_platform.Validation.Schema.{Contract}
use nordbank_data_platform.Warehouse.{Status, failed, BatchRow, VersionRow, SightingRow, Warehouse}
use nordbank_data_platform.Warehouse.Action.{Action, pure, lift, gets, ◌>>=◌, ◌>>◌}
use nordbank_data_platform.Contracts.{VersionChains, chain_of, select, body}
use nordbank_data_platform.Phases.{current_of}
use nordbank_data_platform.Feeds.Allocation.{OpenedBatch}
use nordbank_data_platform.Feeds.Identity.{Candidate, is_verdict, record_sighting, starts}

-- An entity and the fingerprint of its contract, in pairs.
abbrev pub Fingerprints : Type 0
Fingerprints = List (String × String)

pub record Parked : Type 0 where
  pub batch_id : String
  pub reason : String
  pub fingerprints : Fingerprints

abbrev pub pair_lt : String × String → String × String → Bool
pair_lt (a, b) (c, d) = str_lt a c || (str_eq a c && str_lt b d)

abbrev pub insert_pair : String × String → Fingerprints → Fingerprints
insert_pair p [] = p ∷ []
insert_pair p (q ∷ qs) = let rest = insert_pair p qs in if pair_lt q p then q ∷ rest else p ∷ q ∷ qs

-- `tuple(sorted(pairs))`
unfoldable pub sorted_pairs : Fingerprints → Fingerprints
sorted_pairs [] = []
sorted_pairs (p ∷ ps) = insert_pair p (sorted_pairs ps)

abbrev pub same_pairs : Fingerprints → Fingerprints → Bool
same_pairs [] [] = true
same_pairs ((a, b) ∷ ps) ((c, d) ∷ qs) = str_eq a c && (str_eq b d && same_pairs ps qs)
same_pairs _ _ = false

-- `batch_id.split("-", 1)[1]`, and empty where there is no dash.
abbrev pub sibling_suffix : String → String
sibling_suffix String.[] = ""
sibling_suffix (String.◌∷◌ c s) = if code c == 45 then s else sibling_suffix s

-- `text like '%' || suffix`
abbrev pub ends : String → String → Bool
ends String.[] suffix = str_eq "" suffix
ends (String.◌∷◌ c s) suffix = str_eq (String.◌∷◌ c s) suffix || ends s suffix

-- The versions that a batch row joins, as pairs of its entity and their fingerprints.
abbrev pub versions_of : BatchRow → List VersionRow → Fingerprints
versions_of b [] = []
versions_of b (v ∷ vs) =
    let rest = versions_of b vs in
    if str_eq v.source_system b.source_system
      && (str_eq v.entity b.entity && v.contract_version == b.contract_version)
    then (b.entity, v.contract_fingerprint) ∷ rest
    else rest

abbrev pub joined_versions : List BatchRow → List VersionRow → Fingerprints
joined_versions [] versions = []
joined_versions (b ∷ bs) versions = versions_of b versions ++ joined_versions bs versions

unfoldable pub attempt_fingerprints : Warehouse → String → String → Fingerprints
unfolding sorted_pairs
attempt_fingerprints w system batch_id = sorted_pairs (
    joined_versions
      (filter
        (λ (b : BatchRow).
          str_eq b.source_system system
          && ends b.batch_id (String.◌∷◌ "-" (sibling_suffix batch_id)))
        w.batches)
      w.versions)

-- The latest sighting that attempted a delivery; of two at one time, the first of the table.
abbrev pub is_attempt : String → String → SightingRow → Bool
is_attempt system checksum s =
    str_eq s.source_system system
    && (has_name s.outcome ("new" ∷ "reattempted" ∷ []) && str_eq s.content_checksum checksum)

abbrev pub later_of : SightingRow → Option SightingRow → SightingRow
later_of s none = s
later_of s (some t) = if ltb s.seen_at t.seen_at then t else s

abbrev pub latest_attempt : String → String → List SightingRow → Option SightingRow
latest_attempt system checksum [] = none
latest_attempt system checksum (s ∷ ss) =
    let rest = latest_attempt system checksum ss in
    if is_attempt system checksum s then some (later_of s rest) else rest

abbrev pub is_failed_batch : Status → Bool
is_failed_batch failed = true
is_failed_batch _ = false

-- A refused batch, with its reason where the reason is a verdict.
abbrev pub refused_reason : BatchRow → Option String
refused_reason b =
    if is_failed_batch b.status && is_verdict b.failure_reason then b.failure_reason else none

abbrev pub joined_batch : String → List BatchRow → Option BatchRow
joined_batch id [] = none
joined_batch id (b ∷ bs) = if str_eq b.batch_id id then some b else joined_batch id bs

abbrev pub parked_with : Warehouse → String → BatchRow → Option String → Option Parked
parked_with w system b none = none
parked_with w system b (some reason) = some (record {
  batch_id = b.batch_id;
  reason = reason;
  fingerprints = attempt_fingerprints w system b.batch_id;
})

abbrev pub parked_batch : Warehouse → String → Option BatchRow → Option Parked
parked_batch w system none = none
parked_batch w system (some b) = parked_with w system b (refused_reason b)

abbrev pub parked_attempt : Warehouse → String → Option SightingRow → Option Parked
parked_attempt w system none = none
parked_attempt w system (some s) = elim s.batch_id [
  | none ↦ none
  | some id ↦ parked_batch w system (joined_batch id w.batches)
]

-- What parked a delivery: the verdict on the batch of its latest attempt.
abbrev pub parked_as : Warehouse → String → String → Option Parked
parked_as w system checksum = parked_attempt w system (latest_attempt system checksum w.sightings)

abbrev pub parked_in : Warehouse → String → List String → Dict Parked
parked_in w system [] = []
parked_in w system (checksum ∷ checksums) =
    let rest = parked_in w system checksums in
    elim (parked_as w system checksum) [ none ↦ rest | some p ↦ (checksum, p) ∷ rest ]

unfoldable pub parked : String → List String → Action Warehouse (Dict Parked)
unfolding attempt_fingerprints is_verdict
parked system checksums = gets (λ w. parked_in w system checksums)

-- What the open step of a feed has at hand for every delivery.
pub record Run : Type 0 where
  pub chains : VersionChains
  pub system : String
  pub entities : List String
  pub day : ℕ
  pub selected_on : ℕ
  pub run_id : String
  pub opened_at : ℕ
  pub landed : Dict String
  pub held : Dict Parked

-- The deliveries that the run has allocated, by checksum: the outcome and the batch.
abbrev pub Attempted : Type 0
Attempted = Dict (String × String)

-- The selection and the reading of a contract leave the warehouse as it is.
abbrev pub fingerprint_in : VersionChains → ℕ → String → Warehouse → Result String
fingerprint_in chains day entity w = current_of (chain_of entity chains) >>=R λ current.
    (select current.source_system entity day w).0 >>=R λ version.
    (body chains entity version w).0 >>=R λ c. ok c.fingerprint

abbrev pub in_force_pairs : VersionChains → ℕ → List String → Warehouse → Result Fingerprints
in_force_pairs chains day [] w = ok []
in_force_pairs chains day (entity ∷ entities) w =
    fingerprint_in chains day entity w >>=R λ fingerprint.
    in_force_pairs chains day entities w >>=R λ rest. ok ((entity, fingerprint) ∷ rest)

unfoldable pub in_force : VersionChains → ℕ → List String → Action Warehouse Fingerprints
unfolding select body sorted_pairs
in_force chains day entities w =
    (in_force_pairs chains day entities w >>=R λ pairs. ok (sorted_pairs pairs), w)

module _ (r : Run) where
  abbrev pub sighting_of : Candidate → String → String → SightingRow
  sighting_of c outcome batch_id = record {
    content_checksum = c.checksum;
    source_system = r.system;
    object_key = c.key;
    ingest_date = r.day;
    outcome = outcome;
    batch_id = some batch_id;
    triggering_run_id = r.run_id;
    seen_at = r.opened_at;
  }

  -- A delivery that is not attempted is sighted.
  unfoldable pub sighted : Candidate → String → String → Action Warehouse (Option String)
  unfolding record_sighting
  sighted c outcome batch_id = do record_sighting (sighting_of c outcome batch_id); pure none

  -- A parked delivery is attempted again once its contracts have changed.
  unfoldable pub admit_parked : Candidate → Parked → Fingerprints → Action Warehouse (Option String)
  unfolding sighted
  admit_parked c held current =
      if same_pairs held.fingerprints current
      then sighted c "parked" held.batch_id
      else pure (some "reattempted")

  unfoldable pub admit_held : Candidate → Option Parked → Action Warehouse (Option String)
  unfolding in_force admit_parked
  admit_held c none = pure (some "new")
  admit_held c (some held) = do
    current ← in_force r.chains r.selected_on r.entities
    admit_parked c held current

  unfoldable pub admit_landed : Candidate → Option String → Action Warehouse (Option String)
  unfolding admit_held
  admit_landed c none = admit_held c (lookup c.checksum r.held)
  admit_landed c (some batch_id) = sighted c "already_ingested" batch_id

  unfoldable pub admit_attempted :
      Candidate → Option (String × String) → Action Warehouse (Option String)
  unfolding admit_landed
  admit_attempted c none = admit_landed c (lookup c.checksum r.landed)
  admit_attempted c (some (outcome, batch_id)) = sighted c outcome batch_id

  unfoldable pub admit : Candidate → Attempted → Action Warehouse (Option String)
  unfolding admit_attempted
  admit c attempted = admit_attempted c (lookup c.checksum attempted)

-- A delivery that is attempted, with its outcome and its batches.
pub record OpenedUnit : Type 0 where
  pub candidate : Candidate
  pub outcome : String
  pub batches : List OpenedBatch

-- `batches[0]["batch_id"]`
abbrev pub first_id : List OpenedBatch → Result String
first_id [] = err (other "IndexError")
first_id (b ∷ bs) = ok b.opened.batch_id

module _ (r : Run) where
  -- A delivery that is attempted is sighted with the first of its batches.
  unfoldable pub open_with :
      Candidate
      → Attempted
      → String
      → List OpenedBatch
      → Action Warehouse (List OpenedUnit × Attempted)
  unfolding record_sighting
  open_with c attempted outcome batches = do
    batch_id ← lift (first_id batches)
    record_sighting (sighting_of r c outcome batch_id)
    pure (
      record { candidate = c; outcome = outcome; batches = batches } ∷ [],
      insert c.checksum (outcome, batch_id) attempted,
    )

module _ (r : Run) (allocate : Candidate → Action Warehouse (List OpenedBatch)) where
  unfoldable pub open_admitted :
      Candidate → Attempted → Option String → Action Warehouse (List OpenedUnit × Attempted)
  unfolding open_with
  open_admitted c attempted none = pure ([], attempted)
  open_admitted c attempted (some outcome) = do
    batches ← allocate c
    open_with r c attempted outcome batches

  unfoldable pub open_delivery :
      Candidate → Attempted → Action Warehouse (List OpenedUnit × Attempted)
  unfolding admit open_admitted
  open_delivery c attempted = do outcome ← admit r c attempted; open_admitted c attempted outcome

  -- The loop over what was found, in its order.
  unfoldable pub open_deliveries :
      List Candidate → Attempted → Action Warehouse (List OpenedUnit × Attempted)
  unfolding open_delivery
  open_deliveries [] attempted = pure ([], attempted)
  open_deliveries (c ∷ cs) attempted = do
    one ← open_delivery c attempted
    rest ← open_deliveries cs one.1
    pure (one.0 ++ rest.0, rest.1)
