-- ===== src/Contracts.antt =====
-- airflow/plugins/nordbank_ops/contracts.py: every contract version on disk is recorded in
-- `meta.contract_version`, and a batch is validated against the one in force for its interval.
pub mod Recorded
pub mod InForce
mod Tests
use nordbank_data_platform.Common.{
  ℕ, ◌+◌, max, String, Bool, true, false, ◌&&◌, Option, none, some, List, [], ◌∷◌, ◌++◌, ◌==◌, leb,
  str_eq, if◌then◌else◌, sorted_set, edited_in_place, none_in_force, no_file,
}
use nordbank_data_platform.Common.Dict.{Dict, lookup, keys}
use nordbank_data_platform.Validation.Schema.{Contract}
use nordbank_data_platform.Warehouse.{VersionRow, Warehouse}
use nordbank_data_platform.Warehouse.Action.{Action, pure, raise, gets, modify, ◌>>=◌, ◌>>◌}

-- Every version of each entity's contract, oldest first.
abbrev pub VersionChains : Type 0
VersionChains = Dict (List Contract)

abbrev pub chain_of : String → VersionChains → List Contract
chain_of entity chains = elim (lookup entity chains) [ none ↦ [] | some cs ↦ cs ]

abbrev pub same_date : Option ℕ → Option ℕ → Bool
same_date none none = true
same_date (some a) (some b) = a == b
same_date _ _ = false

-- `source_system = ? and entity = ? and contract_version = ?`
abbrev pub is_version : String → String → ℕ → VersionRow → Bool
is_version system entity version r =
    str_eq r.source_system system && (str_eq r.entity entity && r.contract_version == version)

unfoldable pub find_version : List VersionRow → String → String → ℕ → Option VersionRow
find_version [] system entity version = none
find_version (r ∷ rs) system entity version =
    if is_version system entity version r then some r else find_version rs system entity version

unfoldable pub version_row : String → Contract → ℕ → VersionRow
version_row entity c now = record {
  source_system = c.source_system;
  entity = entity;
  contract_version = c.contract_version;
  dictionary_revision = c.dictionary_revision;
  contract_fingerprint = c.fingerprint;
  in_force_from = c.in_force_from;
  first_seen_at = now;
}

-- The row of a version that is recorded agrees with its file.
abbrev pub agrees : VersionRow → Contract → Bool
agrees r c =
    str_eq r.contract_fingerprint c.fingerprint && same_date r.in_force_from c.in_force_from

-- What the loop of `sync` does with one version: 1 if it was added.
unfoldable pub sync_found : String → Contract → ℕ → Option VersionRow → Action Warehouse ℕ
unfolding version_row
sync_found entity c now none =
    modify (λ w. record w { versions = w.versions ++ version_row entity c now ∷ [] }) >> pure 1
sync_found entity c now (some r) =
    if agrees r c then pure 0 else raise (edited_in_place entity c.contract_version)

unfoldable pub sync_one : String → Contract → ℕ → Action Warehouse ℕ
unfolding find_version sync_found
sync_one entity c now = do
  row ← gets (λ w. find_version w.versions c.source_system entity c.contract_version)
  sync_found entity c now row

unfoldable pub sync_chain : String → List Contract → ℕ → Action Warehouse ℕ
unfolding sync_one
sync_chain entity [] now = pure 0
sync_chain entity (c ∷ cs) now = do
  a ← sync_one entity c now
  b ← sync_chain entity cs now
  pure (a + b)

unfoldable pub sync_entities : VersionChains → List String → ℕ → Action Warehouse ℕ
unfolding sync_chain
sync_entities chains [] now = pure 0
sync_entities chains (e ∷ es) now = do
  a ← sync_chain e (chain_of e chains) now
  b ← sync_entities chains es now
  pure (a + b)

-- Record every version on disk, and refuse one whose file changed after it was recorded.
unfoldable pub sync : VersionChains → ℕ → Action Warehouse ℕ
unfolding sync_entities
sync chains now = sync_entities chains (sorted_set (keys chains)) now

-- `in_force_from is null or in_force_from <= ?`
abbrev pub in_force_by : ℕ → Option ℕ → Bool
in_force_by day none = true
in_force_by day (some from) = leb from day

abbrev pub is_candidate : String → String → ℕ → VersionRow → Bool
is_candidate system entity day r =
    str_eq r.source_system system && (str_eq r.entity entity && in_force_by day r.in_force_from)

abbrev pub greater : ℕ → Option ℕ → Option ℕ
greater n none = some n
greater n (some m) = some (max n m)

-- `select max(contract_version)`
unfoldable pub max_version : List VersionRow → String → String → ℕ → Option ℕ
max_version [] system entity day = none
max_version (r ∷ rs) system entity day =
    let rest = max_version rs system entity day in
    if is_candidate system entity day r then greater r.contract_version rest else rest

-- The version in force for a batch whose interval starts on `day`.
abbrev pub selected : String → ℕ → Option ℕ → Action Warehouse ℕ
selected entity day none = raise (none_in_force entity day)
selected entity day (some v) = pure v

unfoldable pub select : String → String → ℕ → Action Warehouse ℕ
unfolding max_version
select system entity day = do
  found ← gets (λ w. max_version w.versions system entity day)
  selected entity day found

-- The contract of one version, from disk.
unfoldable pub find_body : List Contract → String → ℕ → Action Warehouse Contract
find_body [] entity version = raise (no_file entity version)
find_body (c ∷ cs) entity version =
    if c.contract_version == version then pure c else find_body cs entity version

unfoldable pub body : VersionChains → String → ℕ → Action Warehouse Contract
unfolding find_body
body chains entity version = find_body (chain_of entity chains) entity version
