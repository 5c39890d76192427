-- ===== src/Drift.antt =====
-- airflow/plugins/nordbank_ops/schema_drift.py: the source's live shape against the contract in
-- force. `live_types` is what the source's catalogue says, a type per column name.
pub mod Compatible
mod Tests
use nordbank_data_platform.Common.{
  String, Bool, true, false, not, ◌&&◌, Option, none, some, List, [], ◌∷◌, ◌++◌, map, filter,
  has_name, sorted_set, str_eq, if◌then◌else◌,
}
use Prim.Native.String.{◌++◌ as ◌+++◌}
use nordbank_data_platform.Common.Dict.{Dict, lookup, insert, keys}
use nordbank_data_platform.Validation.Schema.{Column, Contract}

abbrev pub additive : String
additive = "additive"

abbrev pub type_changed : String
type_changed = "type_changed"

abbrev pub column_removed : String
column_removed = "column_removed"

abbrev pub primary_key_changed : String
primary_key_changed = "primary_key_changed"

abbrev pub breaking_kinds : List String
breaking_kinds = type_changed ∷ column_removed ∷ primary_key_changed ∷ []

abbrev pub action_landed : String
action_landed = "landed, column omitted from bronze"

abbrev pub action_failed : String
action_failed = "batch quarantined, watermark unmoved"

pub record DriftObservation : Type 0 where
  pub column : String
  pub kind : String
  pub detail : String

abbrev pub is_breaking : DriftObservation → Bool
is_breaking o = has_name o.kind breaking_kinds

abbrev pub action : DriftObservation → String
action o = if is_breaking o then action_failed else action_landed

pub record DriftReport : Type 0 where
  pub observations : List DriftObservation

abbrev pub breaking : DriftReport → List DriftObservation
breaking r = filter is_breaking r.observations

abbrev pub additives : DriftReport → List DriftObservation
additives r = filter (λ o. not (is_breaking o)) r.observations

abbrev pub is_any : List DriftObservation → Bool
is_any [] = false
is_any (o ∷ os) = true

abbrev pub is_breaking_report : DriftReport → Bool
is_breaking_report r = is_any (breaking r)

-- `{column.name: column for column in contract.columns}`
abbrev columns_into : Dict Column → List Column → Dict Column
columns_into d [] = d
columns_into d (k ∷ ks) = columns_into (insert k.name k d) ks

abbrev pub contracted : Contract → Dict Column
contracted c = columns_into [] c.columns

-- `live_types[name]` and `contracted[name].data_type`, for a name that is a key of the mapping.
abbrev text_of : Option String → String
text_of none = ""
text_of (some t) = t

abbrev type_of : Option Column → String
type_of none = ""
type_of (some k) = k.data_type

abbrev pub actual_type : Dict String → String → String
actual_type live n = text_of (lookup n live)

abbrev pub declared_type : Dict Column → String → String
declared_type d n = type_of (lookup n d)

abbrev pub minus : List String → List String → List String
minus ns ms = filter (λ n. not (has_name n ms)) ns

abbrev pub shared : List String → List String → List String
shared ns ms = filter (λ n. has_name n ms) ns

abbrev pub added : Dict String → String → DriftObservation
added live n = record {
  column = n;
  kind = additive;
  detail = "source has " +++ (actual_type live n +++ ", contract has no such column");
}

abbrev pub removed : Dict Column → String → DriftObservation
removed d n = record {
  column = n;
  kind = column_removed;
  detail = "contract has " +++ (declared_type d n +++ ", source has no such column");
}

abbrev pub retyped : Dict Column → Dict String → String → DriftObservation
retyped d live n = record {
  column = n;
  kind = type_changed;
  detail = "contract has " +++ (declared_type d n +++ (", source has " +++ actual_type live n));
}

abbrev pub is_retyped : Dict Column → Dict String → String → Bool
is_retyped d live n = not (str_eq (declared_type d n) (actual_type live n))

abbrev pub rekeyed : Contract → Option String → List DriftObservation
rekeyed c none = []
rekeyed c (some key) =
    if str_eq key c.primary_key
    then []
    else record {
      column = key;
      kind = primary_key_changed;
      detail = "contract keys on " +++ (c.primary_key +++ (", source keys on " +++ key));
    }
      ∷ []

unfoldable pub classify : Contract → Dict String → Option String → DriftReport
classify c live key =
    let d = contracted c in
    record {
      observations =
          map (added live) (sorted_set (minus (keys live) (keys d)))
          ++ (map (removed d) (sorted_set (minus (keys d) (keys live)))
              ++ (map (retyped d live)
                    (filter (is_retyped d live) (sorted_set (shared (keys d) (keys live))))
                  ++ rekeyed c key));
    }
