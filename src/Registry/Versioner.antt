-- ===== src/Registry/Versioner.antt =====
-- app/modules/registry/versioner.py: version items are written once; afterwards only the derived
-- fields change. `config_hash` is app/shared/config_hash.py, SHA-256 of the canonical JSON.
use mathlib.Core.List.{flatten}
use mathlib.Core.Option
use agent_builder_factory_ap.Base.{
  ℕ, String, Bool, true, false, ◌&&◌, not, Option, none, some, List, [], ◌∷◌, Result, ok, err,
  if◌then◌else◌, nat_key, string_key,
}
use agent_builder_factory_ap.Registry.Models.{
  AgentConfiguration, VersionStatus, LifecycleStatus, CapabilityContract, Snapshot, Derived,
  no_derived, AgentVersionRecord, RegistryError, version_already_exists, value_error,
  validation_error, normalise_agent_type, is_agent_type,
}
use agent_builder_factory_ap.Registry.Contract.{generate}
use agent_builder_factory_ap.Registry.Db.{VersionItem, RegistryTables, Method}

-- one keyword argument of `record_derived_fields`: an attribute and its new value
pub data VersionField : Type 0 where
  iac_version iac_s3_key iac_validation_report deployment_id evaluation_result :
      String → VersionField
  terraform_plan_summary deployment_result security_result : String → VersionField
  iac_modules : List String → VersionField
  project_lifecycle_status : LifecycleStatus → VersionField
  version_status : VersionStatus → VersionField
  configuration : AgentConfiguration → VersionField
  capability_contract : CapabilityContract → VersionField
  config_hash : String → VersionField
  rolled_back_from_version : ℕ → VersionField

-- `_MUTABLE_DERIVED_FIELDS`
unfoldable pub is_mutable : VersionField → Bool
is_mutable (iac_version _) = true
is_mutable (iac_s3_key _) = true
is_mutable (iac_modules _) = true
is_mutable (iac_validation_report _) = true
is_mutable (deployment_id _) = true
is_mutable (terraform_plan_summary _) = true
is_mutable (deployment_result _) = true
is_mutable (evaluation_result _) = true
is_mutable (project_lifecycle_status _) = true
is_mutable _ = false

unfoldable pub all_mutable : List VersionField → Bool
unfolding is_mutable
all_mutable [] = true
all_mutable (f ∷ fs) = is_mutable f && all_mutable fs

abbrev on_snapshot : (Snapshot → Snapshot) → VersionItem → VersionItem
on_snapshot f i = record i { snapshot = Option.map f i.snapshot }

-- `SET #name = :name` on one item
unfoldable pub set_field : VersionItem → VersionField → VersionItem
set_field i (iac_version x) = record i { derived = record (i.derived) { iac_version = some x } }
set_field i (iac_s3_key x) = record i { derived = record (i.derived) { iac_s3_key = some x } }
set_field i (iac_modules x) = record i { derived = record (i.derived) { iac_modules = some x } }
set_field i (iac_validation_report x) = record i {
  derived = record (i.derived) { iac_validation_report = some x };
}
set_field i (deployment_id x) = record i { derived = record (i.derived) { deployment_id = some x } }
set_field i (terraform_plan_summary x) = record i {
  derived = record (i.derived) { terraform_plan_summary = some x };
}
set_field i (deployment_result x) = record i {
  derived = record (i.derived) { deployment_result = some x };
}
set_field i (evaluation_result x) = record i {
  derived = record (i.derived) { evaluation_result = some x };
}
set_field i (security_result x) = record i {
  derived = record (i.derived) { security_result = some x };
}
set_field i (project_lifecycle_status x) = record i {
  derived = record (i.derived) { project_lifecycle_status = some x };
}
set_field i (version_status x) = on_snapshot (λ s. record s { version_status = x }) i
set_field i (configuration x) = on_snapshot (λ s. record s { configuration = x }) i
set_field i (capability_contract x) = on_snapshot (λ s. record s { capability_contract = x }) i
set_field i (config_hash x) = on_snapshot (λ s. record s { config_hash = some x }) i
set_field i (rolled_back_from_version x) =
    on_snapshot (λ s. record s { rolled_back_from_version = some x }) i

unfoldable pub set_fields : VersionItem → List VersionField → VersionItem
unfolding set_field
set_fields i [] = i
set_fields i (f ∷ fs) = set_fields (set_field i f) fs

-- an update of a missing item starts from the empty one
abbrev pub or_empty : Option VersionItem → VersionItem
or_empty none = record { snapshot = none; derived = no_derived }
or_empty (some i) = i

-- `_to_item`
unfoldable pub to_item : AgentVersionRecord → VersionItem
to_item v = record { snapshot = some v.snapshot; derived = v.derived }

-- a retired agent type in the embedded contract is mapped, and the record type checks the result
abbrev pub normalise_contract : CapabilityContract → CapabilityContract
normalise_contract c = record c { agent_type = normalise_agent_type c.agent_type }

abbrev pub parse : Option Snapshot → Derived → Result RegistryError AgentVersionRecord
parse none d = err validation_error
parse (some s) d =
    let c = normalise_contract s.capability_contract in
    if is_agent_type c.agent_type
    then ok (record { snapshot = record s { capability_contract = c }; derived = d })
    else err validation_error

-- `_from_item`
unfoldable pub from_item : VersionItem → Result RegistryError AgentVersionRecord
unfolding normalise_agent_type is_agent_type
from_item i = parse i.snapshot i.derived

abbrev pub parse_found : Option VersionItem → Result RegistryError (Option AgentVersionRecord)
parse_found none = ok none
parse_found (some i) = elim (from_item i) [ ok v ↦ ok (some v) | err e ↦ err e ]

abbrev pub cons_result :
    Result RegistryError AgentVersionRecord
    → Result RegistryError (List AgentVersionRecord)
    → Result RegistryError (List AgentVersionRecord)
cons_result (ok v) (ok vs) = ok (v ∷ vs)
cons_result (ok v) (err e) = err e
cons_result (err e) _ = err e

unfoldable pub from_items : List VersionItem → Result RegistryError (List AgentVersionRecord)
unfolding from_item
from_items [] = ok []
from_items (i ∷ is) = cons_result (from_item i) (from_items is)

-- `build_version`; `hash` is the result of compute_config_hash, `now` that of _now
unfoldable pub build_version :
    String
    → String
    → String
    → ℕ
    → AgentConfiguration
    → String
    → String
    → Option ℕ
    → String
    → String
    → AgentVersionRecord
unfolding generate
build_version agent_id name agent_type version config changed_by description from hash now =
    record {
      snapshot = record {
        agent_id = agent_id;
        version = version;
        version_status = VersionStatus.draft;
        change_description = description;
        changed_by = changed_by;
        created_at = now;
        configuration = config;
        config_hash = some hash;
        capability_contract = generate agent_id name agent_type config version;
        rolled_back_from_version = from;
      };
      derived = no_derived;
    }

abbrev is_empty : List VersionField → Bool
is_empty [] = true
is_empty (_ ∷ _) = false

module _ ⦃t : RegistryTables⦄ where
  -- `write`, a PutItem on the condition that no item has this key
  unfoldable pub write : AgentVersionRecord → Method Unit
  write v db =
      let id = v.snapshot.agent_id in
      let n = v.snapshot.version in
      elim (t.versions.get_item db.versions id n) [
        | none ↦ (ok tt, record db { versions = t.versions.put_item db.versions id n (to_item v) })
        | some _ ↦ (err (version_already_exists id n), db)
      ]

  unfoldable pub record_derived_fields : String → ℕ → List VersionField → Method Unit
  record_derived_fields id n fields db =
      if not (all_mutable fields)
      then (err value_error, db)
      else if is_empty fields
      then (ok tt, db)
      else (
        ok tt,
        record db {
          versions =
              t.versions.put_item db.versions id n
                (set_fields (or_empty (t.versions.get_item db.versions id n)) fields);
        },
      )

  unfoldable pub delete : String → ℕ → Method Unit
  delete id n db = (ok tt, record db { versions = t.versions.delete_item db.versions id n })

  unfoldable pub get : String → ℕ → Method (Option AgentVersionRecord)
  get id n db = (parse_found (t.versions.get_item db.versions id n), db)

  unfoldable pub list_all : String → Method (List AgentVersionRecord)
  list_all id db = (from_items (flatten (t.versions.query db.versions id)), db)
