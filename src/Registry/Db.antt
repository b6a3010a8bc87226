-- ===== src/Registry/Db.antt =====
-- The two tables of the agent registry, panasa-agents and panasa-agent-versions.
use agent_builder_factory_ap.Base.{ℕ, String, Option, nat_key, string_key, Exec}
use agent_builder_factory_ap.Table.{Table}
use agent_builder_factory_ap.Registry.Models.{AgentRecord, Snapshot, Derived, RegistryError}

-- An UpdateItem on a missing key creates an item that holds only what it sets: such an item has no
-- snapshot.
pub record VersionItem : Type 0 where
  pub snapshot : Option Snapshot
  pub derived : Derived

pub record RegistryTables : Type 1 where
  pub agents : Table String String AgentRecord
  pub versions : Table String ℕ VersionItem

module _ ⦃t : RegistryTables⦄ where
  pub record Db : Type 0 where
    pub agents : t.agents.Contents
    pub versions : t.versions.Contents

  -- A method of the store.
  abbrev pub Method : Type 0 → Type 0
  Method A = Exec Db RegistryError A
