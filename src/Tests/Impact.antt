-- ===== src/Tests/Impact.antt =====
-- A witness on a diff that changes the prompt and adds a tool.
use agent_builder_factory_ap.Base.{false, [], ◌∷◌, ◌==◌, string_key}
use agent_builder_factory_ap.Impact.{ConfigDiff, Patterns}
use agent_builder_factory_ap.Impact.Highest.{Judged, impact_is_the_highest}

abbrev patterns : Patterns
patterns = record {
  is_tool_item = λ s. s == "tools[1]";
  is_tool_endpoint = λ s. s == "tools[1].endpoint";
}

abbrev diff : ConfigDiff
diff = record {
  changed = record { field = "system_prompt"; unset = false } ∷ [];
  added = record { field = "tools[1]"; unset = false } ∷ [];
  removed = [];
}

impact_is_the_highest_example : Judged patterns diff
impact_is_the_highest_example = impact_is_the_highest patterns diff
