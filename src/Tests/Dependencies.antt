-- ===== src/Tests/Dependencies.antt =====
-- Witnesses on small sub-agent graphs.
use agent_builder_factory_ap.Base.{◌≡◌, refl, ◌↔◌, true, false, some, [], ◌∷◌}
use agent_builder_factory_ap.Dependency.{Graph, validate}
use agent_builder_factory_ap.Dependency.Paths.{CycleFrom}
use agent_builder_factory_ap.Dependency.Validate.{validate_decides}

abbrev diamond : Graph
diamond = ("b", "d" ∷ []) ∷ ("c", "d" ∷ []) ∷ []

abbrev ring : Graph
ring = ("b", "c" ∷ []) ∷ ("c", "a" ∷ []) ∷ []

diamond_accepted : validate "a" ("b" ∷ "c" ∷ []) diamond ≡ some true
unfolding validate
diamond_accepted = refl

ring_rejected : validate "a" ("b" ∷ []) ring ≡ some false
unfolding validate
ring_rejected = refl

validate_decides_example :
    ((validate "a" ("b" ∷ []) ring ≡ some true) ↔ (CycleFrom (("a", "b" ∷ []) ∷ ring) "a" → ⊥))
    × ((validate "a" ("b" ∷ []) ring ≡ some false) ↔ CycleFrom (("a", "b" ∷ []) ∷ ring) "a")
validate_decides_example = validate_decides "a" ("b" ∷ []) ring
