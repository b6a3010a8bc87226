-- ===== src/Dependency/Validate.antt =====
-- The validator accepts exactly the graphs in which the agent reaches no cycle.
use agent_builder_factory_ap.Base.{
  String, ◌≡◌, refl, ◌↔◌, Bool, true, false, Option, none, some, List, [], ◌∷◌, Memᴰ, string_key,
  length,
}
use agent_builder_factory_ap.Dependency.{Graph, agents, Sets, has_cycle, result, no_sets, validate}
use agent_builder_factory_ap.Dependency.Paths.{CycleFrom, safe_no_cycle}
use agent_builder_factory_ap.Dependency.Search.{Inv, Outcome, Outcome-has_cycle}
use agent_builder_factory_ap.Dependency.Fuel.{Returns, Returns-has_cycle, unvisited-le-length}

Inv-no_sets : (g : Graph) → Inv g no_sets
Inv-no_sets g = record { within = λ x h. cc; left = λ x h k. cc }

abbrev Verdict : Graph → String → Option Bool → Type 0
Verdict g a none = ⊥
Verdict g a (some true) = CycleFrom g a → ⊥
Verdict g a (some false) = CycleFrom g a

Verdict-result :
    (g : Graph) (a : String) (r : Option (Bool × Sets))
    → Returns no_sets r
    → Outcome g a no_sets r
    → Verdict g a (result r)
Verdict-result g a none h o = h
Verdict-result g a (some (true, s)) h o = o
Verdict-result g a (some (false, s)) h o = safe_no_cycle o.0

Verdict-agents : (a : String) (ns : List String) (g : Graph) → Memᴰ a (agents ((a, ns) ∷ g))
unfolding agents
Verdict-agents a ns g = Memᴰ.head refl

Verdict-validate :
    (a : String) (proposed : List String) (g : Graph)
    → Verdict ((a, proposed) ∷ g) a (validate a proposed g)
unfolding validate
Verdict-validate a proposed g =
    let h : Graph = (a, proposed) ∷ g in
    Verdict-result h a (has_cycle h (length (agents h)) a no_sets)
      (Returns-has_cycle h (length (agents h)) a no_sets (Verdict-agents a proposed g) refl
        (unvisited-le-length (agents h) []))
      (Outcome-has_cycle h (length (agents h)) a no_sets (Inv-no_sets h) refl (λ r k. cc))

abbrev Decides : Graph → String → Option Bool → Type 0
Decides g a r = ((r ≡ some true) ↔ (CycleFrom g a → ⊥)) × ((r ≡ some false) ↔ CycleFrom g a)

Decides-of_Verdict : (g : Graph) (a : String) (r : Option Bool) → Verdict g a r → Decides g a r
Decides-of_Verdict g a none h = absurd h
Decides-of_Verdict g a (some true) h = ((λ e. h, λ n. refl), (λ e. cc, λ c. absurd (h c)))
Decides-of_Verdict g a (some false) h = ((λ e. cc, λ n. absurd (n h)), (λ e. h, λ c. refl))

-- The search always returns. It accepts the proposed sub-agents exactly when no cycle can be reached
-- from the agent in the graph with the proposed edges, and rejects them exactly when one can.
pub validate_decides :
    (agent_id : String) (proposed : List String) (all_agents : Graph)
    → ((validate agent_id proposed all_agents ≡ some true)
        ↔ (CycleFrom ((agent_id, proposed) ∷ all_agents) agent_id → ⊥))
      × ((validate agent_id proposed all_agents ≡ some false)
          ↔ CycleFrom ((agent_id, proposed) ∷ all_agents) agent_id)
validate_decides a proposed g =
    Decides-of_Verdict ((a, proposed) ∷ g) a (validate a proposed g) (Verdict-validate a proposed g)
