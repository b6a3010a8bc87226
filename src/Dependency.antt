-- ===== src/Dependency.antt =====
-- app/modules/registry/dependency_validator.py: depth-first search for a cycle among the sub-agents
-- of an orchestrator. The two Python sets are lists; the recursion takes fuel.
pub mod Paths
mod Loop
pub mod Search
pub mod Fuel
pub mod Validate
use agent_builder_factory_ap.Base.{
  ℕ, zero, suc, ◌+◌, String, Bool, true, false, Option, none, some, List, [], ◌∷◌, ◌++◌, ◌==◌,
  string_key, contains, length, if◌then◌else◌,
}

-- agent_id -> its sub-agents; an entry hides those behind it
abbrev pub Graph : Type 0
Graph = List (String × List String)

-- graph.get(node, [])
unfoldable pub neighbours : Graph → String → List String
neighbours [] n = []
neighbours ((k, ns) ∷ g) n = if k == n then ns else neighbours g n

pub record Sets : Type 0 where
  pub visited : List String
  pub rec_stack : List String

unfoldable pub discard : String → List String → List String
discard a [] = []
discard a (x ∷ xs) = let rest = discard a xs in if x == a then rest else x ∷ rest

-- go on after a call that found nothing
abbrev pub next : Option (Bool × Sets) → (Sets → Option (Bool × Sets)) → Option (Bool × Sets)
next none k = none
next (some (true, s)) k = some (true, s)
next (some (false, s)) k = k s

-- The loop over the neighbours; `f` is the recursive call. `none` means that the fuel ran out.
unfoldable pub loop :
    (String → Sets → Option (Bool × Sets)) → List String → Sets → Option (Bool × Sets)
loop f [] s = some (false, s)
loop f (n ∷ ns) s = elim (contains s.visited n) [
  | false ↦ next (f n s) (λ s'. loop f ns s')
  | true ↦ elim (contains s.rec_stack n) [ true ↦ some (true, s) | false ↦ loop f ns s ]
]

abbrev pub leave : String → Option (Bool × Sets) → Option (Bool × Sets)
leave node none = none
leave node (some (found, s)) =
    some (found, if found then s else record s { rec_stack = discard node s.rec_stack })

unfoldable pub has_cycle : Graph → ℕ → String → Sets → Option (Bool × Sets)
unfolding neighbours discard loop
has_cycle g zero node s = none
has_cycle g (suc k) node s = leave node (
    loop (has_cycle g k) (neighbours g node)
      (record { visited = node ∷ s.visited; rec_stack = node ∷ s.rec_stack }))

-- every agent that the graph mentions
unfoldable pub agents : Graph → List String
agents [] = []
agents ((k, ns) ∷ g) = k ∷ (ns ++ agents g)

abbrev pub result : Option (Bool × Sets) → Option Bool
result none = none
result (some (found, s)) = some (if found then false else true)

abbrev pub no_sets : Sets
no_sets = record { visited = []; rec_stack = [] }

-- `ValidationResult.valid`
unfoldable pub validate : String → List String → Graph → Option Bool
unfolding has_cycle agents
validate agent_id proposed all_agents =
    let g = (agent_id, proposed) ∷ all_agents in
    result (has_cycle g (length (agents g)) agent_id no_sets)
