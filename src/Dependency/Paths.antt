-- ===== src/Dependency/Paths.antt =====
-- Paths among agents, and agents below which every path ends.
use mathlib.Core.WellFounded.{Acc}
use agent_builder_factory_ap.Base.{String, Memᴰ}
use agent_builder_factory_ap.Dependency.{Graph, neighbours}

-- `b` is a sub-agent of `a`
abbrev pub Edge : Graph → String → String → Type 0
Edge g a b = Memᴰ b (neighbours g a)

pub data Reaches (g : Graph) : String → String → Type 0 where
  here : {a : String} → Reaches g a a
  step : {a b c : String} → Edge g a b → Reaches g b c → Reaches g a c

-- `a` reaches an agent that is its own sub-agent, directly or not
abbrev pub CycleFrom : Graph → String → Type 0
CycleFrom g a = (x y : String) × Reaches g a x × Edge g x y × Reaches g y x

-- every path from `a` ends
abbrev pub IsSafe : Graph → String → Type 0
IsSafe g a = Acc (λ b c. Edge g c b) a

module _ {g : Graph} where
  pub Reaches-step : {a b c : String} → Reaches g a b → Edge g b c → Reaches g a c
  Reaches-step here e = step e here
  Reaches-step (step d r) e = step d (Reaches-step r e)

  pub CycleFrom-step : {a b : String} → Edge g a b → CycleFrom g b → CycleFrom g a
  CycleFrom-step e (x, y, r, d, back) = (x, y, step e r, d, back)

  IsSafe-Reaches : {a b : String} → IsSafe g a → Reaches g a b → IsSafe g b
  IsSafe-Reaches h here = h
  IsSafe-Reaches (Acc.intro _ below) (step {b = b} e r) = IsSafe-Reaches (below b e) r

  safe_no_loop : {a b : String} → IsSafe g a → Edge g a b → Reaches g b a → ⊥
  safe_no_loop (Acc.intro _ below) e here = safe_no_loop (below _ e) e here
  safe_no_loop (Acc.intro _ below) e (step d r) = safe_no_loop (below _ e) d (Reaches-step r e)

  pub safe_no_cycle : {a : String} → IsSafe g a → CycleFrom g a → ⊥
  safe_no_cycle h (x, y, r, e, back) = safe_no_loop (IsSafe-Reaches h r) e back
