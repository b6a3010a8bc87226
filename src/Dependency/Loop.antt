-- ===== src/Dependency/Loop.antt =====
-- The three ways in which the loop over the neighbours goes on.
use agent_builder_factory_ap.Base.{
  String, ◌≡◌, Bool, true, false, Option, some, List, ◌∷◌, string_key, contains,
}
use agent_builder_factory_ap.Dependency.{Sets, next, loop}

module _ (f : String → Sets → Option (Bool × Sets)) (n : String) (ns : List String) (s : Sets) where
  pub loop-on :
      contains s.visited n ≡ true
      → contains s.rec_stack n ≡ true
      → loop f (n ∷ ns) s ≡ some (true, s)
  unfolding loop
  loop-on old on = rw (old, loop) (rw on)

  pub loop-off :
      contains s.visited n ≡ true → contains s.rec_stack n ≡ false → loop f (n ∷ ns) s ≡ loop f ns s
  unfolding loop
  loop-off old off = rw (old, loop) (rw off)

  pub loop-new : contains s.visited n ≡ false → loop f (n ∷ ns) s ≡ next (f n s) (λ t. loop f ns t)
  unfolding loop
  loop-new new = rw (new, loop)
