-- ===== src/Dependency/Search.antt =====
-- What the search returns: on `true` a cycle, on `false` that every path from the agent ends.
use mathlib.Core.WellFounded.{Acc}
use agent_builder_factory_ap.Base.{
  ℕ, zero, suc, String, ◌≡◌, refl, sym, subst, ap, ◌∙◌, Bool, true, false, Option, none, some, List,
  [], ◌∷◌, Memᴰ, ◌==◌, string_key, contains, Bool-cases, ==_sound, ==_refl, inl, inr, arith, eq_iff,
}
use agent_builder_factory_ap.Dependency.{
  Graph, neighbours, Sets, discard, next, loop, leave, has_cycle,
}
use agent_builder_factory_ap.Dependency.Loop.{loop-on, loop-off, loop-new}
use agent_builder_factory_ap.Dependency.Paths.{
  Edge, Reaches, here, CycleFrom, IsSafe, Reaches-step, CycleFrom-step,
}

discard-fresh : (a : String) (xs : List String) → contains xs a ≡ false → discard a xs ≡ xs
unfolding discard
discard-fresh a [] h = refl
discard-fresh a (x ∷ xs) h = ground (arith, eq_iff x a, discard-fresh a xs)

discard-cons : (a : String) (xs : List String) → contains xs a ≡ false → discard a (a ∷ xs) ≡ xs
unfolding discard
discard-cons a xs h = ground (arith, ==_refl a, discard-fresh a xs h)

off_cons :
    (n x : String) (xs : List String)
    → (n == x) ≡ false
    → contains xs x ≡ false
    → contains (n ∷ xs) x ≡ false
off_cons n x xs h k = ground arith

module _ (g : Graph) where
  -- Between two calls: the stack was visited, and what was visited and left is safe.
  pub record Inv (s : Sets) : Type 0 where
    pub within : (x : String) → contains s.rec_stack x ≡ true → contains s.visited x ≡ true
    pub left :
        (x : String) → contains s.visited x ≡ true → contains s.rec_stack x ≡ false → IsSafe g x

  -- A call that found nothing.
  pub record Kept (s s' : Sets) : Type 0 where
    pub inv : Inv s'
    pub stack : s'.rec_stack ≡ s.rec_stack
    pub grows : (x : String) → contains s.visited x ≡ true → contains s'.visited x ≡ true

  -- every agent on the stack reaches `n`
  abbrev pub IsChain : Sets → String → Type 0
  IsChain s n = (r : String) → contains s.rec_stack r ≡ true → Reaches g r n

  abbrev pub Outcome : String → Sets → Option (Bool × Sets) → Type 0
  Outcome n s none = Unit
  Outcome n s (some (true, s')) = CycleFrom g n
  Outcome n s (some (false, s')) = IsSafe g n × Kept s s'

  abbrev LoopOutcome : String → List String → Sets → Option (Bool × Sets) → Type 0
  LoopOutcome n ns s none = Unit
  LoopOutcome n ns s (some (true, s')) = CycleFrom g n
  LoopOutcome n ns s (some (false, s')) = ((m : String) → Memᴰ m ns → IsSafe g m) × Kept s s'

  Kept-trans : {s t u : Sets} → Kept s t → Kept t u → Kept s u
  Kept-trans p q = record {
    inv = q.inv;
    stack = q.stack ∙ p.stack;
    grows = λ x h. q.grows x (p.grows x h);
  }

  IsSafe-cons :
      {n : String} {ns : List String}
      → IsSafe g n
      → ((m : String) → Memᴰ m ns → IsSafe g m)
      → (m : String) → Memᴰ m (n ∷ ns)
      → IsSafe g m
  IsSafe-cons h k m (Memᴰ.head e) = rw e h
  IsSafe-cons h k m (Memᴰ.tail i) = k m i

  LoopOutcome-cons :
      (node n : String) (ns : List String) (s t : Sets) (r : Option (Bool × Sets))
      → IsSafe g n
      → Kept s t
      → LoopOutcome node ns t r
      → LoopOutcome node (n ∷ ns) s r
  LoopOutcome-cons node n ns s t none h k o = tt
  LoopOutcome-cons node n ns s t (some (true, s')) h k o = o
  LoopOutcome-cons node n ns s t (some (false, s')) h k o = (IsSafe-cons h o.0, Kept-trans k o.1)

  LoopOutcome-next :
      (node n : String) (ns : List String) (s : Sets) (r : Option (Bool × Sets))
      (k : Sets → Option (Bool × Sets))
      → Edge g node n
      → Outcome n s r
      → ((t : Sets) → Kept s t → LoopOutcome node ns t (k t))
      → LoopOutcome node (n ∷ ns) s (next r k)
  LoopOutcome-next node n ns s none k e o rest = tt
  LoopOutcome-next node n ns s (some (true, t)) k e o rest = CycleFrom-step e o
  LoopOutcome-next node n ns s (some (false, t)) k e (safe, kept) rest =
      LoopOutcome-cons node n ns s t (k t) safe kept (rest t kept)

  IsChain-step : {node n : String} (s : Sets) → IsChain s node → Edge g node n → IsChain s n
  IsChain-step s chain e r on = Reaches-step (chain r on) e

  Kept-refl : {s : Sets} → Inv s → Kept s s
  Kept-refl inv = record { inv = inv; stack = refl; grows = λ x h. h }

  IsChain-Kept : {node : String} {s t : Sets} → Kept s t → IsChain s node → IsChain t node
  IsChain-Kept kept chain r on = chain r (rw kept.stack at on)

  unvisited_off :
      {s : Sets} (n : String)
      → Inv s
      → contains s.visited n ≡ false
      → contains s.rec_stack n ≡ false
  unvisited_off {s} n inv new = elim (Bool-cases (contains s.rec_stack n)) [
    | inl on ↦ cc (inv.within n on)
    | inr off ↦ off
  ]

  module _ (node : String) (f : String → Sets → Option (Bool × Sets))
      (call : (n : String) (s : Sets)
        → Inv s
        → contains s.visited n ≡ false
        → IsChain s n
        → Outcome n s (f n s)) where
    LoopOutcome-loop :
        (ns : List String) (s : Sets)
        → ((m : String) → Memᴰ m ns → Edge g node m)
        → Inv s
        → IsChain s node
        → LoopOutcome node ns s (loop f ns s)
    unfolding loop
    LoopOutcome-loop [] s sub inv chain = (λ m i. elim i [ ], Kept-refl inv)
    LoopOutcome-loop (n ∷ ns) s sub inv chain =
        let e = sub n (Memᴰ.head refl) in
        let sub' : (m : String) → Memᴰ m ns → Edge g node m = λ m i. sub m (Memᴰ.tail i) in
        elim (Bool-cases (contains s.visited n)) [
          | inl old ↦ elim (Bool-cases (contains s.rec_stack n)) [
            | inl on ↦
                subst (LoopOutcome node (n ∷ ns) s) (sym (loop-on f n ns s old on))
                  (node, n, here, e, chain n on)
            | inr off ↦ subst (LoopOutcome node (n ∷ ns) s) (sym (loop-off f n ns s old off)) (
                LoopOutcome-cons node n ns s s (loop f ns s) (inv.left n old off) (Kept-refl inv)
                  (LoopOutcome-loop ns s sub' inv chain))
          ]
          | inr new ↦ subst (LoopOutcome node (n ∷ ns) s) (sym (loop-new f n ns s new)) (
              LoopOutcome-next node n ns s (f n s) (λ t. loop f ns t) e
                (call n s inv new (IsChain-step s chain e))
                (λ t kept. LoopOutcome-loop ns t sub' kept.inv (IsChain-Kept kept chain)))
        ]

  enter : String → Sets → Sets
  enter n s = record { visited = n ∷ s.visited; rec_stack = n ∷ s.rec_stack }

  grown :
      (n x : String) (s : Sets)
      → contains s.visited x ≡ true
      → contains (enter n s).visited x ≡ true
  unfolding enter
  grown n x s h = ground arith

  Outcome-leave :
      (node : String) (s : Sets) (r : Option (Bool × Sets))
      → Inv s
      → contains s.visited node ≡ false
      → LoopOutcome node (neighbours g node) (enter node s) r
      → Outcome node s (leave node r)
  unfolding enter
  Outcome-leave node s none inv new o = tt
  Outcome-leave node s (some (true, t)) inv new o = o
  Outcome-leave node s (some (false, t)) inv new (below, kept) =
      let safe : IsSafe g node = Acc.intro node below in
      let same : discard node t.rec_stack ≡ s.rec_stack =
        ap (discard node) kept.stack ∙ discard-cons node s.rec_stack (unvisited_off node inv new) in
      (
        safe,
        record {
          inv = record {
            within = λ x on. kept.grows x (grown node x s (inv.within x (rw same at on)));
            left = λ x old off. elim (Bool-cases (node == x)) [
              | inl e ↦ rw (← ==_sound node x e) safe
              | inr ne ↦
                  kept.inv.left x old
                    (rw kept.stack (off_cons node x s.rec_stack ne (rw same at off)))
            ];
          };
          stack = same;
          grows = λ x h. kept.grows x (grown node x s h);
        },
      )

  Inv-enter : (n : String) (s : Sets) → Inv s → Inv (enter n s)
  unfolding enter
  Inv-enter n s inv = record {
    within = λ x on. ground (arith, inv.within x);
    left = λ x old off. inv.left x (ground (arith, ==_refl n)) (ground arith);
  }

  IsChain-enter : (n : String) (s : Sets) → IsChain s n → IsChain (enter n s) n
  unfolding enter
  IsChain-enter n s chain r on = elim (Bool-cases (n == r)) [
    | inl e ↦ rw (==_sound n r e) here
    | inr ne ↦ chain r (ground arith)
  ]

  -- The search from an unvisited agent, with the stack a chain that leads to it.
  pub Outcome-has_cycle :
      (k : ℕ) (node : String) (s : Sets)
      → Inv s
      → contains s.visited node ≡ false
      → IsChain s node
      → Outcome node s (has_cycle g k node s)
  unfolding has_cycle enter
  Outcome-has_cycle zero node s inv new chain = tt
  Outcome-has_cycle (suc k) node s inv new chain = Outcome-leave node s _ inv new (
      LoopOutcome-loop node (has_cycle g k) (λ n t i u c. Outcome-has_cycle k n t i u c)
        (neighbours g node) (enter node s) (λ m i. i) (Inv-enter node s inv)
        (IsChain-enter node s chain))
