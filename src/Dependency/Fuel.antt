-- ===== src/Dependency/Fuel.antt =====
-- The fuel suffices: each nested call visits one more agent of the graph.

use agent_builder_factory_ap.Base.{
  ℕ, zero, suc, ◌≤◌, ◌<◌, String, ◌≡◌, refl, sym, subst, Bool, true, false, Option, none, some,
  List, [], ◌∷◌, Memᴰ, Memᴰ-append_left, Memᴰ-append_right, ◌==◌, string_key, contains, length,
  if◌then◌else◌, Bool-cases, ==_refl, inl, inr, arith, eq_iff,
}
use agent_builder_factory_ap.Dependency.Loop.{loop-on, loop-off, loop-new}
use agent_builder_factory_ap.Dependency.{
  Graph, neighbours, agents, Sets, next, loop, leave, has_cycle,
}

-- how many entries of `u` are not visited
pub unvisited : List String → List String → ℕ
unvisited [] v = 0
unvisited (x ∷ u) v = if contains v x then unvisited u v else suc (unvisited u v)

abbrev IsWithin : List String → List String → Type 0
IsWithin v w = (x : String) → contains v x ≡ true → contains w x ≡ true

unvisited_mono : (u v w : List String) → IsWithin v w → unvisited u w ≤ unvisited u v
unfolding unvisited
unvisited_mono [] v w h = omega arith
unvisited_mono (x ∷ u) v w h = ground (arith, h x, unvisited_mono u v w h)

pub unvisited-le-length : (u v : List String) → unvisited u v ≤ length u
unfolding unvisited
unvisited-le-length [] v = omega arith
unvisited-le-length (x ∷ u) v = ground (arith, unvisited-le-length u v)

unvisited-cons-le : (u v : List String) (a : String) → unvisited u (a ∷ v) ≤ unvisited u v
unvisited-cons-le u v a = unvisited_mono u v (a ∷ v) (λ x h. ground arith)

unvisited-cons :
    (u v : List String) (a : String)
    → Memᴰ a u
    → contains v a ≡ false
    → unvisited u (a ∷ v) < unvisited u v
unfolding unvisited
unvisited-cons [] v a i new = elim i [ ]
unvisited-cons (x ∷ u) v a (Memᴰ.head e) new =
    rw (← e) (ground (arith, ==_refl a, unvisited-cons-le u v a))
unvisited-cons (x ∷ u) v a (Memᴰ.tail i) new =
    ground (arith, unvisited-cons u v a i new, ==_refl a, eq_iff a x)

found :
    (k n : String) (ns : List String) (g : Graph)
    → (k == n) ≡ true
    → neighbours ((k, ns) ∷ g) n ≡ ns
unfolding neighbours
found k n ns g e = ground arith

other :
    (k n : String) (ns : List String) (g : Graph)
    → (k == n) ≡ false
    → neighbours ((k, ns) ∷ g) n ≡ neighbours g n
unfolding neighbours
other k n ns g ne = ground arith

none_there : (n m : String) → Memᴰ m (neighbours [] n) → Memᴰ m []
unfolding neighbours
none_there n m i = i

neighbours-agents : (g : Graph) (n m : String) → Memᴰ m (neighbours g n) → Memᴰ m (agents g)
unfolding agents
neighbours-agents [] n m i = none_there n m i
neighbours-agents ((k, ns) ∷ g) n m i = elim (Bool-cases (k == n)) [
  | inl e ↦ Memᴰ.tail (Memᴰ-append_left ns (agents g) (subst (Memᴰ m) (found k n ns g e) i))
  | inr ne ↦ Memᴰ.tail (
      Memᴰ-append_right ns (agents g)
        (neighbours-agents g n m (subst (Memᴰ m) (other k n ns g ne) i)))
]

-- what a call returns within the fuel, and that it forgets no visit
abbrev pub Returns : Sets → Option (Bool × Sets) → Type 0
Returns s none = ⊥
Returns s (some (found, t)) = IsWithin s.visited t.visited

Returns-trans :
    (s t : Sets) (r : Option (Bool × Sets))
    → IsWithin s.visited t.visited
    → Returns t r
    → Returns s r
Returns-trans s t none w h = h
Returns-trans s t (some (found, u)) w h = λ x k. h x (w x k)

Returns-next :
    (s : Sets) (r : Option (Bool × Sets)) (k : Sets → Option (Bool × Sets))
    → Returns s r
    → ((t : Sets) → IsWithin s.visited t.visited → Returns t (k t))
    → Returns s (next r k)
Returns-next s none k h rest = h
Returns-next s (some (true, t)) k h rest = h
Returns-next s (some (false, t)) k h rest = Returns-trans s t (k t) h (rest t h)

Returns-leave :
    (n : String) (s : Sets) (r : Option (Bool × Sets)) → Returns s r → Returns s (leave n r)
Returns-leave n s none h = h
Returns-leave n s (some (true, t)) h = h
Returns-leave n s (some (false, t)) h = h

module _ (f : String → Sets → Option (Bool × Sets)) (u : List String) (k : ℕ)
    (call : (n : String) (s : Sets)
      → Memᴰ n u
      → contains s.visited n ≡ false
      → unvisited u s.visited ≤ k
      → Returns s (f n s)) where
  Returns-loop :
      (ns : List String) (s : Sets)
      → ((m : String) → Memᴰ m ns → Memᴰ m u)
      → unvisited u s.visited ≤ k
      → Returns s (loop f ns s)
  unfolding loop
  Returns-loop [] s sub h = λ x v. v
  Returns-loop (n ∷ ns) s sub h =
      let sub' : (m : String) → Memᴰ m ns → Memᴰ m u = λ m i. sub m (Memᴰ.tail i) in
      elim (Bool-cases (contains s.visited n)) [
        | inl old ↦ elim (Bool-cases (contains s.rec_stack n)) [
          | inl on ↦ subst (Returns s) (sym (loop-on f n ns s old on)) (λ x v. v)
          | inr off ↦ subst (Returns s) (sym (loop-off f n ns s old off)) (Returns-loop ns s sub' h)
        ]
        | inr new ↦ subst (Returns s) (sym (loop-new f n ns s new)) (
            Returns-next s (f n s) (λ t. loop f ns t) (call n s (sub n (Memᴰ.head refl)) new h)
              (λ t w.
                Returns-loop ns t sub' (omega (arith, unvisited_mono u s.visited t.visited w))))
      ]

module _ (g : Graph) where
  -- The search returns if its fuel is at least the number of unvisited agents.
  pub Returns-has_cycle :
      (k : ℕ) (n : String) (s : Sets)
      → Memᴰ n (agents g)
      → contains s.visited n ≡ false
      → unvisited (agents g) s.visited ≤ k
      → Returns s (has_cycle g k n s)
  unfolding has_cycle
  Returns-has_cycle zero n s i new h =
      absurd (omega (arith, unvisited-cons (agents g) s.visited n i new))
  Returns-has_cycle (suc k) n s i new h =
      let s' : Sets = record { visited = n ∷ s.visited; rec_stack = n ∷ s.rec_stack } in
      let r = loop (has_cycle g k) (neighbours g n) s' in
      let inner : Returns s' r =
        Returns-loop (has_cycle g k) (agents g) k (λ m t j u b. Returns-has_cycle k m t j u b)
          (neighbours g n) s' (λ m j. neighbours-agents g n m j)
          (omega (arith, unvisited-cons (agents g) s.visited n i new)) in
      Returns-leave n s r (Returns-trans s s' r (λ x v. ground arith) inner)
