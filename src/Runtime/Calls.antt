-- ===== src/Runtime/Calls.antt =====
-- What holds of the Lambda invocations of an action of a turn, one rule for each way to build one.
use agent_builder_factory_ap.Base.{
  String, ◌≡◌, refl, subst, Bool, true, false, List, Memᴰ, Result, ok, err, pure, raise, continue,
  ◌>>=◌, ◌∙◌, if◌then◌else◌, string_key,
}
use agent_builder_factory_ap.Tools.Policy.{Invocation, write_audit_event}
use agent_builder_factory_ap.Runtime.Prompt.{Message}
use agent_builder_factory_ap.Runtime.State.{
  RunError, RuntimeTables, Process, Action, review_table, audit,
}

module _ ⦃t : RuntimeTables⦄ where
  abbrev pub invoked : Process → List Invocation
  invoked p = p.world.effects.invocations

  -- what holds of every invocation after an action, if it did before
  pub record Calls (J : Invocation → Type 0) {A : Type 0} (m : Action A) : Type 0 where
    pub at :
        (p : Process)
        → ((i : Invocation) → Memᴰ i (invoked p) → J i)
        → (i : Invocation) → Memᴰ i (invoked (m p).1)
        → J i

  -- an action that calls neither a function nor the model
  pub record Quiet {A : Type 0} (m : Action A) : Type 0 where
    pub invocations : (p : Process) → invoked (m p).1 ≡ invoked p
    pub completions : (p : Process) → (m p).1.completions ≡ p.completions

  -- the same as `Calls`, for an action that starts after the given prompts
  pub record CallsFrom (J : Invocation → Type 0) (earlier : List (List Message)) {A : Type 0}
      (m : Action A) : Type 0 where
    pub at :
        (p : Process)
        → p.completions ≡ earlier
        → ((i : Invocation) → Memᴰ i (invoked p) → J i)
        → (i : Invocation) → Memᴰ i (invoked (m p).1)
        → J i

  module _ (J : Invocation → Type 0) where
    module _ {A : Type 0} where
      pub Calls-pure : (a : A) → Calls J (pure a)
      unfolding pure
      Calls-pure a = record { at = λ p h. h }

      pub Calls-raise : (e : RunError) → Calls J (raise {A = A} e)
      unfolding raise
      Calls-raise e = record { at = λ p h. h }

      pub Calls-if :
          (b : Bool) (m n : Action A) → Calls J m → Calls J n → Calls J (if b then m else n)
      Calls-if true m n h k = h
      Calls-if false m n h k = k

      -- an action that leaves the invocations alone
      pub Calls-same : (m : Action A) → ((p : Process) → invoked (m p).1 ≡ invoked p) → Calls J m
      Calls-same m e = record { at = λ p h i k. h i (subst (Memᴰ i) (e p) k) }

    module _ {A B : Type 0} where
      Calls-continue :
          (r : Result RunError A) (f : A → Action B) (p : Process)
          → ((a : A) → Calls J (f a))
          → ((i : Invocation) → Memᴰ i (invoked p) → J i)
          → (i : Invocation) → Memᴰ i (invoked (continue r f p).1)
          → J i
      Calls-continue (ok a) f p k h = (k a).at p h
      Calls-continue (err e) f p k h = h

      pub Calls-bind :
          (m : Action A) (f : A → Action B)
          → Calls J m
          → ((a : A) → Calls J (f a))
          → Calls J (m >>= f)
      unfolding ◌>>=◌
      Calls-bind m f h k = record { at = λ p q. Calls-continue (m p).0 f (m p).1 k (h.at p q) }

    pub Calls-audit : (e r : String) → Calls J (audit e r)
    unfolding audit write_audit_event
    Calls-audit e r = Calls-same (audit e r) (λ p. refl)

    module _ (earlier : List (List Message)) where
      pub CallsFrom-Calls : {A : Type 0} (m : Action A) → Calls J m → CallsFrom J earlier m
      CallsFrom-Calls m h = record { at = λ p e. h.at p }

      module _ {A B : Type 0} where
        CallsFrom-continue :
            (r : Result RunError A) (f : A → Action B) (p : Process)
            → ((a : A) → CallsFrom J earlier (f a))
            → p.completions ≡ earlier
            → ((i : Invocation) → Memᴰ i (invoked p) → J i)
            → (i : Invocation) → Memᴰ i (invoked (continue r f p).1)
            → J i
        CallsFrom-continue (ok a) f p k e h = (k a).at p e h
        CallsFrom-continue (err x) f p k e h = h

        pub CallsFrom-bind :
            (m : Action A) (f : A → Action B)
            → Quiet m
            → ((a : A) → CallsFrom J earlier (f a))
            → CallsFrom J earlier (m >>= f)
        unfolding ◌>>=◌
        CallsFrom-bind m f q k = record {
          at = λ p e h.
              CallsFrom-continue (m p).0 f (m p).1 k (q.completions p ∙ e)
                (λ i n. h i (subst (Memᴰ i) (q.invocations p) n));
        }

  pub ruleset calls_rules = (Calls-pure, Calls-raise, Calls-if, Calls-bind, Calls-audit)
