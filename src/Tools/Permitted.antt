-- ===== src/Tools/Permitted.antt =====
-- Which Lambda functions the executor calls: default deny, one rule for each way to build an action.
use agent_builder_factory_ap.Base.{
  String, ◌≡◌, refl, sym, subst, Bool, true, false, Option, none, some, List, [], ◌∷◌, Memᴰ, Result,
  ok, err, Exec, pure, raise, lift, continue, ◌>>=◌, if◌then◌else◌, string_key, contains, ◌⊎◌, inl,
  inr, Bool-cases,
}
use agent_builder_factory_ap.Tools.Policy.{
  ToolPolicy, Reason, ToolError, Invocation, Effects, write_audit_event, enforce,
}
use agent_builder_factory_ap.Tools.Executor.{
  Services, Toolbox, ToolCall, Response, same_id, arguments_of, invoke, report, run, permit,
  execute_parsed, execute_call, execute,
}
use agent_builder_factory_ap.Tools.Clearance.{Cleared, permit-ok}

-- The invocation is that of one of the calls, for a tool the agent has, and the call is the approved
-- one or its tool is cleared.
pub record Justified (box : Toolbox) (approved : Option String) (calls : List ToolCall)
    (i : Invocation) : Type 0 where
  pub call : ToolCall
  pub requested : Memᴰ call calls
  pub named : call.name ≡ i.tool_id
  pub configured : contains box.tools i.tool_id ≡ true
  pub permitted : (same_id call.id approved ≡ true) ⊎ Cleared box.policies i.tool_id

-- what holds of every invocation after an action, if it did before
record Only (J : Invocation → Type 0) {A : Type 0} (m : Exec Effects ToolError A) : Type 0 where
  at :
      (s : Effects)
      → ((i : Invocation) → Memᴰ i s.invocations → J i)
      → (i : Invocation) → Memᴰ i (m s).1.invocations
      → J i

module _ (J : Invocation → Type 0) where
  module _ {A : Type 0} where
    Only-pure : (a : A) → Only J (pure a)
    unfolding pure
    Only-pure a = record { at = λ s h. h }

    Only-raise : (e : ToolError) → Only J (raise {A = A} e)
    unfolding raise
    Only-raise e = record { at = λ s h. h }

    Only-lift : (r : Result ToolError A) → Only J (lift r)
    unfolding lift
    Only-lift r = record { at = λ s h. h }

    Only-if :
        (b : Bool) (m n : Exec Effects ToolError A)
        → Only J m
        → Only J n
        → Only J (if b then m else n)
    Only-if true m n h k = h
    Only-if false m n h k = k

  Only-audit : (e r t : String) (o : Option Reason) → Only J (write_audit_event e r t o)
  unfolding write_audit_event
  Only-audit e r t o = record { at = λ s h. h }

  Only-invoke : (services : Services) (i : Invocation) → J i → Only J (invoke services i)
  unfolding invoke
  Only-invoke services i j = record {
    at = λ s h k m. elim m [ Memᴰ.head e ↦ subst J (sym e) j | Memᴰ.tail m' ↦ h k m' ];
  }

  module _ {A B : Type 0} where
    Only-continue :
        (r : Result ToolError A) (f : A → Exec Effects ToolError B) (s : Effects)
        → ((a : A) → r ≡ ok a → Only J (f a))
        → ((i : Invocation) → Memᴰ i s.invocations → J i)
        → (i : Invocation) → Memᴰ i (continue r f s).1.invocations
        → J i
    Only-continue (ok a) f s k h = (k a refl).at s h
    Only-continue (err e) f s k h = h

    Only-bind :
        (m : Exec Effects ToolError A) (f : A → Exec Effects ToolError B)
        → Only J m
        → ((a : A) → Only J (f a))
        → Only J (m >>= f)
    unfolding ◌>>=◌
    Only-bind m f h k = record {
      at = λ s p. Only-continue (m s).0 f (m s).1 (λ a e. k a) (h.at s p);
    }

    -- the rest may rest on what the first action returned
    Only-after :
        (m : Exec Effects ToolError A) (f : A → Exec Effects ToolError B)
        → Only J m
        → ((s : Effects) (a : A) → (m s).0 ≡ ok a → Only J (f a))
        → Only J (m >>= f)
    unfolding ◌>>=◌
    Only-after m f h k = record { at = λ s p. Only-continue (m s).0 f (m s).1 (k s) (h.at s p) }

ruleset only_rules = (Only-pure, Only-raise, Only-lift, Only-audit, Only-bind, Only-if)

module _ (J : Invocation → Type 0) (services : Services) where
  Only-enforce : (ps : List ToolPolicy) (id : String) → Only J (enforce ps id)
  unfolding enforce
  Only-enforce ps id = search only_rules

  Only-report : (id : String) (r : Response) → Only J (report services id r)
  Only-report id r = search only_rules

  Only-run :
      (id payload : String)
      → J (record { tool_id = id; payload = payload })
      → Only J (run services id payload)
  Only-run id payload j =
      let i : Invocation = record { tool_id = id; payload = payload } in
      Only-bind J (invoke services i) (report services id) (Only-invoke J services i j)
        (Only-report id)

  module _ (box : Toolbox) (approved : Option String) (all : List ToolCall)
      (justified : (i : Invocation) → Justified box approved all i → J i) where
    Only-parsed :
        (call : ToolCall) (o : Option String)
        → Memᴰ call all
        → contains box.tools call.name ≡ true
        → Only J (execute_parsed services box approved call o)
    Only-parsed call none m c = search only_rules
    Only-parsed call (some payload) m c =
        Only-after J (permit box approved call) (λ u. run services call.name payload)
          (Only-if J (same_id call.id approved) (pure tt) (enforce box.policies call.name)
            (Only-pure J tt) (Only-enforce box.policies call.name))
          (λ s u e. Only-run call.name payload (
            justified (record { tool_id = call.name; payload = payload })
              (record {
                call = call;
                requested = m;
                named = refl;
                configured = c;
                permitted = permit-ok box approved call s e;
              })))

    Only-call : (call : ToolCall) → Memᴰ call all → Only J (execute_call services box approved call)
    Only-call call m = elim (Bool-cases (contains box.tools call.name)) [
      | inl e ↦ rw e (Only-parsed call (arguments_of services call.arguments) m e)
      | inr e ↦ rw e (search only_rules)
    ]

    Only-execute :
        (calls : List ToolCall)
        → ((c : ToolCall) → Memᴰ c calls → Memᴰ c all)
        → Only J (execute services box approved calls)
    unfolding execute
    Only-execute [] sub = search only_rules
    Only-execute (c ∷ cs) sub =
        let first = Only-call c (sub c (Memᴰ.head refl)) in
        let rest = Only-execute cs (λ d m. sub d (Memᴰ.tail m)) in search (only_rules, first, rest)

-- Whatever the outcome of a batch of tool calls, each Lambda invocation that it adds is that of a
-- call of the batch, for a configured tool, and either the call's id equals the approved one (a call
-- without an id passes this where nothing was approved) or the agent's
-- policy lists its tool, allows it and rates it below HIGH.
pub only_permitted_tools_run :
    (services : Services) (box : Toolbox) (approved : Option String) (calls : List ToolCall)
    (s : Effects) (i : Invocation)
    → Memᴰ i (execute services box approved calls s).1.invocations
    → Memᴰ i s.invocations ⊎ Justified box approved calls i
only_permitted_tools_run services box approved calls s i =
    (Only-execute (λ j. Memᴰ j s.invocations ⊎ Justified box approved calls j) services box approved
        calls (λ j. inr) calls (λ c m. m)).at
      s (λ j. inl) i
