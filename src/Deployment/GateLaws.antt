-- ===== src/Deployment/GateLaws.antt =====
-- When the two gates block.
use agent_builder_factory_ap.Base.{
  ℕ, ◌<◌, String, ◌≡◌, refl, sym, subst, Bool, true, ◌&&◌, Option, none, some, List, [], ◌∷◌, Memᴰ,
  contains, if◌then◌else◌, string_key, ◌↔◌, Bool-cases, inl, inr, arith,
}
use agent_builder_factory_ap.Deployment.Gates.{
  Severity, SecurityFinding, Decision, PolicyGateResult, is_critical, is_blocking, blocked_by,
  policy_gate, RagasMetric, ragas_metrics, score_of, below, fails, failed_of, gate_on,
  evaluation_gate, critical_block_conditions,
}

-- a finding that blocks is among these, and is the one that the result names
pub record BlockedBy (fs : List SecurityFinding) (r : PolicyGateResult) : Type 0 where
  pub finding : SecurityFinding
  pub listed : Memᴰ finding fs
  pub severe : finding.severity ≡ Severity.critical
  pub banned : contains critical_block_conditions finding.category ≡ true
  pub named : r.blocking_finding ≡ some finding

critical_lem :
    (s : Severity) (b : Bool) → (is_critical s && b) ≡ true → (s ≡ Severity.critical) × (b ≡ true)
critical_lem Severity.low b h = cc h
critical_lem Severity.medium b h = cc h
critical_lem Severity.high b h = cc h
critical_lem Severity.critical b h = (refl, h)

gate_sound :
    (fs : List SecurityFinding)
    → (policy_gate fs).decision ≡ Decision.block
    → BlockedBy fs (policy_gate fs)
unfolding policy_gate
gate_sound [] h = cc h
gate_sound (f ∷ fs) h = elim (Bool-cases (is_blocking f)) [
  | inl e ↦
      let (s, b) = critical_lem f.severity (contains critical_block_conditions f.category) e in
      record { finding = f; listed = Memᴰ.head refl; severe = s; banned = b; named = rw e refl }
  | inr e ↦
      let rest =
        gate_sound fs (
          subst (λ b. (if b then blocked_by f else policy_gate fs).decision ≡ Decision.block) e
            h) in
      record {
        finding = rest.finding;
        listed = Memᴰ.tail rest.listed;
        severe = rest.severe;
        banned = rest.banned;
        named = rw e rest.named;
      }
]

gate_complete :
    (fs : List SecurityFinding) (f : SecurityFinding)
    → Memᴰ f fs
    → is_blocking f ≡ true
    → (policy_gate fs).decision ≡ Decision.block
unfolding policy_gate
gate_complete [] f m h = elim m [ ]
gate_complete (g ∷ fs) f (Memᴰ.head e) h = rw (sym e, h) refl
gate_complete (g ∷ fs) f (Memᴰ.tail m) h = elim (Bool-cases (is_blocking g)) [
  | inl e ↦ rw e refl
  | inr e ↦ rw e (gate_complete fs f m h)
]

both : (s : Severity) (b : Bool) → s ≡ Severity.critical → b ≡ true → (is_critical s && b) ≡ true
both s b e h = cc (e, h)

-- The policy gate blocks exactly when some finding is CRITICAL and of a category in the list of block
-- conditions, and the finding that its result names is such a one; a CRITICAL finding of another
-- category does not block.
pub policy_gate_decides :
    (fs : List SecurityFinding)
    → ((policy_gate fs).decision ≡ Decision.block → BlockedBy fs (policy_gate fs))
      × ((f : SecurityFinding)
          → Memᴰ f fs
          → f.severity ≡ Severity.critical
          → contains critical_block_conditions f.category ≡ true
          → (policy_gate fs).decision ≡ Decision.block)
policy_gate_decides fs = (
  gate_sound fs,
  λ f m s c.
      gate_complete fs f m (both f.severity (contains critical_block_conditions f.category) s c),
)

-- a metric that blocks was measured below its threshold
pub record FailsOn (scores : List (String × ℕ)) (ms : List RagasMetric) : Type 0 where
  pub metric : RagasMetric
  pub listed : Memᴰ metric ms
  pub enforced : metric.blocks_deployment ≡ true
  pub score : ℕ
  pub measured : score_of scores metric.name ≡ some score
  pub too_low : score < metric.threshold

below-cases : (o : Option ℕ) (n : ℕ) → below o n ≡ true → (k : ℕ) × ((o ≡ some k) × (k < n))
below-cases none n h = cc h
below-cases (some k) n h = (k, (refl, ground arith))

split : (a b : Bool) → (a && b) ≡ true → (a ≡ true) × (b ≡ true)
split a b h = ground arith

below-true : (o : Option ℕ) (k n : ℕ) → o ≡ some k → k < n → below o n ≡ true
below-true o k n e l = rw e (ground arith)

fails-true :
    (scores : List (String × ℕ)) (m : RagasMetric) (k : ℕ)
    → m.blocks_deployment ≡ true
    → score_of scores m.name ≡ some k
    → k < m.threshold
    → fails scores m ≡ true
fails-true scores m k b e l = cc (b, below-true (score_of scores m.name) k m.threshold e l)

failed_sound :
    (scores : List (String × ℕ)) (ms : List RagasMetric)
    → (gate_on (failed_of scores ms)).decision ≡ Decision.block
    → FailsOn scores ms
unfolding failed_of
failed_sound scores [] h = cc h
failed_sound scores (m ∷ ms) h = elim (Bool-cases (fails scores m)) [
  | inl e ↦
      let (b, l) = split m.blocks_deployment (below (score_of scores m.name) m.threshold) e in
      let (k, (s, u)) = below-cases (score_of scores m.name) m.threshold l in
      record {
        metric = m;
        listed = Memᴰ.head refl;
        enforced = b;
        score = k;
        measured = s;
        too_low = u;
      }
  | inr e ↦
      let rest = failed_sound scores ms (
        subst
          (λ b.
            (gate_on (if b then m.name ∷ failed_of scores ms else failed_of scores ms)).decision
            ≡ Decision.block)
          e h) in
      record {
        metric = rest.metric;
        listed = Memᴰ.tail rest.listed;
        enforced = rest.enforced;
        score = rest.score;
        measured = rest.measured;
        too_low = rest.too_low;
      }
]

failed_complete :
    (scores : List (String × ℕ)) (ms : List RagasMetric) (m : RagasMetric)
    → Memᴰ m ms
    → fails scores m ≡ true
    → (gate_on (failed_of scores ms)).decision ≡ Decision.block
unfolding failed_of
failed_complete scores [] m i h = elim i [ ]
failed_complete scores (n ∷ ms) m (Memᴰ.head e) h = rw (sym e, h) refl
failed_complete scores (n ∷ ms) m (Memᴰ.tail i) h = elim (Bool-cases (fails scores n)) [
  | inl e ↦ rw e refl
  | inr e ↦ rw e (failed_complete scores ms m i h)
]

-- The evaluation gate blocks exactly when one of the five Phase 1 metrics has a score and that score
-- is below the metric's threshold; the Phase 2 metrics and missing scores never block.
pub evaluation_gate_decides :
    (scores : List (String × ℕ))
    → ((evaluation_gate scores).decision ≡ Decision.block) ↔ FailsOn scores ragas_metrics
unfolding evaluation_gate
evaluation_gate_decides scores = (
  failed_sound scores ragas_metrics,
  λ h.
      failed_complete scores ragas_metrics h.metric h.listed
        (fails-true scores h.metric h.score h.enforced h.measured h.too_low),
)
