-- ===== src/Impact/Highest.antt =====
-- The analysis of a diff always answers with the highest level of the matched rules.
use agent_builder_factory_ap.Base.{
  ◌≤◌, String, ◌≡◌, refl, subst, some, List, [], ◌∷◌, Memᴰ, Memᴰ-append_left, Memᴰ-append_right,
  Memᴰ-append_cases, string_key, ◌⊎◌, inl, inr,
}
use agent_builder_factory_ap.Impact.{
  low, rank, Rule, rule_of, Entry, ConfigDiff, Patterns, match_field, dedupe, match_all, entries,
  match_rules, ImpactAnalysis, validations_of, level_of, summarise, analyze_diff,
}
use agent_builder_factory_ap.Impact.Matched.{
  dedupe-keeps, dedupe-Memᴰ, AllKnown-match_rules, Found, rules_of-Found,
}
use agent_builder_factory_ap.Impact.Levels.{Attained, level_of-bounds, level_of-Attained}

-- This rule is matched by some entry of the diff.
pub record Matched (p : Patterns) (d : ConfigDiff) (r : Rule) : Type 0 where
  pub entry : Entry
  pub rule_key : String
  pub listed : Memᴰ entry (entries d)
  pub matches : Memᴰ rule_key (match_field p entry)
  pub known : rule_of rule_key ≡ some r

-- What the analysis of this diff answers.
pub record Judged (p : Patterns) (d : ConfigDiff) : Type 0 where
  pub analysis : ImpactAnalysis
  pub returned : analyze_diff p d ≡ some analysis
  pub bounds : (r : Rule) → Matched p d r → rank r.level ≤ rank analysis.impact_level
  pub required :
      (r : Rule) (v : String)
      → Matched p d r
      → Memᴰ v r.required_validations
      → Memᴰ v analysis.required_validations
  pub attained :
      (analysis.impact_level ≡ low)
      ⊎ ((r : Rule) × (Matched p d r × (r.level ≡ analysis.impact_level)))
  pub justified :
      (v : String)
      → Memᴰ v analysis.required_validations
      → (r : Rule) × (Matched p d r × Memᴰ v r.required_validations)

unseen : (xs : List String) (x : String) → Memᴰ x xs → Memᴰ x (dedupe [] xs)
unseen xs x m = elim (dedupe-keeps [] xs x m) [ inl n ↦ elim n [ ] | inr n ↦ n ]

match_all-Memᴰ :
    (p : Patterns) (es : List Entry) (e : Entry) (k : String)
    → Memᴰ e es
    → Memᴰ k (match_field p e)
    → Memᴰ k (match_all p es)
match_all-Memᴰ p [] e k m n = elim m [ ]
match_all-Memᴰ p (f ∷ fs) e k (Memᴰ.head i) n =
    Memᴰ-append_left _ _ (subst (λ x. Memᴰ k (match_field p x)) i n)
match_all-Memᴰ p (f ∷ fs) e k (Memᴰ.tail m) n = Memᴰ-append_right _ _ (match_all-Memᴰ p fs e k m n)

match_all-entry :
    (p : Patterns) (es : List Entry) (k : String)
    → Memᴰ k (match_all p es)
    → (e : Entry) × (Memᴰ e es × Memᴰ k (match_field p e))
match_all-entry p [] k m = elim m [ ]
match_all-entry p (f ∷ fs) k m = elim (Memᴰ-append_cases (match_field p f) (match_all p fs) m) [
  | inl n ↦ (f, (Memᴰ.head refl, n))
  | inr n ↦ let (e, (a, b)) = match_all-entry p fs k n in (e, (Memᴰ.tail a, b))
]

validations_of-Memᴰ :
    (rs : List Rule) (r : Rule) (v : String)
    → Memᴰ r rs
    → Memᴰ v r.required_validations
    → Memᴰ v (validations_of rs)
validations_of-Memᴰ [] r v m n = elim m [ ]
validations_of-Memᴰ (s ∷ rs) r v (Memᴰ.head i) n =
    Memᴰ-append_left _ _ (subst (λ x. Memᴰ v x.required_validations) i n)
validations_of-Memᴰ (s ∷ rs) r v (Memᴰ.tail m) n =
    Memᴰ-append_right _ _ (validations_of-Memᴰ rs r v m n)

validations_of-rule :
    (rs : List Rule) (v : String)
    → Memᴰ v (validations_of rs)
    → (r : Rule) × (Memᴰ r rs × Memᴰ v r.required_validations)
validations_of-rule [] v m = elim m [ ]
validations_of-rule (s ∷ rs) v m =
    elim (Memᴰ-append_cases s.required_validations (validations_of rs) m) [
      | inl n ↦ (s, (Memᴰ.head refl, n))
      | inr n ↦ let (r, (a, b)) = validations_of-rule rs v n in (r, (Memᴰ.tail a, b))
    ]

module _ (p : Patterns) (d : ConfigDiff) (f : Found (match_rules p d)) where
  rule_found : (r : Rule) → Matched p d r → Memᴰ r f.rules
  unfolding match_rules
  rule_found r m =
      f.down m.rule_key r
        (unseen _ m.rule_key (match_all-Memᴰ p (entries d) m.entry m.rule_key m.listed m.matches))
        m.known

  rule-Matched : (r : Rule) → Memᴰ r f.rules → Matched p d r
  unfolding match_rules
  rule-Matched r m =
      let (k, (n, known)) = f.up r m in
      let (e, (listed, matches)) =
        match_all-entry p (entries d) k (dedupe-Memᴰ [] (match_all p (entries d)) k n) in
      record { entry = e; rule_key = k; listed = listed; matches = matches; known = known }

-- The analysis of a diff always answers. Its level is at least that of each rule that an entry of the
-- diff matches, and it is the level of one of these or LOW; its required validations are exactly those of
-- these rules.
pub impact_is_the_highest : (p : Patterns) (d : ConfigDiff) → Judged p d
unfolding analyze_diff summarise Attained
impact_is_the_highest p d =
    let f : Found (match_rules p d) = rules_of-Found (match_rules p d) (AllKnown-match_rules p d) in
    record {
      analysis = record {
        impact_level = level_of f.rules;
        required_validations = dedupe [] (validations_of f.rules);
        matched_rules = match_rules p d;
      };
      returned = rw f.found refl;
      bounds = λ r m. level_of-bounds f.rules r (rule_found p d f r m);
      required = λ r v m n. unseen _ v (validations_of-Memᴰ f.rules r v (rule_found p d f r m) n);
      attained = elim (level_of-Attained f.rules) [
        | inl e ↦ inl e
        | inr (r, (m, e)) ↦ inr (r, (rule-Matched p d f r m, e))
      ];
      justified = λ v m.
          let (r, (a, b)) = validations_of-rule f.rules v (dedupe-Memᴰ [] _ v m) in
          (r, (rule-Matched p d f r a, b));
    }
