-- ===== src/Impact/Matched.antt =====
-- Every rule that an entry of a diff matches is in the table.
use agent_builder_factory_ap.Base.{
  String, ◌≡◌, refl, sym, ap, subst, ◌∙◌, Bool, true, false, Option, none, some, List, [], ◌∷◌,
  ◌++◌, Memᴰ, Memᴰ-append_cases, contains, ◌==◌, ==_sound, string_key, ◌⊎◌, inl, inr, Bool-cases,
  if◌then◌else◌,
}
use agent_builder_factory_ap.Impact.{
  Rule, rule_of, Kind, changed, added, removed, Entry, ConfigDiff, Patterns, match_field, dedupe,
  named_rule, match_prefix, match_item, match_tool, match_all, entries, match_rules, rules_of,
}

contains-Memᴰ : (xs : List String) (x : String) → contains xs x ≡ true → Memᴰ x xs
contains-Memᴰ [] x h = cc h
contains-Memᴰ (y ∷ ys) x h = elim (Bool-cases (y == x)) [
  | inl e ↦ Memᴰ.head (sym (==_sound y x e))
  | inr e ↦ Memᴰ.tail (contains-Memᴰ ys x (rw e at h))
]

-- an item is kept, unless it was seen
pub dedupe-keeps :
    (seen xs : List String) (x : String) → Memᴰ x xs → Memᴰ x seen ⊎ Memᴰ x (dedupe seen xs)
unfolding dedupe
dedupe-keeps seen [] x m = elim m [ ]
dedupe-keeps seen (y ∷ ys) x (Memᴰ.head e) = elim (Bool-cases (contains seen y)) [
  | inl c ↦ inl (subst (λ z. Memᴰ z seen) (sym e) (contains-Memᴰ seen y c))
  | inr c ↦ inr (rw (c, dedupe) (Memᴰ.head e))
]
dedupe-keeps seen (y ∷ ys) x (Memᴰ.tail m) = elim (Bool-cases (contains seen y)) [
  | inl c ↦ rw (c, dedupe) (dedupe-keeps seen ys x m)
  | inr c ↦
      rw (c, dedupe)
        (elim (dedupe-keeps (y ∷ seen) ys x m) [
          | inl (Memᴰ.head e) ↦ inr (Memᴰ.head e)
          | inl (Memᴰ.tail n) ↦ inl n
          | inr n ↦ inr (Memᴰ.tail n)
        ])
]

pub dedupe-Memᴰ : (seen xs : List String) (x : String) → Memᴰ x (dedupe seen xs) → Memᴰ x xs
unfolding dedupe
dedupe-Memᴰ seen [] x m = elim m [ ]
dedupe-Memᴰ seen (y ∷ ys) x m = elim (Bool-cases (contains seen y)) [
  | inl c ↦ Memᴰ.tail (dedupe-Memᴰ seen ys x (rw (c, dedupe) at m))
  | inr c ↦
      let n : Memᴰ x (y ∷ dedupe (y ∷ seen) ys) = rw (c, dedupe) at m in
      elim n [ Memᴰ.head e ↦ Memᴰ.head e | Memᴰ.tail o ↦ Memᴰ.tail (dedupe-Memᴰ (y ∷ seen) ys x o) ]
]

-- the rules' names are all in the table
pub record AllKnown (ks : List String) : Type 0 where
  pub at : (k : String) → Memᴰ k ks → (r : Rule) × (rule_of k ≡ some r)

AllKnown-none : AllKnown []
AllKnown-none = record { at = λ k m. elim m [ ] }

AllKnown-one : (k : String) {r : Rule} → rule_of k ≡ some r → AllKnown (k ∷ [])
AllKnown-one k {r} h = record {
  at = λ j m. elim m [ Memᴰ.head e ↦ (r, ap rule_of e ∙ h) | Memᴰ.tail n ↦ elim n [ ] ];
}

AllKnown-append : (ks js : List String) → AllKnown ks → AllKnown js → AllKnown (ks ++ js)
AllKnown-append ks js h i = record {
  at = λ k m. elim (Memᴰ-append_cases ks js m) [ inl n ↦ h.at k n | inr n ↦ i.at k n ];
}

AllKnown-if :
    (b : Bool) (ks js : List String) → AllKnown ks → AllKnown js → AllKnown (if b then ks else js)
AllKnown-if true ks js h i = h
AllKnown-if false ks js h i = i

AllKnown-named :
    (field : String) (o : Option Rule) → rule_of field ≡ o → AllKnown (named_rule field o)
AllKnown-named field none h = AllKnown-none
AllKnown-named field (some r) h = AllKnown-one field h

AllKnown-item : (k : Kind) → AllKnown (match_item k)
unfolding rule_of
AllKnown-item changed = AllKnown-none
AllKnown-item added = AllKnown-one "tools[*].add" refl
AllKnown-item removed = AllKnown-one "tools[*].remove" refl

module _ (p : Patterns) (e : Entry) where
  AllKnown-prefix :
      (key prefix : String) {r : Rule}
      → rule_of key ≡ some r
      → AllKnown (match_prefix p e key prefix)
  AllKnown-prefix key prefix h =
      AllKnown-if _ _ _ AllKnown-none (AllKnown-if _ _ _ AllKnown-none (AllKnown-one key h))

  AllKnown-tool : AllKnown (match_tool p e)
  unfolding rule_of
  AllKnown-tool =
      AllKnown-if _ _ _ (AllKnown-item e.kind)
        (AllKnown-if _ _ _ (AllKnown-one "tools[*].endpoint" refl) AllKnown-none)

  AllKnown-field : AllKnown (match_field p e)
  unfolding match_field rule_of
  AllKnown-field = AllKnown-append _ _ (AllKnown-named e.field (rule_of e.field) refl) (
      AllKnown-append _ _ (AllKnown-prefix "knowledge_base.*" "knowledge_base" refl) (
        AllKnown-append _ _ (AllKnown-prefix "guardrails.*" "guardrails" refl) (
          AllKnown-append _ _ (AllKnown-prefix "human_review.*" "human_review" refl)
            AllKnown-tool)))

AllKnown-all : (p : Patterns) (es : List Entry) → AllKnown (match_all p es)
AllKnown-all p [] = AllKnown-none
AllKnown-all p (e ∷ es) = AllKnown-append _ _ (AllKnown-field p e) (AllKnown-all p es)

pub AllKnown-match_rules : (p : Patterns) (d : ConfigDiff) → AllKnown (match_rules p d)
unfolding match_rules
AllKnown-match_rules p d = record {
  at = λ k m. (AllKnown-all p (entries d)).at k (dedupe-Memᴰ [] (match_all p (entries d)) k m);
}

-- the rules of these names
pub record Found (ks : List String) : Type 0 where
  pub rules : List Rule
  pub found : rules_of ks ≡ some rules
  pub down : (k : String) (r : Rule) → Memᴰ k ks → rule_of k ≡ some r → Memᴰ r rules
  pub up : (r : Rule) → Memᴰ r rules → (k : String) × (Memᴰ k ks × (rule_of k ≡ some r))

pub rules_of-Found : (ks : List String) → AllKnown ks → Found ks
unfolding rules_of
rules_of-Found [] h = record {
  rules = [];
  found = refl;
  down = λ k r m e. elim m [ ];
  up = λ r m. elim m [ ];
}
rules_of-Found (k ∷ ks) h =
    let (r, e) = h.at k (Memᴰ.head refl) in
    let rest : Found ks = rules_of-Found ks (record { at = λ j m. h.at j (Memᴰ.tail m) }) in
    record {
      rules = r ∷ rest.rules;
      found = rw (e, rest.found) refl;
      down = λ j s m f. elim m [
        | Memᴰ.head i ↦ Memᴰ.head (cc (e, f, i))
        | Memᴰ.tail n ↦ Memᴰ.tail (rest.down j s n f)
      ];
      up = λ s m. elim m [
        | Memᴰ.head i ↦ (k, (Memᴰ.head refl, e ∙ ap some (sym i)))
        | Memᴰ.tail n ↦ let (j, (a, b)) = rest.up s n in (j, (Memᴰ.tail a, b))
      ];
    }
