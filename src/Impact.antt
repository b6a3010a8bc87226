-- ===== src/Impact.antt =====
-- app/modules/change_impact: the rules (rules.py) and the analysis of a diff (analyzer.py). A path of the
-- diff is a text, as in the source; what the regular expressions say of it is a parameter.
pub mod Matched
pub mod Levels
pub mod Highest
use Prim.Native.String.{◌++◌ as append}
use agent_builder_factory_ap.Registry.Contract.{take_chars}
use agent_builder_factory_ap.Base.{
  ℕ, suc, String, Bool, true, false, ◌&&◌, ◌||◌, not, Option, none, some, List, [], ◌∷◌, ◌++◌, map,
  contains, ◌==◌, if◌then◌else◌, string_key, ltb,
}

pub data ImpactLevel : Type 0 where
  low medium high critical : ImpactLevel

-- `IMPACT_LEVEL_ORDER`
abbrev pub rank : ImpactLevel → ℕ
rank low = 0
rank medium = 1
rank high = 2
rank critical = 3

pub record Rule : Type 0 where
  pub level : ImpactLevel
  pub required_validations : List String

abbrev rule : ImpactLevel → List String → Rule
rule l vs = record { level = l; required_validations = vs }

-- `IMPACT_RULES`
abbrev pub impact_rules : List (String × Rule)
impact_rules =
    ("system_prompt", rule medium ("PROMPT_EVALUATION" ∷ "GUARDRAIL_TESTS" ∷ []))
    ∷ ("model_id", rule high ("MODEL_EVALUATION" ∷ "SAFETY_TESTS" ∷ []))
    ∷ ("model_provider", rule high ("MODEL_EVALUATION" ∷ "SAFETY_TESTS" ∷ "FULL_SECURITY" ∷ []))
    ∷ ("temperature", rule low ("PROMPT_EVALUATION" ∷ []))
    ∷ ("max_tokens", rule low ("PROMPT_EVALUATION" ∷ []))
    ∷ ("knowledge_base.*", rule medium ("RAG_EVALUATION" ∷ []))
    ∷ ("guardrails.*", rule high ("FULL_GUARDRAIL_REGRESSION" ∷ []))
    ∷ ("tools[*].add", rule high ("TOOL_SECURITY" ∷ "INTEGRATION_TESTS" ∷ "IAC_SCAN" ∷ []))
    ∷ ("tools[*].remove", rule medium ("INTEGRATION_TESTS" ∷ []))
    ∷ ("tools[*].endpoint", rule high ("TOOL_SECURITY" ∷ "INTEGRATION_TESTS" ∷ []))
    ∷ ("human_review.*", rule medium ("INTEGRATION_TESTS" ∷ []))
    ∷ ("token_budget_daily", rule low [])
    ∷ ("rate_limit_rpm", rule low [])
    ∷ ("lambda_code", rule high ("SAST" ∷ "DEPENDENCY_SCAN" ∷ "INTEGRATION_TESTS" ∷ []))
    ∷ ("iam_policy", rule high ("IAC_SCAN" ∷ "POLICY_VALIDATION" ∷ []))
    ∷ ("network_config", rule high ("IAC_SCAN" ∷ "SECURITY_SCAN" ∷ []))
    ∷ (
      "container_image",
      rule critical ("FULL_SECURITY" ∷ "CONTAINER_SCAN" ∷ "FULL_REGRESSION" ∷ []),
    )
    ∷ ("runtime_upgrade", rule critical ("FULL_SECURITY" ∷ "FULL_REGRESSION" ∷ []))
    ∷ []

abbrev pub find_rule : List (String × Rule) → String → Option Rule
find_rule [] k = none
find_rule (e ∷ es) k = if e.0 == k then some e.1 else find_rule es k

-- `IMPACT_RULES[rule]`, missing where that raises
unfoldable pub rule_of : String → Option Rule
rule_of k = find_rule impact_rules k

pub data Kind : Type 0 where
  changed added removed : Kind

-- a path of a diff; `unset` says that its value, the new one of a change, is None
pub record FieldValue : Type 0 where
  pub field : String
  pub unset : Bool

pub record ConfigDiff : Type 0 where
  pub changed : List FieldValue
  pub added : List FieldValue
  pub removed : List FieldValue

-- the arguments of a call of `_match_field`
pub record Entry : Type 0 where
  pub field : String
  pub kind : Kind
  pub unset : Bool

abbrev entry_of : Kind → FieldValue → Entry
entry_of k f = record { field = f.field; kind = k; unset = f.unset }

-- what `_TOOL_ITEM_PATTERN` and `_TOOL_ENDPOINT_PATTERN` match
pub record Patterns : Type 0 where
  pub is_tool_item : String → Bool
  pub is_tool_endpoint : String → Bool

abbrev characters : String → ℕ
characters String.[] = 0
characters (String.◌∷◌ c s) = suc (characters s)

-- `field.startswith(f"{prefix}.")`
unfoldable pub is_below : String → String → Bool
unfolding take_chars
is_below field prefix =
    let start = append prefix "." in take_chars (characters start) field == start

abbrev pub named_rule : String → Option Rule → List String
named_rule field none = []
named_rule field (some r) = field ∷ []

abbrev is_change : Kind → Bool
is_change changed = true
is_change added = false
is_change removed = false

-- one turn of the loop over `_WILDCARD_PREFIXES`
abbrev pub match_prefix : Patterns → Entry → String → String → List String
match_prefix p e rule_key prefix =
    if not (e.field == prefix) && not (is_below e.field prefix)
    then []
    else if e.field == prefix && not (is_change e.kind) && e.unset
    then []
    else rule_key ∷ []

abbrev pub match_item : Kind → List String
match_item added = "tools[*].add" ∷ []
match_item removed = "tools[*].remove" ∷ []
match_item changed = []

abbrev pub match_tool : Patterns → Entry → List String
match_tool p e =
    if p.is_tool_item e.field
    then match_item e.kind
    else if is_change e.kind && p.is_tool_endpoint e.field
    then "tools[*].endpoint" ∷ []
    else []

unfoldable pub match_field : Patterns → Entry → List String
match_field p e =
    named_rule e.field (rule_of e.field)
    ++ (match_prefix p e "knowledge_base.*" "knowledge_base"
        ++ (match_prefix p e "guardrails.*" "guardrails"
            ++ (match_prefix p e "human_review.*" "human_review" ++ match_tool p e)))

-- `_dedupe`, with the items seen so far
unfoldable pub dedupe : List String → List String → List String
dedupe seen [] = []
dedupe seen (x ∷ xs) = elim (contains seen x) [
  | true ↦ dedupe seen xs
  | false ↦ x ∷ dedupe (x ∷ seen) xs
]

abbrev pub match_all : Patterns → List Entry → List String
match_all p [] = []
match_all p (e ∷ es) = match_field p e ++ match_all p es

abbrev pub entries : ConfigDiff → List Entry
entries d =
    map (entry_of changed) d.changed
    ++ (map (entry_of added) d.added ++ map (entry_of removed) d.removed)

-- `_match_rules`
unfoldable pub match_rules : Patterns → ConfigDiff → List String
match_rules p d = dedupe [] (match_all p (entries d))

pub record ImpactAnalysis : Type 0 where
  pub impact_level : ImpactLevel
  pub required_validations : List String
  pub matched_rules : List String

abbrev pub cons_option {ℓ} : {A : Type ℓ} → Option A → Option (List A) → Option (List A)
cons_option none rest = none
cons_option (some a) none = none
cons_option (some a) (some rest) = some (a ∷ rest)

-- the rules of these keys, or none where one is not in the table
unfoldable pub rules_of : List String → Option (List Rule)
rules_of [] = some []
rules_of (k ∷ ks) = cons_option (rule_of k) (rules_of ks)

-- `max` by the order of the levels, of `l` and these
unfoldable pub highest : ImpactLevel → List Rule → ImpactLevel
highest l [] = l
highest l (r ∷ rs) = highest (if ltb (rank l) (rank r.level) then r.level else l) rs

abbrev pub validations_of : List Rule → List String
validations_of [] = []
validations_of (r ∷ rs) = r.required_validations ++ validations_of rs

-- the level where no rule matched is LOW
abbrev pub level_of : List Rule → ImpactLevel
level_of [] = low
level_of (r ∷ rs) = highest r.level rs

abbrev pub analysis_of : List String → Option (List Rule) → Option ImpactAnalysis
analysis_of matched none = none
analysis_of matched (some rs) = some (record {
  impact_level = level_of rs;
  required_validations = dedupe [] (validations_of rs);
  matched_rules = matched;
})

-- `_summarise`
unfoldable pub summarise : List String → Option ImpactAnalysis
summarise matched = analysis_of matched (rules_of matched)

unfoldable pub analyze_diff : Patterns → ConfigDiff → Option ImpactAnalysis
analyze_diff p d = summarise (match_rules p d)
