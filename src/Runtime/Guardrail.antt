-- ===== src/Runtime/Guardrail.antt =====
-- services/agent-runtime/guardrail.py. The policy catalog and Bedrock are fields of Services; either may
-- raise. The checker keeps what it resolved for the life of the process.
use agent_builder_factory_ap.Base.{
  String, Bool, true, false, ◌&&◌, not, Option, none, some, List, [], ◌∷◌, Result, ok, err, Exec,
  pure, ◌>>=◌, ◌==◌, if◌then◌else◌, string_key,
}

pub data Source : Type 0 where
  input : Source
  output : Source

pub record GuardrailResult : Type 0 where
  pub blocked : Bool
  pub sanitised_text : Option String
  pub reason : Option String

-- a row of panasa-guardrail-policies
pub record PolicyRow : Type 0 where
  pub bedrock_guardrail_id : Option String
  pub bedrock_guardrail_version : Option String

-- The answer of ApplyGuardrail: whether its action is GUARDRAIL_INTERVENED, and the texts of its outputs.
pub record Applied : Type 0 where
  pub intervened : Bool
  pub outputs : List (Option String)

pub record GuardrailServices : Type 0 where
  pub get_policy : String → String → Result String (Option PolicyRow)
  pub apply_guardrail : String → String → Source → String → Result String Applied

pub record GuardrailState : Type 0 where
  pub resolved : Bool
  pub guardrail_id : Option String
  pub guardrail_version : Option String

-- what `__init__` leaves
abbrev pub fresh_state : GuardrailState
fresh_state = record { resolved = false; guardrail_id = none; guardrail_version = none }

-- the truth value of an optional text
abbrev pub is_set : Option String → Bool
is_set none = false
is_set (some s) = not (s == "")

abbrev pub unblocked : GuardrailResult
unblocked = record { blocked = false; sanitised_text = none; reason = none }

abbrev pub blocked_for : String → GuardrailResult
blocked_for reason = record { blocked = true; sanitised_text = none; reason = some reason }

-- `a, b` where both are set
abbrev pub both_set : Option String → Option String → Option (String × String)
both_set none v = none
both_set (some i) none = none
both_set (some i) (some v) = if not (i == "") && not (v == "") then some (i, v) else none

abbrev version_or_draft : Option String → String
version_or_draft none = "DRAFT"
version_or_draft (some v) = if v == "" then "DRAFT" else v

-- the guardrail of a catalog row, if it was provisioned
abbrev pub guardrail_of : Option PolicyRow → Option (String × String)
guardrail_of none = none
guardrail_of (some row) = elim row.bedrock_guardrail_id [
  | none ↦ none
  | some i ↦ if i == "" then none else some (i, version_or_draft row.bedrock_guardrail_version)
]

abbrev pub remember : Option (String × String) → GuardrailState
remember none = record { resolved = true; guardrail_id = none; guardrail_version = none }
remember (some (i, v)) = record {
  resolved = true;
  guardrail_id = some i;
  guardrail_version = some v;
}

abbrev pub resolve_row :
    Result String (Option PolicyRow) → Exec GuardrailState String (Option (String × String))
resolve_row (err e) s = (err e, remember none)
resolve_row (ok row) s = (ok (guardrail_of row), remember (guardrail_of row))

-- `_resolve`, by a checker that has not resolved anything: the flag is set before the catalog is read
abbrev pub resolve_now :
    GuardrailServices
    → String
    → Option String
    → Exec GuardrailState String (Option (String × String))
resolve_now services tenant_id none s = (ok none, remember none)
resolve_now services tenant_id (some policy_id) s =
    if policy_id == ""
    then (ok none, remember none)
    else resolve_row (services.get_policy tenant_id policy_id) s

unfoldable pub resolve :
    GuardrailServices
    → String
    → Option String
    → Exec GuardrailState String (Option (String × String))
resolve services tenant_id policy_id s =
    if s.resolved
    then (ok (both_set s.guardrail_id s.guardrail_version), s)
    else resolve_now services tenant_id policy_id s

abbrev pub first_text : List (Option String) → Option String
first_text [] = none
first_text (o ∷ os) = o

abbrev pub sanitised : Option String → GuardrailResult
sanitised none = blocked_for "guardrail_intervened"
sanitised (some t) = record { blocked = false; sanitised_text = some t; reason = none }

abbrev pub judge_answer : Result String Applied → GuardrailResult
judge_answer (err e) = blocked_for "guardrail_call_failed"
judge_answer (ok a) = if a.intervened then sanitised (first_text a.outputs) else unblocked

abbrev pub judge : GuardrailServices → Source → String → Option (String × String) → GuardrailResult
judge services source text none = blocked_for "guardrail_not_resolved"
judge services source text (some (i, v)) = judge_answer (services.apply_guardrail i v source text)

unfoldable pub check :
    GuardrailServices
    → String
    → Option String
    → Source
    → String
    → Exec GuardrailState String GuardrailResult
check services tenant_id policy_id source text =
    if not (is_set policy_id) then pure unblocked else do
      resolved ← resolve services tenant_id policy_id
      pure (judge services source text resolved)
