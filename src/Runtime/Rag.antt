-- ===== src/Runtime/Rag.antt =====
-- services/agent-runtime/rag_client.py. The catalog and Bedrock are fields of RagServices; either may
-- raise. The client keeps the id that it resolved for the life of the process.
use Prim.Native.String.{◌++◌ as append}
use agent_builder_factory_ap.Base.{
  ℕ, String, Bool, true, false, ◌&&◌, not, Option, none, some, List, [], ◌∷◌, Result, ok, err, Exec,
  pure, lift, ◌>>=◌, ◌==◌, if◌then◌else◌, string_key,
}
use agent_builder_factory_ap.Runtime.Guardrail.{is_set}

pub record KbConfig : Type 0 where
  pub enabled : Bool
  pub kb_id : Option String
  pub top_k : ℕ

-- The catalog's item, with its bedrock_kb_id, and the texts of the chunks that are found.
pub record RagServices : Type 0 where
  pub get_kb : String → String → Result String (Option (Option String))
  pub retrieve : String → String → ℕ → Result String (List (Option String))

pub record RagState : Type 0 where
  pub resolved : Bool
  pub bedrock_kb_id : Option String

abbrev id_of : Option (Option String) → Option String
id_of none = none
id_of (some i) = i

abbrev found : Result String (Option (Option String)) → Exec RagState String (Option String)
found (err e) s = (err e, record s { resolved = true })
found (ok item) s = (ok (id_of item), record { resolved = true; bedrock_kb_id = id_of item })

abbrev resolve_now : RagServices → String → Option String → Exec RagState String (Option String)
resolve_now services tenant_id none s = (ok none, record s { resolved = true })
resolve_now services tenant_id (some kb_id) s =
    if kb_id == ""
    then (ok none, record s { resolved = true })
    else found (services.get_kb tenant_id kb_id) s

unfoldable pub resolve_bedrock_kb_id :
    RagServices → String → KbConfig → Exec RagState String (Option String)
resolve_bedrock_kb_id services tenant_id c s =
    if s.resolved then (ok s.bedrock_kb_id, s) else resolve_now services tenant_id c.kb_id s

abbrev text_or_empty : Option String → String
text_or_empty none = ""
text_or_empty (some t) = t

-- "\n\n".join of the texts that are not empty; `before` says whether one stands before
abbrev joined : Bool → List (Option String) → String
joined before [] = ""
joined before (t ∷ ts) =
    if not (is_set t)
    then joined before ts
    else append (if before then "\n\n" else "") (append (text_or_empty t) (joined true ts))

abbrev chunks_of : Result String (List (Option String)) → Result String String
chunks_of (err e) = err e
chunks_of (ok ts) = ok (joined false ts)

abbrev search_kb : RagServices → KbConfig → String → Option String → Result String String
search_kb services c query none = ok ""
search_kb services c query (some i) =
    if i == "" then ok "" else chunks_of (services.retrieve i query c.top_k)

unfoldable pub retrieve : RagServices → String → KbConfig → String → Exec RagState String String
retrieve services tenant_id c query =
    if not (c.enabled && is_set c.kb_id)
    then pure ""
    else do kb ← resolve_bedrock_kb_id services tenant_id c; lift (search_kb services c query kb)
