-- ===== src/Runtime/Memory.antt =====
-- services/agent-runtime/memory.py. The turns of a session are in the process; those of a user are in
-- the table panasa-memory. `clip` is `[:2000]`.
use Prim.Native.String.{◌++◌ as append}
use mathlib.Core.List.{flatten}
use agent_builder_factory_ap.Base.{
  ℕ, suc, zero, ◌+◌, ◌-◌, ◌*◌, String, Bool, false, not, Option, none, some, List, [], ◌∷◌, ◌++◌,
  length, take, ◌==◌, if◌then◌else◌, ltb, string_key, nat_key,
}
use agent_builder_factory_ap.Table.{Table}

-- what the user asked and what the agent replied
abbrev pub Turn : Type 0
Turn = String × String

pub record MemoryItem : Type 0 where
  pub agent_id : String
  pub user_id : String
  pub content : String
  pub source_session_id : String
  pub expires_at : ℕ
  pub created_at : String

pub record MemoryConfig : Type 0 where
  pub agent_id : String
  pub memory_type : String
  pub ttl_days : ℕ
  pub max_session_turns : ℕ

-- the clock, its text, and a fresh id
pub record MemoryEnv : Type 0 where
  pub now : ℕ
  pub now_text : String
  pub memory_id : String
  pub clip : String → String

abbrev pub drop {ℓ} : {A : Type ℓ} → ℕ → List A → List A
drop zero xs = xs
drop (suc n) [] = []
drop (suc n) (x ∷ xs) = drop n xs

-- `_session_turns.get(session_id, [])`
abbrev pub turns_of : List (String × List Turn) → String → List Turn
turns_of [] session_id = []
turns_of (s ∷ ss) session_id = if s.0 == session_id then s.1 else turns_of ss session_id

abbrev pub with_turns : List (String × List Turn) → String → List Turn → List (String × List Turn)
with_turns [] session_id turns = (session_id, turns) ∷ []
with_turns (s ∷ ss) session_id turns =
    if s.0 == session_id then (session_id, turns) ∷ ss else s ∷ with_turns ss session_id turns

-- `del turns[: -max]`, which deletes nothing where max is 0
abbrev pub delete_oldest : ℕ → List Turn → List Turn
delete_oldest max turns = if max == 0 then turns else drop (length turns - max) turns

unfoldable pub trim : ℕ → List Turn → List Turn
trim max turns = if ltb max (length turns) then delete_oldest max turns else turns

unfoldable pub save_session :
    ℕ → String → String → String → List (String × List Turn) → List (String × List Turn)
save_session max session_id message response turns =
    with_turns turns session_id (trim max (turns_of turns session_id ++ ((message, response) ∷ [])))

abbrev turn_text : Turn → String
turn_text (m, r) = append "User: " (append m (append "\nAssistant: " r))

-- "\n".join
abbrev pub join : List String → String
join [] = ""
join (s ∷ []) = s
join (s ∷ t ∷ ts) = append s (append "\n" (join (t ∷ ts)))

abbrev texts_of : List Turn → List String
texts_of [] = []
texts_of (t ∷ ts) = turn_text t ∷ texts_of ts

unfoldable pub load_session : String → List (String × List Turn) → String
load_session session_id turns = join (texts_of (turns_of turns session_id))

abbrev pub partition_of : String → String → String
partition_of agent_id user_id = append agent_id (append "#" user_id)

abbrev lines_of : List MemoryItem → List String
lines_of [] = []
lines_of (i ∷ is) = if i.content == "" then lines_of is else append "- " i.content ∷ lines_of is

abbrev has_user : Option String → Bool
has_user none = false
has_user (some u) = not (u == "")

module _ ⦃t : Table String String MemoryItem⦄ where
  pub record Memory : Type 0 where
    pub session_turns : List (String × List Turn)
    pub items : t.Contents

  -- `_load_persistent`: the first page of a Query with Limit=20
  unfoldable pub load_persistent : MemoryConfig → String → Memory → String
  load_persistent c user_id m =
      join (lines_of (take 20 (flatten (t.query m.items (partition_of c.agent_id user_id)))))

  abbrev load_user : MemoryConfig → Option String → Memory → String
  load_user c none m = ""
  load_user c (some u) m = if u == "" then "" else load_persistent c u m

  unfoldable pub load : MemoryConfig → String → Option String → Memory → String
  load c session_id user_id m =
      if c.memory_type == "session"
      then load_session session_id m.session_turns
      else if c.memory_type == "persistent"
      then load_user c user_id m
      else ""

  abbrev item_for : MemoryEnv → MemoryConfig → String → String → String → String → MemoryItem
  item_for e c user_id session_id message response = record {
    agent_id = c.agent_id;
    user_id = user_id;
    content =
        e.clip (append "User asked: " (append message (append "\nAssistant replied: " response)));
    source_session_id = session_id;
    expires_at = e.now + c.ttl_days * 86400;
    created_at = e.now_text;
  }

  unfoldable pub save_persistent :
      MemoryEnv → MemoryConfig → String → String → String → String → Memory → Memory
  save_persistent e c user_id session_id message response m = record m {
    items =
        t.put_item m.items (partition_of c.agent_id user_id) e.memory_id
          (item_for e c user_id session_id message response);
  }

  abbrev save_user :
      MemoryEnv → MemoryConfig → Option String → String → String → String → Memory → Memory
  save_user e c none session_id message response m = m
  save_user e c (some u) session_id message response m =
      if u == "" then m else save_persistent e c u session_id message response m

  unfoldable pub save :
      MemoryEnv → MemoryConfig → String → Option String → String → String → Memory → Memory
  save e c session_id user_id message response m =
      if c.memory_type == "session"
      then record m {
        session_turns =
            save_session c.max_session_turns session_id message response m.session_turns;
      }
      else if c.memory_type == "persistent"
      then save_user e c user_id session_id message response m
      else m
