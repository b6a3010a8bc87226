-- ===== src/Audit.antt =====
-- app/modules/audit/security_log.py: the security events of a tenant, each with the hash of the one
-- before. The hash is a parameter (SHA-256 of the item's JSON with sorted keys), as is the type of its
-- digests; an event enters with its fresh id and its times.
pub mod Chain
use agent_builder_factory_ap.Base.{
  ℕ, String, Bool, true, false, Option, none, some, List, if◌then◌else◌, string_key,
}
use agent_builder_factory_ap.Table.{Table}

-- the fields that are hashed with the previous hash; `extra` is the JSON of the further ones
pub record SecurityEvent : Type 0 where
  pub tenant_id : String
  pub event_id : String
  pub timestamp : String
  pub event_type : String
  pub agent_id : String
  pub principal_id : String
  pub action : String
  pub resource : String
  pub result : String
  pub request_id : String
  pub source_ip : String
  pub expires_at : ℕ
  pub extra : String

-- an item of the table: an event, or the tail of the chain under its sentinel id
pub data LogItem (H : Type 0) : Type 0 where
  event : SecurityEvent → Option H → H → LogItem H
  tail : H → LogItem H

abbrev pub chain_tail_event_id : String
chain_tail_event_id = "_CHAIN_TAIL_"

-- which of the calls of a write the table answers; the first that it does not ends the write
pub record Answered : Type 0 where
  pub get_tail : Bool
  pub put_event : Bool
  pub put_tail : Bool

-- `item.get("latest_hash")`
abbrev pub latest_hash : {H : Type 0} → Option (LogItem H) → Option H
latest_hash none = none
latest_hash (some (LogItem.event e p h)) = none
latest_hash (some (LogItem.tail h)) = some h

module _ {H : Type 0} ⦃t : Table String String (LogItem H)⦄ where
  unfoldable pub get_chain_tail_hash : String → t.Contents → Option H
  get_chain_tail_hash tenant_id c = latest_hash (t.get_item c tenant_id chain_tail_event_id)

  unfoldable pub advance_chain_tail : String → H → t.Contents → t.Contents
  advance_chain_tail tenant_id new_hash c =
      t.put_item c tenant_id chain_tail_event_id (LogItem.tail new_hash)

  unfoldable pub put_event :
      (SecurityEvent → Option H → H) → SecurityEvent → Option H → t.Contents → t.Contents
  put_event hash e prev_hash c =
      t.put_item c e.tenant_id e.event_id (LogItem.event e prev_hash (hash e prev_hash))

  -- the two writes after the read of the tail
  abbrev pub write_after :
      (SecurityEvent → Option H → H) → Answered → SecurityEvent → Option H → t.Contents → t.Contents
  write_after hash a e prev_hash c =
      if a.put_event
      then if a.put_tail
        then advance_chain_tail e.tenant_id (hash e prev_hash) (put_event hash e prev_hash c)
        else put_event hash e prev_hash c
      else c

  unfoldable pub write_event :
      (SecurityEvent → Option H → H) → Answered → SecurityEvent → t.Contents → t.Contents
  write_event hash a e c =
      if a.get_tail then write_after hash a e (get_chain_tail_hash e.tenant_id c) c else c
