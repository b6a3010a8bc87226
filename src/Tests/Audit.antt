-- ===== src/Tests/Audit.antt =====
-- Witnesses on the log of a tenant with three writes, of which one is not answered to its end. The
-- digests are the hashed items themselves, so that different items have different digests.
use agent_builder_factory_ap.Base.{
  String, refl, true, false, Option, none, some, List, [], ◌∷◌, string_key,
}
use agent_builder_factory_ap.Table.{Table}
use agent_builder_factory_ap.Table.Assoc.{assoc_table}
use agent_builder_factory_ap.Audit.{SecurityEvent, LogItem, get_chain_tail_hash}
use agent_builder_factory_ap.Audit.Chain.{Write, Chain, kept, write_all, log_is_linked}

data Digest : Type 0 where
  first : SecurityEvent → Digest
  next : SecurityEvent → Digest → Digest

abbrev digest : SecurityEvent → Option Digest → Digest
digest e none = Digest.first e
digest e (some d) = Digest.next e d

instance abbrev log_table : Table String String (LogItem Digest)
log_table = assoc_table

abbrev event : String → String → SecurityEvent
event id result = record {
  tenant_id = "t1";
  event_id = id;
  timestamp = "2026-01-01T00:00:00+00:00";
  event_type = "agent.created";
  agent_id = "support";
  principal_id = "ann";
  action = "create";
  resource = "support";
  result = result;
  request_id = "";
  source_ip = "";
  expires_at = 1775000000;
  extra = "{}";
}

abbrev writes : List Write
writes =
    record {
      answered = record { get_tail = true; put_event = true; put_tail = true };
      event = event "e3" "success";
    }
    ∷ record {
      answered = record { get_tail = true; put_event = true; put_tail = false };
      event = event "e2" "denied";
    }
    ∷ record {
      answered = record { get_tail = true; put_event = true; put_tail = true };
      event = event "e1" "success";
    }
    ∷ []

log_is_linked_example : Chain digest "t1" (kept writes) (write_all digest "t1" writes [])
unfolding get_chain_tail_hash
log_is_linked_example =
    log_is_linked digest "t1" writes [] (refl, (refl, (refl, (refl, (refl, (refl, tt)))))) refl refl
