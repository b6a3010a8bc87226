-- ===== src/Audit/Chain.antt =====
-- The chain of a tenant's events.
use agent_builder_factory_ap.Base.{
  String, ◌≡◌, refl, sym, ap, ◌∙◌, subst, Bool, true, false, ◌&&◌, not, Option, none, some, List,
  [], ◌∷◌, ◌==◌, ==_sound, ==_refl, if◌then◌else◌, string_key, Bool-cases, inl, inr, arith,
}
use agent_builder_factory_ap.Table.{Table, get-put_self, get-put_ne}
use agent_builder_factory_ap.Audit.{
  SecurityEvent, LogItem, Answered, chain_tail_event_id, latest_hash, get_chain_tail_hash,
  advance_chain_tail, put_event, write_event,
}

-- a write of an event of one tenant
pub record Write : Type 0 where
  pub answered : Answered
  pub event : SecurityEvent

abbrev succeeds : Answered → Bool
succeeds a = a.get_tail && (a.put_event && a.put_tail)

-- the events whose writes were answered throughout, the latest first, of writes in that order
unfoldable pub kept : List Write → List SecurityEvent
kept [] = []
kept (w ∷ ws) = if succeeds w.answered then w.event ∷ kept ws else kept ws

abbrev pub events : List Write → List SecurityEvent
events [] = []
events (w ∷ ws) = w.event ∷ events ws

-- the id is none of the events'
abbrev pub is_new : String → List SecurityEvent → Bool
is_new id [] = true
is_new id (e ∷ es) = not (id == e.event_id) && is_new id es

-- every event is of the tenant, and its id is none of the earlier ones'
abbrev pub IsFresh : String → List Write → Type 0
IsFresh tenant_id [] = Unit
IsFresh tenant_id (w ∷ ws) =
    (w.event.tenant_id ≡ tenant_id)
    × ((is_new w.event.event_id (events ws) ≡ true) × IsFresh tenant_id ws)

split : (a b : Bool) → (not a && b) ≡ true → (a ≡ false) × (b ≡ true)
split a b h = ground arith

both_new : (a b : Bool) → a ≡ false → b ≡ true → (not a && b) ≡ true
both_new a b e f = ground arith

new_kept :
    (id : String) (ws : List Write) → is_new id (events ws) ≡ true → is_new id (kept ws) ≡ true
unfolding kept
new_kept id [] h = refl
new_kept id (w ∷ ws) h =
    let (a, b) = split (id == w.event.event_id) (is_new id (events ws)) h in
    let rest = new_kept id ws b in
    elim (Bool-cases (succeeds w.answered)) [
      | inl e ↦ rw e (both_new (id == w.event.event_id) (is_new id (kept ws)) a rest)
      | inr e ↦ rw e rest
    ]

module _ {H : Type 0} ⦃t : Table String String (LogItem H)⦄ (hash : SecurityEvent → Option H → H)
    (tenant_id : String) where
  -- A walk from this hash back to the start finds these events: each is stored under its id, with the
  -- hash of the one before and with its own.
  abbrev pub Walk : Option H → List SecurityEvent → t.Contents → Type 0
  Walk o [] c = o ≡ none
  Walk o (e ∷ es) c =
      (p : Option H) × ((o ≡ some (hash e p))
        × ((t.get_item c tenant_id e.event_id ≡ some (LogItem.event e p (hash e p))) × Walk p es c))

  Walk-put :
      (c : t.Contents) (id : String) (v : LogItem H) (o : Option H) (es : List SecurityEvent)
      → is_new id es ≡ true
      → Walk o es c
      → Walk o es (t.put_item c tenant_id id v)
  Walk-put c id v o [] n h = h
  Walk-put c id v o (e ∷ es) n (p, (h, (i, k))) =
      let (a, b) = split (id == e.event_id) (is_new id es) n in
      (p, (h, (get-put_ne t c tenant_id id v tenant_id e.event_id a ∙ i, Walk-put c id v p es b k)))

  unfoldable pub write_all : List Write → t.Contents → t.Contents
  write_all [] c = c
  write_all (w ∷ ws) c = write_event hash w.answered w.event (write_all ws c)

  -- the walk from the tail of the chain
  abbrev pub Chain : List SecurityEvent → t.Contents → Type 0
  Chain es c = Walk (get_chain_tail_hash tenant_id c) es c

  swap : (a b : String) → (a == b) ≡ false → (b == a) ≡ false
  swap a b h = elim (Bool-cases (b == a)) [ inl e ↦ cc (==_sound b a e, ==_refl a, h) | inr e ↦ e ]

  -- the item of an event
  abbrev item_of : SecurityEvent → Option H → LogItem H
  item_of e p = LogItem.event e p (hash e p)

  -- the event alone is off the chain
  Chain-orphan :
      (e : SecurityEvent) (v : LogItem H) (es : List SecurityEvent) (c : t.Contents)
      → is_new e.event_id es ≡ true
      → (chain_tail_event_id == e.event_id) ≡ false
      → Chain es c
      → Chain es (t.put_item c tenant_id e.event_id v)
  unfolding get_chain_tail_hash
  Chain-orphan e v es c n s h =
      subst (λ o. Walk (latest_hash o) es (t.put_item c tenant_id e.event_id v))
        (sym (
          get-put_ne t c tenant_id e.event_id v tenant_id chain_tail_event_id
            (swap chain_tail_event_id e.event_id s)))
        (Walk-put c e.event_id v (latest_hash (t.get_item c tenant_id chain_tail_event_id)) es n h)

  Chain-extend :
      (e : SecurityEvent) (es : List SecurityEvent) (c : t.Contents) (p : Option H)
      → p ≡ get_chain_tail_hash tenant_id c
      → is_new e.event_id es ≡ true
      → is_new chain_tail_event_id es ≡ true
      → (chain_tail_event_id == e.event_id) ≡ false
      → Chain es c
      → Chain (e ∷ es) (
          t.put_item
            (t.put_item c tenant_id e.event_id (item_of e p))
            tenant_id
            chain_tail_event_id
            (LogItem.tail (hash e p)))
  unfolding get_chain_tail_hash
  Chain-extend e es c p q n m s h =
      let v = item_of e p in
      let c' = t.put_item c tenant_id e.event_id v in
      let w : LogItem H = LogItem.tail (hash e p) in
      (
        p,
        (
          ap latest_hash (get-put_self t c' tenant_id chain_tail_event_id w),
          (
            get-put_ne t c' tenant_id chain_tail_event_id w tenant_id e.event_id s
                ∙ get-put_self t c tenant_id e.event_id v,
            Walk-put c' chain_tail_event_id w p es m
                (Walk-put c e.event_id v p es n (subst (λ o. Walk o es c) (sym q) h)),
          ),
        ),
      )

  -- a write, with its tenant in place of the event's
  abbrev write_to : String → Bool → Bool → Bool → SecurityEvent → t.Contents → t.Contents
  write_to T got put_ok tail_ok e c =
      let p = get_chain_tail_hash T c in
      if got
      then if put_ok
        then if tail_ok
          then t.put_item (t.put_item c T e.event_id (item_of e p)) T chain_tail_event_id
              (LogItem.tail (hash e p))
          else t.put_item c T e.event_id (item_of e p)
        else c
      else c

  Chain-write_to :
      (got put_ok tail_ok : Bool) (e : SecurityEvent) (es : List SecurityEvent) (c : t.Contents)
      → is_new e.event_id es ≡ true
      → is_new chain_tail_event_id es ≡ true
      → (chain_tail_event_id == e.event_id) ≡ false
      → Chain es c
      → Chain
          (if got && (put_ok && tail_ok) then e ∷ es else es)
          (write_to tenant_id got put_ok tail_ok e c)
  Chain-write_to false put_ok tail_ok e es c n m s h = h
  Chain-write_to true false tail_ok e es c n m s h = h
  Chain-write_to true true false e es c n m s h =
      Chain-orphan e (item_of e (get_chain_tail_hash tenant_id c)) es c n s h
  Chain-write_to true true true e es c n m s h =
      Chain-extend e es c (get_chain_tail_hash tenant_id c) refl n m s h

  Chain-write :
      (a : Answered) (e : SecurityEvent) (es : List SecurityEvent) (c : t.Contents)
      → e.tenant_id ≡ tenant_id
      → is_new e.event_id es ≡ true
      → is_new chain_tail_event_id es ≡ true
      → (chain_tail_event_id == e.event_id) ≡ false
      → Chain es c
      → Chain (if succeeds a then e ∷ es else es) (write_event hash a e c)
  unfolding write_event put_event advance_chain_tail
  Chain-write a e es c i n m s h =
      subst
        (λ T.
          Chain (if succeeds a then e ∷ es else es)
            (write_to T a.get_tail a.put_event a.put_tail e c))
        (sym i) (Chain-write_to a.get_tail a.put_event a.put_tail e es c n m s h)

-- After any writes of events of one tenant, one after the other, on a table without a chain of the
-- tenant, with new ids, and whichever calls of the table fail: the walk from the tail of the chain back
-- to its start finds exactly the events whose writes were answered throughout, the latest first, each
-- with the hash of the one before and its own.
pub log_is_linked :
    {H : Type 0} ⦃t : Table String String (LogItem H)⦄ (hash : SecurityEvent → Option H → H)
    (tenant_id : String) (ws : List Write) (c : t.Contents)
    → IsFresh tenant_id ws
    → is_new chain_tail_event_id (events ws) ≡ true
    → get_chain_tail_hash {H = H} tenant_id c ≡ none
    → Chain hash tenant_id (kept ws) (write_all hash tenant_id ws c)
unfolding kept write_all
log_is_linked hash tenant_id [] c f n e = e
log_is_linked hash tenant_id (w ∷ ws) c (i, (k, f)) n e =
    let (a, b) =
      split (chain_tail_event_id == w.event.event_id) (is_new chain_tail_event_id (events ws)) n in
    Chain-write hash tenant_id w.answered w.event (kept ws) (write_all hash tenant_id ws c) i
      (new_kept w.event.event_id ws k) (new_kept chain_tail_event_id ws b) a
      (log_is_linked hash tenant_id ws c f b e)
