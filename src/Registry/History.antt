-- ===== src/Registry/History.antt =====
-- The version history only grows: actions that keep every snapshot, one rule for each way to build
-- an action.
pub mod Methods
pub mod Commands
use agent_builder_factory_ap.Base.{
  ℕ, String, ◌≡◌, refl, sym, ap, subst, ◌∙◌, Bool, true, false, ◌&&◌, not, Option, none, some, List,
  [], ◌∷◌, Result, ok, err, pure, raise, lift, guard, require_some, continue, ◌>>=◌, ◌>>◌, ◌==◌,
  if◌then◌else◌, nat_key, string_key, Bool-cases, Option-cases, inl, inr, arith, ==_sound,
}
use agent_builder_factory_ap.Table.{Table}
use agent_builder_factory_ap.Registry.Models.{
  Snapshot, AgentVersionRecord, AgentRecord, RegistryError, version_already_exists,
}
use agent_builder_factory_ap.Registry.Db.{VersionItem, RegistryTables, Db, Method}
use agent_builder_factory_ap.Registry.Versioner.{
  VersionField, is_mutable, all_mutable, set_field, set_fields, or_empty, to_item, write,
  record_derived_fields,
}
use agent_builder_factory_ap.Registry.Agents.{put_agent}

abbrev pub snapshot_in : Option VersionItem → Option Snapshot
snapshot_in none = none
snapshot_in (some i) = i.snapshot

set_field-snapshot :
    (i : VersionItem) (f : VersionField)
    → is_mutable f ≡ true
    → (set_field i f).snapshot ≡ i.snapshot
unfolding is_mutable set_field
set_field-snapshot i f h = ground arith

set_fields-snapshot :
    (i : VersionItem) (fs : List VersionField)
    → all_mutable fs ≡ true
    → (set_fields i fs).snapshot ≡ i.snapshot
unfolding all_mutable set_fields
set_fields-snapshot i [] h = refl
set_fields-snapshot i (f ∷ fs) h =
    set_fields-snapshot (set_field i f) fs (ground arith) ∙ set_field-snapshot i f (ground arith)

or_empty-snapshot : (o : Option VersionItem) → (or_empty o).snapshot ≡ snapshot_in o
or_empty-snapshot none = refl
or_empty-snapshot (some i) = refl

both : (a b : Bool) → (a && b) ≡ true → (a ≡ true) × (b ≡ true)
both a b h = ground arith

module _ ⦃t : RegistryTables⦄ where
  -- the snapshot stored for a version of an agent
  abbrev pub snapshot_at : Db → String → ℕ → Option Snapshot
  snapshot_at db id n = snapshot_in (t.versions.get_item db.versions id n)

  -- every stored snapshot is still there, unchanged
  pub record Extends (db db' : Db) : Type 0 where
    pub at :
        (id : String) (n : ℕ) (s : Snapshot)
        → snapshot_at db id n ≡ some s
        → snapshot_at db' id n ≡ some s

  pub Extends-refl : (db : Db) → Extends db db
  Extends-refl db = record { at = λ id n s h. h }

  pub Extends-trans : {a b c : Db} → Extends a b → Extends b c → Extends a c
  Extends-trans p q = record { at = λ id n s h. q.at id n s (p.at id n s h) }

  pub record Grows {A : Type 0} (m : Method A) : Type 0 where
    pub at : (db : Db) → Extends db (m db).1

  module _ {A : Type 0} where
    pub Grows-pure : (a : A) → Grows (pure a)
    unfolding pure
    Grows-pure a = record { at = λ db. Extends-refl db }

    pub Grows-raise : (e : RegistryError) → Grows (raise {A = A} e)
    unfolding raise
    Grows-raise e = record { at = λ db. Extends-refl db }

    pub Grows-lift : (r : Result RegistryError A) → Grows (lift r)
    unfolding lift
    Grows-lift r = record { at = λ db. Extends-refl db }

    pub Grows-require_some : (e : RegistryError) (o : Option A) → Grows (require_some e o)
    unfolding require_some
    Grows-require_some e none = record { at = λ db. Extends-refl db }
    Grows-require_some e (some a) = record { at = λ db. Extends-refl db }

    pub Grows-if : (b : Bool) (m n : Method A) → Grows m → Grows n → Grows (if b then m else n)
    Grows-if true m n h k = h
    Grows-if false m n h k = k

  pub Grows-guard : (b : Bool) (e : RegistryError) → Grows (guard b e)
  unfolding guard
  Grows-guard true e = record { at = λ db. Extends-refl db }
  Grows-guard false e = record { at = λ db. Extends-refl db }

  module _ {A B : Type 0} where
    Extends-continue :
        (r : Result RegistryError A) (f : A → Method B) (db : Db)
        → ((a : A) → Grows (f a))
        → Extends db (continue r f db).1
    Extends-continue (ok a) f db h = (h a).at db
    Extends-continue (err e) f db h = Extends-refl db

    pub Grows-bind :
        (m : Method A) (f : A → Method B) → Grows m → ((a : A) → Grows (f a)) → Grows (m >>= f)
    unfolding ◌>>=◌
    Grows-bind m f h k = record {
      at = λ db. Extends-trans (h.at db) (Extends-continue (m db).0 f (m db).1 k);
    }

  -- what a call leaves unread or only reads
  pub Grows-of_same : {A : Type 0} (m : Method A) → ((db : Db) → (m db).1 ≡ db) → Grows m
  Grows-of_same m h = record { at = λ db. subst (Extends db) (sym (h db)) (Extends-refl db) }

  pub Grows-put_agent : (r : AgentRecord) → Grows (put_agent r)
  unfolding put_agent
  Grows-put_agent r = record { at = λ db. record { at = λ id n s h. h } }

  -- a new item at a key: the snapshots at other keys stay
  Extends-put :
      (db : Db) (id : String) (n : ℕ) (i : VersionItem)
      → ((s : Snapshot) → snapshot_at db id n ≡ some s → i.snapshot ≡ some s)
      → Extends db (record db { versions = t.versions.put_item db.versions id n i })
  Extends-put db id n i keep = record {
    at = λ j m s h.
        rw (t.versions.get-put db.versions id n i j m) (elim (Bool-cases (id == j && n == m)) [
          | inl e ↦ rw e (
              keep s (
                rw
                  (
                    ==_sound id j (both (id == j) (n == m) e).0,
                    ==_sound n m (both (id == j) (n == m) e).1,
                  )
                  h))
          | inr ne ↦ rw ne h
        ]);
  }

  pub write-new :
      (v : AgentVersionRecord) (db : Db)
      → t.versions.get_item db.versions v.snapshot.agent_id v.snapshot.version ≡ none
      → write v db ≡ (
        ok tt,
        record db {
          versions =
              t.versions.put_item db.versions v.snapshot.agent_id v.snapshot.version (to_item v);
        },
      )
  unfolding write
  write-new v db e = rw (e, write)

  pub write-old :
      (v : AgentVersionRecord) (db : Db) {i : VersionItem}
      → t.versions.get_item db.versions v.snapshot.agent_id v.snapshot.version ≡ some i
      → write v db ≡ (err (version_already_exists v.snapshot.agent_id v.snapshot.version), db)
  unfolding write
  write-old v db e = rw (e, write)

  pub Grows-write : (v : AgentVersionRecord) → Grows (write v)
  Grows-write v = record {
    at = λ db.
        let id = v.snapshot.agent_id in
        let n = v.snapshot.version in
        elim (Option-cases (t.versions.get_item db.versions id n)) [
          | inl e ↦
              subst (Extends db)
                (sym (ap (λ (r : Result RegistryError Unit × Db). r.1) (write-new v db e)))
                (Extends-put db id n (to_item v) (λ s h. cc (e, h)))
          | inr (i, e) ↦
              subst (Extends db)
                (sym (ap (λ (r : Result RegistryError Unit × Db). r.1) (write-old v db e)))
                (Extends-refl db)
        ];
  }

  Extends-update :
      (fields : List VersionField) (db : Db) (id : String) (n : ℕ)
      → Extends db (record_derived_fields id n fields db).1
  unfolding record_derived_fields all_mutable
  Extends-update [] db id n = Extends-refl db
  Extends-update (f ∷ fs) db id n = elim (Bool-cases (all_mutable (f ∷ fs))) [
    | inl h ↦
        let old = t.versions.get_item db.versions id n in
        rw h (
          Extends-put db id n (set_fields (or_empty old) (f ∷ fs))
            (λ s k. set_fields-snapshot (or_empty old) (f ∷ fs) h ∙ or_empty-snapshot old ∙ k))
    | inr h ↦ rw h (Extends-refl db)
  ]

  pub Grows-record_derived_fields :
      (id : String) (n : ℕ) (fields : List VersionField) → Grows (record_derived_fields id n fields)
  Grows-record_derived_fields id n fields = record { at = λ db. Extends-update fields db id n }

pub ruleset grows_rules = (
  Grows-pure, Grows-raise, Grows-lift, Grows-require_some, Grows-guard, Grows-bind, Grows-if,
  Grows-put_agent, Grows-write, Grows-record_derived_fields,
)
