-- ===== src/Upgrade/Triples.antt =====
-- What a handler ends in, from what it starts in, with one rule for each way to build a handler.
use agent_builder_factory_ap.Base.{
  String, ◌≡◌, subst, some, Result, ok, err, pure, raise, continue, require_some, ◌>>=◌, string_key,
}
use agent_builder_factory_ap.Table.{Table, get-put_self}
use agent_builder_factory_ap.Upgrade.Store.{
  PlatformUpgradeRecord, StageChange, updated_upgrade, UpgradeError, unit_key, Platform, Handler,
  put_upgrade, get_upgrade, update_stage,
}
use agent_builder_factory_ap.Upgrade.Stages.{Aws, Execution, failure, settle, attempt, staged}

module _ ⦃t : Table String Unit PlatformUpgradeRecord⦄ where
  -- the end of a handler that returns, and of one that raises
  abbrev pub End :
      {A : Type 0}
      → (A → Platform → Type 0)
      → (Platform → Type 0)
      → Result UpgradeError A × Platform
      → Type 0
  End Q E (ok a, s) = Q a s
  End Q E (err e, s) = E s

  pub record Triple {A : Type 0} (P : Platform → Type 0) (Q : A → Platform → Type 0)
      (E : Platform → Type 0) (m : Handler A) : Type 0 where
    pub at : (s : Platform) → P s → End Q E (m s)

  module _ {A B : Type 0} (P : Platform → Type 0) (Q : A → Platform → Type 0)
      (R : B → Platform → Type 0) (E : Platform → Type 0) where
    End-continue :
        (o : Result UpgradeError A × Platform) (f : A → Handler B)
        → End Q E o
        → ((a : A) → Triple (Q a) R E (f a))
        → End R E (continue o.0 f o.1)
    End-continue (ok a, s) f h k = (k a).at s h
    End-continue (err e, s) f h k = h

    pub Triple-bind :
        (m : Handler A) (f : A → Handler B)
        → Triple P Q E m
        → ((a : A) → Triple (Q a) R E (f a))
        → Triple P R E (m >>= f)
    unfolding ◌>>=◌
    Triple-bind m f h k = record { at = λ s p. End-continue (m s) f (h.at s p) k }

  module _ {A : Type 0} (P : Platform → Type 0) (Q : A → Platform → Type 0)
      (E : Platform → Type 0) where
    pub Triple-pure : (a : A) → ((s : Platform) → P s → Q a s) → Triple P Q E (pure a)
    unfolding pure
    Triple-pure a h = record { at = h }

    pub Triple-raise : (e : UpgradeError) → ((s : Platform) → P s → E s) → Triple P Q E (raise e)
    unfolding raise
    Triple-raise e h = record { at = h }

    pub Triple-before :
        (P' : Platform → Type 0) (m : Handler A)
        → ((s : Platform) → P' s → P s)
        → Triple P Q E m
        → Triple P' Q E m
    Triple-before P' m h k = record { at = λ s p. k.at s (h s p) }

  End-map :
      {A : Type 0} (Q Q' : A → Platform → Type 0) (E : Platform → Type 0)
      (o : Result UpgradeError A × Platform)
      → ((a : A) (s : Platform) → Q a s → Q' a s)
      → End Q E o
      → End Q' E o
  End-map Q Q' E (ok a, s) f h = f a s h
  End-map Q Q' E (err e, s) f h = h

  pub Triple-later :
      {A : Type 0} (P : Platform → Type 0) (Q Q' : A → Platform → Type 0) (E : Platform → Type 0)
      (m : Handler A)
      → ((a : A) (s : Platform) → Q a s → Q' a s)
      → Triple P Q E m
      → Triple P Q' E m
  Triple-later P Q Q' E m f h = record { at = λ s p. End-map Q Q' E (m s) f (h.at s p) }

  -- the record of this upgrade, and the revision of the service, have these properties
  pub record Holds (id : String) (φ : PlatformUpgradeRecord → Type 0) (ψ : String → Type 0)
      (s : Platform) : Type 0 where
    pub stored : PlatformUpgradeRecord
    pub found : t.get_item s.upgrades id tt ≡ some stored
    pub filed : stored.upgrade_id ≡ id
    pub upgrade : φ stored
    pub service : ψ s.task_definition

  pub Holds-map :
      (id : String) (φ φ' : PlatformUpgradeRecord → Type 0) (ψ ψ' : String → Type 0) (s : Platform)
      → ((r : PlatformUpgradeRecord) → φ r → φ' r)
      → ((arn : String) → ψ arn → ψ' arn)
      → Holds id φ ψ s
      → Holds id φ' ψ' s
  Holds-map id φ φ' ψ ψ' s f g h = record {
    stored = h.stored;
    found = h.found;
    filed = h.filed;
    upgrade = f h.stored h.upgrade;
    service = g s.task_definition h.service;
  }

  module _ (now id : String) (u : StageChange) (φ φ' : PlatformUpgradeRecord → Type 0)
      (ψ : String → Type 0) (E : Platform → Type 0) where
    update-Holds :
        (s : Platform) (r : PlatformUpgradeRecord)
        → t.get_item s.upgrades id tt ≡ some r
        → r.upgrade_id ≡ id
        → φ' (updated_upgrade now u r)
        → ψ s.task_definition
        → End (λ x. Holds id φ' ψ) E (update_stage now id u s)
    unfolding update_stage get_upgrade put_upgrade require_some ◌>>=◌
    update-Holds s r f i p q =
        let v = updated_upgrade now u r in
        rw f (record {
          stored = v;
          found =
              subst (λ j. t.get_item (t.put_item s.upgrades r.upgrade_id tt v) j tt ≡ some v) i
                (get-put_self t s.upgrades r.upgrade_id tt v);
          filed = i;
          upgrade = p;
          service = q;
        })

    pub Triple-update :
        ((r : PlatformUpgradeRecord) → φ r → φ' (updated_upgrade now u r))
        → Triple (Holds id φ ψ) (λ x. Holds id φ' ψ) E (update_stage now id u)
    Triple-update h = record {
      at = λ s p. update-Holds s p.stored p.found p.filed (h p.stored p.upgrade) p.service;
    }

  -- a stage: where its work fails the record of the upgrade is as it was in what matters here
  module _ {A : Type 0} (aws : Aws) (x : Execution) (stage : String) (success : A → StageChange)
      (P : Platform → Type 0) (φ : PlatformUpgradeRecord → Type 0) (ψ : String → Type 0)
      (φ' : A → PlatformUpgradeRecord → Type 0) (ψ' : A → String → Type 0)
      (E : Platform → Type 0) where
    Settled : Result UpgradeError A → Platform → Type 0
    Settled (ok a) = Holds x.upgrade_id φ (ψ' a)
    Settled (err e) = Holds x.upgrade_id φ ψ

    Settled-End :
        (o : Result UpgradeError A × Platform)
        → End (λ a. Holds x.upgrade_id φ (ψ' a)) (Holds x.upgrade_id φ ψ) o
        → Settled o.0 o.1
    unfolding Settled
    Settled-End (ok a, s) h = h
    Settled-End (err e, s) h = h

    Triple-attempt :
        (m : Handler A)
        → Triple P (λ a. Holds x.upgrade_id φ (ψ' a)) (Holds x.upgrade_id φ ψ) m
        → Triple P Settled E (attempt m)
    unfolding attempt
    Triple-attempt m h = record { at = λ s p. Settled-End (m s) (h.at s p) }

    module _
        (kept : (e : UpgradeError) (r : PlatformUpgradeRecord)
          → φ r
          → φ (updated_upgrade x.now (failure aws stage e) r))
        (raised : (s : Platform) → Holds x.upgrade_id φ ψ s → E s)
        (succeeded : (a : A) (r : PlatformUpgradeRecord)
          → φ r
          → φ' a (updated_upgrade x.now (success a) r)) where
      Triple-settle :
          (o : Result UpgradeError A)
          → Triple
              (Settled o)
              (λ a. Holds x.upgrade_id (φ' a) (ψ' a))
              E
              (settle aws x stage success o)
      unfolding Settled
      Triple-settle (ok a) =
          Triple-bind _ _ _ E _ _
            (Triple-update x.now x.upgrade_id (success a) φ (φ' a) (ψ' a) E (succeeded a))
            (λ u. Triple-pure _ _ E a (λ s h. h))
      Triple-settle (err e) =
          Triple-bind _ _ _ E _ _
            (Triple-update x.now x.upgrade_id (failure aws stage e) φ φ ψ E (kept e))
            (λ u. Triple-raise _ _ E e raised)

      pub Triple-staged :
          (m : Handler A)
          → Triple P (λ a. Holds x.upgrade_id φ (ψ' a)) (Holds x.upgrade_id φ ψ) m
          → Triple P (λ a. Holds x.upgrade_id (φ' a) (ψ' a)) E (staged aws x stage success m)
      Triple-staged m h = Triple-bind P Settled _ E _ _ (Triple-attempt m h) Triple-settle
