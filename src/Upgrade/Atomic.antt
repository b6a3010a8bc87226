-- ===== src/Upgrade/Atomic.antt =====
-- An upgrade happens as a whole or not at all.
use agent_builder_factory_ap.Base.{
  String, ◌≡◌, refl, ap, sym, ◌∙◌, subst, false, none, some, Result, ok, err, ◌>>=◌, ◌==◌, ◌⊎◌, inl,
  inr, string_key,
}
use agent_builder_factory_ap.Table.{Table}
use agent_builder_factory_ap.Upgrade.Store.{
  UpgradeStatus, UpgradeStageStatus, PlatformUpgradeRecord, stage_change, UpgradeError, unit_key,
  Platform, get_upgrade,
}
use agent_builder_factory_ap.Upgrade.Stages.{
  Aws, Execution, pointed, point_service, attempt, mark_upgraded, marked, arn_of, roll_back,
  mark_upgrade_failed, advance, conclude, upgrade_workflow,
}
use agent_builder_factory_ap.Upgrade.Triples.{
  End, Triple, Triple-bind, Triple-later, Holds, Triple-update,
}
use agent_builder_factory_ap.Upgrade.Forward.{
  Unprepared, Prepared, Start, Recoverable, Confirmed, advanced,
}

module _ ⦃t : Table String Unit PlatformUpgradeRecord⦄ (aws : Aws) (x : Execution)
    (d : String) where
  -- how an execution of the workflow ends
  pub data Ended (s : Platform) : Type 0 where
    upgraded :
        Holds x.upgrade_id (λ r. r.status ≡ UpgradeStatus.active) (Confirmed aws x d) s → Ended s
    reverted :
        Holds x.upgrade_id
          (λ r.
            ((r.status ≡ UpgradeStatus.failed) ⊎ (r.status ≡ UpgradeStatus.rolled_back))
            × (r.failed_stage ≡ some "UNKNOWN"))
          (λ arn. arn ≡ d)
          s
        → Ended s

  module _ (named : (d == "") ≡ false) (accepted : aws.update_service d ≡ ok tt) where
    abbrev Never : Platform → Type 0
    Never s = ⊥

    abbrev Reverts : PlatformUpgradeRecord → Type 0
    Reverts r =
        ((r.status ≡ UpgradeStatus.failed) ⊎ (r.status ≡ UpgradeStatus.rolled_back))
        × (r.failed_stage ≡ some "UNKNOWN")

    -- the failure of an upgrade that had not reached the service
    mark_failed :
        (e : UpgradeError) → Triple (Start aws x d) (λ u. Ended) Never (roll_back aws x e none)
    mark_failed e =
        Triple-later _ _ _ _ _ (λ u s h. Ended.reverted h)
          (Triple-update x.now x.upgrade_id (marked aws e UpgradeStatus.failed) (Unprepared aws x d)
            Reverts (λ arn. arn ≡ d) Never (λ r p. (inl refl, refl)))

    returned-End :
        (o : Result UpgradeError Unit) (s : Platform)
        → o ≡ ok tt
        → Holds x.upgrade_id (Prepared aws x d) (λ arn. Unit) s
        → End (λ u. Holds x.upgrade_id (Prepared aws x d) (λ arn. arn ≡ d)) Never (pointed d o s)
    returned-End (err e) s q h = cc q
    returned-End (ok u) s q h = record {
      stored = h.stored;
      found = h.found;
      filed = h.filed;
      upgrade = h.upgrade;
      service = refl;
    }

    go_back :
        Triple
          (Holds x.upgrade_id (Prepared aws x d) (λ arn. Unit))
          (λ u. Holds x.upgrade_id (Prepared aws x d) (λ arn. arn ≡ d))
          Never
          (point_service aws d)
    unfolding point_service
    go_back = record { at = λ s h. returned-End (aws.update_service d) s accepted h }

    mark_rolled_back :
        (e : UpgradeError)
        → Triple
            (Holds x.upgrade_id (Prepared aws x d) (λ arn. Unit))
            (λ u. Ended)
            Never
            (roll_back aws x e (some d))
    mark_rolled_back e = rw named (
        Triple-bind _ _ _ Never _ _ go_back (λ u.
          Triple-later _ _ _ _ _ (λ v s h. Ended.reverted h)
            (Triple-update x.now x.upgrade_id (marked aws e UpgradeStatus.rolled_back)
              (Prepared aws x d) Reverts (λ arn. arn ≡ d) Never (λ r p. (inr refl, refl)))))

    failed-End :
        (e : UpgradeError) (s : Platform)
        → (Recoverable aws x d) s
        → End (λ u. Ended) Never (mark_upgrade_failed aws x e s)
    unfolding mark_upgrade_failed get_upgrade ◌>>=◌
    failed-End e s (inl h) =
        subst (λ o. End (λ u. Ended) Never (roll_back aws x e o s))
          (sym (ap arn_of h.found ∙ h.upgrade)) ((mark_failed e).at s h)
    failed-End e s (inr h) =
        subst (λ o. End (λ u. Ended) Never (roll_back aws x e o s))
          (sym (ap arn_of h.found ∙ h.upgrade)) ((mark_rolled_back e).at s h)

    mark_success :
        Triple
          (Holds x.upgrade_id (Prepared aws x d) (Confirmed aws x d))
          (λ u. Ended)
          Never
          (mark_upgraded x)
    unfolding mark_upgraded
    mark_success =
        Triple-later _ _ _ _ _ (λ u s h. Ended.upgraded h)
          (Triple-update x.now x.upgrade_id
            (stage_change "HEALTH_CHECK" UpgradeStageStatus.passed none UpgradeStatus.active)
            (Prepared aws x d) (λ r. r.status ≡ UpgradeStatus.active) (Confirmed aws x d) Never
            (λ r p. refl))

    concluded :
        (o : Result UpgradeError String × Platform)
        → End
            (λ summary. Holds x.upgrade_id (Prepared aws x d) (Confirmed aws x d))
            (Recoverable aws x d)
            o
        → End (λ u. Ended) Never (conclude aws x o.0 o.1)
    concluded (ok summary, s) h = mark_success.at s h
    concluded (err e, s) h = failed-End e s h

    ended :
        (o : Result UpgradeError Unit × Platform)
        → End (λ u. Ended) Never o
        → (o.0 ≡ ok tt) × Ended o.1
    ended (ok u, s) h = (refl, h)
    ended (err e, s) h = elim h [ ]

    -- Where ECS accepts the service's return to the revision of the start, and that revision has a name, an
    -- execution of the upgrade's workflow returns with its record marked, from a record that has no
    -- previous revision yet: the upgrade is ACTIVE and the service is on the revision that was
    -- registered for it, which has answered the health check with the target version; or the upgrade is
    -- FAILED or ROLLED_BACK, its failed stage is UNKNOWN, and the service is on the revision of the
    -- start.
    pub upgrade_is_atomic :
        (s : Platform)
        → Start aws x d s
        → ((upgrade_workflow aws x s).0 ≡ ok tt) × Ended (upgrade_workflow aws x s).1
    unfolding upgrade_workflow attempt ◌>>=◌
    upgrade_is_atomic s h =
        ended (upgrade_workflow aws x s) (concluded (advance aws x s) ((advanced aws x d).at s h))
