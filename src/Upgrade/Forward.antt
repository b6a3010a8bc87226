-- ===== src/Upgrade/Forward.antt =====
-- What the four stages of an upgrade leave, and what they leave where one fails.
use agent_builder_factory_ap.Base.{
  String, ◌≡◌, refl, ap, ◌∙◌, subst, none, some, Result, ok, err, lift, ◌⊎◌, inl, inr, string_key,
}
use agent_builder_factory_ap.Table.{Table}
use agent_builder_factory_ap.Upgrade.Store.{PlatformUpgradeRecord, UpgradeError, unit_key, Platform}
use agent_builder_factory_ap.Upgrade.Stages.{
  Aws, Execution, poll, poll_attempts, check_health, pointed, registered, point_service, pull_image,
  register_new_revision, register_task_definition, update_service, health_check, advance,
}
use agent_builder_factory_ap.Upgrade.Triples.{
  End, Triple, Triple-bind, Triple-before, Triple-later, Holds-map, Holds, Triple-staged,
}

module _ ⦃t : Table String Unit PlatformUpgradeRecord⦄ (aws : Aws) (x : Execution)
    (d : String) where
  abbrev pub Unprepared : PlatformUpgradeRecord → Type 0
  Unprepared r = r.previous_task_definition_arn ≡ none

  abbrev pub Prepared : PlatformUpgradeRecord → Type 0
  Prepared r = r.previous_task_definition_arn ≡ some d

  -- before the new revision is registered
  abbrev pub Start : Platform → Type 0
  Start = Holds x.upgrade_id Unprepared (λ arn. arn ≡ d)

  -- the revision was registered from the one of the start
  abbrev pub IsNew : String → Type 0
  IsNew arn = aws.register d x.target_image x.target_version ≡ ok arn

  -- a failed stage leaves what the rollback needs
  abbrev pub Recoverable : Platform → Type 0
  Recoverable s = Start s ⊎ Holds x.upgrade_id Prepared (λ arn. Unit) s

  Triple-lift :
      {A : Type 0} (P : Platform → Type 0) (Q : A → Platform → Type 0) (E : Platform → Type 0)
      (o : Result UpgradeError A)
      → ((a : A) → o ≡ ok a → (s : Platform) → P s → Q a s)
      → ((s : Platform) → P s → E s)
      → Triple P Q E (lift o)
  unfolding lift
  Triple-lift P Q E (ok a) h k = record { at = h a refl }
  Triple-lift P Q E (err e) h k = record { at = k }

  pull : Triple Start (λ summary. Start) Recoverable (pull_image aws x)
  unfolding pull_image
  pull =
      Triple-staged aws x "PULLING_IMAGE" _ Start Unprepared (λ arn. arn ≡ d) _ _ Recoverable
        (λ e r h. h) (λ s h. inl h) (λ a r h. h) _
        (Triple-lift Start _ _ (aws.confirm x.target_image) (λ a e s h. h) (λ s h. h))

  registered-End :
      (o : Result UpgradeError String) (s : Platform)
      → aws.register s.task_definition x.target_image x.target_version ≡ o
      → Start s
      → End
          (λ arns. Holds x.upgrade_id Unprepared (λ arn. (arns.0 ≡ d) × IsNew arns.1))
          Start
          (registered s.task_definition o s)
  registered-End (err e) s q h = h
  registered-End (ok arn) s q h =
      Holds-map x.upgrade_id Unprepared Unprepared (λ a. a ≡ d)
        (λ a. (s.task_definition ≡ d) × IsNew arn) s (λ r p. p)
        (λ a p. (
          h.service,
          subst (λ z. aws.register z x.target_image x.target_version ≡ ok arn) h.service q,
        ))
        h

  new_revision :
      Triple Start
        (λ arns. Holds x.upgrade_id Unprepared (λ arn. (arns.0 ≡ d) × IsNew arns.1))
        Start
        (register_new_revision aws x)
  unfolding register_new_revision
  new_revision = record {
    at = λ s h.
        registered-End (aws.register s.task_definition x.target_image x.target_version) s refl h;
  }

  register :
      Triple Start
        (λ arns.
          Holds x.upgrade_id
            (λ r. r.previous_task_definition_arn ≡ some arns.0)
            (λ arn. (arns.0 ≡ d) × IsNew arns.1))
        Recoverable
        (register_task_definition aws x)
  unfolding register_task_definition
  register =
      Triple-staged aws x "REGISTERING_TASK_DEFINITION" _ Start Unprepared (λ arn. arn ≡ d) _ _
        Recoverable (λ e r h. h) (λ s h. inl h) (λ a r h. refl) _ new_revision

  pointed-End :
      (arn : String) (o : Result UpgradeError Unit) (s : Platform)
      → Holds x.upgrade_id Prepared (λ a. IsNew arn) s
      → End
          (λ u. Holds x.upgrade_id Prepared (λ a. (a ≡ arn) × IsNew arn))
          (Holds x.upgrade_id Prepared (λ a. IsNew arn))
          (pointed arn o s)
  pointed-End arn (err e) s h = h
  pointed-End arn (ok u) s h = record {
    stored = h.stored;
    found = h.found;
    filed = h.filed;
    upgrade = h.upgrade;
    service = (refl, h.service);
  }

  -- the service on a revision, which is new
  point :
      (arn : String)
      → Triple
          (Holds x.upgrade_id Prepared (λ a. IsNew arn))
          (λ u. Holds x.upgrade_id Prepared (λ a. (a ≡ arn) × IsNew arn))
          (Holds x.upgrade_id Prepared (λ a. IsNew arn))
          (point_service aws arn)
  unfolding point_service
  point arn = record { at = pointed-End arn (aws.update_service arn) }

  forget : (ψ : String → Type 0) (s : Platform) → Holds x.upgrade_id Prepared ψ s → Recoverable s
  forget ψ s h = inr (record {
    stored = h.stored;
    found = h.found;
    filed = h.filed;
    upgrade = h.upgrade;
    service = tt;
  })

  -- the service runs the new revision
  abbrev OnNew : String → String → Type 0
  OnNew arn a = (a ≡ arn) × IsNew arn

  update :
      (arn : String)
      → Triple
          (Holds x.upgrade_id Prepared (λ a. IsNew arn))
          (λ summary. Holds x.upgrade_id Prepared (OnNew arn))
          Recoverable
          (update_service aws x arn)
  unfolding update_service
  update arn =
      Triple-staged aws x "UPDATING_SERVICE" _ (Holds x.upgrade_id Prepared (λ a. IsNew arn))
        Prepared (λ a. IsNew arn) (λ summary. Prepared) (λ summary. OnNew arn) Recoverable
        (λ e r h. h) (forget (λ a. IsNew arn)) (λ a r h. h) _
        (Triple-bind _ _ _ _ _ _ (point arn) (λ u.
          Triple-lift _ _ _ (poll aws arn poll_attempts) (λ a e s h. h)
            (λ s h. record {
              stored = h.stored;
              found = h.found;
              filed = h.filed;
              upgrade = h.upgrade;
              service = h.service.1;
            })))

  abbrev IsHealthy : String → Type 0
  IsHealthy summary = check_health aws x.target_version ≡ ok summary

  health :
      (arn : String)
      → Triple
          (Holds x.upgrade_id Prepared (OnNew arn))
          (λ summary. Holds x.upgrade_id Prepared (λ a. OnNew arn a × IsHealthy summary))
          Recoverable
          (health_check aws x)
  unfolding health_check
  health arn =
      Triple-staged aws x "HEALTH_CHECK" _ (Holds x.upgrade_id Prepared (OnNew arn)) Prepared
        (OnNew arn) (λ summary. Prepared) (λ summary a. OnNew arn a × IsHealthy summary) Recoverable
        (λ e r h. h) (forget (OnNew arn)) (λ a r h. h) _
        (Triple-lift _ _ _ (check_health aws x.target_version)
          (λ summary e s h. record {
            stored = h.stored;
            found = h.found;
            filed = h.filed;
            upgrade = h.upgrade;
            service = (h.service, e);
          })
          (λ s h. h))

  -- what the registration leaves, for the stages after it
  prepared :
      (arns : String × String) (s : Platform)
      → Holds x.upgrade_id
          (λ r. r.previous_task_definition_arn ≡ some arns.0)
          (λ arn. (arns.0 ≡ d) × IsNew arns.1)
          s
      → Holds x.upgrade_id Prepared (λ a. IsNew arns.1) s
  prepared arns s h = record {
    stored = h.stored;
    found = h.found;
    filed = h.filed;
    upgrade = h.upgrade ∙ ap some h.service.0;
    service = h.service.1;
  }

  -- the service is on a new revision that answers its health check
  pub record Confirmed (a : String) : Type 0 where
    pub arn : String
    pub on : a ≡ arn
    pub is_new : IsNew arn
    pub summary : String
    pub is_healthy : check_health aws x.target_version ≡ ok summary

  pub advanced :
      Triple Start (λ summary. Holds x.upgrade_id Prepared Confirmed) Recoverable (advance aws x)
  unfolding advance
  advanced = Triple-bind _ _ _ Recoverable _ _ pull (λ s.
      Triple-bind _ _ _ Recoverable _ _ register (λ arns.
        Triple-bind _ _ _ Recoverable _ _
          (Triple-before _ _ _ _ _ (λ s h. prepared arns s h) (update arns.1))
          (λ u.
            Triple-later _ _ _ _ _
              (λ summary s h.
                Holds-map x.upgrade_id Prepared Prepared (λ a. OnNew arns.1 a × IsHealthy summary)
                  Confirmed s (λ r p. p)
                  (λ a c. record {
                    arn = arns.1;
                    on = c.0.0;
                    is_new = c.0.1;
                    summary = summary;
                    is_healthy = c.1;
                  })
                  h)
              (health arns.1))))
