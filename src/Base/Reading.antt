-- ===== src/Base/Reading.antt =====
-- Actions that change nothing, one rule for each way to build an action, and how a proof goes past
-- such an action.
use mathlib.Core.Path.{◌≡◌, refl, sym, subst, ◌∙◌}
use mathlib.Core.Logic.{◌⊎◌, inl, inr}
use mathlib.Core.Option.{Option, none, some}
use mathlib.Core.Bool.{Bool, true, false}
use agent_builder_factory_ap.Base.Tests.{if◌then◌else◌}
use agent_builder_factory_ap.Base.Actions.{
  Result, ok, err, Exec, pure, raise, lift, require_some, guard, continue, ◌>>=◌,
}

pub record Reads {S E A : Type 0} (m : Exec S E A) : Type 0 where
  pub at : (s : S) → (m s).1 ≡ s

module _ {S E A : Type 0} where
  pub Reads-pure : (a : A) → Reads {S = S} {E = E} (pure a)
  unfolding pure
  Reads-pure a = record { at = λ s. refl }

  pub Reads-raise : (e : E) → Reads {S = S} {E = E} {A = A} (raise e)
  unfolding raise
  Reads-raise e = record { at = λ s. refl }

  pub Reads-lift : (r : Result E A) → Reads {S = S} (lift r)
  unfolding lift
  Reads-lift r = record { at = λ s. refl }

  pub Reads-require_some : (e : E) (o : Option A) → Reads {S = S} (require_some e o)
  unfolding require_some
  Reads-require_some e none = record { at = λ s. refl }
  Reads-require_some e (some a) = record { at = λ s. refl }

  pub Reads-if : (b : Bool) (m n : Exec S E A) → Reads m → Reads n → Reads (if b then m else n)
  Reads-if true m n h k = h
  Reads-if false m n h k = k

pub Reads-guard : {S E : Type 0} (b : Bool) (e : E) → Reads {S = S} (guard b e)
unfolding guard
Reads-guard true e = record { at = λ s. refl }
Reads-guard false e = record { at = λ s. refl }

module _ {S E A B : Type 0} where
  same-continue :
      (r : Result E A) (f : A → Exec S E B) (s : S)
      → ((a : A) → Reads (f a))
      → (continue r f s).1 ≡ s
  same-continue (ok a) f s h = (h a).at s
  same-continue (err e) f s h = refl

  pub Reads-bind :
      (m : Exec S E A) (f : A → Exec S E B) → Reads m → ((a : A) → Reads (f a)) → Reads (m >>= f)
  unfolding ◌>>=◌
  Reads-bind m f h k = record { at = λ s. same-continue (m s).0 f (m s).1 k ∙ h.at s }

  after :
      (P : Result E B × S → Type 0) (r : Result E A) (f : A → Exec S E B) (s : S)
      → ((a : A) → r ≡ ok a → P (f a s))
      → ((e : E) → r ≡ err e → P (err e, s))
      → P (continue r f s)
  after P (ok a) f s h k = h a refl
  after P (err e) f s h k = k e refl

  -- What holds of an action that begins by reading: the rest runs on the same state.
  pub bind_reading :
      (P : Result E B × S → Type 0) (m : Exec S E A) (f : A → Exec S E B) (s : S)
      → Reads m
      → ((a : A) → (m s).0 ≡ ok a → P (f a s))
      → ((e : E) → (m s).0 ≡ err e → P (err e, s))
      → P ((m >>= f) s)
  unfolding ◌>>=◌
  bind_reading P m f s h k l =
      subst (λ s'. P (continue (m s).0 f s')) (sym (h.at s)) (after P (m s).0 f s k l)

  -- An action that is known to return.
  pub bind_known :
      (m : Exec S E A) (f : A → Exec S E B) (s : S) {a : A} {s' : S}
      → m s ≡ (ok a, s')
      → (m >>= f) s ≡ f a s'
  unfolding ◌>>=◌
  bind_known m f s e = rw e

  pub bind_failed :
      (m : Exec S E A) (f : A → Exec S E B) (s : S) {e : E} {s' : S}
      → m s ≡ (err e, s')
      → (m >>= f) s ≡ (err e, s')
  unfolding ◌>>=◌
  bind_failed m f s e = rw e

pub Result-cases :
    {E A : Type 0} (r : Result E A) → ((a : A) × (r ≡ ok a)) ⊎ ((e : E) × (r ≡ err e))
Result-cases (ok a) = inl (a, refl)
Result-cases (err e) = inr (e, refl)

pub pair_eq : {A B : Type 0} (x : A × B) {a : A} {b : B} → x.0 ≡ a → x.1 ≡ b → x ≡ (a, b)
pair_eq (a', b') e e' = cc

-- The whole outcome of a reading action, from its result.
pub Reads-outcome :
    {S E A : Type 0} (m : Exec S E A) (s : S) {r : Result E A}
    → Reads m
    → (m s).0 ≡ r
    → m s ≡ (r, s)
Reads-outcome m s h e = pair_eq (m s) e (h.at s)

pub guard-true : {S E : Type 0} (b : Bool) (e : E) (s : S) → b ≡ true → guard b e s ≡ (ok tt, s)
unfolding guard
guard-true true e s h = refl
guard-true false e s h = cc

pub ruleset reads_rules =
    (Reads-pure, Reads-raise, Reads-lift, Reads-require_some, Reads-guard, Reads-bind, Reads-if)

-- An action that begins by reading and returns: what was read, and that the rest returns.
pub bind_reading-ok :
    {S E A B : Type 0} (m : Exec S E A) (f : A → Exec S E B) (s : S) {b : B}
    → Reads m
    → ((m >>= f) s).0 ≡ ok b
    → (a : A) × ((m s ≡ (ok a, s)) × ((f a s).0 ≡ ok b))
bind_reading-ok m f s {b} h k = elim (Result-cases (m s).0) [
  | inl (a, e) ↦ let known = Reads-outcome m s h e in (a, (known, cc (bind_known m f s known, k)))
  | inr (x, e) ↦ cc (bind_failed m f s (Reads-outcome m s h e), k)
]

pub guard-ok : {S E : Type 0} (b : Bool) (e : E) (s : S) → (guard b e s).0 ≡ ok tt → b ≡ true
unfolding guard
guard-ok true e s h = refl
guard-ok false e s h = cc h
