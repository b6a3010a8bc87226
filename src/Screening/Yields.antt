-- ===== src/Screening/Yields.antt =====
-- A check that answers whatever was noted before it, with one rule for each way to build a check.
use agent_builder_factory_ap.Base.{
  String, ◌≡◌, refl, ap, ◌∙◌, Bool, true, false, List, [], ◌∷◌, ◌++◌, Result, ok, pure, lift,
  continue, ◌>>=◌, ◌>>◌, if◌then◌else◌, string_key,
}
use agent_builder_factory_ap.Screening.{
  GuardrailLayerResult, Checking, note, Local, blocked, unless_blocked,
}

abbrev pub or_blocked : Bool → Local → Local
or_blocked true t = blocked
or_blocked false t = t

pub record Yields {A : Type 0} (m : Checking A) (a : A) : Type 0 where
  pub at :
      (ls : List GuardrailLayerResult) → (ls' : List GuardrailLayerResult) × (m ls ≡ (ok a, ls'))

pub Yields-pure : {A : Type 0} (a : A) → Yields (pure a) a
unfolding pure
Yields-pure a = record { at = λ ls. (ls, refl) }

pub Yields-note : {A : Type 0} (l : GuardrailLayerResult) (a : A) → Yields (note l >> pure a) a
unfolding note pure ◌>>=◌
Yields-note l a = record { at = λ ls. (ls ++ (l ∷ []), refl) }

pub Yields-lift : {A : Type 0} (r : Result String A) (a : A) → r ≡ ok a → Yields (lift r) a
unfolding lift
Yields-lift r a e = record { at = λ ls. (ls, rw e refl) }

pub Yields-bind :
    {A B : Type 0} (m : Checking A) (k : A → Checking B) (a : A) (b : B)
    → Yields m a
    → Yields (k a) b
    → Yields (m >>= k) b
unfolding ◌>>=◌
Yields-bind m k a b h i = record {
  at = λ ls.
      let (ls', e) = h.at ls in
      let (ls'', f) = i.at ls' in
      (ls'', ap (λ (o : Result String _ × List GuardrailLayerResult). continue o.0 k o.1) e ∙ f);
}

pub Yields-if :
    {A : Type 0} (b : Bool) (m n : Checking A) (x y : A)
    → Yields m x
    → Yields n y
    → Yields (if b then m else n) (if b then x else y)
Yields-if true m n x y h i = h
Yields-if false m n x y h i = i

pub Yields-unless :
    (b : Bool) (m : Checking Local) (t : Local)
    → Yields m t
    → Yields (unless_blocked m b) (or_blocked b t)
Yields-unless true m t h = Yields-pure blocked
Yields-unless false m t h = h
