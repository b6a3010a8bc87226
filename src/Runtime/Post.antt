-- ===== src/Runtime/Post.antt =====
-- What holds of the result of a turn and of the state that it leaves, whatever state it began in: one
-- rule for each way to build a turn.
use agent_builder_factory_ap.Base.{
  ◌≡◌, Bool, true, false, Result, ok, err, pure, raise, continue, ◌>>=◌, if◌then◌else◌, refl, subst,
}
use agent_builder_factory_ap.Runtime.State.{RunError, RuntimeTables, Process, Action}
use agent_builder_factory_ap.Runtime.Orchestrator.{RunResult}

module _ ⦃t : RuntimeTables⦄ (P : RunResult → Process → Type 0) where
  pub record Post (m : Action RunResult) : Type 0 where
    pub at : (p : Process) (r : RunResult) (p' : Process) → m p ≡ (ok r, p') → P r p'

  pub Post-pure : (r : RunResult) → ((p : Process) → P r p) → Post (pure r)
  unfolding pure
  Post-pure r h = record {
    at = λ p r' p' e. let same : r ≡ r' = cc e in subst (λ x. P x p') same (h p');
  }

  pub Post-raise : (e : RunError) → Post (raise e)
  unfolding raise
  Post-raise e = record { at = λ p r p' h. cc h }

  pub Post-if : (b : Bool) (m n : Action RunResult) → Post m → Post n → Post (if b then m else n)
  Post-if true m n h k = h
  Post-if false m n h k = k

  module _ {A : Type 0} where
    after :
        (x : Result RunError A) (f : A → Action RunResult) (s : Process) (r : RunResult)
        (p' : Process)
        → ((a : A) → x ≡ ok a → Post (f a))
        → continue x f s ≡ (ok r, p')
        → P r p'
    after (ok a) f s r p' h e = (h a refl).at s r p' e
    after (err x) f s r p' h e = cc e

    -- the rest may rest on what the first action returned
    pub Post-after :
        (m : Action A) (f : A → Action RunResult)
        → ((p : Process) (a : A) → (m p).0 ≡ ok a → Post (f a))
        → Post (m >>= f)
    unfolding ◌>>=◌
    Post-after m f h = record { at = λ p r p' e. after (m p).0 f (m p).1 r p' (h p) e }

    pub Post-bind :
        (m : Action A) (f : A → Action RunResult) → ((a : A) → Post (f a)) → Post (m >>= f)
    Post-bind m f h = Post-after m f (λ p a e. h a)

-- The same from the states where a condition holds.
module _ ⦃t : RuntimeTables⦄ (P : RunResult → Process → Type 0) where
  pub record PostFrom (I : Process → Type 0) (m : Action RunResult) : Type 0 where
    pub at : (p : Process) (r : RunResult) (p' : Process) → I p → m p ≡ (ok r, p') → P r p'

  pub PostFrom-Post : (I : Process → Type 0) (m : Action RunResult) → Post P m → PostFrom I m
  PostFrom-Post I m h = record { at = λ p r p' i. h.at p r p' }

  pub PostFrom-if :
      (I : Process → Type 0) (b : Bool) (m n : Action RunResult)
      → PostFrom I m
      → PostFrom I n
      → PostFrom I (if b then m else n)
  PostFrom-if I true m n h k = h
  PostFrom-if I false m n h k = k

  module _ {A : Type 0} where
    rest :
        (x : Result RunError A) (f : A → Action RunResult) (J : A → Process → Type 0) (s : Process)
        (r : RunResult) (p' : Process)
        → ((a : A) → x ≡ ok a → J a s)
        → ((a : A) → PostFrom (J a) (f a))
        → continue x f s ≡ (ok r, p')
        → P r p'
    rest (ok a) f J s r p' i h e = (h a).at s r p' (i a refl) e
    rest (err x) f J s r p' i h e = cc e

    -- what the first action returned and the state that it left
    pub PostFrom-after :
        (I : Process → Type 0) (J : A → Process → Type 0) (m : Action A) (f : A → Action RunResult)
        → ((p : Process) → I p → (a : A) → (m p).0 ≡ ok a → J a (m p).1)
        → ((a : A) → PostFrom (J a) (f a))
        → PostFrom I (m >>= f)
    unfolding ◌>>=◌
    PostFrom-after I J m f i h = record {
      at = λ p r p' k e. rest (m p).0 f J (m p).1 r p' (i p k) h e;
    }

    -- an action that keeps the condition
    pub PostFrom-bind :
        (I : Process → Type 0) (m : Action A) (f : A → Action RunResult)
        → ((p : Process) → I p → I (m p).1)
        → ((a : A) → PostFrom I (f a))
        → PostFrom I (m >>= f)
    PostFrom-bind I m f k h = PostFrom-after I (λ a. I) m f (λ p i a e. k p i) h

pub ruleset post_rules = (Post-raise, Post-if, Post-bind)
