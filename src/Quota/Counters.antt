-- ===== src/Quota/Counters.antt =====
-- Redis as the rate limit sees it: counters with a time at which they expire. The service is not part
-- of the repository, so it is an interface; its laws are the documented behaviour of INCR and EXPIRE.
use agent_builder_factory_ap.Base.{
  ℕ, ◌+◌, suc, String, ◌≡◌, refl, ◌↔◌, Bool, true, false, ◌&&◌, Option, none, some, ok, Exec, ◌==◌,
  ==_sound, ==_refl, ap, if◌then◌else◌, nat_key, string_key, ltb, Key, arith,
}

pub data Label : Type 0 where
  rpm : Label
  rpd : Label

-- The parts of the text `ratelimit:<label>:<tenant>:<agent>:<window>`.
pub record WindowKey : Type 0 where
  pub label : Label
  pub tenant_id : String
  pub agent_id : String
  pub window : ℕ

abbrev same_label : Label → Label → Bool
same_label rpm rpm = true
same_label rpm rpd = false
same_label rpd rpm = false
same_label rpd rpd = true

same_label_iff : (a b : Label) → (same_label a b ≡ true) ↔ (a ≡ b)
same_label_iff rpm rpm = (λ h. refl, λ h. refl)
same_label_iff rpm rpd = (λ h. cc h, λ h. cc h)
same_label_iff rpd rpm = (λ h. cc h, λ h. cc h)
same_label_iff rpd rpd = (λ h. refl, λ h. refl)

abbrev same_window : WindowKey → WindowKey → Bool
same_window a b =
    same_label a.label b.label
    && (a.tenant_id == b.tenant_id && (a.agent_id == b.agent_id && a.window == b.window))

window_eq :
    (a b : WindowKey)
    → a.label ≡ b.label
    → a.tenant_id ≡ b.tenant_id
    → a.agent_id ≡ b.agent_id
    → a.window ≡ b.window
    → a ≡ b
window_eq a b l t g w = cc

parts :
    (w x y z : Bool)
    → (w && (x && (y && z))) ≡ true
    → (w ≡ true) × ((x ≡ true) × ((y ≡ true) × (z ≡ true)))
parts w x y z h = ground arith

whole : (w x y z : Bool) → w ≡ true → x ≡ true → y ≡ true → z ≡ true → (w && (x && (y && z))) ≡ true
whole w x y z p q r s = ground arith

pub same_window_iff : (a b : WindowKey) → (same_window a b ≡ true) ↔ (a ≡ b)
same_window_iff a b = (
  λ h.
      let (l, (t, (g, w))) =
        parts (same_label a.label b.label) (a.tenant_id == b.tenant_id) (a.agent_id == b.agent_id)
          (a.window == b.window) h in
      window_eq a b ((same_label_iff a.label b.label).0 l) (==_sound a.tenant_id b.tenant_id t)
        (==_sound a.agent_id b.agent_id g) (==_sound a.window b.window w),
  λ e.
      whole (same_label a.label b.label) (a.tenant_id == b.tenant_id) (a.agent_id == b.agent_id)
        (a.window == b.window) ((same_label_iff a.label b.label).1 (ap (λ x. x.label) e))
        (rw e (==_refl b.tenant_id)) (rw e (==_refl b.agent_id)) (rw e (==_refl b.window)),
)

instance abbrev pub window_key : Key WindowKey
window_key = record { same = same_window; same_iff = same_window_iff }

pub record Counter : Type 0 where
  pub value : ℕ
  pub expires_at : Option ℕ

-- a counter that has not expired at this time
abbrev pub is_before : ℕ → Option ℕ → Bool
is_before now none = true
is_before now (some e) = ltb now e

abbrev pub live : ℕ → Option Counter → Option Counter
live now none = none
live now (some c) = if is_before now c.expires_at then some c else none

abbrev pub incremented : Option Counter → Counter
incremented none = record { value = 1; expires_at = none }
incremented (some c) = record c { value = suc c.value }

abbrev pub expiring : ℕ → Option Counter → Option Counter
expiring at none = none
expiring at (some c) = some (record c { expires_at = some at })

pub record Redis : Type 1 where
  pub Contents : Type 0
  pub lookup : Contents → WindowKey → Option Counter
  pub incr : ℕ → WindowKey → Exec Contents Unit ℕ
  pub expire : ℕ → WindowKey → ℕ → Exec Contents Unit Unit
  -- what a call that returns has done
  pub incr-return :
      (now : ℕ) (k : WindowKey) (c : Contents) (n : ℕ)
      → (incr now k c).0 ≡ ok n
      → (n ≡ (incremented (live now (lookup c k))).value)
        × ((j : WindowKey)
            → lookup (incr now k c).1 j
              ≡ (if k == j then some (incremented (live now (lookup c k))) else lookup c j))
  pub expire-return :
      (now : ℕ) (k : WindowKey) (s : ℕ) (c : Contents)
      → (expire now k s c).0 ≡ ok tt
      → (j : WindowKey)
      → lookup (expire now k s c).1 j
        ≡ (if k == j then expiring (now + s) (live now (lookup c k)) else lookup c j)
