-- ===== src/Impact/Levels.antt =====
-- The highest of the levels of some rules.
use agent_builder_factory_ap.Base.{
  ◌≤◌, ◌≡◌, refl, sym, Bool, true, false, List, [], ◌∷◌, Memᴰ, string_key, ◌⊎◌, inl, inr, arith,
  ltb, if◌then◌else◌,
}
use agent_builder_factory_ap.Impact.{ImpactLevel, low, rank, Rule, highest, level_of}

raised : (a b : ImpactLevel) → rank a ≤ rank (if ltb (rank a) (rank b) then b else a)
raised a b = ground arith

covered : (a b : ImpactLevel) → rank b ≤ rank (if ltb (rank a) (rank b) then b else a)
covered a b = ground arith

highest-base : (l : ImpactLevel) (rs : List Rule) → rank l ≤ rank (highest l rs)
unfolding highest
highest-base l [] = omega arith
highest-base l (r ∷ rs) =
    let first = raised l r.level in
    let later = highest-base (if ltb (rank l) (rank r.level) then r.level else l) rs in omega arith

highest-bounds :
    (l : ImpactLevel) (rs : List Rule) (r : Rule) → Memᴰ r rs → rank r.level ≤ rank (highest l rs)
unfolding highest
highest-bounds l [] r m = elim m [ ]
highest-bounds l (s ∷ rs) r (Memᴰ.head e) =
    let first = covered l s.level in
    let later = highest-base (if ltb (rank l) (rank s.level) then s.level else l) rs in
    rw e (omega arith)
highest-bounds l (s ∷ rs) r (Memᴰ.tail m) =
    highest-bounds (if ltb (rank l) (rank s.level) then s.level else l) rs r m

-- some rule has this level
unfoldable pub Attained : List Rule → ImpactLevel → Type 0
Attained rs l = (r : Rule) × (Memᴰ r rs × (r.level ≡ l))

Attained-if :
    (b : Bool) (l h : ImpactLevel) (r : Rule) (rs : List Rule)
    → h ≡ (if b then r.level else l)
    → (h ≡ l) ⊎ Attained (r ∷ rs) h
unfolding Attained
Attained-if true l h r rs e = inr (r, (Memᴰ.head refl, sym e))
Attained-if false l h r rs e = inl e

highest-Attained :
    (l : ImpactLevel) (rs : List Rule) → (highest l rs ≡ l) ⊎ Attained rs (highest l rs)
unfolding highest Attained
highest-Attained l [] = inl refl
highest-Attained l (r ∷ rs) =
    let b = ltb (rank l) (rank r.level) in
    elim (highest-Attained (if b then r.level else l) rs) [
      | inl e ↦ Attained-if b l _ r rs e
      | inr (s, (m, e)) ↦ inr (s, (Memᴰ.tail m, e))
    ]

pub level_of-bounds : (rs : List Rule) (r : Rule) → Memᴰ r rs → rank r.level ≤ rank (level_of rs)
level_of-bounds [] r m = elim m [ ]
level_of-bounds (s ∷ rs) r (Memᴰ.head e) = rw e (highest-base s.level rs)
level_of-bounds (s ∷ rs) r (Memᴰ.tail m) = highest-bounds s.level rs r m

pub level_of-Attained : (rs : List Rule) → (level_of rs ≡ low) ⊎ Attained rs (level_of rs)
unfolding Attained
level_of-Attained [] = inl refl
level_of-Attained (r ∷ rs) = elim (highest-Attained r.level rs) [
  | inl e ↦ inr (r, (Memᴰ.head refl, sym e))
  | inr (s, (m, e)) ↦ inr (s, (Memᴰ.tail m, e))
]
