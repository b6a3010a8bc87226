-- ===== src/Base/Lists.antt =====
-- Lists over the native numbers, and Python's `in` on lists.
use Prim.Native.Nat.{ℕ, zero, suc}
use mathlib.Core.Bool.{Bool, false, ◌||◌}
use mathlib.Core.List.{List, [], ◌∷◌, ◌++◌, Memᴰ}
use mathlib.Core.Logic.{◌⊎◌, inl, inr}
use agent_builder_factory_ap.Base.Tests.{Key, ◌==◌}

module _ {ℓ} {A : Type ℓ} where
  abbrev pub length : List A → ℕ
  length [] = 0
  length (x ∷ xs) = suc (length xs)

  abbrev pub take : ℕ → List A → List A
  take zero xs = []
  take (suc n) [] = []
  take (suc n) (x ∷ xs) = x ∷ take n xs

-- membership in an append
module _ {ℓ} {A : Type ℓ} {x : A} where
  pub Memᴰ-append_left : (xs ys : List A) → Memᴰ x xs → Memᴰ x (xs ++ ys)
  Memᴰ-append_left [] ys i = elim i [ ]
  Memᴰ-append_left (y ∷ xs) ys (Memᴰ.head e) = Memᴰ.head e
  Memᴰ-append_left (y ∷ xs) ys (Memᴰ.tail i) = Memᴰ.tail (Memᴰ-append_left xs ys i)

  pub Memᴰ-append_right : (xs ys : List A) → Memᴰ x ys → Memᴰ x (xs ++ ys)
  Memᴰ-append_right [] ys i = i
  Memᴰ-append_right (y ∷ xs) ys i = Memᴰ.tail (Memᴰ-append_right xs ys i)

  pub Memᴰ-append_cases : (xs ys : List A) → Memᴰ x (xs ++ ys) → Memᴰ x xs ⊎ Memᴰ x ys
  Memᴰ-append_cases [] ys i = inr i
  Memᴰ-append_cases (y ∷ xs) ys (Memᴰ.head e) = inl (Memᴰ.head e)
  Memᴰ-append_cases (y ∷ xs) ys (Memᴰ.tail i) = elim (Memᴰ-append_cases xs ys i) [
    | inl j ↦ inl (Memᴰ.tail j)
    | inr j ↦ inr j
  ]

-- x in xs
abbrev pub contains {ℓ} : {A : Type ℓ} ⦃e : Key A⦄ → List A → A → Bool
contains [] a = false
contains (x ∷ xs) a = x == a || contains xs a
