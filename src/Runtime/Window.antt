-- ===== src/Runtime/Window.antt =====
-- The memory of a session is a window on what was said in it.
use agent_builder_factory_ap.Base.{
  ℕ, suc, zero, ◌-◌, ◌≤◌, String, ◌≡◌, refl, sym, ap, subst, ◌∙◌, true, false, List, [], ◌∷◌, ◌++◌,
  length, ◌==◌, if◌then◌else◌, ltb, ==_refl, ==_sound, string_key, nat_key, Bool-cases, inl, inr,
  arith,
}
use agent_builder_factory_ap.Runtime.Memory.{Turn, drop, turns_of, with_turns, trim, save_session}

-- A turn of a session: what was asked and what was replied.
pub record Said : Type 0 where
  pub session_id : String
  pub message : String
  pub response : String

-- the turns of one session, the oldest first, in a log of turns of all sessions, the latest first
unfoldable pub said_in : String → List Said → List Turn
said_in session_id [] = []
said_in session_id (x ∷ xs) =
    let earlier = said_in session_id xs in
    if x.session_id == session_id then earlier ++ ((x.message, x.response) ∷ []) else earlier

unfoldable pub save_all : ℕ → List Said → List (String × List Turn)
save_all max [] = []
save_all max (x ∷ xs) = save_session max x.session_id x.message x.response (save_all max xs)

-- the last turns, or all of them where there are fewer
abbrev pub last : ℕ → List Turn → List Turn
last max turns = drop (length turns - max) turns

turns_of-with_turns_self :
    (m : List (String × List Turn)) (s : String) (ts : List Turn)
    → turns_of (with_turns m s ts) s ≡ ts
turns_of-with_turns_self [] s ts = rw (==_refl s) refl
turns_of-with_turns_self (x ∷ xs) s ts = elim (Bool-cases (x.0 == s)) [
  | inl e ↦ rw (e, ==_refl s) refl
  | inr e ↦ rw (e, e) (turns_of-with_turns_self xs s ts)
]

turns_of-with_turns_ne :
    (m : List (String × List Turn)) (s u : String) (ts : List Turn)
    → (s == u) ≡ false
    → turns_of (with_turns m s ts) u ≡ turns_of m u
turns_of-with_turns_ne [] s u ts n = rw n refl
turns_of-with_turns_ne (x ∷ xs) s u ts n = elim (Bool-cases (x.0 == s)) [
  | inl e ↦ rw (e, n, ==_sound x.0 s e, n) refl
  | inr e ↦ rw e (ap (λ r. if x.0 == u then x.1 else r) (turns_of-with_turns_ne xs s u ts n))
]

length-snoc : (xs : List Turn) (y : Turn) → length (xs ++ (y ∷ [])) ≡ suc (length xs)
length-snoc [] y = refl
length-snoc (x ∷ xs) y = ap suc (length-snoc xs y)

no_suc : (n : ℕ) → suc n ≤ 0 → ⊥
no_suc n h = omega arith

none_over : (max n : ℕ) → n ≤ max → n - max ≡ 0
none_over max n h = omega arith

not_over : (max n : ℕ) → n ≤ max → ltb max n ≡ false
not_over max n h = ground arith

over : (max n : ℕ) → n ≡ suc max → ltb max n ≡ true
over max n h = ground arith

one_over : (max n : ℕ) → n ≡ suc max → n - max ≡ 1
one_over max n h = omega arith

drop-snoc :
    (n : ℕ) (xs : List Turn) (y : Turn)
    → n ≤ length xs
    → drop n (xs ++ (y ∷ [])) ≡ drop n xs ++ (y ∷ [])
drop-snoc zero xs y h = refl
drop-snoc (suc n) [] y h = elim (no_suc n h) [ ]
drop-snoc (suc n) (x ∷ xs) y h = drop-snoc n xs y (omega arith)

length-drop : (n : ℕ) (xs : List Turn) → length (drop n xs) ≡ length xs - n
length-drop zero xs = ground arith
length-drop (suc n) [] = ground arith
length-drop (suc n) (x ∷ xs) = length-drop n xs ∙ omega arith

drop_one : (n : ℕ) (xs : List Turn) → drop 1 (drop n xs) ≡ drop (suc n) xs
drop_one zero xs = refl
drop_one (suc n) [] = refl
drop_one (suc n) (x ∷ xs) = drop_one n xs

few : (max : ℕ) (xs : List Turn) → length xs ≤ max → last max xs ≡ xs
few max xs h = ap (λ n. drop n xs) (none_over max (length xs) h)

trim-few : (max : ℕ) (xs : List Turn) → length xs ≤ max → trim max xs ≡ xs
unfolding trim
trim-few max xs h = rw (not_over max (length xs) h) refl

trim-over :
    (max : ℕ) (xs : List Turn) → (max == 0) ≡ false → length xs ≡ suc max → trim max xs ≡ drop 1 xs
unfolding trim
trim-over max xs p e =
    rw (over max (length xs) e, p) (ap (λ n. drop n xs) (one_over max (length xs) e))

fits : (max n m : ℕ) → ltb n max ≡ true → m ≡ suc n → m ≤ max
fits max n m l e = ground arith

smaller : (max n : ℕ) → ltb n max ≡ true → n ≤ max
smaller max n l = ground arith

full : (max n m : ℕ) → ltb n max ≡ false → m ≡ n - (n - max) → m ≡ max
full max n m l e = ground arith

positive : (max m : ℕ) → (max == 0) ≡ false → m ≡ max → 1 ≤ m
positive max m p e = ground arith

room : (max n : ℕ) → (max == 0) ≡ false → ltb n max ≡ false → suc (n - max) ≤ n
room max n p l = ground arith

next_over : (max n m : ℕ) → ltb n max ≡ false → m ≡ suc n → suc (n - max) ≡ m - max
next_over max n m l e = ground arith

-- a window with one more turn, trimmed, is the window with that turn
trim-last :
    (max : ℕ) (xs : List Turn) (y : Turn)
    → (max == 0) ≡ false
    → trim max (last max xs ++ (y ∷ [])) ≡ last max (xs ++ (y ∷ []))
trim-last max xs y p = elim (Bool-cases (ltb (length xs) max)) [
  | inl l ↦
      let fit = fits max (length xs) (length (xs ++ (y ∷ []))) l (length-snoc xs y) in
      rw (few max xs (smaller max (length xs) l))
        (trim-few max (xs ++ (y ∷ [])) fit ∙ sym (few max (xs ++ (y ∷ [])) fit))
  | inr l ↦
      let k = length xs - max in
      let zs = drop k xs in
      let size = full max (length xs) (length zs) l (length-drop k xs) in
      trim-over max (zs ++ (y ∷ [])) p (length-snoc zs y ∙ ap suc size)
      ∙ drop-snoc 1 zs y (positive max (length zs) p size)
      ∙ ap (λ ts. ts ++ (y ∷ [])) (drop_one k xs)
      ∙ sym (drop-snoc (suc k) xs y (room max (length xs) p l))
      ∙ ap (λ n. drop n (xs ++ (y ∷ [])))
          (next_over max (length xs) (length (xs ++ (y ∷ []))) l (length-snoc xs y))
]

abbrev window : ℕ → List Turn → List Turn
window max turns = if max == 0 then turns else last max turns

trim_nothing : (max : ℕ) (xs : List Turn) → (max == 0) ≡ true → trim max xs ≡ xs
unfolding trim
trim_nothing max xs z = elim (Bool-cases (ltb max (length xs))) [
  | inl e ↦ rw (e, z) refl
  | inr e ↦ rw e refl
]

drop-nil : (n : ℕ) → drop {A = Turn} n [] ≡ []
drop-nil zero = refl
drop-nil (suc n) = refl

window-nil : (max : ℕ) → [] ≡ window max []
window-nil max = elim (Bool-cases (max == 0)) [
  | inl z ↦ rw z refl
  | inr p ↦ rw p (sym (drop-nil (0 - max)))
]

trim-window :
    (max : ℕ) (xs : List Turn) (y : Turn)
    → trim max (window max xs ++ (y ∷ [])) ≡ window max (xs ++ (y ∷ []))
trim-window max xs y = elim (Bool-cases (max == 0)) [
  | inl z ↦ rw z (trim_nothing max (xs ++ (y ∷ [])) z)
  | inr p ↦ rw p (trim-last max xs y p)
]

-- After any turns of any sessions, the memory of a session is its last `max_session_turns` turns, all of
-- them where there are fewer, in the order in which they were saved; where that setting is 0 it is every
-- turn of the session.
pub session_is_a_window :
    (max : ℕ) (log : List Said) (session_id : String)
    → turns_of (save_all max log) session_id
      ≡ (if max == 0 then said_in session_id log else last max (said_in session_id log))
unfolding save_all said_in save_session
session_is_a_window max [] session_id = window-nil max
session_is_a_window max (x ∷ xs) session_id = elim (Bool-cases (x.session_id == session_id)) [
  | inl e ↦
      let m = save_all max xs in
      let s = x.session_id in
      let y : Turn = (x.message, x.response) in
      rw e (
        subst
          (λ u.
            turns_of (with_turns m s (trim max (turns_of m s ++ (y ∷ [])))) u
            ≡ window max (said_in u xs ++ (y ∷ [])))
          (==_sound s session_id e)
          (turns_of-with_turns_self m s (trim max (turns_of m s ++ (y ∷ [])))
            ∙ ap (λ ts. trim max (ts ++ (y ∷ []))) (session_is_a_window max xs s)
            ∙ trim-window max (said_in s xs) y))
  | inr n ↦
      let m = save_all max xs in
      let s = x.session_id in
      rw n (
        turns_of-with_turns_ne m s session_id
          (trim max (turns_of m s ++ ((x.message, x.response) ∷ []))) n
        ∙ session_is_a_window max xs session_id)
]
