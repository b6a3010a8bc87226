-- ===== src/Table/Assoc.antt =====
-- A table as a list of items: it satisfies the laws that the stores rely on.
use mathlib.Core.List.{flatten, append-nil}
use agent_builder_factory_ap.Base.{
  ◌≡◌, refl, sym, subst, ◌&&◌, Option, none, some, List, [], ◌∷◌, ◌++◌, Memᴰ, Memᴰ-append_left,
  Memᴰ-append_right, Memᴰ-append_cases, ap, Key, ◌==◌, if◌then◌else◌, arith, ==_sound, Bool-cases,
  inl, inr,
}
use agent_builder_factory_ap.Table.{Table}

abbrev one : {V : Type 0} → Option V → List V
one none = []
one (some v) = v ∷ []

mem_one : {V : Type 0} (o : Option V) {v : V} → Memᴰ v (one o) → o ≡ some v
mem_one none i = elim i [ ]
mem_one (some w) (Memᴰ.head e) = rw e refl
mem_one (some w) (Memᴰ.tail i) = elim i [ ]

pages_flatten : {V : Type 0} (xs : List V) → flatten (xs ∷ []) ≡ xs
unfolding flatten
pages_flatten xs = append-nil xs

module _ {P S V : Type 0} ⦃p : Key P⦄ ⦃s : Key S⦄ where
  abbrev pub find : List (P × S × V) → P → S → Option V
  find [] i k = none
  find ((j, l, v) ∷ c) i k = if j == i && l == k then some v else find c i k

  abbrev pub without : List (P × S × V) → P → S → List (P × S × V)
  without [] i k = []
  without ((j, l, v) ∷ c) i k =
      let rest = without c i k in if j == i && l == k then rest else (j, l, v) ∷ rest

  abbrev pub put : List (P × S × V) → P → S → V → List (P × S × V)
  put c i k v = (i, k, v) ∷ without c i k

  -- the items of a partition, each read through `find` in the whole table `d`
  abbrev partition : List (P × S × V) → List (P × S × V) → P → List V
  partition d [] i = []
  partition d ((j, l, v) ∷ c) i =
      let rest = partition d c i in if j == i then one (find d i l) ++ rest else rest

  abbrev values : List (P × S × V) → List V
  values [] = []
  values ((j, l, v) ∷ c) = v ∷ values c

  pub find-without :
      (c : List (P × S × V)) (i : P) (k : S) (j : P) (l : S)
      → find (without c i k) j l ≡ (if i == j && k == l then none else find c j l)
  find-without [] i k j l = ground arith
  find-without ((a, b, v) ∷ c) i k j l = ground (
    arith,
    p.same_iff a i,
    p.same_iff a j,
    p.same_iff i j,
    s.same_iff b k,
    s.same_iff b l,
    s.same_iff k l,
    find-without c i k j l,
  )

  pub find-put :
      (c : List (P × S × V)) (i : P) (k : S) (v : V) (j : P) (l : S)
      → find (put c i k v) j l ≡ (if i == j && k == l then some v else find c j l)
  find-put c i k v j l = ground (arith, find-without c i k j l)

  partition-find :
      (d c : List (P × S × V)) (i : P) (v : V)
      → Memᴰ v (partition d c i)
      → (k : S) × (find d i k ≡ some v)
  partition-find d [] i v m = elim m [ ]
  partition-find d ((j, l, w) ∷ c) i v m = elim (Bool-cases (j == i)) [
    | inl e ↦
        elim (Memᴰ-append_cases (one (find d i l)) (partition d c i) (
          subst (Memᴰ v)
            (ap (λ b. if b then one (find d i l) ++ partition d c i else partition d c i) e) m)) [
              | inl here ↦ (l, mem_one (find d i l) here)
              | inr there ↦ partition-find d c i v there
            ]
    | inr e ↦ partition-find d c i v (
        subst (Memᴰ v)
          (ap (λ b. if b then one (find d i l) ++ partition d c i else partition d c i) e) m)
  ]

  find-partition :
      (d c : List (P × S × V)) (i : P) (k : S) (v w : V)
      → find d i k ≡ some v
      → find c i k ≡ some w
      → Memᴰ v (partition d c i)
  find-partition d [] i k v w h f = cc
  find-partition d ((j, l, u) ∷ c) i k v w h f = elim (Bool-cases (j == i)) [
    | inl e ↦ rw e (elim (Bool-cases (l == k)) [
      | inl e' ↦
          Memᴰ-append_left (one (find d i l)) (partition d c i)
            (rw (==_sound l k e', h) (Memᴰ.head refl))
      | inr ne ↦
          Memᴰ-append_right (one (find d i l)) (partition d c i)
            (find-partition d c i k v w h (ground (arith, p.same_iff j i)))
    ])
    | inr ne ↦ rw ne (find-partition d c i k v w h (ground arith))
  ]

  pub query-get :
      (c : List (P × S × V)) (i : P) (v : V)
      → Memᴰ v (flatten (partition c c i ∷ []))
      → (k : S) × (find c i k ≡ some v)
  query-get c i v m = partition-find c c i v (subst (Memᴰ v) (pages_flatten (partition c c i)) m)

  pub get-query :
      (c : List (P × S × V)) (i : P) (k : S) (v : V)
      → find c i k ≡ some v
      → Memᴰ v (flatten (partition c c i ∷ []))
  get-query c i k v h =
      subst (Memᴰ v) (sym (pages_flatten (partition c c i))) (find-partition c c i k v v h h)

  abbrev pub assoc_table : Table P S V
  assoc_table = record {
    Contents = List (P × S × V);
    get_item = find;
    put_item = put;
    delete_item = without;
    query = λ c i. partition c c i ∷ [];
    scan = values;
    get-put = find-put;
    get-delete = find-without;
    query-get = query-get;
    get-query = get-query;
  }
