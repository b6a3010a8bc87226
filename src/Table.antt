-- ===== src/Table.antt =====
-- DynamoDB as the stores see it: a keyed table with a partition key and a sort key. The service is
-- not part of the repository, so it is an interface; its laws are the documented behaviour of
-- GetItem, PutItem, DeleteItem, Query and Scan on a strongly consistent table.
pub mod Assoc
use agent_builder_factory_ap.Base.{
  ◌≡◌, false, ◌&&◌, Option, none, some, List, Memᴰ, Key, ◌==◌, if◌then◌else◌, ==_refl, arith,
  Bool-cases, inl, inr,
}
use mathlib.Core.List.{flatten}

pub record Table (P S V : Type 0) ⦃p : Key P⦄ ⦃s : Key S⦄ : Type 1 where
  pub Contents : Type 0
  pub get_item : Contents → P → S → Option V
  pub put_item : Contents → P → S → V → Contents
  pub delete_item : Contents → P → S → Contents
  -- the pages of a Query on a partition key, in the order in which they are read
  pub query : Contents → P → List (List V)
  -- the items of a Scan, in the order in which they are examined
  pub scan : Contents → List V
  pub get-put :
      (c : Contents) (i : P) (k : S) (v : V) (j : P) (l : S)
      → get_item (put_item c i k v) j l ≡ (if i == j && k == l then some v else get_item c j l)
  pub get-delete :
      (c : Contents) (i : P) (k : S) (j : P) (l : S)
      → get_item (delete_item c i k) j l ≡ (if i == j && k == l then none else get_item c j l)
  pub query-get :
      (c : Contents) (i : P) (v : V)
      → Memᴰ v (flatten (query c i))
      → (k : S) × (get_item c i k ≡ some v)
  pub get-query :
      (c : Contents) (i : P) (k : S) (v : V)
      → get_item c i k ≡ some v
      → Memᴰ v (flatten (query c i))

module _ {P S V : Type 0} ⦃p : Key P⦄ ⦃s : Key S⦄ (t : Table P S V) where
  pub get-put_self :
      (c : t.Contents) (i : P) (k : S) (v : V) → t.get_item (t.put_item c i k v) i k ≡ some v
  get-put_self c i k v = rw (t.get-put c i k v i k, ==_refl i, ==_refl k)

  -- another item
  pub get-put_other :
      (c : t.Contents) (i : P) (k : S) (v : V) (j : P) (l : S)
      → (i == j && k == l) ≡ false
      → t.get_item (t.put_item c i k v) j l ≡ t.get_item c j l
  get-put_other c i k v j l ne = rw (t.get-put c i k v j l, ne)

  -- another item of the same partition
  pub get-put_ne :
      (c : t.Contents) (i : P) (k : S) (v : V) (j : P) (l : S)
      → (k == l) ≡ false
      → t.get_item (t.put_item c i k v) j l ≡ t.get_item c j l
  get-put_ne c i k v j l ne = rw (t.get-put c i k v j l) (ground arith)

  -- a stored item stays, or is replaced
  pub get-put_some :
      (c : t.Contents) (i : P) (k : S) (v : V) (j : P) (l : S) {w : V}
      → t.get_item c j l ≡ some w
      → (x : V) × (t.get_item (t.put_item c i k v) j l ≡ some x)
  get-put_some c i k v j l {w} h = elim (Bool-cases (i == j && k == l)) [
    | inl e ↦ (v, rw (t.get-put c i k v j l, e))
    | inr ne ↦ (w, rw (t.get-put c i k v j l, ne) h)
  ]
