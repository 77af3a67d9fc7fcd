-- ===== src/Base/Maps.antt =====
-- The maps and sets of the program as lists: `IndexMap` and `IndexSet` keep the order of insertion.
use Prim.Native.Nat.{ℕ}
use mathlib.Core.Path.{◌≡◌, refl}
use mathlib.Core.Bool.{true, false, ◌||◌}
use mathlib.Core.List.{List, [], ◌∷◌, ◌++◌}
use mathlib.Core.Option.{Option, none, some}
use native.Mathlib.Omega.{arith}
use rgb_std.Base.Tests.{ltb, ◌==◌, ==_refl, if◌then◌else◌, is_some}
use rgb_std.Base.Lists.{contains, All, All-imp}

module _ {ℓ} {V : Type ℓ} where
  abbrev pub lookup : ℕ → List (ℕ × V) → Option V
  lookup k [] = none
  lookup k ((j, v) ∷ m) = if j == k then some v else lookup k m

  -- A value under a known key takes the place of the old one; a new key goes to the end.
  unfoldable pub insert : ℕ → V → List (ℕ × V) → List (ℕ × V)
  insert k v [] = (k, v) ∷ []
  insert k v ((j, w) ∷ m) = if j == k then (j, v) ∷ m else (j, w) ∷ insert k v m

  abbrev pub keys : List (ℕ × V) → List ℕ
  keys [] = []
  keys ((k, v) ∷ m) = k ∷ keys m

  pub lookup-insert :
      (k j : ℕ) (v : V) (m : List (ℕ × V))
      → lookup j (insert k v m) ≡ (if k == j then some v else lookup j m)
  unfolding insert
  lookup-insert k j v [] = refl
  lookup-insert k j v ((i, w) ∷ m) = ground (arith, lookup-insert k j v m)

  pub contains-keys-insert :
      (k j : ℕ) (v : V) (m : List (ℕ × V))
      → contains (keys (insert k v m)) j ≡ (k == j || contains (keys m) j)
  unfolding insert
  contains-keys-insert k j v [] = refl
  contains-keys-insert k j v ((i, w) ∷ m) = ground (arith, contains-keys-insert k j v m)

  -- `BTreeMap::insert`, where the keys stand in their order.
  unfoldable pub put : ℕ → V → List (ℕ × V) → List (ℕ × V)
  put k v [] = (k, v) ∷ []
  put k v ((j, w) ∷ m) =
      if ltb k j then (k, v) ∷ (j, w) ∷ m else if k == j then (k, v) ∷ m else (j, w) ∷ put k v m

  pub lookup-put :
      (k j : ℕ) (v : V) (m : List (ℕ × V))
      → lookup j (put k v m) ≡ (if k == j then some v else lookup j m)
  unfolding put
  lookup-put k j v [] = refl
  lookup-put k j v ((i, w) ∷ m) = ground (arith, lookup-put k j v m)

  pub All-put {κ} :
      (Q : V → Type κ) (k : ℕ) (v : V) (m : List (ℕ × V))
      → Q v
      → All (λ (e : ℕ × V). Q e.1) m
      → All (λ (e : ℕ × V). Q e.1) (put k v m)
  unfolding put
  All-put Q k v [] q h = (q, tt)
  All-put Q k v ((j, w) ∷ m) q h = ground (arith, All-put Q k v m q h.1)

  -- No key stands twice.
  abbrev pub IsDistinct : List (ℕ × V) → Type 0
  IsDistinct [] = Unit {0}
  IsDistinct ((k, v) ∷ m) = (contains (keys m) k ≡ false) × IsDistinct m

  pub insert-IsDistinct :
      (k : ℕ) (v : V) (m : List (ℕ × V)) → IsDistinct m → IsDistinct (insert k v m)
  unfolding insert
  insert-IsDistinct k v [] h = (refl, tt)
  insert-IsDistinct k v ((j, w) ∷ m) h =
      ground (arith, insert-IsDistinct k v m h.1, contains-keys-insert k j v m)

  pub contains-keys : (k : ℕ) (m : List (ℕ × V)) → contains (keys m) k ≡ is_some (lookup k m)
  contains-keys k [] = refl
  contains-keys k ((j, v) ∷ m) = ground (arith, contains-keys k m)

  pub keys_listed : (m : List (ℕ × V)) → All (λ (e : ℕ × V). contains (keys m) e.0 ≡ true) m
  keys_listed [] = tt
  keys_listed ((k, v) ∷ m) =
      (rw (==_refl k), All-imp (λ (e : ℕ × V) h. ground arith) m (keys_listed m))

-- `IndexSet::insert`.
unfoldable pub add : ℕ → List ℕ → List ℕ
add k xs = if contains xs k then xs else xs ++ k ∷ []

pub contains-append :
    (xs ys : List ℕ) (a : ℕ) → contains (xs ++ ys) a ≡ (contains xs a || contains ys a)
contains-append [] ys a = refl
contains-append (x ∷ xs) ys a = ground (arith, contains-append xs ys a)

pub contains-add : (k a : ℕ) (xs : List ℕ) → contains (add k xs) a ≡ (k == a || contains xs a)
unfolding add
contains-add k a xs = ground (arith, contains-append xs (k ∷ []) a)
