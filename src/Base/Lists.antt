-- ===== src/Base/Lists.antt =====
-- Lists measured by native numbers, membership as a test, and predicates over lists.
use Prim.Native.Nat.{ℕ, suc, ◌+◌}
use mathlib.Core.Path.{◌≡◌, refl}
use mathlib.Core.Bool.{Bool, false, ◌||◌}
use mathlib.Core.List.{List, [], ◌∷◌, ◌++◌, reverse, reverse-cons}
use native.Mathlib.Omega.{arith}
use rgb_std.Base.Tests.{◌==◌, ltb, if◌then◌else◌}

module _ {ℓ} {A : Type ℓ} where
  abbrev pub length : List A → ℕ
  length [] = 0
  length (x ∷ xs) = suc (length xs)

  pub length-append : (xs ys : List A) → length (xs ++ ys) ≡ length xs + length ys
  length-append [] ys = omega arith
  length-append (x ∷ xs) ys = omega (arith, length-append xs ys)

  abbrev pub All {κ} : (A → Type κ) → List A → Type κ
  All Q [] = Unit
  All Q (a ∷ l) = Q a × All Q l

  pub All-append {κ} : (Q : A → Type κ) (l m : List A) → All Q l → All Q m → All Q (l ++ m)
  All-append Q [] m left right = right
  All-append Q (a ∷ l) m (here, left) right = (here, All-append Q l m left right)

  pub All-imp {κ μ} :
      {P : A → Type κ} {Q : A → Type μ}
      → ((a : A) → P a → Q a)
      → (xs : List A) → All P xs
      → All Q xs
  All-imp f [] h = tt
  All-imp f (x ∷ xs) h = (f x h.0, All-imp f xs h.1)

  pub All-both {κ μ} :
      (P : A → Type κ) (Q : A → Type μ) (xs : List A)
      → All P xs
      → All Q xs
      → All (λ a. P a × Q a) xs
  All-both P Q [] h k = tt
  All-both P Q (x ∷ xs) h k = ((h.0, k.0), All-both P Q xs h.1 k.1)

  pub length-reverse : (xs : List A) → length (reverse xs) ≡ length xs
  length-reverse [] = refl
  length-reverse (x ∷ xs) =
      mathlib.Core.Path.◌∙◌ (mathlib.Core.Path.ap length (reverse-cons x xs))
        (omega (arith, length-append (reverse xs) (x ∷ []), length-reverse xs))

  pub All-reverse {κ} : (P : A → Type κ) (xs : List A) → All P xs → All P (reverse xs)
  All-reverse P [] h = tt
  All-reverse P (x ∷ xs) h =
      mathlib.Core.Path.subst (All P) (mathlib.Core.Path.sym (reverse-cons x xs))
        (All-append P (reverse xs) (x ∷ []) (All-reverse P xs h.1) (h.0, tt))

abbrev pub contains : List ℕ → ℕ → Bool
contains [] a = false
contains (x ∷ xs) a = x == a || contains xs a

-- `BTreeSet::insert`, where the elements stand in their order.
unfoldable pub set_put : ℕ → List ℕ → List ℕ
set_put k [] = k ∷ []
set_put k (j ∷ s) = if ltb k j then k ∷ j ∷ s else if k == j then j ∷ s else j ∷ set_put k s

pub contains-set_put : (k a : ℕ) (s : List ℕ) → contains (set_put k s) a ≡ (k == a || contains s a)
unfolding set_put
contains-set_put k a [] = refl
contains-set_put k a (j ∷ s) = ground (arith, contains-set_put k a s)
