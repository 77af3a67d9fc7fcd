-- ===== src/Status/Order.antt =====
-- The order that `is_better` of src/pile.rs puts on the statuses, with `best` and `worst` as its
-- meet and join.
use Prim.Native.Nat.{min, max}
use rgb_std.Base.{ℕ, ◌<◌, ◌≡◌, ◌↔◌, true, false, ◌||◌, ◌&&◌, arith, ◌⊎◌, Bool-cases, inl, inr}
use rgb_std.Status.{
  WitnessStatus, genesis, mined, offchain, tentative, archived, quasi_height, is_better, is_worse,
  best, worst, is_valid, IsCanonical, eq_status,
}

pub eq_status→≡ : (a b : WitnessStatus) → eq_status a b ≡ true → a ≡ b
unfolding eq_status
eq_status→≡ a b h = ground arith

pub eq_status_refl : (a : WitnessStatus) → eq_status a a ≡ true
unfolding eq_status
eq_status_refl a = ground arith

-- Two canonical statuses of one height are equal.
quasi_height_injective :
    (a b : WitnessStatus) → IsCanonical a → IsCanonical b → quasi_height a ≡ quasi_height b → a ≡ b
unfolding quasi_height
quasi_height_injective a b ha hb e = ground arith

pub height-best :
    (a b : WitnessStatus) → quasi_height (best a b) ≡ min (quasi_height a) (quasi_height b)
unfolding best
height-best a b = ground arith

pub height-worst :
    (a b : WitnessStatus) → quasi_height (worst a b) ≡ max (quasi_height a) (quasi_height b)
unfolding worst
height-worst a b = ground arith

best-IsCanonical : (a b : WitnessStatus) → IsCanonical a → IsCanonical b → IsCanonical (best a b)
unfolding best
best-IsCanonical a b ha hb = elim (Bool-cases (is_better a b)) [
  | inl e ↦ rw (e, best) ha
  | inr e ↦ rw (e, best) hb
]

worst-IsCanonical : (a b : WitnessStatus) → IsCanonical a → IsCanonical b → IsCanonical (worst a b)
unfolding worst
worst-IsCanonical a b ha hb = elim (Bool-cases (is_worse a b)) [
  | inl e ↦ rw (e, worst) ha
  | inr e ↦ rw (e, worst) hb
]

ruleset heights = (arith, height-best, height-worst)

-- The documented order: by kind, and among mined statuses the deeper first.
abbrev pub rank : WitnessStatus → ℕ
rank genesis = 0
rank (mined h) = 1
rank offchain = 2
rank tentative = 3
rank archived = 4

abbrev pub mined_height : WitnessStatus → ℕ
mined_height (mined h) = h
mined_height _ = 0

abbrev pub Precedes : WitnessStatus → WitnessStatus → Type 0
Precedes a b = (rank a < rank b) ⊎ ((rank a ≡ rank b) × (mined_height a < mined_height b))

-- On canonical statuses `is_better` is the documented order: genesis before mined before off-chain
-- before tentative before archived, and among mined statuses the lesser height first; `is_worse` is
-- its negation.
is_better_iff :
    (a b : WitnessStatus)
    → IsCanonical a
    → IsCanonical b
    → ((is_better a b ≡ true) ↔ Precedes a b) × ((is_worse a b ≡ false) ↔ Precedes a b)
unfolding is_worse
is_better_iff a b ha hb = ground arith

-- On canonical statuses `best` and `worst` are commutative, associative and idempotent, and absorb
-- one another.
best-worst_lattice :
    (a b c : WitnessStatus)
    → IsCanonical a
    → IsCanonical b
    → IsCanonical c
    → (best a b ≡ best b a)
      × (worst a b ≡ worst b a)
      × (best (best a b) c ≡ best a (best b c))
      × (worst (worst a b) c ≡ worst a (worst b c))
      × (best a a ≡ a)
      × (worst a a ≡ a)
      × (best a (worst a b) ≡ a)
      × (worst a (best a b) ≡ a)
best-worst_lattice a b c ha hb hc =
    let ab = best-IsCanonical a b ha hb in
    let wab = worst-IsCanonical a b ha hb in
    let same =
      λ (x y : WitnessStatus) (hx : IsCanonical x) (hy : IsCanonical y)
          (e : quasi_height x ≡ quasi_height y).
        quasi_height_injective x y hx hy e in
    (
      same _ _ ab (best-IsCanonical b a hb ha) (omega heights),
      same _ _ wab (worst-IsCanonical b a hb ha) (omega heights),
      same _ _ (best-IsCanonical _ c ab hc) (best-IsCanonical a _ ha (best-IsCanonical b c hb hc))
          (omega heights),
      same _ _ (worst-IsCanonical _ c wab hc)
          (worst-IsCanonical a _ ha (worst-IsCanonical b c hb hc)) (omega heights),
      same _ _ (best-IsCanonical a a ha ha) ha (omega heights),
      same _ _ (worst-IsCanonical a a ha ha) ha (omega heights),
      same _ _ (best-IsCanonical a _ ha wab) ha (omega heights),
      same _ _ (worst-IsCanonical a _ ha ab) ha (omega heights),
    )

-- The best of two canonical statuses is valid exactly if one of them is, and the worst exactly if
-- both are.
is_valid-best :
    (a b : WitnessStatus)
    → IsCanonical a
    → IsCanonical b
    → (is_valid (best a b) ≡ (is_valid a || is_valid b))
      × (is_valid (worst a b) ≡ (is_valid a && is_valid b))
unfolding best worst is_valid
is_valid-best a b ha hb = ground arith
