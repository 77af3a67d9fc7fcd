-- ===== src/Bp/Positions.antt =====
-- Positions in a list of outpoints or tokens, for src/popls/bp.rs.
use rgb_std.Base.{
  ℕ, zero, suc, ◌<◌, ◌≡◌, refl, sym, ap, ◌∙◌, inl, inr, Bool, true, false, Option, none, some, List,
  [], ◌∷◌, ◌>>=◌, >>=-eq-some, arith, ◌==◌, ==_iff, Bool-cases, length, contains,
}
use rgb_std.Contract.Params.{nth}
use rgb_std.Bp.Include.{position}

-- No outpoint is spent twice.
abbrev pub AllDiffer : List ℕ → Type 0
AllDiffer [] = Unit {0}
AllDiffer (a ∷ l) = (contains l a ≡ false) × AllDiffer l

abbrev pub is_at : ℕ → Option ℕ → Bool
is_at o none = false
is_at o (some a) = o == a

pub position-nth :
    (o : ℕ) (l : List ℕ) (pos : ℕ)
    → position o l ≡ some pos
    → (nth pos l ≡ some o) × (pos < length l)
unfolding position
position-nth o [] pos e = absurd (cc)
position-nth o (b ∷ l) pos e = elim (Bool-cases (b == o)) [
  | inl hit ↦
      let first : 0 ≡ pos = ground (arith, e, hit) in
      let same : b ≡ o = (==_iff b o).0 hit in rw (sym first) (ap some same, omega arith)
  | inr miss ↦
      let e1 : (position o l >>= λ i. some (suc i)) ≡ some pos = ground (arith, e, miss) in
      let (i, e2, e3) = >>=-eq-some (position o l) _ e1 in
      let later : suc i ≡ pos = ground (arith, e3) in
      let (at, below) = position-nth o l i e2 in rw (sym later) (at, omega (arith, below))
]

not_at : (o : ℕ) (l : List ℕ) (i : ℕ) → contains l o ≡ false → is_at o (nth i l) ≡ false
not_at o [] i h = refl
not_at o (b ∷ l) zero h = ground (arith, h)
not_at o (b ∷ l) (suc i) h = not_at o l i (ground (arith, h))

pub contains-position :
    (o : ℕ) (l : List ℕ) (pos : ℕ) → position o l ≡ some pos → contains l o ≡ true
unfolding position
contains-position o [] pos e = absurd (cc)
contains-position o (b ∷ l) pos e = elim (Bool-cases (b == o)) [
  | inl hit ↦ ground (arith, hit)
  | inr miss ↦
      let e1 : (position o l >>= λ i. some (suc i)) ≡ some pos = ground (arith, e, miss) in
      let (i, e2, _) = >>=-eq-some (position o l) _ e1 in ground (arith, contains-position o l i e2)
]

at_first :
    (o b : ℕ) (l : List ℕ) (i : ℕ)
    → b ≡ o
    → contains l b ≡ false
    → (0 == i) ≡ is_at o (nth i (b ∷ l))
at_first o b l zero same fresh = ground (arith, same)
at_first o b l (suc i) same fresh =
    let absent = not_at o l i (ap (contains l) (sym same) ∙ fresh) in
    let apart : (0 == suc i) ≡ false = ground arith in apart ∙ sym absent

at_later :
    (o b : ℕ) (l : List ℕ) (i j : ℕ)
    → (b == o) ≡ false
    → ((k : ℕ) → (j == k) ≡ is_at o (nth k l))
    → (suc j == i) ≡ is_at o (nth i (b ∷ l))
at_later o b l zero j miss ih = ground (arith, miss)
at_later o b l (suc i) j miss ih =
    let shift : (suc j == suc i) ≡ (j == i) = ground arith in shift ∙ ih i

pub position-is_at :
    (o : ℕ) (l : List ℕ) (pos i : ℕ)
    → AllDiffer l
    → position o l ≡ some pos
    → (pos == i) ≡ is_at o (nth i l)
unfolding position
position-is_at o [] pos i d e = absurd (cc)
position-is_at o (b ∷ l) pos i (fresh, d) e = elim (Bool-cases (b == o)) [
  | inl hit ↦
      let first : 0 ≡ pos = ground (arith, e, hit) in
      rw (sym first) (at_first o b l i ((==_iff b o).0 hit) fresh)
  | inr miss ↦
      let e1 : (position o l >>= λ j. some (suc j)) ≡ some pos = ground (arith, e, miss) in
      let (j, e2, e3) = >>=-eq-some (position o l) _ e1 in
      let later : suc j ≡ pos = ground (arith, e3) in
      rw (sym later) (at_later o b l i j miss (λ k. position-is_at o l j k d e2))
]
