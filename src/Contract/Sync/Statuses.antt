-- ===== src/Contract/Sync/Statuses.antt =====
-- The witness statuses after `Contract::sync`, and a second call with the same changes.
use mathlib.Core.Path.{subst}
use rgb_std.Base.{
  ℕ, ◌≡◌, refl, sym, ◌∙◌, inl, inr, true, false, not, ◌&&◌, some, List, [], ◌∷◌, arith, ◌==◌,
  if◌then◌else◌, contains, Bool-cases, keys, lookup, All, lookup-insert, keys_listed, All-both,
  >>=-eq-some,
}
use rgb_std.Status.{WitnessStatus, eq_status}
use rgb_std.Status.Order.{eq_status→≡, eq_status_refl}
use rgb_std.Seals.{RgbSeal}
use rgb_std.Pile.{Pile, PileLaws, SameLinks}
use rgb_std.Contract.Sync.{
  Changes, note_change, sanitize, collect_ops, update_all, sort_ops, prepare,
}
use rgb_std.Contract.Sync.Exact.{prepare_total}

-- Every entry of the list for this witness has this status.
abbrev pub Agree : ℕ → WitnessStatus → Changes → Type 0
Agree w st [] = Unit {0}
Agree w st ((w', st') ∷ changed) = (w' ≡ w → st' ≡ st) × Agree w st changed

module _ {S : RgbSeal} {P : Pile S} (laws : PileLaws P) where
  open laws use {IsValid, status_known}

  absent-note_change :
      (s : P.Store) (w w1 : ℕ) (st1 : WitnessStatus) (m m1 : Changes)
      → (w1 == w) ≡ false
      → note_change P s w1 st1 m ≡ some m1
      → lookup w m1 ≡ lookup w m
  unfolding note_change
  absent-note_change s w w1 st1 m m1 c e = ground (arith, lookup-insert w1 w st1 m)

  absent-sanitize :
      (s : P.Store) (w : ℕ) (changed m m' : Changes)
      → contains (keys changed) w ≡ false
      → sanitize P s changed m ≡ some m'
      → lookup w m' ≡ lookup w m
  unfolding sanitize
  absent-sanitize s w [] m m' c e = ground arith
  absent-sanitize s w ((w1, st1) ∷ changed) m m' c e =
      let (m1, e1, e2) = >>=-eq-some (note_change P s w1 st1 m) (sanitize P s changed) e in
      absent-sanitize s w changed m1 m' (ground arith) e2
      ∙ absent-note_change s w w1 st1 m m1 (ground arith) e1

  lookup-note_change :
      (s : P.Store) (w w1 : ℕ) (st st1 prev : WitnessStatus) (m m1 : Changes)
      → P.has_witness s w ≡ true
      → P.witness_status s w ≡ some prev
      → (w1 ≡ w → st1 ≡ st)
      → note_change P s w1 st1 m ≡ some m1
      → lookup w m1 ≡ (if w1 == w && not (eq_status st prev) then some st else lookup w m)
  unfolding note_change
  lookup-note_change s w w1 st st1 prev m m1 has e a eq = elim (Bool-cases (w1 == w)) [
    | inr miss ↦ rw miss (absent-note_change s w w1 st1 m m1 miss eq)
    | inl hit ↦
        let same : w1 ≡ w = ground arith in ground (arith, lookup-insert w1 w st1 m, a same, same)
  ]

  -- A witness that the changes give one status is left in it.
  lookup-sanitize :
      (s : P.Store) (w : ℕ) (st prev : WitnessStatus) (changed m m' : Changes)
      → P.has_witness s w ≡ true
      → P.witness_status s w ≡ some prev
      → Agree w st changed
      → sanitize P s changed m ≡ some m'
      → lookup w m'
        ≡ (if contains (keys changed) w && not (eq_status st prev) then some st else lookup w m)
  unfolding sanitize
  lookup-sanitize s w st prev [] m m' has e a eq = ground arith
  lookup-sanitize s w st prev ((w1, st1) ∷ changed) m m' has e a eq =
      let (m1, e1, e2) = >>=-eq-some (note_change P s w1 st1 m) (sanitize P s changed) eq in
      ground (
        arith,
        lookup-sanitize s w st prev changed m1 m' has e a.1 e2,
        lookup-note_change s w w1 st st1 prev m m1 has e a.0 e1,
      )

  -- After the first four steps of `sync` on a valid pile a known witness that the changes name,
  -- always with one status, has that status, and a witness that they do not name has the status it
  -- had.
  pub prepare_statuses :
      (s t : P.Store) (changed : Changes) (sets : List ℕ × List ℕ)
      → IsValid s
      → prepare P s changed ≡ some (t, sets)
      → ((w : ℕ) (st : WitnessStatus)
          → P.has_witness s w ≡ true
          → contains (keys changed) w ≡ true
          → Agree w st changed
          → P.witness_status t w ≡ some st)
        × ((w : ℕ)
            → contains (keys changed) w ≡ false
            → P.witness_status t w ≡ P.witness_status s w)
  prepare_statuses s t changed sets v e =
      let p = prepare_total laws s changed v in
      let same : p.target ≡ t = ground (arith, p.prepared, e) in
      (
        λ w st has c a.
            let (prev, e') = status_known s w v has in
            ground (
              arith,
              p.updated.status w,
              lookup-sanitize s w st prev changed [] p.affected has e' a p.sanitized,
              eq_status→≡ st prev,
              same,
            ),
        λ w c. ground (
          arith,
          p.updated.status w,
          absent-sanitize s w changed [] p.affected c p.sanitized,
          same,
        ),
      )

  -- Each change names an unknown witness or the status that the witness has.
  abbrev AreKnown : P.Store → Changes → Type 0
  AreKnown s [] = Unit {0}
  AreKnown s ((w, st) ∷ changed) =
      (P.has_witness s w ≡ true → P.witness_status s w ≡ some st) × AreKnown s changed

  sanitize_nothing :
      (s : P.Store) (changed : Changes) → AreKnown s changed → sanitize P s changed [] ≡ some []
  unfolding sanitize note_change
  sanitize_nothing s [] h = refl
  sanitize_nothing s ((w, st) ∷ changed) h =
      ground (arith, sanitize_nothing s changed h.1, h.0, eq_status_refl st)

  prepare_nothing :
      (s : P.Store) (changed : Changes)
      → AreKnown s changed
      → prepare P s changed ≡ some (s, ([], []))
  unfolding prepare collect_ops update_all sort_ops
  prepare_nothing s changed h = rw (sanitize_nothing s changed h)

  -- The changes give no witness two statuses.
  abbrev pub IsConsistent : Changes → Type 0
  IsConsistent changed = All (λ (c : ℕ × WitnessStatus). Agree c.0 c.1 changed) changed

  known_after :
      (s t : P.Store) (changed rest : Changes) (sets : List ℕ × List ℕ)
      → IsValid s
      → prepare P s changed ≡ some (t, sets)
      → SameLinks P s t
      → All
          (λ (c : ℕ × WitnessStatus). (contains (keys changed) c.0 ≡ true) × Agree c.0 c.1 changed)
          rest
      → AreKnown t rest
  known_after s t changed [] sets v e links h = tt
  known_after s t changed ((w, st) ∷ rest) sets v e links h = (
    λ has.
        (prepare_statuses s t changed sets v e).0 w st (sym (links.same_witness w) ∙ has) h.0.0
          h.0.1,
    known_after s t changed rest sets v e links h.1,
  )

  -- Preparing `sync` on a valid pile a second time, with changes that give no witness two statuses,
  -- changes nothing and finds no operation to roll back or to forward.
  prepare_idempotent :
      (s t : P.Store) (changed : Changes) (sets : List ℕ × List ℕ)
      → IsValid s
      → IsConsistent changed
      → prepare P s changed ≡ some (t, sets)
      → prepare P t changed ≡ some (t, ([], []))
  prepare_idempotent s t changed sets v consistent e =
      let p = prepare_total laws s changed v in
      let same : p.target ≡ t = ground (arith, p.prepared, e) in
      prepare_nothing t changed (
        known_after s t changed changed sets v e (subst (SameLinks P s) same p.updated.links)
          (All-both _ _ changed (keys_listed changed) consistent))
