-- ===== src/Contract/Include.antt =====
-- `Contract::include` of src/contract.rs: a witness for an operation enters the pile.
use mathlib.Core.Path.{subst}
use rgb_std.Base.{
  ℕ, ◌≤◌, ◌≡◌, refl, ◌⊎◌, inl, inr, true, false, ◌&&◌, ◌||◌, Option, none, some, arith, ◌==◌,
  ==_iff, ==_refl, if◌then◌else◌, ◌>>=◌, or_else, contains, Bool-cases,
}
use rgb_std.Status.{WitnessStatus, tentative, is_valid, quasi_height}
use rgb_std.Seals.{RgbSeal}
use rgb_std.Pile.{Pile, PileLaws}
use rgb_std.Ledger.{Ledger}
use rgb_std.Contract.{Contract}
use rgb_std.Contract.Status.{witness_status}
use rgb_std.Contract.Status.Best.{witness_status-BestOf}

module _ {S : RgbSeal} (P : Pile S) where
  -- The anchor to store: merged with the one that the pile has, if that is another one. An anchor
  -- that does not merge is a panic.
  unfoldable pub merged_anchor : P.Store → ℕ → S.Client → Option S.Client
  merged_anchor s wid anchor =
      if P.has_witness s wid
      then (do
        prev_anchor ← P.cli_witness s wid
        if S.client_eq.beq prev_anchor anchor then some prev_anchor else S.merge prev_anchor anchor)
      else some anchor

  module _ {L : Ledger} where
    unfoldable pub include : Contract P L → ℕ → S.Client → S.Published → Option (Contract P L)
    include c opid anchor published = do
      let wid = S.pub_id published
      anchor' ← merged_anchor c.pile wid anchor
      pile ← P.add_witness c.pile opid wid published anchor' tentative
      some (record c { pile = P.commit_transaction pile })

valid_at_tentative :
    (st : WitnessStatus) → quasi_height st ≤ quasi_height tentative → is_valid st ≡ true
unfolding quasi_height is_valid
valid_at_tentative st h = ground arith

module _ {S : RgbSeal} {P : Pile S} (laws : PileLaws P) where
  open laws use {IsValid, add, commit}

  -- An anchor that is new, or equal to the stored one, is stored as it is.
  merged_anchor_same :
      (s : P.Store) (w : ℕ) (anchor : S.Client)
      → (P.has_witness s w ≡ false) ⊎ (P.cli_witness s w ≡ some anchor)
      → merged_anchor P s w anchor ≡ some anchor
  unfolding merged_anchor
  merged_anchor_same s w anchor (inl e) = rw e
  merged_anchor_same s w anchor (inr e) = elim (Bool-cases (P.has_witness s w)) [
    | inr new ↦ rw new
    | inl has ↦ rw (has, e, (S.client_eq.beq_iff anchor anchor).1 refl)
  ]

  module _ {L : Ledger} where
    -- On a valid pile, for a witness that is new or known with the same anchor and transaction,
    -- `include` does not panic and leaves the ledger alone. The pile stays valid and has the
    -- operation linked to the witness; a new witness is tentative, a known one keeps its status, and
    -- all other links and statuses are as they were.
    pub include_lem :
        (c : Contract P L) (o : ℕ) (anchor : S.Client) (published : S.Published)
        → IsValid c.pile
        → (P.has_witness c.pile (S.pub_id published) ≡ false)
          ⊎ ((P.cli_witness c.pile (S.pub_id published) ≡ some anchor)
              × (P.pub_witness c.pile (S.pub_id published) ≡ some published))
        → (c' : Contract P L) × (include P c o anchor published ≡ some c')
          × IsValid c'.pile
          × (c'.ledger ≡ c.ledger)
          × ((o' w : ℕ)
              → contains (P.op_witness_ids c'.pile o') w
                ≡ (o == o' && S.pub_id published == w || contains (P.op_witness_ids c.pile o') w))
          × ((w : ℕ)
              → P.witness_status c'.pile w ≡ (
                  if S.pub_id published == w
                  then or_else (P.witness_status c.pile w) (some tentative)
                  else P.witness_status c.pile w))
    unfolding include
    include_lem c o anchor published v h =
        let wid = S.pub_id published in
        let same =
          merged_anchor_same c.pile wid anchor (elim h [ inl n ↦ inl n | inr e ↦ inr e.0 ]) in
        let (t, e, v', added) = add c.pile o wid published anchor tentative v h in
        let (v'', links, stat, _) = commit t v' in
        (
          record c { pile = P.commit_transaction t },
          rw (same, e),
          v'',
          refl,
          λ o' w. ground (arith, links.same_index o', added.added_index o' w),
          λ w. ground (arith, stat w, added.added_status w, ==_iff wid w),
        )

    -- From a valid pile, after `include` brought an operation a witness that was new and had no
    -- status, the operation is valid.
    include-is_valid :
        (c c' : Contract P L) (o : ℕ) (anchor : S.Client) (published : S.Published)
        → IsValid c.pile
        → P.has_witness c.pile (S.pub_id published) ≡ false
        → P.witness_status c.pile (S.pub_id published) ≡ none
        → include P c o anchor published ≡ some c'
        → (st : WitnessStatus) × (witness_status P c'.pile o ≡ some st) × (is_valid st ≡ true)
    include-is_valid c c' o anchor published v new unknown e =
        let wid = S.pub_id published in
        let (c1, e1, v1, _, links, stats) = include_lem c o anchor published v (inl new) in
        let same : c1 ≡ c' = ground (arith, e, e1) in
        let linked : contains (P.op_witness_ids c1.pile o) wid ≡ true =
          ground (arith, links o wid, ==_refl o, ==_refl wid) in
        let stat : P.witness_status c1.pile wid ≡ some tentative =
          ground (arith, stats wid, ==_refl wid, unknown) in
        let (st, e2, best) = witness_status-BestOf laws c1.pile o v1 in
        (
          st,
          subst (λ k. witness_status P k.pile o ≡ some st) same e2,
          elim best [
            | inl (empty, _) ↦ absurd (ground (arith, linked, empty))
            | inr (w, b) ↦ valid_at_tentative st (b.lower wid tentative linked stat)
          ],
        )
