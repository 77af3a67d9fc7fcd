-- ===== src/Contract/Sync/Exact.antt =====
-- What `Contract::sync` rolls back and forwards, and the witness statuses that it leaves.
use rgb_std.Base.{
  ℕ, ◌≡◌, refl, sym, ◌∙◌, true, false, not, ◌&&◌, none, some, List, [], ◌∷◌, arith, ==_iff,
  if◌then◌else◌, or_else, contains, keys, lookup, contains-keys,
}
use rgb_std.Status.{WitnessStatus, is_valid}
use rgb_std.Seals.{RgbSeal}
use rgb_std.Pile.{Pile, PileLaws, SameLinks}
use rgb_std.Contract.Status.{witness_status, statuses}
use rgb_std.Contract.Status.Best.{witness_status-BestOf}
use rgb_std.Contract.Sync.{Changes, sanitize, prepare}
use rgb_std.Contract.Sync.Steps.{
  lost, gained, Updated, touched, sanitize_total, collect_ops_total, update_all_total,
  sort_ops_total,
}

module _ {S : RgbSeal} {P : Pile S} (laws : PileLaws P) where
  open laws use {IsValid, status_known, update, linked}

  -- The witnesses of an operation that step 2 did not touch keep their status.
  statuses_untouched :
      (s t : P.Store) (m : Changes) (ids : List ℕ)
      → ((j : ℕ) → P.witness_status t j ≡ or_else (lookup j m) (P.witness_status s j))
      → ((w : ℕ) → contains ids w ≡ true → contains (keys m) w ≡ false)
      → statuses P t ids ≡ statuses P s ids
  unfolding statuses
  statuses_untouched s t m [] stat h = refl
  statuses_untouched s t m (w ∷ ws) stat h =
      let same : P.witness_status t w ≡ P.witness_status s w =
        ground (arith, stat w, contains-keys w m, h w) in
      rw (same, statuses_untouched s t m ws stat (λ w' c. h w' (ground arith)))

  touched_iff :
      (s : P.Store) (ws : List ℕ) (o w : ℕ)
      → touched laws s ws o ≡ false
      → contains (P.ops_by_witness_id s w) o ≡ true
      → contains ws w ≡ false
  touched_iff s [] o w h c = refl
  touched_iff s (w' ∷ ws) o w h c = ground (arith, touched_iff s ws o w, ==_iff w' w)

  witness_status_untouched :
      (s t : P.Store) (m : Changes) (o : ℕ)
      → IsValid s
      → Updated laws s m t
      → touched laws s (keys m) o ≡ false
      → witness_status P t o ≡ witness_status P s o
  unfolding witness_status
  witness_status_untouched s t m o v up h = rw (
    up.links.same_index o,
    statuses_untouched s t m (P.op_witness_ids s o) up.status
        (λ w c. touched_iff s (keys m) o w h (sym (linked s o w v) ∙ c)),
  )

  -- Exactly the operations that were valid and no longer are, and those that were not and now are.
  pub record IsExact (s t : P.Store) (sets : List ℕ × List ℕ) : Type 0 where
    rolled_back :
        (o : ℕ) (old new : WitnessStatus)
        → witness_status P s o ≡ some old
        → witness_status P t o ≡ some new
        → contains sets.0 o ≡ (is_valid old && not (is_valid new))
    forwarded :
        (o : ℕ) (old new : WitnessStatus)
        → witness_status P s o ≡ some old
        → witness_status P t o ≡ some new
        → contains sets.1 o ≡ (is_valid new && not (is_valid old))

  pub record Prepared (s : P.Store) (changed : Changes) : Type 0 where
    pub affected : Changes
    pub target : P.Store
    pub sets : List ℕ × List ℕ
    pub sanitized : sanitize P s changed [] ≡ some affected
    pub updated : Updated laws s affected target
    pub prepared : prepare P s changed ≡ some (target, sets)
    pub exact : IsExact s target sets

  sorted-IsExact :
      (s t : P.Store) (m ops : Changes) (sets : List ℕ × List ℕ)
      → IsValid s
      → Updated laws s m t
      → ((o : ℕ)
          → lookup o ops ≡ (if touched laws s (keys m) o then witness_status P s o else none))
      → ((o : ℕ) (new : WitnessStatus)
          → witness_status P t o ≡ some new
          → (contains sets.0 o ≡ lost (lookup o ops) new)
            × (contains sets.1 o ≡ gained (lookup o ops) new))
      → IsExact s t sets
  sorted-IsExact s t m ops sets v up look sorted = record {
    rolled_back = λ o old new eo en.
        ground (arith, look o, sorted o new en, witness_status_untouched s t m o v up);
    forwarded = λ o old new eo en.
        ground (arith, look o, sorted o new en, witness_status_untouched s t m o v up);
  }

  pub prepare_total : (s : P.Store) (changed : Changes) → IsValid s → Prepared s changed
  unfolding prepare
  prepare_total s changed v =
      let (m, e1, sane) =
        sanitize_total laws s changed [] v (record { distinct = tt; known = λ w c. absurd (cc) }) in
      let (ops, e2, d, look) = collect_ops_total laws s (keys m) [] v tt in
      let (t, e3, up) = update_all_total laws s m v sane in
      let (sets, e4, sorted) = sort_ops_total laws t ops ([], []) up.valid d in
      record {
        affected = m;
        target = t;
        sets = sets;
        sanitized = e1;
        updated = up;
        prepared = rw (e1, e2, e3, e4);
        exact = sorted-IsExact s t m ops sets v up look sorted;
      }

  -- On a valid pile the first four steps of `sync` do not panic. They leave a valid pile with the
  -- same witnesses, links and seals, and collect for the rollback exactly the operations that were
  -- valid and no longer are, and for the forward exactly those that were not valid and now are.
  pub prepare-IsExact :
      (s : P.Store) (changed : Changes)
      → IsValid s
      → (t : P.Store) × (sets : List ℕ × List ℕ) × (prepare P s changed ≡ some (t, sets))
        × IsValid t
        × SameLinks P s t
        × IsExact s t sets
  prepare-IsExact s changed v =
      let p = prepare_total s changed v in
      (p.target, p.sets, p.prepared, p.updated.valid, p.updated.links, p.exact)

  -- From a valid pile no operation is both rolled back and forwarded: the last `debug_assert` of
  -- `sync` holds.
  prepare_disjoint :
      (s t : P.Store) (changed : Changes) (sets : List ℕ × List ℕ) (o : ℕ)
      → IsValid s
      → prepare P s changed ≡ some (t, sets)
      → (contains sets.0 o && contains sets.1 o) ≡ false
  prepare_disjoint s t changed sets o v e =
      let p = prepare_total s changed v in
      let (old, eo, _) = witness_status-BestOf laws s o v in
      let (new, en, _) = witness_status-BestOf laws p.target o p.updated.valid in
      let same : p.sets ≡ sets = ground (arith, p.prepared, e) in
      ground (arith, p.exact.rolled_back o old new eo en, p.exact.forwarded o old new eo en, same)
