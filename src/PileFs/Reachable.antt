-- ===== src/PileFs/Reachable.antt =====
-- The piles that the operations of persistence/fs/src/pile.rs reach from a new one.
use mathlib.Core.Path.{subst}
use rgb_std.Base.{
  ℕ, ◌≡◌, inl, inr, true, ◌||◌, some, List, arith, ◌==◌, ==_iff, if◌then◌else◌, is_some,
  Option-cases, nat_eq, >>=-eq-some,
}
use rgb_std.Status.{WitnessStatus}
use rgb_std.Seals.{RgbSeal}
use rgb_std.PileFs.{
  Files, PileFs, new, has_witness, add_witness, add_seals, insert_seals, update_witness_status,
  commit_transaction,
}
use rgb_std.PileFs.Valid.{
  FilesLaws, IsValid, new-IsValid, update_witness_status_lem, commit_transaction_lem,
}

module _ {S : RgbSeal} (F : Files S) where
  -- One call that returns; the status of an unknown witness is not updated.
  pub data Reachable : PileFs F → Type 0 where
    created : Reachable (new F)
    witness_added :
        (p q : PileFs F) (o w : ℕ) (published : S.Published) (anchor : S.Client)
        (st : WitnessStatus)
        → Reachable p
        → add_witness F p o w published anchor st ≡ some q
        → Reachable q
    seals_added :
        (p q : PileFs F) (o : ℕ) (defs : List (ℕ × S.Definition))
        → Reachable p
        → add_seals F p o defs ≡ some q
        → Reachable q
    status_updated :
        (p q : PileFs F) (w : ℕ) (st : WitnessStatus)
        → Reachable p
        → has_witness F p w ≡ true
        → update_witness_status F p w st ≡ some q
        → Reachable q
    committed : (p : PileFs F) → Reachable p → Reachable (commit_transaction F p)

module _ {S : RgbSeal} {F : Files S} (laws : FilesLaws F) where
  -- Where the status file returns, the witness has a status and no other witness a new one.
  mine_known :
      (f g : F.mine.File) (w : ℕ) (st : WitnessStatus)
      → (if F.mine.contains_key f w then some f else F.mine.insert_only f w st) ≡ some g
      → (j : ℕ) → is_some (F.mine.get g j) ≡ (w == j || is_some (F.mine.get f j))
  mine_known f g w st e j = elim (Option-cases (F.mine.get f w)) [
    | inl fresh ↦
        let (g', e', look) = laws.mine.get-insert_only f w st fresh in
        ground (arith, laws.mine.contains_key-get f w, fresh, e, e', look j)
    | inr (old, known) ↦ ground (arith, laws.mine.contains_key-get f w, known, e, ==_iff w j)
  ]

  added-IsValid :
      (p q : PileFs F) (o w : ℕ) (published : S.Published) (anchor : S.Client) (st : WitnessStatus)
      → IsValid p
      → add_witness F p o w published anchor st ≡ some q
      → IsValid q
  unfolding add_witness
  added-IsValid p q o w published anchor st v e =
      let (hoard, e1, f1) = >>=-eq-some (F.hoard.insert p.hoard w anchor) _ e in
      let (cache, e2, f2) = >>=-eq-some (F.cache.insert p.cache w published) _ f1 in
      let (mine, e3, f3) =
        >>=-eq-some
          (if F.mine.contains_key p.mine w then some p.mine else F.mine.insert_only p.mine w st) _
          f2 in
      let r : PileFs F = record {
        hoard = hoard;
        cache = cache;
        keep = p.keep;
        index = F.index.push p.index o w;
        stand = F.stand.push p.stand w o;
        mine = mine;
      } in
      let same : r ≡ q = ground arith in
      let hoard_look = λ (j : ℕ). laws.hoard.get-insert p.hoard hoard w j anchor e1 in
      let cache_look = λ (j : ℕ). laws.cache.get-insert p.cache cache w j published e2 in
      let mine_look = mine_known p.mine mine w st e3 in
      subst IsValid same (record {
        same_mine = λ j. ground (arith, hoard_look j, mine_look j, v.same_mine j, ==_iff w j);
        same_cache = λ j. ground (arith, hoard_look j, cache_look j, v.same_cache j, ==_iff w j);
        same_keys = λ j.
            ground
              (arith, hoard_look j, laws.stand.keys-push p.stand w o j, v.same_keys j, ==_iff w j);
        index_known = λ o' j c. ground (
          arith,
          hoard_look j,
          laws.index.get-push p.index o w o' j,
          v.index_known o' j,
          ==_iff w j,
        );
        mirrored = λ o' j. ground (
          arith,
          laws.index.get-push p.index o w o' j,
          laws.stand.get-push p.stand w o j o',
          v.mirrored o' j,
        );
      })

  seals-IsValid :
      (p q : PileFs F) (o : ℕ) (defs : List (ℕ × S.Definition))
      → IsValid p
      → add_seals F p o defs ≡ some q
      → IsValid q
  unfolding add_seals
  seals-IsValid p q o defs v e =
      let (keep, e1, f1) = >>=-eq-some (insert_seals F p.keep o defs) _ e in
      let r : PileFs F = record p { keep = keep } in
      let same : r ≡ q = ground arith in
      subst IsValid same (record {
        same_mine = v.same_mine;
        same_cache = v.same_cache;
        same_keys = v.same_keys;
        index_known = v.index_known;
        mirrored = v.mirrored;
      })

  updated-IsValid :
      (p q : PileFs F) (w : ℕ) (st : WitnessStatus)
      → IsValid p
      → has_witness F p w ≡ true
      → update_witness_status F p w st ≡ some q
      → IsValid q
  updated-IsValid p q w st v has e =
      let (r, e', v', _, _) = update_witness_status_lem laws p w st v has in
      let same : r ≡ q = ground arith in subst IsValid same v'

  -- Every pile that the operations reach from a new one is valid: the same witnesses stand in all its
  -- files, and its two indexes mirror one another.
  pub Reachable-IsValid : (p : PileFs F) → Reachable F p → IsValid p
  Reachable-IsValid _ created = new-IsValid laws
  Reachable-IsValid _ (witness_added p q o w published anchor st r e) =
      added-IsValid p q o w published anchor st (Reachable-IsValid p r) e
  Reachable-IsValid _ (seals_added p q o defs r e) =
      seals-IsValid p q o defs (Reachable-IsValid p r) e
  Reachable-IsValid _ (status_updated p q w st r has e) =
      updated-IsValid p q w st (Reachable-IsValid p r) has e
  Reachable-IsValid _ (committed p r) = (commit_transaction_lem laws p (Reachable-IsValid p r)).0
