-- ===== src/Contract/Sync/Steps.antt =====
-- The four steps that prepare `Contract::sync`, each run on a valid pile: it does not panic, and
-- what it returns is described by lookups.
use rgb_std.Base.{
  ℕ, ◌≡◌, refl, ◌∙◌, inl, inr, Bool, true, false, not, ◌&&◌, ◌||◌, Option, none, some, List, [],
  ◌∷◌, arith, ◌==◌, ==_iff, if◌then◌else◌, or_else, contains, Bool-cases, insert, keys, lookup,
  lookup-insert, contains-keys-insert, contains-keys, IsDistinct, insert-IsDistinct, contains-add,
}
use rgb_std.Status.{WitnessStatus, eq_status, is_valid}
use rgb_std.Seals.{RgbSeal}
use rgb_std.Pile.{Pile, PileLaws, SameLinks}
use rgb_std.Contract.Status.{witness_status}
use rgb_std.Contract.Status.Best.{witness_status-BestOf}
use rgb_std.Contract.Sync.{
  Changes, note_change, sanitize, note_ops, collect_ops, update_all, sort_op, sort_ops,
}

-- What became of an operation whose status `old` stands in `affected_ops`.
abbrev pub lost : Option WitnessStatus → WitnessStatus → Bool
lost none new = false
lost (some old) new = is_valid old && not (is_valid new)

abbrev pub gained : Option WitnessStatus → WitnessStatus → Bool
gained none new = false
gained (some old) new = is_valid new && not (is_valid old)

sort_op-contains :
    (old new : WitnessStatus) (opid o : ℕ) (sets : List ℕ × List ℕ)
    → (contains (sort_op old new opid sets).0 o
        ≡ (contains sets.0 o || (opid == o && lost (some old) new)))
      × (contains (sort_op old new opid sets).1 o
          ≡ (contains sets.1 o || (opid == o && gained (some old) new)))
sort_op-contains old new opid o sets =
    ground (arith, contains-add opid o sets.0, contains-add opid o sets.1)

module _ {S : RgbSeal} {P : Pile S} (laws : PileLaws P) where
  open laws use {IsValid, status_known, update}

  -- The changes that step 1 keeps: each witness once, and known to the pile.
  pub record IsSane (s : P.Store) (m : Changes) : Type 0 where
    pub distinct : IsDistinct m
    pub known : (w : ℕ) → contains (keys m) w ≡ true → P.has_witness s w ≡ true

  insert-IsSane :
      (s : P.Store) (w : ℕ) (st : WitnessStatus) (m : Changes)
      → P.has_witness s w ≡ true
      → IsSane s m
      → IsSane s (insert w st m)
  insert-IsSane s w st m has h = record {
    distinct = insert-IsDistinct w st m h.distinct;
    known = λ j c. ground (arith, contains-keys-insert w j st m, h.known j);
  }

  note_change_total :
      (s : P.Store) (w : ℕ) (st : WitnessStatus) (m : Changes)
      → IsValid s
      → IsSane s m
      → (m' : Changes) × (note_change P s w st m ≡ some m') × IsSane s m'
  unfolding note_change
  note_change_total s w st m v h = elim (Bool-cases (P.has_witness s w)) [
    | inr unknown ↦ (m, rw unknown, h)
    | inl has ↦
        let (prev, e) = status_known s w v has in
        elim (Bool-cases (eq_status st prev)) [
          | inl same ↦ (m, rw (has, e, same), h)
          | inr differs ↦ (insert w st m, rw (has, e, differs), insert-IsSane s w st m has h)
        ]
  ]

  pub sanitize_total :
      (s : P.Store) (changed m : Changes)
      → IsValid s
      → IsSane s m
      → (m' : Changes) × (sanitize P s changed m ≡ some m') × IsSane s m'
  unfolding sanitize
  sanitize_total s [] m v h = (m, refl, h)
  sanitize_total s ((w, st) ∷ changed) m v h =
      let (m1, e, h1) = note_change_total s w st m v h in
      let (m2, e', h2) = sanitize_total s changed m1 v h1 in (m2, rw (e, e'), h2)

  note_ops_total :
      (s : P.Store) (os : List ℕ) (m : Changes)
      → IsValid s
      → IsDistinct m
      → (m' : Changes) × (note_ops P s os m ≡ some m')
        × IsDistinct m'
        × ((o : ℕ) → lookup o m' ≡ (if contains os o then witness_status P s o else lookup o m))
  unfolding note_ops
  note_ops_total s [] m v d = (m, refl, d, λ o. refl)
  note_ops_total s (o1 ∷ os) m v d =
      let (st, e, _) = witness_status-BestOf laws s o1 v in
      let (m', e', d', look) =
        note_ops_total s os (insert o1 st m) v (insert-IsDistinct o1 st m d) in
      (m', rw (e, e'), d', λ o. ground (arith, look o, lookup-insert o1 o st m, ==_iff o1 o))

  -- Some witness of the list belongs to the operation.
  abbrev pub touched : P.Store → List ℕ → ℕ → Bool
  touched s [] o = false
  touched s (w ∷ ws) o = contains (P.ops_by_witness_id s w) o || touched s ws o

  pub collect_ops_total :
      (s : P.Store) (ws : List ℕ) (m : Changes)
      → IsValid s
      → IsDistinct m
      → (m' : Changes) × (collect_ops P s ws m ≡ some m')
        × IsDistinct m'
        × ((o : ℕ) → lookup o m' ≡ (if touched s ws o then witness_status P s o else lookup o m))
  unfolding collect_ops
  collect_ops_total s [] m v d = (m, refl, d, λ o. refl)
  collect_ops_total s (w ∷ ws) m v d =
      let (m1, e, d1, look) = note_ops_total s (P.ops_by_witness_id s w) m v d in
      let (m2, e', d2, look') = collect_ops_total s ws m1 v d1 in
      (m2, rw (e, e'), d2, λ o. ground (arith, look o, look' o))

  pub record Updated (s : P.Store) (m : Changes) (t : P.Store) : Type 0 where
    pub valid : IsValid t
    pub links : SameLinks P s t
    pub status : (j : ℕ) → P.witness_status t j ≡ or_else (lookup j m) (P.witness_status s j)

  links_trans : {s t u : P.Store} → SameLinks P s t → SameLinks P t u → SameLinks P s u
  links_trans h k = record {
    same_witness = λ w. k.same_witness w ∙ h.same_witness w;
    same_index = λ o. k.same_index o ∙ h.same_index o;
    same_stand = λ w. k.same_stand w ∙ h.same_stand w;
    same_seal = λ a. k.same_seal a ∙ h.same_seal a;
  }

  pub update_all_total :
      (s : P.Store) (m : Changes)
      → IsValid s
      → IsSane s m
      → (t : P.Store) × (update_all P s m ≡ some t) × Updated s m t
  unfolding update_all
  update_all_total s [] v h = (
    s,
    refl,
    record {
      valid = v;
      links = record {
        same_witness = λ w. refl;
        same_index = λ o. refl;
        same_stand = λ w. refl;
        same_seal = λ a. refl;
      };
      status = λ j. refl;
    },
  )
  update_all_total s ((w, st) ∷ m) v h =
      let (t, e, v', links, stat) = update s w st v (h.known w (ground arith)) in
      let sane : IsSane t m = record {
        distinct = h.distinct.1;
        known = λ j c. links.same_witness j ∙ h.known j (ground arith);
      } in
      let (u, e', up) = update_all_total t m v' sane in
      (
        u,
        rw (e, e'),
        record {
          valid = up.valid;
          links = links_trans links up.links;
          status =
              λ j. ground (arith, up.status j, stat j, contains-keys j m, ==_iff w j, h.distinct.0);
        },
      )

  pub sort_ops_total :
      (t : P.Store) (m : Changes) (sets : List ℕ × List ℕ)
      → IsValid t
      → IsDistinct m
      → (sets' : List ℕ × List ℕ) × (sort_ops P t m sets ≡ some sets')
        × ((o : ℕ) (new : WitnessStatus)
            → witness_status P t o ≡ some new
            → (contains sets'.0 o ≡ (contains sets.0 o || lost (lookup o m) new))
              × (contains sets'.1 o ≡ (contains sets.1 o || gained (lookup o m) new)))
  unfolding sort_ops
  sort_ops_total t [] sets v d = (sets, refl, λ o new e. ground arith)
  sort_ops_total t ((o1, old) ∷ m) sets v d =
      let (new1, e, _) = witness_status-BestOf laws t o1 v in
      let (sets', e', look) = sort_ops_total t m (sort_op old new1 o1 sets) v d.1 in
      (
        sets',
        rw (e, e'),
        λ o new en. ground (
          arith,
          look o new en,
          sort_op-contains old new1 o1 o sets,
          contains-keys o m,
          ==_iff o1 o,
          d.0,
        ),
      )
