-- ===== src/PileFs/Refines.antt =====
-- `PileFs` meets the laws of the trait `Pile`.
use rgb_std.Base.{ℕ, ◌≡◌, refl, sym, ◌∙◌, true, Option, none, some, is_some, contains, nat_eq}
use rgb_std.Status.{WitnessStatus}
use rgb_std.Seals.{RgbSeal, cell_addr_eq}
use rgb_std.Pile.{PileLaws}
use rgb_std.PileFs.{
  Files, PileFs, pile_fs, has_witness, pub_witness, cli_witness, witness_status, op_witness_ids,
  ops_by_witness_id,
}
use rgb_std.PileFs.Valid.{FilesLaws, IsValid, update_witness_status_lem, commit_transaction_lem}
use rgb_std.PileFs.Adding.{add_witness_lem}

module _ {S : RgbSeal} {F : Files S} (laws : FilesLaws F) where
  pub some_of : {A : Type 0} (o : Option A) → is_some o ≡ true → (a : A) × (o ≡ some a)
  some_of none h = absurd (cc)
  some_of (some a) h = (a, refl)

  status_known :
      (p : PileFs F) (w : ℕ)
      → IsValid p
      → has_witness F p w ≡ true
      → (st : WitnessStatus) × (witness_status F p w ≡ some st)
  unfolding has_witness witness_status
  status_known p w v h =
      some_of (F.mine.get p.mine w)
        (v.same_mine w ∙ sym (laws.hoard.contains_key-get p.hoard w) ∙ h)

  anchor_known :
      (p : PileFs F) (w : ℕ)
      → IsValid p
      → has_witness F p w ≡ true
      → (client : S.Client) × (published : S.Published) × (cli_witness F p w ≡ some client)
        × (pub_witness F p w ≡ some published)
  unfolding has_witness cli_witness pub_witness
  anchor_known p w v h =
      let stored = sym (laws.hoard.contains_key-get p.hoard w) ∙ h in
      let (client, c) = some_of (F.hoard.get p.hoard w) stored in
      let (published, e) = some_of (F.cache.get p.cache w) (v.same_cache w ∙ stored) in
      (client, published, c, e)

  index_known :
      (p : PileFs F) (o w : ℕ)
      → IsValid p
      → contains (op_witness_ids F p o) w ≡ true
      → has_witness F p w ≡ true
  unfolding op_witness_ids has_witness
  index_known p o w v h = laws.hoard.contains_key-get p.hoard w ∙ v.index_known o w h

  linked :
      (p : PileFs F) (o w : ℕ)
      → IsValid p
      → contains (op_witness_ids F p o) w ≡ contains (ops_by_witness_id F p w) o
  unfolding op_witness_ids ops_by_witness_id
  linked p o w v = v.mirrored o w

  -- The laws that the contract relies on, at this pile.
  unfoldable pub pile_fs_laws : PileLaws (pile_fs F)
  unfolding status_known anchor_known index_known linked
  pile_fs_laws = record {
    IsValid = IsValid;
    status_known = status_known;
    anchor_known = anchor_known;
    index_known = index_known;
    linked = linked;
    update = update_witness_status_lem laws;
    add = add_witness_lem laws;
    commit = commit_transaction_lem laws;
  }
