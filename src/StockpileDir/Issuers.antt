-- ===== src/StockpileDir/Issuers.antt =====
-- What `import_issuer` of persistence/fs/src/stockpile.rs and of src/contracts.rs leaves.
use rgb_std.Base.{
  ℕ, ◌≡◌, ◌≢◌, refl, sym, ◌∙◌, ap, inl, inr, true, some, List, arith, ◌==◌, ==_iff, ==_refl,
  if◌then◌else◌, lookup, insert, lookup-insert, contains, contains-keys, is_some, or_else,
  Option-cases, Bool-cases, ok,
}
use rgb_std.Seals.{RgbSeal}
use rgb_std.Pile.{Pile}
use rgb_std.Ledger.{Ledger}
use rgb_std.Wire.{Wire}
use rgb_std.Host.{Host}
use rgb_std.Contracts.{Contracts, import_issuer, has_issuer, codex_ids, load}
use rgb_std.Contracts as Contracts
use rgb_std.Contracts.Issuers.{issuer_lem}
use rgb_std.StockpileDir.{StockpileDir, FileSystem, stockpile_dir, issuer}
use rgb_std.StockpileDir as Dir

-- An issuer that is saved at its path is loaded from there, other files stay as they are, and the
-- path of an issuer tells its codex.
pub record IssuerFiles {S : RgbSeal} {P : Pile S} {L : Ledger} {W : Wire S} {H : Host P L W}
    (D : FileSystem H) : Type 0 where
  pub saved :
      (disk disk' : H.Disk) (i : H.Issuer)
      → D.save_issuer disk (D.issuer_path (H.codex_name i) (H.codex_id i)) i ≡ (disk', ok tt)
      → D.load_issuer disk' (D.issuer_path (H.codex_name i) (H.codex_id i)) ≡ some i
  pub others :
      (disk disk' : H.Disk) (path other : H.Conf) (i : H.Issuer)
      → D.save_issuer disk path i ≡ (disk', ok tt)
      → other ≢ path
      → D.load_issuer disk' other ≡ D.load_issuer disk other
  pub path_codex :
      (name name' id id' : ℕ) → D.issuer_path name id ≡ D.issuer_path name' id' → id ≡ id'

module _ {S : RgbSeal} {P : Pile S} {L : Ledger} {W : Wire S} {H : Host P L W} (D : FileSystem H)
    (files : IssuerFiles D) where
  abbrev with_saved : StockpileDir D → H.Issuer → H.Disk → StockpileDir D
  with_saved d i disk = record d {
    disk = disk;
    issuers = insert (H.codex_id i) (H.codex_name i) d.issuers;
  }

  -- The stored issuers after an import.
  issuer-with_saved :
      (d : StockpileDir D) (i : H.Issuer) (disk : H.Disk)
      → D.save_issuer d.disk (D.issuer_path (H.codex_name i) (H.codex_id i)) i ≡ (disk, ok tt)
      → (id : ℕ)
      → issuer D (with_saved d i disk) id ≡ (if H.codex_id i == id then some i else issuer D d id)
  unfolding issuer
  issuer-with_saved d i disk e id = elim (Bool-cases (H.codex_id i == id)) [
    | inl same ↦
        let is : H.codex_id i ≡ id = (==_iff (H.codex_id i) id).0 same in
        rw (lookup-insert (H.codex_id i) id (H.codex_name i) d.issuers, same)
          (ap (λ j. D.load_issuer disk (D.issuer_path (H.codex_name i) j)) (sym is)
            ∙ files.saved d.disk disk i e)
    | inr other ↦ elim (Option-cases (lookup id d.issuers)) [
      | inl missing ↦
          rw (lookup-insert (H.codex_id i) id (H.codex_name i) d.issuers, other, missing) refl
      | inr (name, listed) ↦
          let apart : D.issuer_path name id ≢ D.issuer_path (H.codex_name i) (H.codex_id i) =
            λ same. absurd (ground (arith, other, files.path_codex name _ id _ same)) in
          rw (lookup-insert (H.codex_id i) id (H.codex_name i) d.issuers, other, listed)
            (files.others d.disk disk _ _ i e apart)
    ]
  ]

  current-imported :
      (m : List (ℕ × H.Issuer)) (d : StockpileDir D) (i : H.Issuer) (disk : H.Disk)
      → D.save_issuer d.disk (D.issuer_path (H.codex_name i) (H.codex_id i)) i ≡ (disk, ok tt)
      → (id : ℕ)
      → or_else (lookup id (insert (H.codex_id i) i m)) (issuer D (with_saved d i disk) id)
        ≡ (if H.codex_id i == id then some i else or_else (lookup id m) (issuer D d id))
  current-imported m d i disk e id = ground (
    arith,
    lookup-insert (H.codex_id i) id i m,
    issuer-with_saved d i disk e id,
    Bool-cases (H.codex_id i == id),
  )

  -- An issuer that is imported over a directory, where its file is saved, has its codex id listed
  -- and known, and is the issuer of that codex, also in a directory's contracts that have nothing
  -- in memory; every other codex has the issuer, or none, that it had.
  pub import_issuer-issuer :
      (cs : Contracts (stockpile_dir D)) (i : H.Issuer) (disk : H.Disk)
      → D.save_issuer cs.persistence.disk (D.issuer_path (H.codex_name i) (H.codex_id i)) i
        ≡ (disk, ok tt)
      → (cs' : Contracts (stockpile_dir D)) × (import_issuer (stockpile_dir D) cs i
          ≡ (cs', ok (H.codex_id i)))
        × (has_issuer (stockpile_dir D) cs' (H.codex_id i) ≡ true)
        × (contains (codex_ids (stockpile_dir D) cs') (H.codex_id i) ≡ true)
        × ((id : ℕ)
            → (Contracts.issuer (stockpile_dir D) cs' id).0 ≡ (
                if H.codex_id i == id
                then some i
                else (Contracts.issuer (stockpile_dir D) cs id).0))
        × ((id : ℕ)
            → (Contracts.issuer (stockpile_dir D) (load (stockpile_dir D) cs'.persistence) id).0 ≡ (
                if H.codex_id i == id
                then some i
                else (Contracts.issuer
                    (stockpile_dir D)
                    (load (stockpile_dir D) cs.persistence)
                    id).0))
  unfolding import_issuer Dir.import_issuer has_issuer codex_ids load
  import_issuer-issuer cs i disk e =
      let sp = stockpile_dir D in
      let d = with_saved cs.persistence i disk in
      let cs' : Contracts sp = record cs {
        persistence = d;
        issuers = insert (H.codex_id i) i cs.issuers;
      } in
      let found : lookup (H.codex_id i) d.issuers ≡ some (H.codex_name i) =
        rw
          (
            lookup-insert (H.codex_id i) (H.codex_id i) (H.codex_name i) cs.persistence.issuers,
            ==_refl (H.codex_id i),
          )
          refl in
      (
        cs',
        rw e refl,
        rw found refl,
        contains-keys (H.codex_id i) d.issuers ∙ ap is_some found,
        λ id.
            (issuer_lem sp cs' id).0
            ∙ current-imported cs.issuers cs.persistence i disk e id
            ∙ ap (λ o. if H.codex_id i == id then some i else o) (sym (issuer_lem sp cs id).0),
        λ id.
            (issuer_lem sp (load sp d) id).0
            ∙ issuer-with_saved cs.persistence i disk e id
            ∙ ap (λ o. if H.codex_id i == id then some i else o)
                (sym (issuer_lem sp (load sp cs.persistence) id).0),
      )
