-- ===== src/Tests/Piles.antt =====
-- The theorems on `PileFs` at the pile of two witnesses.
use rgb_std.Base.{ℕ, ◌≡◌, inl, refl, none, some, List, [], ◌∷◌}
use rgb_std.Status.{tentative}
use rgb_std.Pile.{Added}
use rgb_std.Seals.{cell_addr_eq}
use rgb_std.PileFs.{PileFs, cell_addr, has_witness, seal, add_witness}
use rgb_std.PileFs.Valid.{IsValid}
use rgb_std.PileFs.Adding.{add_witness_lem}
use rgb_std.PileFs.{new}
use rgb_std.PileFs.Reachable.{created, witness_added, Reachable-IsValid}
use rgb_std.Tests.Samples.{files, files_laws, pile, two_witnesses, two_witnesses-IsValid}

add_witness_lem_example :
    (q : PileFs files) × (add_witness files two_witnesses 2 5 5 50 tentative ≡ some q)
    × IsValid q
    × Added pile two_witnesses q 2 5 5 50 tentative
unfolding has_witness
add_witness_lem_example =
    add_witness_lem files_laws two_witnesses 2 5 5 50 tentative two_witnesses-IsValid (inl refl)

-- A second witness 4 with another anchor.
abbrev relinked : PileFs files
relinked = record two_witnesses {
  index = (2, 4) ∷ two_witnesses.index;
  stand = (4, 2) ∷ two_witnesses.stand;
}

abbrev two_seals : List (ℕ × ℕ)
two_seals = (0, 14) ∷ (3, 15) ∷ []

no_seal : (j : ℕ) → seal files two_witnesses (cell_addr 2 j) ≡ none
unfolding seal cell_addr_eq
no_seal j = refl

abbrev one_witness : PileFs files
one_witness = record {
  hoard = (4, 40) ∷ [];
  cache = (4, 4) ∷ [];
  keep = [];
  index = (1, 4) ∷ [];
  stand = (4, 1) ∷ [];
  mine = (4, tentative) ∷ [];
}

one_added : add_witness files (new files) 1 4 4 40 tentative ≡ some one_witness
unfolding add_witness new
one_added = refl

Reachable-IsValid_example : IsValid one_witness
Reachable-IsValid_example =
    Reachable-IsValid files_laws one_witness
      (witness_added (new files) one_witness 1 4 4 40 tentative created one_added)
