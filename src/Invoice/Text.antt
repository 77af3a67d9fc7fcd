-- ===== src/Invoice/Text.antt =====
-- The functions on texts that invoice/src uses of Rust.
use rgb_std.Base.{
  ℕ, zero, suc, ◌-◌, Option, none, some, List, [], ◌∷◌, ◌==◌, ltb, if◌then◌else◌, length,
}

-- `testnet@`, `wout` and `:`.
abbrev pub testnet : List ℕ
testnet = b't' ∷ b'e' ∷ b's' ∷ b't' ∷ b'n' ∷ b'e' ∷ b't' ∷ b'@' ∷ []

abbrev pub wout_hri : List ℕ
wout_hri = b'w' ∷ b'o' ∷ b'u' ∷ b't' ∷ []

abbrev pub colon : List ℕ
colon = b':' ∷ []

unfoldable pub strip_prefix : List ℕ → List ℕ → Option (List ℕ)
strip_prefix [] s = some s
strip_prefix (c ∷ p) [] = none
strip_prefix (c ∷ p) (d ∷ s) = if c == d then strip_prefix p s else none

-- `starts_with` is that there is a rest. Each round takes a part of the text, so its length is enough
-- fuel where the pattern is not empty.
unfoldable pub trim_start_matches : ℕ → List ℕ → List ℕ → List ℕ
trim_start_matches zero pattern s = s
trim_start_matches (suc fuel) pattern s = elim (strip_prefix pattern s) [
  | none ↦ s
  | some rest ↦ trim_start_matches fuel pattern rest
]

-- `replace('-', "")`.
unfoldable pub remove_dashes : List ℕ → List ℕ
remove_dashes [] = []
remove_dashes (c ∷ s) = if c == b'-' then remove_dashes s else c ∷ remove_dashes s

-- `chunks(8)`.
unfoldable pub chunks : List ℕ → List (List ℕ)
chunks [] = []
chunks (a ∷ b ∷ c ∷ d ∷ e ∷ f ∷ g ∷ h ∷ s) = (a ∷ b ∷ c ∷ d ∷ e ∷ f ∷ g ∷ h ∷ []) ∷ chunks s
chunks s = s ∷ []

abbrev pub take : ℕ → List ℕ → List ℕ
take zero s = []
take (suc n) [] = []
take (suc n) (c ∷ s) = c ∷ take n s

abbrev pub drop : ℕ → List ℕ → List ℕ
drop zero s = s
drop (suc n) [] = []
drop (suc n) (c ∷ s) = drop n s

-- `split_last_chunk::<4>`.
unfoldable pub split_last_chunk : List ℕ → Option (List ℕ × List ℕ)
split_last_chunk s =
    if ltb (length s) 4 then none else some (take (length s - 4) s, drop (length s - 4) s)
