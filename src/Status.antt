-- ===== src/Status.antt =====
-- The witness status of src/pile.rs: `WitnessStatus` and its methods. A `u64` is a native number,
-- and `NonZeroU64` one that `IsNonZero` holds of. The 8 bytes of a status are a list of numbers.
pub mod Order
pub mod Encoding
use rgb_std.Base.{
  ℕ, zero, suc, ◌+◌, ◌-◌, ◌*◌, ◌/◌, ◌%◌, ◌^◌, ◌≤◌, ◌<◌, ◌≡◌, bit_xor, Bool, true, false, not, List,
  [], ◌∷◌, ◌==◌, ltb, if◌then◌else◌, reverse,
}

pub data WitnessStatus : Type 0 where
  genesis : WitnessStatus
  mined : ℕ → WitnessStatus
  offchain : WitnessStatus
  tentative : WitnessStatus
  archived : WitnessStatus

abbrev pub u64_max : ℕ
u64_max = 2 ^ 64 - 1

abbrev pub genesis_height : ℕ
genesis_height = 0

abbrev pub tentative_height : ℕ
tentative_height = bit_xor u64_max 0x01

abbrev pub offchain_height : ℕ
offchain_height = bit_xor u64_max 0x02

abbrev pub archived_height : ℕ
archived_height = u64_max

unfoldable is_mined : WitnessStatus → Bool
is_mined (mined h) = true
is_mined _ = false

unfoldable pub is_valid : WitnessStatus → Bool
is_valid archived = false
is_valid _ = true

unfoldable is_tentative : WitnessStatus → Bool
is_tentative tentative = true
is_tentative _ = false

unfoldable is_archived : WitnessStatus → Bool
is_archived archived = true
is_archived _ = false

unfoldable is_offchain : WitnessStatus → Bool
is_offchain offchain = true
is_offchain _ = false

unfoldable pub quasi_height : WitnessStatus → ℕ
quasi_height genesis = genesis_height
quasi_height archived = archived_height
quasi_height tentative = tentative_height
quasi_height offchain = offchain_height
quasi_height (mined height) = height

unfoldable pub is_better : WitnessStatus → WitnessStatus → Bool
unfolding quasi_height
is_better s other = ltb (quasi_height s) (quasi_height other)

unfoldable pub is_worse : WitnessStatus → WitnessStatus → Bool
unfolding is_better
is_worse s other = not (is_better s other)

unfoldable pub best : WitnessStatus → WitnessStatus → WitnessStatus
unfolding is_better
best s other = if is_better s other then s else other

unfoldable pub worst : WitnessStatus → WitnessStatus → WitnessStatus
unfolding is_worse
worst s other = if is_worse s other then s else other

-- The derived `PartialEq`.
unfoldable pub eq_status : WitnessStatus → WitnessStatus → Bool
eq_status genesis genesis = true
eq_status (mined a) (mined b) = a == b
eq_status offchain offchain = true
eq_status tentative tentative = true
eq_status archived archived = true
eq_status _ _ = false

-- The standard library's `to_be_bytes` and `from_be_bytes`, by way of the little-endian digits.
pub to_le_bytes : ℕ → ℕ → List ℕ
to_le_bytes zero n = []
to_le_bytes (suc k) n = (n % 256) ∷ to_le_bytes k (n / 256)

pub from_le_bytes : List ℕ → ℕ
from_le_bytes [] = 0
from_le_bytes (b ∷ bs) = b + 256 * from_le_bytes bs

pub to_be_bytes : ℕ → List ℕ
to_be_bytes n = reverse (to_le_bytes 8 n)

pub from_be_bytes : List ℕ → ℕ
from_be_bytes bs = from_le_bytes (reverse bs)

-- The `match` on the height that `From<[u8; 8]>` recovers.
pub of_height : ℕ → WitnessStatus
of_height height =
    if height == genesis_height
    then genesis
    else if height == archived_height
    then archived
    else if height == tentative_height
    then tentative
    else if height == offchain_height
    then offchain
    else mined height

-- `From<[u8; 8]> for WitnessStatus`.
pub from_bytes : List ℕ → WitnessStatus
from_bytes value = let depth = from_be_bytes value in of_height (u64_max - depth)

-- `From<WitnessStatus> for [u8; 8]`.
pub to_bytes : WitnessStatus → List ℕ
to_bytes value = let depth = u64_max - quasi_height value in to_be_bytes depth

-- What `NonZeroU64` promises of a mined height.
abbrev pub IsNonZero : WitnessStatus → Type 0
IsNonZero (mined h) = (1 ≤ h) × (h ≤ u64_max)
IsNonZero _ = Unit {0}

-- A height that does not run into the values reserved for the other statuses.
abbrev pub IsCanonical : WitnessStatus → Type 0
IsCanonical (mined h) = (1 ≤ h) × (h < offchain_height)
IsCanonical _ = Unit {0}
