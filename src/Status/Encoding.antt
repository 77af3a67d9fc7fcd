-- ===== src/Status/Encoding.antt =====
-- The 8-byte form of a status: `From<[u8; 8]>` and `From<WitnessStatus>` of src/pile.rs.
use mathlib.Core.List.{reverse-reverse}
use mathlib.Core.Path.{subst}
use native.Mathlib.Nat.{pow-suc}
use rgb_std.Base.{
  ℕ, zero, suc, ◌+◌, ◌-◌, ◌*◌, ◌/◌, ◌%◌, ◌^◌, ◌≤◌, ◌<◌, ◌≡◌, ◌↔◌, refl, ◌∙◌, List, [], ◌∷◌, reverse,
  arith, All, All-reverse, length, length-reverse,
}
use rgb_std.Status.{
  WitnessStatus, quasi_height, u64_max, IsCanonical, IsNonZero, from_bytes, to_bytes, of_height,
  to_be_bytes, from_be_bytes, to_le_bytes, from_le_bytes,
}

from-to_le_bytes : (k n : ℕ) → n < 256 ^ k → from_le_bytes (to_le_bytes k n) ≡ n
unfolding from_le_bytes to_le_bytes
from-to_le_bytes zero n h = omega arith
from-to_le_bytes (suc k) n h =
    omega (arith, from-to_le_bytes k (n / 256) (omega (arith, pow-suc 256 k)))

abbrev pub AreBytes : List ℕ → Type 0
AreBytes = All (λ b. b < 256)

to-from_le_bytes :
    (k : ℕ) (bs : List ℕ) → length bs ≡ k → AreBytes bs → to_le_bytes k (from_le_bytes bs) ≡ bs
unfolding from_le_bytes to_le_bytes
to-from_le_bytes zero [] l h = refl
to-from_le_bytes zero (b ∷ bs) l h = absurd (omega arith)
to-from_le_bytes (suc k) [] l h = absurd (omega arith)
to-from_le_bytes (suc k) (b ∷ bs) l h =
    let head : (b + 256 * from_le_bytes bs) % 256 ≡ b = omega arith in
    let rest : (b + 256 * from_le_bytes bs) / 256 ≡ from_le_bytes bs = omega arith in
    rw (head, rest, to-from_le_bytes k bs (omega arith) h.1)

from_le_bytes-lt : (bs : List ℕ) → AreBytes bs → from_le_bytes bs < 256 ^ length bs
unfolding from_le_bytes
from_le_bytes-lt [] h = omega arith
from_le_bytes-lt (b ∷ bs) h = omega (arith, from_le_bytes-lt bs h.1, pow-suc 256 (length bs))

from-to_be_bytes : (n : ℕ) → n < 2 ^ 64 → from_be_bytes (to_be_bytes n) ≡ n
unfolding from_be_bytes to_be_bytes
from-to_be_bytes n h = rw (reverse-reverse (to_le_bytes 8 n)) (from-to_le_bytes 8 n (omega arith))

to-from_be_bytes : (bs : List ℕ) → length bs ≡ 8 → AreBytes bs → to_be_bytes (from_be_bytes bs) ≡ bs
unfolding from_be_bytes to_be_bytes
to-from_be_bytes bs l h =
    rw (to-from_le_bytes 8 (reverse bs) (length-reverse bs ∙ l) (All-reverse _ bs h))
      (reverse-reverse bs)

from_be_bytes-lt : (bs : List ℕ) → length bs ≡ 8 → AreBytes bs → from_be_bytes bs < 2 ^ 64
unfolding from_be_bytes
from_be_bytes-lt bs l h =
    let below = from_le_bytes-lt (reverse bs) (All-reverse _ bs h) in
    rw (length-reverse bs ∙ l) at below

height-of_height : (h : ℕ) → quasi_height (of_height h) ≡ h
unfolding of_height quasi_height
height-of_height h = ground arith

of_height-quasi_height : (s : WitnessStatus) → IsCanonical s → of_height (quasi_height s) ≡ s
unfolding of_height quasi_height
of_height-quasi_height s h = ground arith

of_height-IsCanonical : (h : ℕ) → h ≤ u64_max → IsCanonical (of_height h)
unfolding of_height
of_height-IsCanonical h le = ground arith

quasi_height-le : (s : WitnessStatus) → IsNonZero s → quasi_height s ≤ u64_max
unfolding quasi_height
quasi_height-le s h = ground arith

-- Reading back the bytes of a status gives the status of its height, for every non-zero height.
from_bytes-to_bytes_height :
    (s : WitnessStatus) → IsNonZero s → from_bytes (to_bytes s) ≡ of_height (quasi_height s)
unfolding from_bytes to_bytes
from_bytes-to_bytes_height s h =
    let le = quasi_height-le s h in
    let back : u64_max - (u64_max - quasi_height s) ≡ quasi_height s = omega arith in
    rw (from-to_be_bytes (u64_max - quasi_height s) (omega arith), back)

-- A status whose mined height is a non-zero `u64` reads back from its 8 bytes exactly if that
-- height is below the three values reserved for the off-chain, tentative and archived statuses.
pub from_bytes-to_bytes :
    (s : WitnessStatus) → IsNonZero s → (from_bytes (to_bytes s) ≡ s) ↔ IsCanonical s
from_bytes-to_bytes s h = (
  λ e. subst IsCanonical e (
      rw (from_bytes-to_bytes_height s h)
        (of_height-IsCanonical (quasi_height s) (quasi_height-le s h))),
  λ c. from_bytes-to_bytes_height s h ∙ of_height-quasi_height s c,
)

-- Any 8 bytes are the bytes of the status that they are read as, and that status is canonical.
to_bytes-from_bytes :
    (bs : List ℕ)
    → length bs ≡ 8
    → AreBytes bs
    → (to_bytes (from_bytes bs) ≡ bs) × IsCanonical (from_bytes bs)
unfolding from_bytes to_bytes
to_bytes-from_bytes bs l h =
    let lt = from_be_bytes-lt bs l h in
    let back : u64_max - (u64_max - from_be_bytes bs) ≡ from_be_bytes bs = omega arith in
    (
      rw (height-of_height (u64_max - from_be_bytes bs), back) (to-from_be_bytes bs l h),
      of_height-IsCanonical (u64_max - from_be_bytes bs) (omega arith),
    )
