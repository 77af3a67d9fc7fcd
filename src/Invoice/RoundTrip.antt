-- ===== src/Invoice/RoundTrip.antt =====
-- The texts of invoice/src/bp.rs read back.
use mathlib.Core.List.{append-nil}
use rgb_std.Base.{
  ℕ, zero, suc, ◌-◌, ◌≡◌, refl, sym, ap, ap₂, ◌∙◌, inl, inr, true, false, some, List, [], ◌∷◌, ◌++◌,
  arith, ==_refl, ltb, Bool-cases, length, length-append, contains, ok,
}
use rgb_std.Invoice.Text.{strip_prefix, remove_dashes, chunks, take, drop, split_last_chunk}
use rgb_std.Invoice.Wout.{Codecs, write_chunks, same_bytes}

-- What the crates promise: each encoding reads back, and base 64 has no dash.
pub record CodecsLaws (K : Codecs) : Type 0 where
  pub decode-encode : (bytes : List ℕ) → K.decode (K.encode bytes) ≡ ok bytes
  pub encode_lacks : (bytes : List ℕ) → contains (K.encode bytes) b'-' ≡ false
  pub from-to :
      (salt : ℕ) (address : K.AddressPayload) (bytes : List ℕ)
      → K.to_strict_serialized salt address ≡ some bytes
      → K.from_strict_serialized bytes ≡ ok (salt, address)
  pub fits :
      (salt : ℕ) (address : K.AddressPayload) (bytes : List ℕ)
      → K.to_strict_serialized salt address ≡ some bytes
      → K.try_from_slice bytes ≡ some bytes
  pub try_from_slice-same :
      (bytes blob : List ℕ) → K.try_from_slice bytes ≡ some blob → blob ≡ bytes

pub strip_prefix-append : (p s : List ℕ) → strip_prefix p (p ++ s) ≡ some s
unfolding strip_prefix
strip_prefix-append [] s = refl
strip_prefix-append (c ∷ p) s = rw (==_refl c) (strip_prefix-append p s)

remove_dashes-append : (s t : List ℕ) → remove_dashes (s ++ t) ≡ remove_dashes s ++ remove_dashes t
unfolding remove_dashes
remove_dashes-append [] t = refl
remove_dashes-append (c ∷ s) t = ground (arith, remove_dashes-append s t)

pub remove_dashes_none : (s : List ℕ) → contains s b'-' ≡ false → remove_dashes s ≡ s
unfolding remove_dashes
remove_dashes_none [] h = refl
remove_dashes_none (c ∷ s) h = ground (arith, h, remove_dashes_none s)

pub joined : List (List ℕ) → List ℕ
joined [] = []
joined (chunk ∷ rest) = chunk ++ joined rest

pub joined-chunks : (s : List ℕ) → joined (chunks s) ≡ s
unfolding joined chunks
joined-chunks [] = refl
joined-chunks (a ∷ b ∷ c ∷ d ∷ e ∷ f ∷ g ∷ h ∷ s) =
    ap (λ r. a ∷ b ∷ c ∷ d ∷ e ∷ f ∷ g ∷ h ∷ r) (joined-chunks s)
joined-chunks (a ∷ []) = refl
joined-chunks (a ∷ b ∷ []) = refl
joined-chunks (a ∷ b ∷ c ∷ []) = refl
joined-chunks (a ∷ b ∷ c ∷ d ∷ []) = refl
joined-chunks (a ∷ b ∷ c ∷ d ∷ e ∷ []) = refl
joined-chunks (a ∷ b ∷ c ∷ d ∷ e ∷ f ∷ []) = refl
joined-chunks (a ∷ b ∷ c ∷ d ∷ e ∷ f ∷ g ∷ []) = refl

-- The dashes that are written are removed.
pub remove_dashes-write_chunks :
    (cs : List (List ℕ)) → remove_dashes (write_chunks cs) ≡ remove_dashes (joined cs)
unfolding write_chunks joined
remove_dashes-write_chunks [] = refl
remove_dashes-write_chunks (chunk ∷ []) = ap remove_dashes (sym (append-nil chunk))
remove_dashes-write_chunks (chunk ∷ next ∷ rest) =
    let ih = remove_dashes-write_chunks (next ∷ rest) in
    let dash : remove_dashes (b'-' ∷ write_chunks (next ∷ rest))
        ≡ remove_dashes (write_chunks (next ∷ rest)) =
      unfold remove_dashes in refl in
    remove_dashes-append chunk (b'-' ∷ write_chunks (next ∷ rest))
    ∙ ap (λ r. remove_dashes chunk ++ r) (dash ∙ ih)
    ∙ sym (remove_dashes-append chunk (joined (next ∷ rest)))

take-append : (s t : List ℕ) → take (length s) (s ++ t) ≡ s
take-append [] t = refl
take-append (c ∷ s) t = ap (λ r. c ∷ r) (take-append s t)

drop-append : (s t : List ℕ) → drop (length s) (s ++ t) ≡ t
drop-append [] t = refl
drop-append (c ∷ s) t = drop-append s t

take-drop : (n : ℕ) (s : List ℕ) → take n s ++ drop n s ≡ s
take-drop zero s = refl
take-drop (suc n) [] = refl
take-drop (suc n) (c ∷ s) = ap (λ r. c ∷ r) (take-drop n s)

pub split_last_chunk-append :
    (s : List ℕ) (a b c d : ℕ)
    → split_last_chunk (s ++ (a ∷ b ∷ c ∷ d ∷ [])) ≡ some (s, a ∷ b ∷ c ∷ d ∷ [])
unfolding split_last_chunk
split_last_chunk-append s a b c d =
    let t = a ∷ b ∷ c ∷ d ∷ [] in
    let size = length-append s t in
    let long : ltb (length (s ++ t)) 4 ≡ false = ground (arith, size) in
    let rest : length (s ++ t) - 4 ≡ length s = omega (arith, size) in
    rw (long, rest, take-append s t, drop-append s t) refl

pub split_last_chunk-same :
    (s : List ℕ) (parts : List ℕ × List ℕ)
    → split_last_chunk s ≡ some parts
    → s ≡ parts.0 ++ parts.1
unfolding split_last_chunk
split_last_chunk-same s parts e = elim (Bool-cases (ltb (length s) 4)) [
  | inl short ↦ absurd (ground (arith, e, short))
  | inr long ↦
      let same : some (take (length s - 4) s, drop (length s - 4) s) ≡ some parts = rw long at e in
      sym (take-drop (length s - 4) s) ∙ ground (arith, same)
]

pub same_bytes_refl : (s : List ℕ) → same_bytes s s ≡ true
same_bytes_refl [] = refl
same_bytes_refl (c ∷ s) = ground (arith, same_bytes_refl s)

pub same_bytes-eq : (s t : List ℕ) → same_bytes s t ≡ true → s ≡ t
same_bytes-eq [] [] h = refl
same_bytes-eq (c ∷ s) [] h = absurd (cc)
same_bytes-eq [] (d ∷ t) h = absurd (cc)
same_bytes-eq (c ∷ s) (d ∷ t) h =
    let rest : same_bytes s t ≡ true = ground (arith, h) in
    let first : c ≡ d = ground (arith, h) in ap₂ ◌∷◌ first (same_bytes-eq s t rest)
