-- ===== src/Invoice/Parsed.antt =====
-- `Display` and `FromStr` of `WitnessOut` in invoice/src/bp.rs against one another.
use rgb_std.Base.{
  ℕ, ◌≡◌, refl, sym, ap, ◌∙◌, inl, inr, Option, none, some, List, ◌++◌, ◌>>=◌, >>=-eq-some, arith,
  if◌then◌else◌, Bool-cases, Result, ok, err,
}
use rgb_std.Base.Results.{>>=-eq-ok as bind-eq-ok}
use rgb_std.Invoice.Text.{wout_hri, colon, strip_prefix, remove_dashes, chunks, split_last_chunk}
use rgb_std.Invoice.Wout.{
  Codecs, WitnessOut, write_chunks, checksum, same_bytes, to_string, from_str, ParseWitnessOutError,
  invalid_checksum, or_err, decoded, deserialized,
}
use rgb_std.Invoice.RoundTrip.{
  CodecsLaws, strip_prefix-append, remove_dashes_none, joined-chunks, remove_dashes-write_chunks,
  split_last_chunk-append, split_last_chunk-same, same_bytes_refl, same_bytes-eq,
}

module _ (K : Codecs) (laws : CodecsLaws K) where
  last_checksum :
      (bytes : List ℕ) (wout : WitnessOut K)
      → split_last_chunk (bytes ++ checksum K wout) ≡ some (bytes, checksum K wout)
  unfolding checksum
  last_checksum bytes wout = split_last_chunk-append bytes _ _ _ _

  -- An output that has a text is read back from it.
  pub from_str-to_string :
      (wout : WitnessOut K) (s : List ℕ) → to_string K wout ≡ some s → from_str K s ≡ ok wout
  unfolding to_string from_str
  from_str-to_string wout s e =
      let (bytes, written, e1) = >>=-eq-some (K.to_strict_serialized wout.salt wout.address) _ e in
      let all = bytes ++ checksum K wout in
      let text = write_chunks (chunks (K.encode all)) in
      let is : wout_hri ++ (colon ++ text) ≡ s = ground (arith, e1) in
      let clean : remove_dashes text ≡ K.encode all =
        remove_dashes-write_chunks (chunks (K.encode all))
        ∙ ap remove_dashes (joined-chunks (K.encode all))
        ∙ remove_dashes_none (K.encode all) (laws.encode_lacks all) in
      let prefix : (strip_prefix wout_hri s >>= strip_prefix colon) ≡ some text =
        ap (λ r. strip_prefix wout_hri r >>= strip_prefix colon) (sym is)
        ∙ ap (λ r. r >>= strip_prefix colon) (strip_prefix-append wout_hri (colon ++ text))
        ∙ strip_prefix-append colon text in
      let split : split_last_chunk all ≡ some (bytes, checksum K wout) = last_checksum bytes wout in
      rw
        (
          prefix,
          clean,
          laws.decode-encode all,
          split,
          laws.fits wout.salt wout.address bytes written,
          laws.from-to wout.salt wout.address bytes written,
          same_bytes_refl (checksum K wout),
        )
        refl

  or_err-ok :
      {A : Type 0} (e : ParseWitnessOutError K) (o : Option A) (a : A)
      → or_err K e o ≡ ok a
      → o ≡ some a
  or_err-ok e none a h = absurd (cc)
  or_err-ok e (some b) a h = ground (arith, h)

  decoded-ok :
      (r : Result K.DecodeError (List ℕ)) (bytes : List ℕ) → decoded K r ≡ ok bytes → r ≡ ok bytes
  decoded-ok (ok b) bytes h = ground (arith, h)
  decoded-ok (err e) bytes h = absurd (cc)

  deserialized-ok :
      (r : Result K.DeserializeError (ℕ × K.AddressPayload)) (wout : WitnessOut K)
      → deserialized K r ≡ ok wout
      → r ≡ ok (wout.salt, wout.address)
  deserialized-ok (ok (salt, address)) wout h =
      let is : record { salt = salt; address = address } ≡ wout = ground (arith, h) in
      ap (λ (w : WitnessOut K). ok (w.salt, w.address)) is
  deserialized-ok (err e) wout h = absurd (cc)

  checked_output :
      (read : WitnessOut K) (sum : List ℕ) (wout : WitnessOut K)
      → ◌≡◌ {A = Result (ParseWitnessOutError K) (WitnessOut K)}
          (if same_bytes sum (checksum K read) then ok read else err invalid_checksum)
          (ok wout)
      → (read ≡ wout) × (sum ≡ checksum K wout)
  checked_output read sum wout h = elim (Bool-cases (same_bytes sum (checksum K read))) [
    | inl matched ↦
        let is : read ≡ wout = ground (arith, matched, h) in
        (is, same_bytes-eq sum (checksum K read) matched ∙ ap (checksum K) is)
    | inr other ↦ absurd (ground (arith, other, h))
  ]

  -- A text that is read as an output has the prefix, and its base 64 data, without the dashes, are
  -- a serialization that reads as this output, followed by the output's checksum.
  pub from_str-checksum :
      (s : List ℕ) (wout : WitnessOut K)
      → from_str K s ≡ ok wout
      → (rest bytes : List ℕ) × ((strip_prefix wout_hri s >>= strip_prefix colon) ≡ some rest)
        × (K.decode (remove_dashes rest) ≡ ok (bytes ++ checksum K wout))
        × (K.from_strict_serialized bytes ≡ ok (wout.salt, wout.address))
  unfolding from_str
  from_str-checksum s wout e =
      let (rest, e0, e1) = bind-eq-ok _ _ e in
      let (bytes, e2, e3) = bind-eq-ok _ _ e1 in
      let (parts, e4, e5) = bind-eq-ok _ _ e3 in
      let (blob, e6, e7) = bind-eq-ok _ _ e5 in
      let (read, e8, e9) = bind-eq-ok _ _ e7 in
      let same = split_last_chunk-same bytes parts (or_err-ok _ _ parts e4) in
      let all = laws.try_from_slice-same parts.0 blob (or_err-ok _ _ blob e6) in
      let (is, sum) = checked_output read parts.1 wout e9 in
      let ends : bytes ≡ parts.0 ++ checksum K wout = same ∙ ap (λ c. parts.0 ++ c) sum in
      (
        rest,
        parts.0,
        or_err-ok _ _ rest e0,
        decoded-ok _ bytes e2 ∙ ap ok ends,
        ap K.from_strict_serialized (sym all) ∙ deserialized-ok _ wout (e8 ∙ ap ok is),
      )
