-- ===== src/Invoice/Wout.antt =====
-- `WitnessOut` of invoice/src/bp.rs: an address with a salt, and its text in base 64 with a checksum.
use rgb_std.Base.{
  ℕ, zero, suc, ◌/◌, ◌%◌, Bool, true, false, ◌&&◌, Option, none, some, List, [], ◌∷◌, ◌++◌, ◌>>=◌,
  ◌==◌, if◌then◌else◌, Result, ok, err,
}
use rgb_std.Base.Results.{◌>>=◌ as bind}
use rgb_std.Invoice.Text.{wout_hri, colon, strip_prefix, remove_dashes, chunks, split_last_chunk}

-- The crates for addresses, hashes, base 64 and strict encoding. The serialization of an output is
-- that of its salt and its address; `none` says that it is too long.
pub record Codecs : Type 1 where
  pub AddressPayload : Type 0
  pub DecodeError : Type 0
  pub DeserializeError : Type 0
  pub script_bytes : AddressPayload → List ℕ
  -- `Sha256::digest`, 32 bytes.
  pub digest : List ℕ → List ℕ
  pub encode : List ℕ → List ℕ
  pub decode : List ℕ → Result DecodeError (List ℕ)
  pub to_strict_serialized : ℕ → AddressPayload → Option (List ℕ)
  pub from_strict_serialized : List ℕ → Result DeserializeError (ℕ × AddressPayload)
  -- `TinyBlob::try_from_slice`.
  pub try_from_slice : List ℕ → Option (List ℕ)

-- The bytes of a number, the least first.
unfoldable pub to_le_bytes : ℕ → ℕ → List ℕ
to_le_bytes zero n = []
to_le_bytes (suc width) n = n % 256 ∷ to_le_bytes width (n / 256)

-- The byte of a hash at an index.
abbrev pub byte : ℕ → List ℕ → ℕ
byte i [] = 0
byte zero (b ∷ l) = b
byte (suc i) (b ∷ l) = byte i l

abbrev pub same_bytes : List ℕ → List ℕ → Bool
same_bytes [] [] = true
same_bytes (a ∷ as') (b ∷ bs) = a == b && same_bytes as' bs
same_bytes _ _ = false

-- The loop that writes the chunks, with a dash after each but the last.
unfoldable pub write_chunks : List (List ℕ) → List ℕ
write_chunks [] = []
write_chunks (chunk ∷ []) = chunk
write_chunks (chunk ∷ next ∷ rest) = chunk ++ (b'-' ∷ write_chunks (next ∷ rest))

module _ (K : Codecs) where
  pub record WitnessOut : Type 0 where
    pub salt : ℕ
    pub address : K.AddressPayload

  pub new : K.AddressPayload → ℕ → WitnessOut
  new address salt = record { salt = salt; address = address }

  unfoldable script_pubkey : WitnessOut → List ℕ
  script_pubkey wout = K.script_bytes wout.address

  -- A hash of 32 bytes and 8 bytes 0xFF.
  unfoldable noise : WitnessOut → List ℕ
  unfolding to_le_bytes script_pubkey
  noise wout =
      K.digest (to_le_bytes 8 wout.salt ++ script_pubkey wout)
      ++ (255 ∷ 255 ∷ 255 ∷ 255 ∷ 255 ∷ 255 ∷ 255 ∷ 255 ∷ [])

  unfoldable pub checksum : WitnessOut → List ℕ
  unfolding to_le_bytes script_pubkey
  checksum wout =
      let key = K.digest wout_hri in
      let sha = K.digest (key ++ (0 ∷ (to_le_bytes 8 wout.salt ++ script_pubkey wout))) in
      byte 0 sha ∷ byte 1 sha ∷ byte 1 sha ∷ byte 2 sha ∷ []

  -- `none` is the panic at a script that is too long.
  unfoldable pub to_string : WitnessOut → Option (List ℕ)
  unfolding write_chunks chunks
  to_string wout = K.to_strict_serialized wout.salt wout.address >>= λ bytes.
      some (wout_hri ++ (colon ++ write_chunks (chunks (K.encode (bytes ++ checksum wout)))))

  pub data ParseWitnessOutError : Type 0 where
    no_prefix : ParseWitnessOutError
    no_checksum : ParseWitnessOutError
    invalid_checksum : ParseWitnessOutError
    base64 : K.DecodeError → ParseWitnessOutError
    too_long : ParseWitnessOutError
    encoding : K.DeserializeError → ParseWitnessOutError

  abbrev pub or_err : {A : Type 0} → ParseWitnessOutError → Option A → Result ParseWitnessOutError A
  or_err e none = err e
  or_err e (some a) = ok a

  abbrev pub decoded : Result K.DecodeError (List ℕ) → Result ParseWitnessOutError (List ℕ)
  decoded (ok bytes) = ok bytes
  decoded (err e) = err (base64 e)

  abbrev pub deserialized :
      Result K.DeserializeError (ℕ × K.AddressPayload) → Result ParseWitnessOutError WitnessOut
  deserialized (ok (salt, address)) = ok (record { salt = salt; address = address })
  deserialized (err e) = err (encoding e)

  unfoldable pub from_str : List ℕ → Result ParseWitnessOutError WitnessOut
  unfolding strip_prefix remove_dashes split_last_chunk
  from_str s = bind (or_err no_prefix (strip_prefix wout_hri s >>= strip_prefix colon)) λ rest.
      bind (decoded (K.decode (remove_dashes rest))) λ bytes.
        bind (or_err no_checksum (split_last_chunk bytes)) λ parts.
          bind (or_err too_long (K.try_from_slice parts.0)) λ blob.
            bind (deserialized (K.from_strict_serialized blob))
              λ wout. if same_bytes parts.1 (checksum wout) then ok wout else err invalid_checksum
