-- ===== src/Tests/Invoices.antt =====
-- The theorems on the texts of invoices at concrete inputs.
use rgb_std.Base.{
  ℕ, ◌+◌, ◌-◌, ◌≡◌, refl, true, false, Option, none, some, List, [], ◌∷◌, ◌++◌, ◌>>=◌, arith, ◌==◌,
  ltb, if◌then◌else◌, contains, length, Result, ok, err,
}
use rgb_std.Invoice.{Formats, ContractQuery, query_from_str, query_display}
use rgb_std.Invoice.Text.{wout_hri, colon, strip_prefix, remove_dashes, chunks}
use rgb_std.Invoice.Wout.{Codecs, WitnessOut, write_chunks, checksum, to_string, from_str}
use rgb_std.Invoice.RoundTrip.{CodecsLaws}
use rgb_std.Invoice.Parsed.{from_str-to_string, from_str-checksum}
use rgb_std.Invoice.Queries.{FormatsLaws, query_from_str-display}

-- A digit is its code less 46, which no dash is.
abbrev encode : List ℕ → List ℕ
encode [] = []
encode (b ∷ bytes) = (b + 46) ∷ encode bytes

abbrev decoded_cons : ℕ → Result ℕ (List ℕ) → Result ℕ (List ℕ)
decoded_cons c (err e) = err e
decoded_cons c (ok bytes) = if ltb c 46 then err c else ok ((c - 46) ∷ bytes)

abbrev decode : List ℕ → Result ℕ (List ℕ)
decode [] = ok []
decode (c ∷ s) = decoded_cons c (decode s)

abbrev of_bytes : List ℕ → Result ℕ (ℕ × ℕ)
of_bytes (salt ∷ address ∷ []) = ok (salt, address)
of_bytes _ = err 0

abbrev codecs : Codecs
codecs = record {
  AddressPayload = ℕ;
  DecodeError = ℕ;
  DeserializeError = ℕ;
  script_bytes = λ a. a ∷ [];
  digest = λ bytes. bytes;
  encode = encode;
  decode = decode;
  to_strict_serialized = λ salt address. some (salt ∷ address ∷ []);
  from_strict_serialized = of_bytes;
  try_from_slice = λ bytes. if ltb 255 (length bytes) then none else some bytes;
}

decode-encode : (bytes : List ℕ) → decode (encode bytes) ≡ ok bytes
decode-encode [] = refl
decode-encode (b ∷ bytes) = rw (decode-encode bytes) (ground arith)

encode_lacks : (bytes : List ℕ) → contains (encode bytes) b'-' ≡ false
encode_lacks [] = refl
encode_lacks (b ∷ bytes) = ground (arith, encode_lacks bytes)

codecs_laws : CodecsLaws codecs
codecs_laws = record {
  decode-encode = decode-encode;
  encode_lacks = encode_lacks;
  from-to = λ salt address bytes e. ground (arith, e);
  fits = λ salt address bytes e. ground (arith, e);
  try_from_slice-same = λ bytes blob e. ground (arith, e);
}

abbrev output : WitnessOut codecs
output = record { salt = 7; address = 9 }

abbrev text : List ℕ
text =
    wout_hri ++ (colon ++ write_chunks (chunks (encode (7 ∷ 9 ∷ b'w' ∷ b'o' ∷ b'o' ∷ b'u' ∷ []))))

printed : to_string codecs output ≡ some text
unfolding to_string checksum
printed = refl

from_str-to_string_example : from_str codecs text ≡ ok output
from_str-to_string_example = from_str-to_string codecs codecs_laws output text printed

read_back : from_str codecs text ≡ ok output
unfolding from_str checksum write_chunks chunks
read_back = refl

from_str-checksum_example :
    (rest bytes : List ℕ) × ((strip_prefix wout_hri text >>= strip_prefix colon) ≡ some rest)
    × (decode (remove_dashes rest) ≡ ok (bytes ++ checksum codecs output))
    × (of_bytes bytes ≡ ok (7, 9))
from_str-checksum_example = from_str-checksum codecs codecs_laws text output read_back

abbrev text_of : ℕ → ℕ → List ℕ
text_of kind n = kind ∷ n ∷ []

abbrev of_kind : ℕ → List ℕ → Option ℕ
of_kind kind (c ∷ n ∷ []) = if c == kind then some n else none
of_kind kind _ = none

abbrev wout_of : Option ℕ → Result ℕ ℕ
wout_of none = err 0
wout_of (some n) = ok n

abbrev formats : Formats
formats = record {
  WitnessOut = ℕ;
  WitnessOutError = ℕ;
  Baid64ParseError = ℕ;
  Consensus = ℕ;
  token_from_str = of_kind b'a';
  token_display = text_of b'a';
  wout_from_str = λ s. wout_of (of_kind b'w' s);
  wout_display = text_of b'w';
  consensus_from_str = of_kind b'b';
  consensus_display = text_of b'b';
}

formats_laws : FormatsLaws formats
unfolding strip_prefix
formats_laws = record {
  token = λ auth. refl;
  wout = λ w. refl;
  no_token = λ w. refl;
  consensus = λ c. refl;
  no_testnet = λ c. refl;
}

abbrev query : ContractQuery formats
query = record { consensus = 3; testnet = true }

query_from_str-display_example : query_from_str formats (query_display formats query) ≡ some query
query_from_str-display_example = query_from_str-display formats formats_laws query
