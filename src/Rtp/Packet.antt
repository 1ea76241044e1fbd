-- ===== src/Rtp/Packet.antt =====
-- The RTP wire format of rfcvoip/RTP.py: `RTPMessage.parse` and `RTPClient._build_rtp_packet`,
-- with `byte_to_bits` and `add_bytes`.
pub mod Parts
pub mod RoundTrip
mod Tests
use Prim.Native.Nat.{bit_and, bit_or}
use mathlib.Core.List.{foldl}
use rfcvoip.Prelude.{
  ℕ, zero, suc, ◌+◌, ◌-◌, ◌*◌, ◌/◌, ◌%◌, ◌^◌, ◌≡◌, Bool, true, false, not, ◌||◌, Option, none, some,
  List, [], ◌∷◌, ◌++◌, length, take, drop, slice, contains, get_elem?, from_bytes, to_bytes, ltb,
  ◌==◌, if◌then◌else◌,
}
use rfcvoip.Prelude.Int.{ℤ, pos, negsuc}
use rfcvoip.Rtp.Payload.{PayloadType, of_number}

-- `RTPParseError` and its subclass `UnsupportedCodecError`, one constructor for each place that
-- raises them; `not_one_byte` is the `ValueError` of `byte_to_bits`.
pub data RtpError : Type 0 where
  not_one_byte : ℕ → RtpError
  packet_too_short : ℕ → RtpError
  version_not_compatible : ℕ → RtpError
  unsupported_codec : ℕ → RtpError
  truncated_csrc : RtpError
  truncated_extension_header : RtpError
  truncated_extension_payload : RtpError
  padding_without_payload : RtpError
  invalid_padding : RtpError
  payload_type_out_of_range : ℤ → RtpError

pub data Result {ℓ} (A : Type ℓ) : Type ℓ where
  err : (error : RtpError) → Result A
  ok : (value : A) → Result A

-- The statements behind a line that may raise.
infixl 5 ◌>>=◌
abbrev pub ◌>>=◌ {ℓ κ} : {A : Type ℓ} {B : Type κ} → Result A → (A → Result B) → Result B
err raised >>= next = err raised
ok value >>= next = next value

-- `if test: raise error`
abbrev pub raise_if : Bool → RtpError → Result (Unit {0})
raise_if test error = if test then err error else ok tt

infixl 5 ◌>>◌
abbrev pub ◌>>◌ {ℓ} : {B : Type ℓ} → Result (Unit {0}) → Result B → Result B
checked >> rest = checked >>= λ passed. rest

abbrev bits_of : ℕ → List ℕ
bits_of b =
    b / 128 % 2
    ∷ b / 64 % 2
    ∷ b / 32 % 2
    ∷ b / 16 % 2
    ∷ b / 8 % 2
    ∷ b / 4 % 2
    ∷ b / 2 % 2
    ∷ b % 2
    ∷ []

-- `format(byte[0], "08b")`, as a list of digits.
pub byte_to_bits : List ℕ → Result (List ℕ)
byte_to_bits (b ∷ []) = ok (bits_of b)
byte_to_bits bytes = err (not_one_byte (length bytes))

-- `int(bits, 2)`
abbrev pub of_bits : List ℕ → ℕ
of_bits = foldl (λ acc b. acc * 2 + b) 0

-- `bool(int(bits, 2))`
abbrev pub flag : List ℕ → Bool
flag bits = not (of_bits bits == 0)

abbrev pub add_bytes : List ℕ → ℕ
add_bytes = from_bytes

abbrev pub rtp_compatible_versions : List ℕ
rtp_compatible_versions = 2 ∷ []

-- A dict from payload numbers to payload types, in insertion order.
abbrev pub Assoc : Type 0
Assoc = List (ℕ × PayloadType)

abbrev pub lookup {ℓ} : {V : Type ℓ} → ℕ → List (ℕ × V) → Option V
lookup k [] = none
lookup k ((j, v) ∷ m) = if k == j then some v else lookup k m

-- The fields that `RTPMessage.parse` sets.
pub record RtpMessage : Type 0 where
  pub version : ℕ
  pub padding : Bool
  pub extension : Bool
  pub cc : ℕ
  pub marker : Bool
  pub payload_type : PayloadType
  pub payload_number : ℕ
  pub sequence : ℕ
  pub timestamp : ℕ
  pub ssrc : ℕ
  pub csrc : List (List ℕ)
  pub extension_profile : Option ℕ
  pub extension_payload : List ℕ
  pub payload : List ℕ

-- `self.assoc[pt]`, else `PayloadType(pt)`.
unfoldable pub payload_type_for : Assoc → ℕ → Result PayloadType
payload_type_for assoc pt = elim (lookup pt assoc) [
  | some c ↦ ok c
  | none ↦ elim (of_number pt) [ some c ↦ ok c | none ↦ err (unsupported_codec pt) ]
]

-- The loop over `range(self.CC)`: the list of contributing sources and the position behind it.
pub parse_csrc : ℕ → ℕ → List ℕ → List (List ℕ) × ℕ
parse_csrc zero i packet = ([], i)
parse_csrc (suc n) i packet =
    let (rest, j) = parse_csrc n (i + 4) packet in (slice i (i + 4) packet ∷ rest, j)

-- The header extension at `i`, when its flag is set: the profile, the data and the position behind.
pub parse_extension : Bool → ℕ → List ℕ → Result (Option ℕ × List ℕ × ℕ)
parse_extension false i packet = ok (none, [], i)
parse_extension true i packet = do
  raise_if (ltb (length packet) (i + 4)) truncated_extension_header
  let profile = add_bytes (slice i (i + 2) packet)
  let extension_length = add_bytes (slice (i + 2) (i + 4) packet) * 4
  raise_if (ltb (length packet) (i + 4 + extension_length)) truncated_extension_payload
  ok (some profile, slice (i + 4) (i + 4 + extension_length) packet, i + 4 + extension_length)

-- `payload[-1]` of a non-empty payload, and the cut of the padding that it counts.
pub strip_padding : Bool → List ℕ → Result (List ℕ)
strip_padding false payload = ok payload
strip_padding true payload = elim (get_elem? payload (length payload - 1)) [
  | none ↦ err padding_without_payload
  | some padding_length ↦
      if padding_length == 0 || ltb (length payload) padding_length
      then err invalid_padding
      else ok (take (length payload - padding_length) payload)
]

-- `RTPMessage.parse`
pub parse : Assoc → List ℕ → Result RtpMessage
unfolding byte_to_bits
parse assoc packet = do
  raise_if (ltb (length packet) 12) (packet_too_short (length packet))
  byte0 ← byte_to_bits (slice 0 1 packet)
  let version = of_bits (slice 0 2 byte0)
  raise_if (not (contains version rtp_compatible_versions)) (version_not_compatible version)
  let padding = flag (slice 2 3 byte0)
  let extension = flag (slice 3 4 byte0)
  let cc = of_bits (drop 4 byte0)
  byte1 ← byte_to_bits (slice 1 2 packet)
  let marker = flag (slice 0 1 byte1)
  let pt = of_bits (drop 1 byte1)
  payload_type ← payload_type_for assoc pt
  raise_if (ltb (length packet) (12 + cc * 4)) truncated_csrc
  let sources = parse_csrc cc 12 packet
  ext ← parse_extension extension sources.1 packet
  payload ← strip_padding padding (drop ext.2 packet)
  ok (record {
    version = version;
    padding = padding;
    extension = extension;
    cc = cc;
    marker = marker;
    payload_type = payload_type;
    payload_number = pt;
    sequence = add_bytes (slice 2 4 packet);
    timestamp = add_bytes (slice 4 8 packet);
    ssrc = add_bytes (slice 8 12 packet);
    csrc = sources.0;
    extension_profile = ext.0;
    extension_payload = ext.1;
    payload = payload;
  })

-- `RTPClient._build_rtp_packet`, with the client's `outSequence` and `outSSRC`. The payload type is
-- any int; after the two tests it is between 0 and 127.
pub build_rtp_packet : (out_sequence out_ssrc : ℕ) → ℤ → List ℕ → Bool → ℕ → Result (List ℕ)
build_rtp_packet out_sequence out_ssrc (negsuc n) payload marker timestamp =
    err (payload_type_out_of_range (negsuc n))
build_rtp_packet out_sequence out_ssrc (pos pt) payload marker timestamp = do
  raise_if (ltb 127 pt) (payload_type_out_of_range (pos pt))
  ok (
      0x80
        ∷ bit_or (if marker then 0x80 else 0) (bit_and pt 0x7f)
        ∷ to_bytes 2 (out_sequence % 2 ^ 16)
      ++ to_bytes 4 (timestamp % 2 ^ 32)
      ++ to_bytes 4 (out_ssrc % 2 ^ 32)
      ++ payload)
