-- ===== src/Rtp/Packet/Parts.antt =====
-- What the steps of `RTPMessage.parse` find in a packet whose parts stand where they should.
use Prim.Native.Nat.{bit_and, bit_or}
use rfcvoip.Prelude.{
  ℕ, suc, ◌+◌, ◌*◌, ◌^◌, ◌<◌, ◌≤◌, ◌≡◌, refl, Bool, true, false, Option, none, some, List, [], ◌∷◌,
  ltb, ◌==◌, if◌then◌else◌, every_below, every_below_sound, ==_iff, length, arith, slice, drop,
  from_bytes, concat, All, append-nil, sym, get_elem?, get_elem?-append_last, take-append, ◌-◌, ap,
  le→ltb, length-drop, length-append, to_bytes, ◌++◌, append_assoc, drop_after, slice_at, ◌∙◌,
}
use rfcvoip.Rtp.Payload.{PayloadType}
use rfcvoip.Rtp.Packet.{
  Assoc, ok, of_bits, flag, bits_of, payload_type_for, parse_csrc, parse_extension, strip_padding,
  parse,
}

-- The second octet: the marker bit above seven bits of payload type.
abbrev pub second_octet : Bool → ℕ → ℕ
second_octet marker pt = bit_or (if marker then 0x80 else 0) (bit_and pt 0x7f)

abbrev pub octet_value : Bool → ℕ → ℕ
octet_value marker pt = (if marker then 128 else 0) + pt

marked_table : every_below (λ pt. second_octet true pt == 128 + pt) 128 ≡ true
unfolding every_below
marked_table = refl

unmarked_table : every_below (λ pt. second_octet false pt == 0 + pt) 128 ≡ true
unfolding every_below
unmarked_table = refl

pub second_octet_lem :
    (marker : Bool) (pt : ℕ) → pt < 128 → second_octet marker pt ≡ octet_value marker pt
second_octet_lem true pt h = (==_iff _ _).0 (every_below_sound _ 128 pt h marked_table)
second_octet_lem false pt h = (==_iff _ _).0 (every_below_sound _ 128 pt h unmarked_table)

-- `parse` step by step: each hypothesis is what one line of it finds.
module _ (assoc : Assoc) (packet : List ℕ) (b0 b1 cc pt : ℕ) (padding extension marker : Bool)
    (codec : PayloadType) (sources : List (List ℕ)) (body end : ℕ) (profile : Option ℕ)
    (data' payload : List ℕ) (long : ltb (length packet) 12 ≡ false)
    (first : slice 0 1 packet ≡ b0 ∷ []) (second : slice 1 2 packet ≡ b1 ∷ [])
    (is_two : of_bits (slice 0 2 (bits_of b0)) ≡ 2)
    (is_padding : flag (slice 2 3 (bits_of b0)) ≡ padding)
    (is_extension : flag (slice 3 4 (bits_of b0)) ≡ extension)
    (is_cc : of_bits (drop 4 (bits_of b0)) ≡ cc)
    (is_marker : flag (slice 0 1 (bits_of b1)) ≡ marker)
    (is_pt : of_bits (drop 1 (bits_of b1)) ≡ pt) (known : payload_type_for assoc pt ≡ ok codec)
    (room : ltb (length packet) (12 + cc * 4) ≡ false)
    (listed : parse_csrc cc 12 packet ≡ (sources, body))
    (extended : parse_extension extension body packet ≡ ok (profile, data', end))
    (stripped : strip_padding padding (drop end packet) ≡ ok payload) where
  pub parse_steps :
      parse assoc packet
      ≡ ok (record {
        version = 2;
        padding = padding;
        extension = extension;
        cc = cc;
        marker = marker;
        payload_type = codec;
        payload_number = pt;
        sequence = from_bytes (slice 2 4 packet);
        timestamp = from_bytes (slice 4 8 packet);
        ssrc = from_bytes (slice 8 12 packet);
        csrc = sources;
        extension_profile = profile;
        extension_payload = data';
        payload = payload;
      })
  unfolding parse
  parse_steps =
      rw (long, first, is_two, second, is_pt, known, is_cc, room, listed, is_extension, extended)
        (rw (is_padding, stripped, is_marker))

-- A list of four-octet sources at `i` is read back, and what follows it stands behind it.
pub parse_csrc-concat :
    (cs : List (List ℕ)) (i : ℕ) (packet rest : List ℕ)
    → All (λ c. length c ≡ 4) cs
    → drop i packet ≡ concat cs ++ rest
    → (parse_csrc (length cs) i packet ≡ (cs, i + length cs * 4))
      × (drop (i + length cs * 4) packet ≡ rest)
unfolding parse_csrc
parse_csrc-concat [] i packet rest h e = let z : i + 0 ≡ i = omega arith in (rw z, rw z e)
parse_csrc-concat (c ∷ cs) i packet rest h e =
    let e' : drop i packet ≡ c ++ (concat cs ++ rest) = e ∙ append_assoc c (concat cs) rest in
    let (listed, behind) =
      parse_csrc-concat cs (i + 4) packet rest h.1 (drop_after i 4 packet c _ e' h.0) in
    let z : i + suc (length cs) * 4 ≡ i + 4 + length cs * 4 = omega arith in
    (rw (z, listed, slice_at i 4 packet c _ e' h.0), rw z behind)

-- A header extension: a 16-bit profile, and data in whole 32-bit words.
pub record Extension : Type 0 where
  pub profile : ℕ
  pub words : ℕ
  pub content : List ℕ

abbrev pub IsExtension : Extension → Type 0
IsExtension x = (x.profile < 2 ^ 16) × (x.words < 2 ^ 16) × (length x.content ≡ x.words * 4)

abbrev pub extension_bytes : Option Extension → List ℕ
extension_bytes none = []
extension_bytes (some x) = to_bytes 2 x.profile ++ to_bytes 2 x.words ++ x.content

abbrev pub profile_of : Option Extension → Option ℕ
profile_of none = none
profile_of (some x) = some x.profile

abbrev pub content_of : Option Extension → List ℕ
content_of none = []
content_of (some x) = x.content

abbrev pub is_some {ℓ} : {A : Type ℓ} → Option A → Bool
is_some none = false
is_some (some a) = true

pub from_bytes-to_bytes_2 : (v : ℕ) → v < 2 ^ 16 → from_bytes (to_bytes 2 v) ≡ v
from_bytes-to_bytes_2 v h = omega arith

pub from_bytes-to_bytes_4 : (v : ℕ) → v < 2 ^ 32 → from_bytes (to_bytes 4 v) ≡ v
from_bytes-to_bytes_4 v h = omega arith

module _ (x : Extension) (valid : IsExtension x) (i : ℕ) (packet rest : List ℕ)
    (here : drop i packet ≡ extension_bytes (some x) ++ rest) where
  after_profile : drop (i + 2) packet ≡ to_bytes 2 x.words ++ (x.content ++ rest)
  after_profile = drop_after i 2 packet (to_bytes 2 x.profile) _ here refl

  after_header : drop (i + 4) packet ≡ x.content ++ rest
  after_header =
      let e : i + 4 ≡ i + 2 + 2 = omega arith in
      rw e (drop_after (i + 2) 2 packet (to_bytes 2 x.words) _ after_profile refl)

  pub fits : i + 4 + x.words * 4 ≤ length packet
  fits =
      omega (
        arith,
        ap (length {A = ℕ}) here,
        length-drop i packet,
        length-append x.content rest,
        valid.2,
      )

  read_words : from_bytes (slice (i + 2) (i + 4) packet) ≡ x.words
  read_words =
      let e : i + 4 ≡ i + 2 + 2 = omega arith in
      rw (e, slice_at (i + 2) 2 packet (to_bytes 2 x.words) _ after_profile refl)
        (from_bytes-to_bytes_2 x.words valid.1)

  read_profile : from_bytes (slice i (i + 2) packet) ≡ x.profile
  read_profile =
      rw (slice_at i 2 packet (to_bytes 2 x.profile) _ here refl)
        (from_bytes-to_bytes_2 x.profile valid.0)

  pub parse_extension_bytes :
      parse_extension true i packet ≡ ok (some x.profile, x.content, i + 4 + x.words * 4)
  unfolding parse_extension
  parse_extension_bytes =
      let room : ltb (length packet) (i + 4) ≡ false = le→ltb _ _ (omega (arith, fits)) in
      let fit : ltb (length packet) (i + 4 + x.words * 4) ≡ false = le→ltb _ _ fits in
      rw (
        room,
        read_words,
        fit,
        read_profile,
        slice_at (i + 4) (x.words * 4) packet x.content rest after_header valid.2,
      )

  pub behind_extension : drop (i + 4 + x.words * 4) packet ≡ rest
  behind_extension = drop_after (i + 4) (x.words * 4) packet x.content rest after_header valid.2

-- Padding: filler octets, and a last one that counts them and itself.
abbrev pub padding_bytes : Option (List ℕ) → List ℕ
padding_bytes none = []
padding_bytes (some filler) = filler ++ suc (length filler) ∷ []

pub strip_padding_bytes :
    (filler : Option (List ℕ)) (payload : List ℕ)
    → strip_padding (is_some filler) (payload ++ padding_bytes filler) ≡ ok payload
unfolding strip_padding
strip_padding_bytes none payload = rw append-nil
strip_padding_bytes (some filler) payload =
    let last : ℕ = suc (length filler) in
    let whole : payload ++ (filler ++ last ∷ []) ≡ (payload ++ filler) ++ last ∷ [] =
      sym (append_assoc payload filler (last ∷ [])) in
    let size : length (payload ++ (filler ++ last ∷ [])) ≡ length payload + last =
      omega
        (arith, length-append payload (filler ++ last ∷ []), length-append filler (last ∷ [])) in
    let before_last : length (payload ++ (filler ++ last ∷ [])) - 1 ≡ length (payload ++ filler) =
      omega (arith, size, length-append payload filler) in
    let found : get_elem? (payload ++ (filler ++ last ∷ []))
          (length (payload ++ (filler ++ last ∷ [])) - 1)
        ≡ some last =
      rw before_last (rw whole (get_elem?-append_last (payload ++ filler) last)) in
    let fits : ltb (length (payload ++ (filler ++ last ∷ []))) last ≡ false =
      le→ltb _ _ (omega (arith, size)) in
    let rest : length (payload ++ (filler ++ last ∷ [])) - last ≡ length payload =
      omega (arith, size) in
    let positive : (last == 0) ≡ false = ground arith in
    rw (found, strip_padding)
      (rw (positive, fits, rest) (ap ok (take-append payload (filler ++ last ∷ []))))
