-- ===== src/AudioFormat.antt =====
-- The conversions of linear PCM in rfcvoip/audio_format.py, and the bit depths that they take.
pub mod Numbers
pub mod Bytes
pub mod Chunks
pub mod Conversions
pub mod RoundTrip
mod Tests
use rfcvoip.Prelude.{
  Option, none, some, ◌&&◌, leb, ℕ, zero, suc, ◌+◌, ◌-◌, ◌*◌, ◌/◌, ◌%◌, ◌^◌, min, max, Bool, true,
  false, not, ◌||◌, List, [], ◌∷◌, ◌++◌, length, take, drop, map, replicate, ltb, ◌==◌,
  if◌then◌else◌,
}
use rfcvoip.Prelude.Int.{ℤ, pos, negsuc, ◌+ℤ◌, ◌-ℤ◌, ltb_ℤ}
use rfcvoip.Text.{lower, strip, same_text, characters, is_empty, is_digit, every, number_from}
use rfcvoip.Sip.Result.{Result, err, ok, ◌>>=◌}

-- `ValueError` of a bit depth, that of "best", and `OverflowError` of `int.to_bytes`
pub data AudioError : Type 0 where
  bad_bit_depth unresolved overflow : AudioError

-- The option: a `str`, an `int`, or another object
pub data Setting : Type 0 where
  text : List ℕ → Setting
  number : ℤ → Setting
  other : Setting

pub data Normal : Type 0 where
  best : Normal
  fixed : ℕ → Normal

-- `value in VALID_PUBLIC_AUDIO_BIT_DEPTHS`
abbrev pub is_valid : ℕ → Bool
is_valid depth = depth == 8 || depth == 16 || depth == 24 || depth == 32 || depth == 64

abbrev pub valid_depth : ℤ → Result AudioError Normal
valid_depth (pos n) = if is_valid n then ok (fixed n) else err bad_bit_depth
valid_depth (negsuc n) = err bad_bit_depth

-- The zeros of the decimal digits of Unicode 14.0.0; the other nine follow each.
abbrev pub decimal_zeros : List ℕ
decimal_zeros =
    0x30 ∷ 0x660 ∷ 0x6f0 ∷ 0x7c0 ∷ 0x966 ∷ 0x9e6 ∷ 0xa66 ∷ 0xae6 ∷ 0xb66 ∷ 0xbe6 ∷ 0xc66 ∷ 0xce6
    ∷ 0xd66 ∷ 0xde6 ∷ 0xe50 ∷ 0xed0 ∷ 0xf20 ∷ 0x1040 ∷ 0x1090 ∷ 0x17e0 ∷ 0x1810 ∷ 0x1946 ∷ 0x19d0
    ∷ 0x1a80 ∷ 0x1a90 ∷ 0x1b50 ∷ 0x1bb0 ∷ 0x1c40 ∷ 0x1c50 ∷ 0xa620 ∷ 0xa8d0 ∷ 0xa900 ∷ 0xa9d0
    ∷ 0xa9f0 ∷ 0xaa50 ∷ 0xabf0 ∷ 0xff10 ∷ 0x104a0 ∷ 0x10d30 ∷ 0x11066 ∷ 0x110f0 ∷ 0x11136 ∷ 0x111d0
    ∷ 0x112f0 ∷ 0x11450 ∷ 0x114d0 ∷ 0x11650 ∷ 0x116c0 ∷ 0x11730 ∷ 0x118e0 ∷ 0x11950 ∷ 0x11c50
    ∷ 0x11d50 ∷ 0x11da0 ∷ 0x16a60 ∷ 0x16ac0 ∷ 0x16b50 ∷ 0x1d7ce ∷ 0x1d7d8 ∷ 0x1d7e2 ∷ 0x1d7ec
    ∷ 0x1d7f6 ∷ 0x1e140 ∷ 0x1e2f0 ∷ 0x1e950 ∷ 0x1fbf0 ∷ []

-- The value of a decimal digit of these.
abbrev pub decimal_of : (zeros : List ℕ) → ℕ → Option ℕ
decimal_of [] c = none
decimal_of (z ∷ zeros) c =
    let rest = decimal_of zeros c in if leb z c && leb c (z + 9) then some (c - z) else rest

-- `int(text)` of a text of digits: none is a `ValueError`, which a digit that is no decimal raises too.
abbrev pub then_digit : ℕ → Option ℕ → (ℕ → Option ℕ) → Option ℕ
then_digit n none next = none
then_digit n (some digit) next = next (n * 10 + digit)

abbrev pub decimal_from : ℕ → List ℕ → Option ℕ
decimal_from n [] = some n
decimal_from n (c ∷ cs) = then_digit n (decimal_of decimal_zeros c) (λ m. decimal_from m cs)

abbrev pub depth_or_error : Option ℕ → Result AudioError Normal
depth_or_error none = err bad_bit_depth
depth_or_error (some n) = valid_depth (pos n)

-- The tests by `text.isdigit()` and `int(text)`, which raises `ValueError` for more than 4300 digits.
abbrev pub depth_in : List ℕ → Result AudioError Normal
depth_in value =
    if is_empty value || ltb 4300 (length value)
    then err bad_bit_depth
    else depth_or_error (decimal_from 0 value)

abbrev pub normal_text : List ℕ → Result AudioError Normal
normal_text value = if same_text value (characters "best") then ok best else depth_in value

unfoldable pub normalize_audio_bit_depth : Setting → Result AudioError Normal
normalize_audio_bit_depth (text value) = normal_text (map lower (strip value))
normalize_audio_bit_depth (number value) = valid_depth value
normalize_audio_bit_depth other = err bad_bit_depth

abbrev pub resolved : Normal → Result AudioError ℕ
resolved best = err unresolved
resolved (fixed depth) = ok depth

-- `_fixed_bit_depth`
unfoldable pub fixed_bit_depth : Setting → Result AudioError ℕ
fixed_bit_depth value = normalize_audio_bit_depth value >>= resolved

-- `_trim_complete_samples`
abbrev pub trim_complete_samples : List ℕ → (width : ℕ) → List ℕ
trim_complete_samples pcm width = take (length pcm - length pcm % width) pcm

-- `int.from_bytes(sample, "little")`
abbrev pub from_little : List ℕ → ℕ
from_little [] = 0
from_little (b ∷ bs) = b + 256 * from_little bs

-- The bytes of a number, the low one first
unfoldable pub to_little : (width v : ℕ) → List ℕ
to_little zero v = []
to_little (suc width) v = v % 256 ∷ to_little width (v / 256)

-- The signed reading of a number of so many bits.
abbrev pub signed_from : (bits u : ℕ) → ℤ
signed_from bits u = if ltb u (2 ^ (bits - 1)) then pos u else negsuc (2 ^ bits - 1 - u)

-- `value << k` and `value >> k`
unfoldable pub shift_left : (k : ℕ) → ℤ → ℤ
shift_left k (pos n) = pos (n * 2 ^ k)
shift_left k (negsuc n) = negsuc (suc n * 2 ^ k - 1)

unfoldable pub shift_right : (k : ℕ) → ℤ → ℤ
shift_right k (pos n) = pos (n / 2 ^ k)
shift_right k (negsuc n) = negsuc (n / 2 ^ k)

-- `value & (2 ^ bits - 1)`
unfoldable pub mask : (bits : ℕ) → ℤ → ℕ
mask bits (pos n) = n % 2 ^ bits
mask bits (negsuc n) = 2 ^ bits - 1 - n % 2 ^ bits

-- `value.to_bytes(width, "little", signed=True)`
unfoldable pub to_signed : (width : ℕ) → ℤ → Result AudioError (List ℕ)
to_signed width (pos n) =
    if ltb n (2 ^ (8 * width - 1)) then ok (to_little width n) else err overflow
to_signed width (negsuc n) =
    if ltb n (2 ^ (8 * width - 1))
    then ok (to_little width (2 ^ (8 * width) - 1 - n))
    else err overflow

-- `_clamp_int16` and `_int16le`
unfoldable pub clamp_int16 : ℤ → ℤ
clamp_int16 (pos n) = pos (min 32767 n)
clamp_int16 (negsuc n) = negsuc (min 32767 n)

abbrev pub int16le : ℤ → Result AudioError (List ℕ)
int16le value = to_signed 2 (clamp_int16 value)

-- The loop over the samples of the data, of which there are so many.
unfoldable pub convert_samples :
    (List ℕ → Result AudioError (List ℕ)) → (width count : ℕ) → List ℕ → Result AudioError (List ℕ)
convert_samples convert width zero pcm = ok []
convert_samples convert width (suc count) pcm = convert (take width pcm) >>= λ sample.
    convert_samples convert width count (drop width pcm) >>= λ out. ok (sample ++ out)

abbrev pub convert_all :
    (List ℕ → Result AudioError (List ℕ)) → (width : ℕ) → List ℕ → Result AudioError (List ℕ)
convert_all convert width pcm = convert_samples convert width (length pcm / width) pcm

-- The bodies of the loops of `public_pcm_to_s16le`. The bytes of a sample are disjoint bits, so that
-- `|` adds them.
unfoldable pub to_s16_sample : (bit_depth : ℕ) → List ℕ → Result AudioError (List ℕ)
to_s16_sample bit_depth sample =
    if bit_depth == 8
    then int16le (shift_left 8 (pos (from_little sample) -ℤ pos 128))
    else if bit_depth == 24
    then int16le (shift_right 8 (signed_from 24 (from_little sample)))
    else if bit_depth == 32
    then int16le (shift_right 16 (signed_from 32 (from_little sample)))
    else int16le (shift_right 48 (signed_from 64 (from_little sample)))

abbrev pub to_s16 : List ℕ → (bit_depth : ℕ) → Result AudioError (List ℕ)
to_s16 pcm bit_depth =
    let width = bit_depth / 8 in
    let complete = trim_complete_samples pcm width in
    if bit_depth == 16 then ok complete else convert_all (to_s16_sample bit_depth) width complete

unfoldable pub public_pcm_to_s16le : List ℕ → Setting → Result AudioError (List ℕ)
public_pcm_to_s16le pcm value = fixed_bit_depth value >>= to_s16 pcm

-- `max(0, min(255, value))`, appended as a byte
abbrev pub to_byte : ℤ → ℕ
to_byte (pos n) = min 255 n
to_byte (negsuc n) = 0

-- The body of the loop of `s16le_to_public_pcm`
unfoldable pub to_public_sample : (bit_depth : ℕ) → List ℕ → Result AudioError (List ℕ)
to_public_sample bit_depth sample =
    let value = signed_from 16 (from_little sample) in
    if bit_depth == 8
    then ok (to_byte (shift_right 8 (value +ℤ pos 32768)) ∷ [])
    else if bit_depth == 24
    then ok (to_little 3 (mask 24 (shift_left 8 value)))
    else if bit_depth == 32
    then to_signed 4 (shift_left 16 value)
    else to_signed 8 (shift_left 48 value)

abbrev pub to_public : List ℕ → (bit_depth : ℕ) → Result AudioError (List ℕ)
to_public pcm bit_depth =
    let complete = trim_complete_samples pcm 2 in
    if bit_depth == 16 then ok complete else convert_all (to_public_sample bit_depth) 2 complete

unfoldable pub s16le_to_public_pcm : List ℕ → Setting → Result AudioError (List ℕ)
s16le_to_public_pcm pcm value = fixed_bit_depth value >>= to_public pcm

-- `silence_bytes` of a length that is not negative
abbrev pub silence_of : (length bit_depth : ℕ) → List ℕ
silence_of length bit_depth = if bit_depth == 8 then replicate length 0x80 else replicate length 0

unfoldable pub silence_bytes : (length : ℕ) → Setting → Result AudioError (List ℕ)
silence_bytes length value = fixed_bit_depth value >>= λ bit_depth. ok (silence_of length bit_depth)
