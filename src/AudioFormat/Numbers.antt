-- ===== src/AudioFormat/Numbers.antt =====
-- The samples of rfcvoip/audio_format.py as unsigned numbers: what the shifts of signed samples do to
-- their bytes.
use rfcvoip.Prelude.{ℕ, ◌+◌, ◌*◌, ◌/◌, ◌%◌, ◌^◌, ◌<◌, ◌≡◌, arith}
use rfcvoip.Prelude.Int.{pos, ◌-ℤ◌, ◌+ℤ◌}
use rfcvoip.Sip.Result.{ok}
use rfcvoip.AudioFormat.{
  to_little, signed_from, shift_left, shift_right, mask, to_signed, clamp_int16, int16le, to_byte,
}

-- A sample of 16 bits, shifted to the top of a wider one.
pub shifted_32 :
    (u : ℕ)
    → u < 65536
    → to_signed 4 (shift_left 16 (signed_from 16 u)) ≡ ok (to_little 4 (u * 65536))
unfolding shift_left to_signed
shifted_32 u h = grind arith

pub shifted_64 :
    (u : ℕ)
    → u < 65536
    → to_signed 8 (shift_left 48 (signed_from 16 u)) ≡ ok (to_little 8 (u * 2 ^ 48))
unfolding shift_left to_signed
shifted_64 u h = grind arith

pub masked_24 : (u : ℕ) → u < 65536 → mask 24 (shift_left 8 (signed_from 16 u)) ≡ u * 256
unfolding shift_left mask
masked_24 u h = ground arith

pub top_24 :
    (u r : ℕ)
    → u < 65536
    → r < 256
    → shift_right 8 (signed_from 24 (u * 256 + r)) ≡ signed_from 16 u
unfolding shift_right
top_24 u r h k = ground arith

pub top_32 :
    (u r : ℕ)
    → u < 65536
    → r < 65536
    → shift_right 16 (signed_from 32 (u * 65536 + r)) ≡ signed_from 16 u
unfolding shift_right
top_32 u r h k = ground arith

pub top_64 :
    (u r : ℕ)
    → u < 65536
    → r < 2 ^ 48
    → shift_right 48 (signed_from 64 (u * 2 ^ 48 + r)) ≡ signed_from 16 u
unfolding shift_right
top_64 u r h k = ground arith

-- A sample of 16 bits is written as it is.
pub int16le-signed_from : (u : ℕ) → u < 65536 → int16le (signed_from 16 u) ≡ ok (to_little 2 u)
unfolding clamp_int16 to_signed
int16le-signed_from u h = grind arith

pub widened_8 :
    (b : ℕ)
    → b < 256
    → int16le (shift_left 8 (pos b -ℤ pos 128)) ≡ ok (to_little 2 ((b + 128) % 256 * 256))
unfolding clamp_int16 to_signed shift_left ◌-ℤ◌
widened_8 b h = grind arith

pub narrowed_8 :
    (u : ℕ)
    → u < 65536
    → to_byte (shift_right 8 (signed_from 16 u +ℤ pos 32768)) ≡ (u / 256 + 128) % 256
unfolding shift_right ◌+ℤ◌
narrowed_8 u h = ground arith
