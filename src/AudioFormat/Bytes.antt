-- ===== src/AudioFormat/Bytes.antt =====
-- One sample in rfcvoip/audio_format.py as bytes, under the conversions between 16 bits and other
-- widths.
use mathlib.Core.Path.{subst}
use rfcvoip.Prelude.{
  ℕ, zero, suc, ◌+◌, ◌-◌, ◌*◌, ◌/◌, ◌%◌, ◌<◌, ◌≡◌, refl, ap, ◌∙◌, List, [], ◌∷◌, ◌++◌, arith,
  length, replicate, All, IsByte,
}
use rfcvoip.Sip.Result.{ok}
use rfcvoip.AudioFormat.{from_little, to_little, to_s16_sample, to_public_sample}
use rfcvoip.AudioFormat.Numbers.{
  shifted_32, shifted_64, masked_24, top_24, top_32, top_64, int16le-signed_from, widened_8,
  narrowed_8,
}

-- The depths wider than 16 bits
pub data IsWide : ℕ → Type 0 where
  wide_24 : IsWide 24
  wide_32 : IsWide 32
  wide_64 : IsWide 64

-- The bytes that a wider sample has below the two of 16 bits
abbrev pub low_bytes : (bit_depth : ℕ) → ℕ
low_bytes bit_depth = bit_depth / 8 - 2

to_little-shift : (width v : ℕ) → to_little (suc width) (v * 256) ≡ 0 ∷ to_little width v
unfolding to_little
to_little-shift width v = grind arith

to_little-pair : (a b : ℕ) → a < 256 → b < 256 → to_little 2 (a + 256 * (b + 256 * 0)) ≡ a ∷ b ∷ []
unfolding to_little
to_little-pair a b h k = grind arith

-- 256 ^ n
abbrev power : ℕ → ℕ
power zero = 1
power (suc n) = 256 * power n

-- The bytes of a sample at the top of a wider one
to_little-wide :
    (n a b : ℕ)
    → a < 256
    → b < 256
    → to_little (suc (suc n)) ((a + 256 * (b + 256 * 0)) * power n) ≡ replicate n 0 ++ a ∷ b ∷ []
to_little-wide zero a b h k = ap (to_little 2) (omega arith) ∙ to_little-pair a b h k
to_little-wide (suc n) a b h k =
    ap (to_little (suc (suc (suc n)))) (
      let e : (a + 256 * (b + 256 * 0)) * (256 * power n)
          ≡ (a + 256 * (b + 256 * 0)) * power n * 256 =
        grind arith in
      e)
    ∙ to_little-shift (suc (suc n)) ((a + 256 * (b + 256 * 0)) * power n)
    ∙ ap (λ (bs : List ℕ). 0 ∷ bs) (to_little-wide n a b h k)

from_little_bound : (bs : List ℕ) → All IsByte bs → from_little bs < power (length bs)
from_little_bound [] h = omega arith
from_little_bound (b ∷ bs) (h, hs) = omega (arith, from_little_bound bs hs)

from_little-append :
    (low high : List ℕ)
    → from_little (low ++ high) ≡ from_little high * power (length low) + from_little low
from_little-append [] high = omega arith
from_little-append (b ∷ low) high = grind (arith, from_little-append low high)

pub to_public_sample_wide :
    {bit_depth : ℕ}
    → IsWide bit_depth
    → (a b : ℕ) → a < 256
    → b < 256
    → to_public_sample bit_depth (a ∷ b ∷ []) ≡ ok (replicate (low_bytes bit_depth) 0 ++ a ∷ b ∷ [])
unfolding to_public_sample
to_public_sample_wide wide_24 a b h k =
    rw (masked_24 (a + 256 * (b + 256 * 0)) (omega arith)) (ap ok (to_little-wide 1 a b h k))
to_public_sample_wide wide_32 a b h k =
    shifted_32 (a + 256 * (b + 256 * 0)) (omega arith) ∙ ap ok (to_little-wide 2 a b h k)
to_public_sample_wide wide_64 a b h k =
    shifted_64 (a + 256 * (b + 256 * 0)) (omega arith) ∙ ap ok (to_little-wide 6 a b h k)

pub to_public_sample_8 :
    (a b : ℕ) → a < 256 → b < 256 → to_public_sample 8 (a ∷ b ∷ []) ≡ ok ((b + 128) % 256 ∷ [])
unfolding to_public_sample
to_public_sample_8 a b h k =
    rw
      (
        narrowed_8 (a + 256 * (b + 0)) (omega arith),
        (let e : (a + 256 * (b + 0)) / 256 ≡ b = omega arith in e),
      )
      refl

pub to_s16_sample_8 : (b : ℕ) → b < 256 → to_s16_sample 8 (b ∷ []) ≡ ok (0 ∷ (b + 128) % 256 ∷ [])
unfolding to_s16_sample to_little
to_s16_sample_8 b h = rw ((let e : b + 0 ≡ b = omega arith in e)) (
    widened_8 b h
    ∙ ap ok (
        to_little-shift 1 ((b + 128) % 256)
        ∙ ap (λ (c : ℕ). 0 ∷ c ∷ [])
            (let e : (b + 128) % 256 % 256 ≡ (b + 128) % 256 = omega arith in e)))

-- What a wider sample is read as
wide_value :
    (low : List ℕ) (a b : ℕ)
    → All IsByte low
    → a < 256
    → b < 256
    → (u : ℕ) × (r : ℕ) × (u < 65536)
      × (r < power (length low))
      × (to_little 2 u ≡ a ∷ b ∷ [])
      × (from_little (low ++ a ∷ b ∷ []) ≡ u * power (length low) + r)
wide_value low a b hs h k = (
  a + 256 * (b + 256 * 0),
  from_little low,
  omega arith,
  from_little_bound low hs,
  to_little-pair a b h k,
  from_little-append low (a ∷ b ∷ []),
)

pub to_s16_sample_wide :
    {bit_depth : ℕ}
    → IsWide bit_depth
    → (low : List ℕ) → All IsByte low
    → length low ≡ low_bytes bit_depth
    → (a b : ℕ) → a < 256
    → b < 256
    → to_s16_sample bit_depth (low ++ a ∷ b ∷ []) ≡ ok (a ∷ b ∷ [])
unfolding to_s16_sample
to_s16_sample_wide wide_24 low hs e a b h k =
    let (u, r, hu, hr, written, read) = wide_value low a b hs h k in
    rw (read, e, top_24 u r hu (subst (λ n. r < power n) e hr), int16le-signed_from u hu)
      (ap ok written)
to_s16_sample_wide wide_32 low hs e a b h k =
    let (u, r, hu, hr, written, read) = wide_value low a b hs h k in
    rw (read, e, top_32 u r hu (subst (λ n. r < power n) e hr), int16le-signed_from u hu)
      (ap ok written)
to_s16_sample_wide wide_64 low hs e a b h k =
    let (u, r, hu, hr, written, read) = wide_value low a b hs h k in
    rw (read, e, top_64 u r hu (subst (λ n. r < power n) e hr), int16le-signed_from u hu)
      (ap ok written)
