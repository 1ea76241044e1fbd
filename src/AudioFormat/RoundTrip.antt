-- ===== src/AudioFormat/RoundTrip.antt =====
-- The conversions of rfcvoip/audio_format.py there and back.
use rfcvoip.Prelude.{
  ℕ, zero, suc, ◌*◌, ◌/◌, ◌<◌, ◌≤◌, ◌≡◌, refl, ap, ◌∙◌, List, [], ◌∷◌, ◌++◌, map, arith, length,
  drop, concat, replicate, All, All-append, All-drop, IsByte, length-append, length-drop, ◌==◌,
  if◌then◌else◌,
}
use rfcvoip.Sip.Result.{ok, ◌>>=◌}
use rfcvoip.AudioFormat.{Setting, fixed_bit_depth, public_pcm_to_s16le, s16le_to_public_pcm}
use rfcvoip.AudioFormat.Bytes.{wide_24, wide_32, wide_64, low_bytes}
use rfcvoip.AudioFormat.Chunks.{chunks-All, chunks-concat}
use rfcvoip.AudioFormat.Conversions.{
  IsDepth, depth_8, depth_16, wide, flip, widened, narrowed, samples, fixed_bit_depth-IsDepth,
  convert-bytes,
}

-- What a sample of 16 bits keeps in the public format, and a public sample in 16 bits: 8 bits are the
-- high byte.
abbrev pub coarse : (bit_depth : ℕ) → List ℕ → List ℕ
coarse bit_depth sample = if bit_depth == 8 then 0 ∷ drop 1 sample else sample

abbrev pub high_bytes : (bit_depth : ℕ) → List ℕ → List ℕ
high_bytes bit_depth sample =
    if bit_depth == 8
    then sample
    else replicate (low_bytes bit_depth) 0 ++ drop (low_bytes bit_depth) sample

-- A sample of so many bytes
abbrev Piece : (width : ℕ) → List ℕ → Type 0
Piece width s = (length s ≡ width) × All IsByte s

zeros : (n : ℕ) → All IsByte (replicate n 0)
zeros zero = tt
zeros (suc n) = (omega arith, zeros n)

widened-Piece : {d : ℕ} → IsDepth d → (s : List ℕ) → Piece 2 s → Piece (d / 8) (widened d s)
widened-Piece depth_8 [] (e, bs) = absurd (omega arith)
widened-Piece depth_8 (a ∷ []) (e, bs) = absurd (omega arith)
widened-Piece depth_8 (a ∷ b ∷ []) (e, bs) = (refl, (omega arith, tt))
widened-Piece depth_8 (a ∷ b ∷ c ∷ s) (e, bs) = absurd (omega arith)
widened-Piece depth_16 s p = p
widened-Piece (wide wide_24) s (e, bs) =
    (omega (arith, e), All-append IsByte (replicate 1 0) s (zeros 1) bs)
widened-Piece (wide wide_32) s (e, bs) =
    (omega (arith, e), All-append IsByte (replicate 2 0) s (zeros 2) bs)
widened-Piece (wide wide_64) s (e, bs) =
    (omega (arith, e), All-append IsByte (replicate 6 0) s (zeros 6) bs)

narrowed-Piece : {d : ℕ} → IsDepth d → (s : List ℕ) → Piece (d / 8) s → Piece 2 (narrowed d s)
narrowed-Piece depth_8 [] (e, bs) = absurd (omega arith)
narrowed-Piece depth_8 (b ∷ []) (e, bs) = (refl, (omega arith, (omega arith, tt)))
narrowed-Piece depth_8 (b ∷ c ∷ s) (e, bs) = absurd (omega arith)
narrowed-Piece depth_16 s p = p
narrowed-Piece (wide wide_24) s (e, bs) = (omega (arith, length-drop 1 s), All-drop IsByte 1 s bs)
narrowed-Piece (wide wide_32) s (e, bs) = (omega (arith, length-drop 2 s), All-drop IsByte 2 s bs)
narrowed-Piece (wide wide_64) s (e, bs) = (omega (arith, length-drop 6 s), All-drop IsByte 6 s bs)

flip-flip : (b : ℕ) → b < 256 → flip (flip b) ≡ b
flip-flip b h = omega arith

narrowed-widened :
    {d : ℕ} → IsDepth d → (s : List ℕ) → Piece 2 s → narrowed d (widened d s) ≡ coarse d s
narrowed-widened depth_8 [] (e, bs) = absurd (omega arith)
narrowed-widened depth_8 (a ∷ []) (e, bs) = absurd (omega arith)
narrowed-widened depth_8 (a ∷ b ∷ []) (e, (h, (k, _))) = rw (flip-flip b k) refl
narrowed-widened depth_8 (a ∷ b ∷ c ∷ s) (e, bs) = absurd (omega arith)
narrowed-widened depth_16 s p = refl
narrowed-widened (wide wide_24) s p = refl
narrowed-widened (wide wide_32) s p = refl
narrowed-widened (wide wide_64) s p = refl

widened-narrowed :
    {d : ℕ} → IsDepth d → (s : List ℕ) → Piece (d / 8) s → widened d (narrowed d s) ≡ high_bytes d s
widened-narrowed depth_8 [] (e, bs) = absurd (omega arith)
widened-narrowed depth_8 (b ∷ []) (e, (h, _)) = rw (flip-flip b h) refl
widened-narrowed depth_8 (b ∷ c ∷ s) (e, bs) = absurd (omega arith)
widened-narrowed depth_16 s p = refl
widened-narrowed (wide wide_24) s p = refl
widened-narrowed (wide wide_32) s p = refl
widened-narrowed (wide wide_64) s p = refl

-- The samples of a concatenation of pieces
module _ (width : ℕ) where
  concat-IsByte : (cs : List (List ℕ)) → All (Piece width) cs → All IsByte (concat cs)
  concat-IsByte [] h = tt
  concat-IsByte (c ∷ cs) ((_, b), hs) = All-append IsByte c (concat cs) b (concat-IsByte cs hs)

  length-concat :
      (cs : List (List ℕ)) → All (Piece width) cs → length (concat cs) ≡ length cs * width
  length-concat [] h = omega arith
  length-concat (c ∷ cs) ((e, _), hs) =
      grind (arith, length-append c (concat cs), length-concat cs hs)

  pieces-All :
      (cs : List (List ℕ)) → All (Piece width) cs → All (λ (c : List ℕ). length c ≡ width) cs
  pieces-All [] h = tt
  pieces-All (c ∷ cs) ((e, _), hs) = (e, pieces-All cs hs)

  samples-concat :
      ((n : ℕ) → n * width / width ≡ n)
      → (cs : List (List ℕ)) → All (Piece width) cs
      → samples width (concat cs) ≡ cs
  samples-concat counted cs h =
      rw (length-concat cs h, counted (length cs)) (chunks-concat width cs (pieces-All cs h))

-- A loop over samples that gives pieces of another width, and a loop over these
module _ (width between : ℕ) (first : List ℕ → List ℕ)
    (gives : (s : List ℕ) → Piece width s → Piece between (first s)) where
  map-All : (cs : List (List ℕ)) → All (Piece width) cs → All (Piece between) (map first cs)
  map-All [] h = tt
  map-All (c ∷ cs) (h, hs) = (gives c h, map-All cs hs)

  first-IsByte : (cs : List (List ℕ)) → All (Piece width) cs → All IsByte (concat (map first cs))
  first-IsByte cs h = concat-IsByte between (map first cs) (map-All cs h)

  module _ (second both : List ℕ → List ℕ)
      (composes : (s : List ℕ) → Piece width s → second (first s) ≡ both s)
      (counted : (n : ℕ) → n * between / between ≡ n) where
    map-map : (cs : List (List ℕ)) → All (Piece width) cs → map second (map first cs) ≡ map both cs
    map-map [] h = refl
    map-map (c ∷ cs) (h, hs) = rw (composes c h, map-map cs hs) refl

    second-first :
        (cs : List (List ℕ))
        → All (Piece width) cs
        → concat (map second (samples between (concat (map first cs)))) ≡ concat (map both cs)
    second-first cs h =
        rw (samples-concat between counted (map first cs) (map-All cs h), map-map cs h) refl

counted_by : {d : ℕ} → IsDepth d → (n : ℕ) → n * (d / 8) / (d / 8) ≡ n
counted_by depth_8 n = omega arith
counted_by depth_16 n = omega arith
counted_by (wide wide_24) n = omega arith
counted_by (wide wide_32) n = omega arith
counted_by (wide wide_64) n = omega arith

within : {d : ℕ} → IsDepth d → (pcm : List ℕ) → length pcm / (d / 8) * (d / 8) ≤ length pcm
within depth_8 pcm = omega arith
within depth_16 pcm = omega arith
within (wide wide_24) pcm = omega arith
within (wide wide_32) pcm = omega arith
within (wide wide_64) pcm = omega arith

-- From 16 bits to the public format and back: for a depth that is set and valid, the two conversions
-- of any bytes succeed, and give all complete samples back as they were; through 8 bits, each with its
-- low byte cleared.
pub s16-public-s16 :
    (value : Setting) (d : ℕ) (pcm : List ℕ)
    → fixed_bit_depth value ≡ ok d
    → All IsByte pcm
    → (s16le_to_public_pcm pcm value >>= λ public. public_pcm_to_s16le public value)
      ≡ ok (concat (map (coarse d) (samples 2 pcm)))
s16-public-s16 value d pcm h bs =
    let depth = fixed_bit_depth-IsDepth value d h in
    let pieces = chunks-All 2 (length pcm / 2) pcm (omega arith) bs in
    rw ((convert-bytes value d pcm h bs).0) (
      (convert-bytes value d (concat (map (widened d) (samples 2 pcm))) h
        (first-IsByte 2 (d / 8) (widened d) (widened-Piece depth) (samples 2 pcm) pieces)).1
      ∙ ap ok (
          second-first 2 (d / 8) (widened d) (widened-Piece depth) (narrowed d) (coarse d)
            (narrowed-widened depth) (counted_by depth) (samples 2 pcm) pieces))

-- From the public format to 16 bits and back: for a depth that is set and valid, the two conversions
-- of any bytes succeed, and give the complete samples back with all but their high 16 bits cleared;
-- samples of 8 and of 16 bits come back as they were.
pub public-s16-public :
    (value : Setting) (d : ℕ) (pcm : List ℕ)
    → fixed_bit_depth value ≡ ok d
    → All IsByte pcm
    → (public_pcm_to_s16le pcm value >>= λ s16. s16le_to_public_pcm s16 value)
      ≡ ok (concat (map (high_bytes d) (samples (d / 8) pcm)))
public-s16-public value d pcm h bs =
    let depth = fixed_bit_depth-IsDepth value d h in
    let pieces = chunks-All (d / 8) (length pcm / (d / 8)) pcm (within depth pcm) bs in
    rw ((convert-bytes value d pcm h bs).1) (
      (convert-bytes value d (concat (map (narrowed d) (samples (d / 8) pcm))) h
        (first-IsByte (d / 8) 2 (narrowed d) (narrowed-Piece depth) (samples (d / 8) pcm) pieces)).0
      ∙ ap ok (
          second-first (d / 8) 2 (narrowed d) (narrowed-Piece depth) (widened d) (high_bytes d)
            (widened-narrowed depth) (λ n. omega arith) (samples (d / 8) pcm) pieces))
