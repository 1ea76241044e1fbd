-- ===== src/AudioFormat/Chunks.antt =====
-- The samples of PCM data in rfcvoip/audio_format.py, as pieces of the same width.
use rfcvoip.Prelude.{
  ℕ, zero, suc, ◌+◌, ◌-◌, ◌*◌, ◌/◌, ◌%◌, ◌≤◌, ◌≡◌, refl, ap, sym, ◌∙◌, List, [], ◌∷◌, ◌++◌, map,
  arith, length, take, drop, concat, min, All, All-take, All-drop, IsByte, length-take, length-drop,
  take-append, drop-append,
}
use rfcvoip.Sip.Result.{Result, ok}
use rfcvoip.AudioFormat.{AudioError, trim_complete_samples, convert_samples, convert_all}

-- The start of a text, as far as a piece and behind it
suc_sum : (m n : ℕ) → suc m + n ≡ suc (m + n)
suc_sum m n = omega arith

take-nil : (n : ℕ) → take {A = ℕ} n [] ≡ []
take-nil zero = refl
take-nil (suc n) = refl

take_more : (m n : ℕ) (pcm : List ℕ) → take (m + n) pcm ≡ take m pcm ++ take n (drop m pcm)
take_more zero n pcm = ap (λ (k : ℕ). take k pcm) (omega arith)
take_more (suc m) n [] = rw (suc_sum m n) (sym (take-nil n))
take_more (suc m) n (b ∷ pcm) = rw (suc_sum m n) (ap (λ (bs : List ℕ). b ∷ bs) (take_more m n pcm))

take-take_more : (m n : ℕ) (pcm : List ℕ) → take m (take (m + n) pcm) ≡ take m pcm
take-take_more zero n pcm = refl
take-take_more (suc m) n [] = rw (suc_sum m n) refl
take-take_more (suc m) n (b ∷ pcm) =
    rw (suc_sum m n) (ap (λ (bs : List ℕ). b ∷ bs) (take-take_more m n pcm))

drop-take_more : (m n : ℕ) (pcm : List ℕ) → drop m (take (m + n) pcm) ≡ take n (drop m pcm)
drop-take_more zero n pcm = ap (λ (k : ℕ). take k pcm) (omega arith)
drop-take_more (suc m) n [] = rw (suc_sum m n) (sym (take-nil n))
drop-take_more (suc m) n (b ∷ pcm) = rw (suc_sum m n) (drop-take_more m n pcm)

product_suc : (m n : ℕ) → suc m * n ≡ n + m * n
product_suc m n = grind arith

abbrev pub chunks : (width count : ℕ) → List ℕ → List (List ℕ)
chunks width zero pcm = []
chunks width (suc count) pcm = take width pcm ∷ chunks width count (drop width pcm)

pub length-chunks : (width count : ℕ) (pcm : List ℕ) → length (chunks width count pcm) ≡ count
length-chunks width zero pcm = refl
length-chunks width (suc count) pcm = ap suc (length-chunks width count (drop width pcm))

-- Pieces have the width, and bytes of the data.
pub chunks-All :
    (width count : ℕ) (pcm : List ℕ)
    → count * width ≤ length pcm
    → All IsByte pcm
    → All (λ (s : List ℕ). (length s ≡ width) × All IsByte s) (chunks width count pcm)
chunks-All width zero pcm h bs = tt
chunks-All width (suc count) pcm h bs = (
  (
    length-take width pcm
        ∙ (let e : min width (length pcm) ≡ width = grind (arith, product_suc count width) in e),
    All-take IsByte width pcm bs,
  ),
  chunks-All width count (drop width pcm)
      (grind (arith, product_suc count width, length-drop width pcm))
      (All-drop IsByte width pcm bs),
)

pub concat-chunks :
    (width count : ℕ) (pcm : List ℕ) → concat (chunks width count pcm) ≡ take (count * width) pcm
concat-chunks width zero pcm = ap (λ (k : ℕ). take k pcm) (let e : 0 ≡ 0 * width = omega arith in e)
concat-chunks width (suc count) pcm =
    rw
      (
        product_suc count width,
        take_more width (count * width) pcm,
        concat-chunks width count (drop width pcm),
      )
      refl

pub chunks-concat :
    (width : ℕ) (cs : List (List ℕ))
    → All (λ (c : List ℕ). length c ≡ width) cs
    → chunks width (length cs) (concat cs) ≡ cs
chunks-concat width [] h = refl
chunks-concat width (c ∷ cs) (h, hs) =
    rw (sym h, take-append c (concat cs), drop-append c (concat cs))
      (ap (λ (ds : List (List ℕ)). c ∷ ds) (chunks-concat width cs hs))

-- Pieces of the start of the data
pub chunks-take :
    (width count : ℕ) (pcm : List ℕ)
    → chunks width count (take (count * width) pcm) ≡ chunks width count pcm
chunks-take width zero pcm = refl
chunks-take width (suc count) pcm =
    rw
      (
        product_suc count width,
        take-take_more width (count * width) pcm,
        drop-take_more width (count * width) pcm,
        chunks-take width count (drop width pcm),
      )
      refl

-- A loop over samples, when each of them is converted as `on_sample` says
module _ (convert : List ℕ → Result AudioError (List ℕ)) (on_sample : List ℕ → List ℕ) (width : ℕ)
    (converts : (s : List ℕ) → length s ≡ width → All IsByte s → convert s ≡ ok (on_sample s)) where
  pub convert_samples-map :
      (count : ℕ) (pcm : List ℕ)
      → All (λ (s : List ℕ). (length s ≡ width) × All IsByte s) (chunks width count pcm)
      → convert_samples convert width count pcm
        ≡ ok (concat (map on_sample (chunks width count pcm)))
  unfolding convert_samples
  convert_samples-map zero pcm h = refl
  convert_samples-map (suc count) pcm ((e, b), h) =
      rw (converts (take width pcm) e b, convert_samples-map count (drop width pcm) h) refl

  -- The loop over the complete samples of data that has so many of them
  pub convert_all-map :
      (count : ℕ) (pcm : List ℕ)
      → All IsByte pcm
      → length pcm - length pcm % width ≡ count * width
      → count * width / width ≡ count
      → count * width ≤ length pcm
      → convert_all convert width (trim_complete_samples pcm width)
        ≡ ok (concat (map on_sample (chunks width count pcm)))
  convert_all-map count pcm bs trimmed counted within =
      rw
        (
          trimmed,
          length-take (count * width) pcm,
          (let e : min (count * width) (length pcm) ≡ count * width = omega arith in e),
          counted,
          convert_samples-map count (take (count * width) pcm)
              (rw (chunks-take width count pcm) (chunks-All width count pcm within bs)),
          chunks-take width count pcm,
        )
        refl
