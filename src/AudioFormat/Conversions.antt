-- ===== src/AudioFormat/Conversions.antt =====
-- The conversions of rfcvoip/audio_format.py as moves of bytes, sample by sample.
use mathlib.Core.Path.{subst}
use rfcvoip.Prelude.{
  Option, none, some, ℕ, ◌+◌, ◌/◌, ◌%◌, ◌≡◌, refl, ap, sym, ◌∙◌, List, [], ◌∷◌, ◌++◌, map, arith,
  length, take, drop, concat, replicate, All, All-take, All-drop, IsByte, length-take, length-drop,
  take-append-drop, ◌==◌, if◌then◌else◌, Bool-cases, inl, inr, ◌⊎◌, Bool, true, false, ◌||◌, ltb,
}
use rfcvoip.Prelude.Int.{ℤ, pos, negsuc}
use rfcvoip.Text.{lower, strip, same_text, characters, is_empty}
use rfcvoip.Sip.Result.{Result, err, ok, bind-eq-ok, ok-injective, Always}
use rfcvoip.AudioFormat.{
  depth_or_error, decimal_from, AudioError, bad_bit_depth, depth_in, Setting, text, number, other,
  Normal, best, fixed, is_valid, valid_depth, normalize_audio_bit_depth, fixed_bit_depth, resolved,
  trim_complete_samples, to_s16_sample, to_public_sample, to_s16, to_public, public_pcm_to_s16le,
  s16le_to_public_pcm,
}
use rfcvoip.AudioFormat.Bytes.{
  IsWide, wide_24, wide_32, wide_64, low_bytes, to_public_sample_wide, to_public_sample_8,
  to_s16_sample_8, to_s16_sample_wide,
}
use rfcvoip.AudioFormat.Chunks.{chunks, concat-chunks, convert_all-map}

-- A byte of 8 bits, which are unsigned, as the high byte of a signed sample, and back
abbrev pub flip : ℕ → ℕ
flip b = (b + 128) % 256

-- The bytes of a public sample, of the two bytes of a sample of 16 bits
abbrev pub widened : (bit_depth : ℕ) → List ℕ → List ℕ
widened bit_depth sample =
    if bit_depth == 8 then map flip (drop 1 sample) else replicate (low_bytes bit_depth) 0 ++ sample

-- The two bytes of a sample of 16 bits, of those of a public sample
abbrev pub narrowed : (bit_depth : ℕ) → List ℕ → List ℕ
narrowed bit_depth sample =
    if bit_depth == 8 then 0 ∷ map flip sample else drop (low_bytes bit_depth) sample

abbrev pub samples : (width : ℕ) → List ℕ → List (List ℕ)
samples width pcm = chunks width (length pcm / width) pcm

pub data IsDepth : ℕ → Type 0 where
  depth_8 : IsDepth 8
  depth_16 : IsDepth 16
  wide : {bit_depth : ℕ} → IsWide bit_depth → IsDepth bit_depth

valid_cases : (n : ℕ) → is_valid n ≡ true → (n ≡ 8) ⊎ (n ≡ 16) ⊎ (n ≡ 24) ⊎ (n ≡ 32) ⊎ (n ≡ 64)
valid_cases n h = ground arith

valid-IsDepth : (n : ℕ) → is_valid n ≡ true → IsDepth n
valid-IsDepth n h = elim (valid_cases n h) [
  | inl e ↦ subst IsDepth (sym e) depth_8
  | inr (inl e) ↦ subst IsDepth (sym e) depth_16
  | inr (inr (inl e)) ↦ subst IsDepth (sym e) (wide wide_24)
  | inr (inr (inr (inl e))) ↦ subst IsDepth (sym e) (wide wide_32)
  | inr (inr (inr (inr e))) ↦ subst IsDepth (sym e) (wide wide_64)
]

-- What is fixed is a valid depth.
abbrev FixedIsDepth : Normal → Type 0
FixedIsDepth best = Unit {0}
FixedIsDepth (fixed d) = IsDepth d

if-Always :
    (b : Bool) (m n : Result AudioError Normal)
    → Always FixedIsDepth m
    → Always FixedIsDepth n
    → Always FixedIsDepth (if b then m else n)
if-Always true m n h k = h
if-Always false m n h k = k

valid_depth-Always : (n : ℤ) → Always FixedIsDepth (valid_depth n)
valid_depth-Always (pos n) = elim (Bool-cases (is_valid n)) [
  | inl h ↦ rw h (valid-IsDepth n h)
  | inr h ↦ rw h tt
]
valid_depth-Always (negsuc n) = tt

depth_or_error-Always : (n : Option ℕ) → Always FixedIsDepth (depth_or_error n)
depth_or_error-Always none = tt
depth_or_error-Always (some n) = valid_depth-Always (pos n)

depth_in-Always : (t : List ℕ) → Always FixedIsDepth (depth_in t)
depth_in-Always t =
    if-Always (is_empty t || ltb 4300 (length t)) (err bad_bit_depth)
      (depth_or_error (decimal_from 0 t)) tt (depth_or_error-Always (decimal_from 0 t))

normalize-Always : (value : Setting) → Always FixedIsDepth (normalize_audio_bit_depth value)
unfolding normalize_audio_bit_depth
normalize-Always (text t) =
    if-Always (same_text (map lower (strip t)) (characters "best")) (ok best)
      (depth_in (map lower (strip t))) tt (depth_in-Always (map lower (strip t)))
normalize-Always (number n) = valid_depth-Always n
normalize-Always other = tt

pub fixed_bit_depth-IsDepth : (value : Setting) (d : ℕ) → fixed_bit_depth value ≡ ok d → IsDepth d
unfolding fixed_bit_depth
fixed_bit_depth-IsDepth value d h =
    let (n, e, r) = bind-eq-ok (normalize_audio_bit_depth value) resolved h in
    on_normal n (subst (Always FixedIsDepth) e (normalize-Always value)) r
  where
    on_normal : (n : Normal) → FixedIsDepth n → resolved n ≡ ok d → IsDepth d
    on_normal best v r = cc
    on_normal (fixed k) v r = subst IsDepth (ok-injective r) v

-- The samples of 16 bits
public_sample-widened :
    {d : ℕ}
    → IsWide d
    → (s : List ℕ) → length s ≡ 2
    → All IsByte s
    → to_public_sample d s ≡ ok (replicate (low_bytes d) 0 ++ s)
public_sample-widened w [] e bs = absurd (omega arith)
public_sample-widened w (a ∷ []) e bs = absurd (omega arith)
public_sample-widened w (a ∷ b ∷ []) e (h, (k, _)) = to_public_sample_wide w a b h k
public_sample-widened w (a ∷ b ∷ c ∷ s) e bs = absurd (omega arith)

public_sample-flip :
    (s : List ℕ) → length s ≡ 2 → All IsByte s → to_public_sample 8 s ≡ ok (map flip (drop 1 s))
public_sample-flip [] e bs = absurd (omega arith)
public_sample-flip (a ∷ []) e bs = absurd (omega arith)
public_sample-flip (a ∷ b ∷ []) e (h, (k, _)) = to_public_sample_8 a b h k
public_sample-flip (a ∷ b ∷ c ∷ s) e bs = absurd (omega arith)

-- The public samples
s16_sample-flip :
    (s : List ℕ) → length s ≡ 1 → All IsByte s → to_s16_sample 8 s ≡ ok (0 ∷ map flip s)
s16_sample-flip [] e bs = absurd (omega arith)
s16_sample-flip (b ∷ []) e (h, _) = to_s16_sample_8 b h
s16_sample-flip (a ∷ b ∷ s) e bs = absurd (omega arith)

s16_sample-pair :
    {d : ℕ}
    → IsWide d
    → (low high : List ℕ) → All IsByte low
    → All IsByte high
    → length low ≡ low_bytes d
    → length high ≡ 2
    → to_s16_sample d (low ++ high) ≡ ok high
s16_sample-pair w low [] ls bs e k = absurd (omega arith)
s16_sample-pair w low (a ∷ []) ls bs e k = absurd (omega arith)
s16_sample-pair w low (a ∷ b ∷ []) ls (h, (h', _)) e k = to_s16_sample_wide w low ls e a b h h'
s16_sample-pair w low (a ∷ b ∷ c ∷ s) ls bs e k = absurd (omega arith)

s16_sample-narrowed :
    {d : ℕ}
    → IsWide d
    → (s : List ℕ) → length s ≡ low_bytes d + 2
    → All IsByte s
    → to_s16_sample d s ≡ ok (drop (low_bytes d) s)
s16_sample-narrowed {d} w s e bs =
    ap (to_s16_sample d) (sym (take-append-drop (low_bytes d) s))
    ∙ s16_sample-pair w (take (low_bytes d) s) (drop (low_bytes d) s)
        (All-take IsByte (low_bytes d) s bs) (All-drop IsByte (low_bytes d) s bs)
        (omega (arith, length-take (low_bytes d) s)) (omega (arith, length-drop (low_bytes d) s))

map_id : (cs : List (List ℕ)) → map (λ (c : List ℕ). c) cs ≡ cs
map_id [] = refl
map_id (c ∷ cs) = ap (λ (ds : List (List ℕ)). c ∷ ds) (map_id cs)

-- Complete samples of 16 bits are taken over.
complete :
    (pcm : List ℕ) → trim_complete_samples pcm 2 ≡ concat (map (λ (c : List ℕ). c) (samples 2 pcm))
complete pcm =
    rw (map_id (samples 2 pcm), concat-chunks 2 (length pcm / 2) pcm)
      (ap (λ (k : ℕ). take k pcm) (omega arith))

pub to_public-widened :
    {d : ℕ}
    → IsDepth d
    → (pcm : List ℕ) → All IsByte pcm
    → to_public pcm d ≡ ok (concat (map (widened d) (samples 2 pcm)))
to_public-widened depth_8 pcm bs =
    convert_all-map (to_public_sample 8) (widened 8) 2 public_sample-flip (length pcm / 2) pcm bs
      (omega arith) (omega arith) (omega arith)
to_public-widened depth_16 pcm bs = ap ok (complete pcm)
to_public-widened (wide wide_24) pcm bs =
    convert_all-map (to_public_sample 24) (widened 24) 2 (public_sample-widened wide_24)
      (length pcm / 2) pcm bs (omega arith) (omega arith) (omega arith)
to_public-widened (wide wide_32) pcm bs =
    convert_all-map (to_public_sample 32) (widened 32) 2 (public_sample-widened wide_32)
      (length pcm / 2) pcm bs (omega arith) (omega arith) (omega arith)
to_public-widened (wide wide_64) pcm bs =
    convert_all-map (to_public_sample 64) (widened 64) 2 (public_sample-widened wide_64)
      (length pcm / 2) pcm bs (omega arith) (omega arith) (omega arith)

pub to_s16-narrowed :
    {d : ℕ}
    → IsDepth d
    → (pcm : List ℕ) → All IsByte pcm
    → to_s16 pcm d ≡ ok (concat (map (narrowed d) (samples (d / 8) pcm)))
to_s16-narrowed depth_8 pcm bs =
    convert_all-map (to_s16_sample 8) (narrowed 8) 1 s16_sample-flip (length pcm / 1) pcm bs
      (omega arith) (omega arith) (omega arith)
to_s16-narrowed depth_16 pcm bs = ap ok (complete pcm)
to_s16-narrowed (wide wide_24) pcm bs =
    convert_all-map (to_s16_sample 24) (narrowed 24) 3 (s16_sample-narrowed wide_24)
      (length pcm / 3) pcm bs (omega arith) (omega arith) (omega arith)
to_s16-narrowed (wide wide_32) pcm bs =
    convert_all-map (to_s16_sample 32) (narrowed 32) 4 (s16_sample-narrowed wide_32)
      (length pcm / 4) pcm bs (omega arith) (omega arith) (omega arith)
to_s16-narrowed (wide wide_64) pcm bs =
    convert_all-map (to_s16_sample 64) (narrowed 64) 8 (s16_sample-narrowed wide_64)
      (length pcm / 8) pcm bs (omega arith) (omega arith) (omega arith)

-- The conversions move bytes. For a depth that is set and valid, `s16le_to_public_pcm` and
-- `public_pcm_to_s16le` succeed on any bytes, an incomplete last sample is left out, and each sample
-- gets zero bytes below it, or loses its low bytes; between 8 bits and 16, the high byte changes
-- between signed and unsigned.
pub convert-bytes :
    (value : Setting) (d : ℕ) (pcm : List ℕ)
    → fixed_bit_depth value ≡ ok d
    → All IsByte pcm
    → (s16le_to_public_pcm pcm value ≡ ok (concat (map (widened d) (samples 2 pcm))))
      × (public_pcm_to_s16le pcm value ≡ ok (concat (map (narrowed d) (samples (d / 8) pcm))))
unfolding s16le_to_public_pcm public_pcm_to_s16le
convert-bytes value d pcm h bs =
    let depth = fixed_bit_depth-IsDepth value d h in
    (rw h (to_public-widened depth pcm bs), rw h (to_s16-narrowed depth pcm bs))
