-- ===== src/AudioFormat/Tests.antt =====
-- Runs of the conversions of rfcvoip/audio_format.py.
use rfcvoip.Prelude.{ℕ, ◌≡◌, refl, List, [], ◌∷◌, arith, All, IsByte}
use rfcvoip.Prelude.Int.{pos, negsuc}
use rfcvoip.Text.{characters, is_space, lower}
use rfcvoip.Sip.Result.{err, ok, ◌>>=◌}
use rfcvoip.AudioFormat.{
  text, number, bad_bit_depth, unresolved, overflow, fixed_bit_depth, normalize_audio_bit_depth,
  public_pcm_to_s16le, s16le_to_public_pcm, silence_bytes, to_signed,
}
use rfcvoip.AudioFormat.Conversions.{convert-bytes}
use rfcvoip.AudioFormat.RoundTrip.{s16-public-s16, public-s16-public}

depth_of_text : fixed_bit_depth (text (characters " 24 ")) ≡ ok 24
unfolding fixed_bit_depth normalize_audio_bit_depth is_space lower
depth_of_text = refl

-- Two full-width digits
depth_of_wide_digits : fixed_bit_depth (text (0xff11 ∷ 0xff16 ∷ [])) ≡ ok 16
unfolding fixed_bit_depth normalize_audio_bit_depth is_space lower
depth_of_wide_digits = refl

depth_of_best : fixed_bit_depth (text (characters "BEST")) ≡ err unresolved
unfolding fixed_bit_depth normalize_audio_bit_depth is_space lower
depth_of_best = refl

depth_of_number : fixed_bit_depth (number (pos 12)) ≡ err bad_bit_depth
unfolding fixed_bit_depth normalize_audio_bit_depth
depth_of_number = refl

-- The samples -2 and 0x1234, and half a sample
abbrev pcm : List ℕ
pcm = 0xfe ∷ 0xff ∷ 0x34 ∷ 0x12 ∷ 7 ∷ []

too_wide : to_signed 2 (negsuc 32768) ≡ err overflow
unfolding to_signed
too_wide = refl

silent : silence_bytes 3 (text (characters "8")) ≡ ok (128 ∷ 128 ∷ 128 ∷ [])
unfolding silence_bytes fixed_bit_depth normalize_audio_bit_depth is_space lower
silent = refl

depth_24 : fixed_bit_depth (number (pos 24)) ≡ ok 24
unfolding fixed_bit_depth normalize_audio_bit_depth
depth_24 = refl

depth_8_text : fixed_bit_depth (text (characters "8")) ≡ ok 8
unfolding fixed_bit_depth normalize_audio_bit_depth is_space lower
depth_8_text = refl

pcm-IsByte : All IsByte pcm
pcm-IsByte = (omega arith, (omega arith, (omega arith, (omega arith, (omega arith, tt)))))

convert-bytes_example :
    (s16le_to_public_pcm pcm (number (pos 24)) ≡ ok (0 ∷ 0xfe ∷ 0xff ∷ 0 ∷ 0x34 ∷ 0x12 ∷ []))
    × (public_pcm_to_s16le pcm (number (pos 24)) ≡ ok (0xff ∷ 0x34 ∷ []))
convert-bytes_example = convert-bytes (number (pos 24)) 24 pcm depth_24 pcm-IsByte

s16-public-s16_example :
    (s16le_to_public_pcm pcm (text (characters "8")) >>= λ public.
    public_pcm_to_s16le public (text (characters "8")))
    ≡ ok (0 ∷ 0xff ∷ 0 ∷ 0x12 ∷ [])
s16-public-s16_example = s16-public-s16 (text (characters "8")) 8 pcm depth_8_text pcm-IsByte

public-s16-public_example :
    (public_pcm_to_s16le pcm (number (pos 24)) >>= λ s16. s16le_to_public_pcm s16 (number (pos 24)))
    ≡ ok (0 ∷ 0xff ∷ 0x34 ∷ [])
public-s16-public_example = public-s16-public (number (pos 24)) 24 pcm depth_24 pcm-IsByte
