-- ===== src/Rtp/Dtmf/Normal.antt =====
-- The results of `normalize_dtmf_sequence` in rfcvoip/RTP.py.
use rfcvoip.Text.{is_space, upper}
use mathlib.Core.Path.{subst}
use rfcvoip.Prelude.{
  ℕ, ◌≡◌, refl, ap, Bool, true, false, some, inl, inr, List, contains, [], ◌∷◌, map, All, arith,
  Bool-cases, Option-cases,
}
use rfcvoip.Rtp.Dtmf.{allowed_digits, clean, or_empty, normalize_dtmf_sequence}

-- A digit is not a space, and it is its own upper case.
abbrev pub IsDigit : (allow_abcd : Bool) → ℕ → Type 0
IsDigit allow_abcd c = contains c (allowed_digits allow_abcd) ≡ true

pub digit_upper : (allow_abcd : Bool) (c : ℕ) → IsDigit allow_abcd c → upper c ≡ c
unfolding upper
digit_upper allow_abcd c h = ground arith

pub digit_space : (allow_abcd : Bool) (c : ℕ) → IsDigit allow_abcd c → is_space c ≡ false
unfolding is_space
digit_space allow_abcd c h = ground arith

clean-IsDigit :
    (allow_abcd : Bool) (cs : List ℕ)
    → All (IsDigit allow_abcd) (or_empty (clean (allowed_digits allow_abcd) cs))
unfolding clean
clean-IsDigit allow_abcd [] = tt
clean-IsDigit allow_abcd (c ∷ cs) =
    let ih = clean-IsDigit allow_abcd cs in
    elim (Bool-cases (is_space c)) [
      | inl space ↦ rw space ih
      | inr visible ↦ elim (Bool-cases (contains c (allowed_digits allow_abcd))) [
        | inl digit ↦
            rw (visible, digit)
              (elim (Option-cases (clean (allowed_digits allow_abcd) cs)) [
                | inl bad ↦ rw bad tt
                | inr (ds, good) ↦
                    rw good (digit, subst (λ r. All (IsDigit allow_abcd) (or_empty r)) good ih)
              ])
        | inr other ↦ rw (visible, other) tt
      ]
    ]

clean_digits :
    (allow_abcd : Bool) (ds : List ℕ)
    → All (IsDigit allow_abcd) ds
    → clean (allowed_digits allow_abcd) (map upper ds) ≡ some ds
unfolding clean
clean_digits allow_abcd [] h = refl
clean_digits allow_abcd (d ∷ ds) (h, hs) =
    rw (digit_upper allow_abcd d h, digit_space allow_abcd d h, h, clean_digits allow_abcd ds hs)
      (ap (λ (c : ℕ). some (c ∷ ds)) (digit_upper allow_abcd d h))

-- Every character of what `normalize_dtmf_sequence` returns is an allowed digit, and normalizing the
-- result again returns the same digits.
pub normalize-IsNormal :
    (allow_abcd : Bool) (value : List ℕ)
    → let digits = normalize_dtmf_sequence allow_abcd value in
      All (IsDigit allow_abcd) digits × (normalize_dtmf_sequence allow_abcd digits ≡ digits)
unfolding normalize_dtmf_sequence
normalize-IsNormal allow_abcd value =
    let digits = or_empty (clean (allowed_digits allow_abcd) (map upper value)) in
    let good = clean-IsDigit allow_abcd (map upper value) in
    (good, ap or_empty (clean_digits allow_abcd digits good))
