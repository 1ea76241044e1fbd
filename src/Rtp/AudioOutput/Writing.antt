-- ===== src/Rtp/AudioOutput/Writing.antt =====
-- `_trim_locked`, `write`, `configure` and `enable_realtime` of the audio output.
use native.Mathlib.Decide.{dec_le}
use native.Mathlib.Nat.{mod-lt, mod-add-div', mul-mod_left}
use native.Mathlib.Nat.{zero-mod}
use mathlib.Core.Path.{subst}
use rfcvoip.Prelude.{
  ℕ, ◌+◌, ◌-◌, ◌/◌, ◌%◌, ◌≤◌, ◌<◌, min, ◌≡◌, refl, sym, ap, Option, none, some, inl, inr, ◌⊎◌,
  length, drop, leb, if◌then◌else◌, arith, leb→le, length-drop, Bool-cases,
}
use rfcvoip.Rtp.AudioOutput.{AudioOutput, round_up, trim_to, trim_locked}
use rfcvoip.Rtp.AudioOutput.Queue.{discard_chunks_lem}
use rfcvoip.Rtp.AudioOutput.Reading.{queued, IsCounted}

abbrev pub IsWithin : Option ℕ → ℕ → Type 0
IsWithin none n = Unit
IsWithin (some m) n = n ≤ m

pub IsWithin-below : (m : Option ℕ) (n n' : ℕ) → n' ≤ n → IsWithin m n → IsWithin m n'
IsWithin-below none n n' h f = tt
IsWithin-below (some m) n n' h f = omega (arith, h, f)

-- Nothing is dropped without a maximum or within it; otherwise less than one sample more than what is
-- over the maximum.
abbrev pub IsOverflow : Option ℕ → (size alignment k : ℕ) → Type 0
IsOverflow none size alignment k = k ≡ 0
IsOverflow (some m) size alignment k = (size ≤ m → k ≡ 0) × (k < size - m + alignment)

pub IsOverflow-zero :
    (m : Option ℕ) (size alignment : ℕ) → 0 < alignment → IsOverflow m size alignment 0
IsOverflow-zero none size alignment h = refl
IsOverflow-zero (some m) size alignment h = (λ _. refl, omega arith)

-- `a'` is `a` without its first `k` bytes, which are counted as dropped.
pub record IsTrimmed (a a' : AudioOutput) (k : ℕ) : Type 0 where
  pub left : queued a' ≡ drop k (queued a)
  pub within : k ≤ length (queued a)
  pub counted : IsCounted a'
  pub counted_dropped : a'.dropped_bytes ≡ a.dropped_bytes + k
  pub whole_dropped : (k % a.sample_alignment ≡ 0) ⊎ (k ≡ length (queued a))
  pub overflow : IsOverflow a.maximum a.size a.sample_alignment k
  pub fits : IsWithin a'.maximum a'.size
  pub same_expired : a'.expired_bytes ≡ a.expired_bytes
  pub same_skip : a'.expired_alignment_skip ≡ a.expired_alignment_skip
  pub same_alignment : a'.sample_alignment ≡ a.sample_alignment

round_up_multiple : (x d : ℕ) → round_up x d % d ≡ 0
round_up_multiple x d = mul-mod_left ((x + d - 1) / d) d

round_up_bounds : (x d : ℕ) → 0 < d → (x ≤ round_up x d) × (round_up x d < x + d)
round_up_bounds x d h =
    let e = mod-add-div' (x + d - 1) d in
    let b = mod-lt (x + d - 1) h in (omega (arith, e, b), omega (arith, e, b))

untrimmed_IsTrimmed :
    (a : AudioOutput)
    → IsCounted a
    → IsWithin a.maximum a.size
    → IsOverflow a.maximum a.size a.sample_alignment 0
    → IsTrimmed a a 0
untrimmed_IsTrimmed a v f o = record {
  left = refl;
  within = omega arith;
  counted = v;
  counted_dropped = omega arith;
  whole_dropped = inl (zero-mod a.sample_alignment);
  overflow = o;
  fits = f;
  same_expired = refl;
  same_skip = refl;
  same_alignment = refl;
}

trim_to-IsTrimmed :
    (m : ℕ) (a : AudioOutput)
    → a.maximum ≡ some m
    → m < a.size
    → IsCounted a
    → (k : ℕ) × IsTrimmed a (trim_to m a) k
unfolding trim_to
trim_to-IsTrimmed m a e large v =
    let over = round_up (a.size - m) a.sample_alignment in
    let k = min a.size over in
    let (enough, close) = round_up_bounds (a.size - m) a.sample_alignment v.alignment in
    let left = discard_chunks_lem k a.chunks in
    (
      k,
      record {
        left = left;
        within = omega (arith, v.size);
        counted = record {
          size = omega (arith, ap (length {A = ℕ}) left, length-drop k (queued a), v.size);
          alignment = v.alignment;
        };
        counted_dropped = refl;
        whole_dropped = elim (dec_le over a.size) [
          | yes whole ↦
              let e' : k ≡ over = omega arith in
              inl (rw e' (round_up_multiple (a.size - m) a.sample_alignment))
          | no all ↦ inr (omega (arith, v.size))
        ];
        overflow =
            subst (λ o. IsOverflow o a.size a.sample_alignment k) (sym e)
              (λ small. absurd (omega (arith, small, large)), omega (arith, close));
        fits = subst (λ o. IsWithin o (a.size - k)) (sym e) (omega (arith, enough));
        same_expired = refl;
        same_skip = refl;
        same_alignment = refl;
      },
    )

trim_by : Option ℕ → AudioOutput → AudioOutput
trim_by m a = elim m [
  | none ↦ a
  | some maximum ↦ if leb a.size maximum then a else trim_to maximum a
]

trim_by-IsTrimmed :
    (m : Option ℕ) (a : AudioOutput)
    → a.maximum ≡ m
    → IsCounted a
    → (k : ℕ) × IsTrimmed a (trim_by m a) k
unfolding trim_by
trim_by-IsTrimmed none a e v = (
  0,
  untrimmed_IsTrimmed a v (subst (λ o. IsWithin o a.size) (sym e) tt)
      (IsOverflow-zero a.maximum a.size a.sample_alignment v.alignment),
)
trim_by-IsTrimmed (some m) a e v = elim (Bool-cases (leb a.size m)) [
  | inl fits ↦
      let small = leb→le a.size m fits in
      (
        0,
        rw fits (
            untrimmed_IsTrimmed a v (subst (λ o. IsWithin o a.size) (sym e) small)
              (IsOverflow-zero a.maximum a.size a.sample_alignment v.alignment)),
      )
  | inr large ↦ simp large (trim_to-IsTrimmed m a e (ground (arith, large)) v)
]

-- On a queue whose size is counted, `_trim_locked` drops the first `k` bytes of the queue, for some
-- `k`: whole samples or everything, less than one sample more than what is over the maximum, and
-- what it leaves is within the maximum.
pub trim_locked-IsTrimmed :
    (a : AudioOutput) → IsCounted a → (k : ℕ) × IsTrimmed a (trim_locked a) k
unfolding trim_locked trim_by
trim_locked-IsTrimmed a v = trim_by-IsTrimmed a.maximum a refl v
