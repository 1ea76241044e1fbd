-- ===== src/Rtp/AudioOutput/Reading.antt =====
-- `read` of the audio output: what it takes from the queue.
use native.Mathlib.Decide.{dec_lt}
use native.Mathlib.Nat.{mod-lt, mod-add-div', mul-mod_left, mod-add-mod, mod_self}
use rfcvoip.Prelude.{
  ℕ, ◌+◌, ◌-◌, ◌*◌, ◌/◌, ◌%◌, ◌≤◌, ◌<◌, min, ◌≡◌, refl, sym, ap, ◌∙◌, true, inl, inr, List, length,
  take, drop, ◌==◌, arith, length-take, length-drop, drop-drop, Bool-cases, drop_all, ==_iff,
}
use rfcvoip.Rtp.AudioOutput.{AudioOutput, take_chunks, take_locked, finish_sample}
use rfcvoip.Rtp.AudioOutput.Queue.{content, take_chunks_lem}

abbrev pub queued : AudioOutput → List ℕ
queued a = content a.chunks

-- The size is the number of queued bytes.
pub record IsCounted (a : AudioOutput) : Type 0 where
  pub size : a.size ≡ length (queued a)
  pub alignment : 0 < a.sample_alignment

-- `a'` is `a` without its first `k` bytes; the alignment, the silence byte, the maximum and the
-- bytes dropped are the same.
pub record Took (k : ℕ) (a a' : AudioOutput) : Type 0 where
  pub left : queued a' ≡ drop k (queued a)
  pub within : k ≤ length (queued a)
  pub counted : IsCounted a'
  pub same_alignment : a'.sample_alignment ≡ a.sample_alignment
  pub same_silence : a'.silence_byte ≡ a.silence_byte
  pub same_dropped : a'.dropped_bytes ≡ a.dropped_bytes
  pub same_maximum : a'.maximum ≡ a.maximum

drop-min : (n : ℕ) (xs : List ℕ) → drop (min n (length xs)) xs ≡ drop n xs
drop-min n xs = elim (dec_lt n (length xs)) [
  | yes short ↦ ap (λ (k : ℕ). drop k xs) (omega arith)
  | no long ↦
      let e : min n (length xs) ≡ length xs = omega arith in
      rw e (drop_all (length xs) xs (omega arith) ∙ sym (drop_all n xs (omega arith)))
]

module _ (n : ℕ) (a : AudioOutput) (v : IsCounted a) where
  pub take_locked_output : (take_locked n a).0 ≡ take n (queued a)
  unfolding take_locked
  take_locked_output = (take_chunks_lem n a.chunks).0

  pub length-take_locked : length (take_locked n a).0 ≡ min n (length (queued a))
  length-take_locked = rw take_locked_output (length-take n (queued a))

  -- The count of bytes that leave is the length of the output, which may be less than `n`.
  pub take_locked-Took : Took (length (take_locked n a).0) a (take_locked n a).1
  unfolding take_locked
  take_locked-Took =
      let (taken, left) = take_chunks_lem n a.chunks in
      let count : length (take_chunks n a.chunks).0 ≡ min n (length (queued a)) =
        rw taken (length-take n (queued a)) in
      record {
        left = left ∙ (rw count (sym (drop-min n (queued a))));
        within = omega (arith, count);
        counted = record {
          size = omega (arith, count, ap (length {A = ℕ}) left, length-drop n (queued a), v.size);
          alignment = v.alignment;
        };
        same_alignment = refl;
        same_silence = refl;
        same_dropped = refl;
        same_maximum = refl;
      }

pub Took-trans : {k j : ℕ} {a b c : AudioOutput} → Took k a b → Took j b c → Took (k + j) a c
Took-trans {k} {j} {a} {b} {c} p q = record {
  left = q.left ∙ (ap (drop j) p.left ∙ drop-drop j k (queued a));
  within = omega (arith, ap (length {A = ℕ}) p.left, length-drop k (queued a), p.within, q.within);
  counted = q.counted;
  same_alignment = q.same_alignment ∙ p.same_alignment;
  same_silence = q.same_silence ∙ p.same_silence;
  same_dropped = q.same_dropped ∙ p.same_dropped;
  same_maximum = q.same_maximum ∙ p.same_maximum;
}

-- Multiples of the alignment.
pub below_multiple : (n d : ℕ) → (n - n % d) % d ≡ 0
below_multiple n d =
    let e : n - n % d ≡ n / d * d = omega (arith, mod-add-div' n d) in rw e (mul-mod_left (n / d) d)

next_multiple : (n d : ℕ) → 0 < d → (n + (d - n % d)) % d ≡ 0
next_multiple n d h =
    let e : n % d + (d - n % d) ≡ d = omega (arith, mod-lt n h) in
    sym (mod-add-mod n d (d - n % d)) ∙ rw e (mod_self d)

-- Expired bytes end at a sample boundary. `s` more bytes leave the queue, and the skip grows by what
-- is still missing from the cut sample.
pub record Finished (expired : ℕ) (a a' : AudioOutput) (s : ℕ) : Type 0 where
  pub took : Took s a a'
  pub counted_expired : a'.expired_bytes ≡ a.expired_bytes + (expired + s)
  pub skip_grows : a.expired_alignment_skip ≤ a'.expired_alignment_skip
  pub whole :
      (expired + s + (a'.expired_alignment_skip - a.expired_alignment_skip)) % a.sample_alignment
      ≡ 0
  pub same_primed : a'.primed ≡ a.primed

pub Took-none : (a : AudioOutput) → IsCounted a → Took 0 a a
Took-none a v = record {
  left = refl;
  within = omega arith;
  counted = v;
  same_alignment = refl;
  same_silence = refl;
  same_dropped = refl;
  same_maximum = refl;
}

even_case :
    (expired : ℕ) (a : AudioOutput)
    → IsCounted a
    → (expired % a.sample_alignment == 0) ≡ true
    → Finished expired a (record a { expired_bytes = a.expired_bytes + expired }) 0
even_case expired a v even = record {
  took = record {
    left = refl;
    within = omega arith;
    counted = record { size = v.size; alignment = v.alignment };
    same_alignment = refl;
    same_silence = refl;
    same_dropped = refl;
    same_maximum = refl;
  };
  counted_expired = omega arith;
  skip_grows = omega arith;
  whole =
      let e : expired + 0 + (a.expired_alignment_skip - a.expired_alignment_skip) ≡ expired =
        omega arith in
      rw e ((==_iff (expired % a.sample_alignment) 0).0 even);
  same_primed = refl;
}

primed-take_locked : (n : ℕ) (a : AudioOutput) → (take_locked n a).1.primed ≡ a.primed
unfolding take_locked
primed-take_locked n a = refl

pub expired-take_locked :
    (n : ℕ) (a : AudioOutput) → (take_locked n a).1.expired_bytes ≡ a.expired_bytes
unfolding take_locked
expired-take_locked n a = refl

odd_case :
    (expired : ℕ) (a : AudioOutput) (v : IsCounted a)
    → let suffix = a.sample_alignment - expired % a.sample_alignment in
      let (discarded, a1) = take_locked suffix a in
      Finished expired a
        (record a1 {
          expired_alignment_skip = a.expired_alignment_skip + (suffix - length discarded);
          expired_bytes = a.expired_bytes + (expired + length discarded);
        })
        (length discarded)
odd_case expired a v =
    let suffix = a.sample_alignment - expired % a.sample_alignment in
    let s = length (take_locked suffix a).0 in
    let t = take_locked-Took suffix a v in
    let e : expired + s + (a.expired_alignment_skip + (suffix - s) - a.expired_alignment_skip)
        ≡ expired + suffix =
      omega (arith, length-take_locked suffix a v) in
    record {
      took = record {
        left = t.left;
        within = t.within;
        counted = record { size = t.counted.size; alignment = t.counted.alignment };
        same_alignment = t.same_alignment;
        same_silence = t.same_silence;
        same_dropped = t.same_dropped;
        same_maximum = t.same_maximum;
      };
      counted_expired = refl;
      skip_grows = omega arith;
      whole = rw e (next_multiple expired a.sample_alignment v.alignment);
      same_primed = primed-take_locked suffix a;
    }

pub finish_sample_lem :
    (expired : ℕ) (a : AudioOutput)
    → IsCounted a
    → (s : ℕ) × Finished expired a (finish_sample expired a) s
unfolding finish_sample
finish_sample_lem expired a v =
    let suffix = a.sample_alignment - expired % a.sample_alignment in
    elim (Bool-cases (expired % a.sample_alignment == 0)) [
      | inl even ↦ (0, rw even (even_case expired a v even))
      | inr odd ↦ (length (take_locked suffix a).0, rw odd (odd_case expired a v))
    ]
