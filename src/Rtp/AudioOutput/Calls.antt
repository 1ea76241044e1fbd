-- ===== src/Rtp/AudioOutput/Calls.antt =====
-- What `write` does to the queue, and the invariant of the audio output under each of its calls.
use native.Mathlib.Nat.{zero-mod}
use rfcvoip.Prelude.{
  ℕ, ◌+◌, ◌-◌, ◌%◌, ◌≤◌, min, ◌≡◌, refl, sym, ap, inl, inr, ◌⊎◌, List, [], ◌∷◌, ◌++◌, length, drop,
  ◌==◌, arith, append-nil, length-append, Bool-cases, ==_iff,
}
use rfcvoip.Rtp.AudioOutput.{AudioOutput, append_chunk, write}
use rfcvoip.Rtp.AudioOutput.Queue.{content-append}
use rfcvoip.Rtp.AudioOutput.Reading.{queued, IsCounted}
use rfcvoip.Rtp.AudioOutput.Writing.{
  IsWithin, IsOverflow, IsOverflow-zero, IsTrimmed, trim_locked-IsTrimmed,
}

-- `a'` is `a` after `bytes` were written: `s` of them complete a sample that had expired, the others
-- follow the queue, and the first `k` bytes of the whole are dropped.
pub record IsWritten (bytes : List ℕ) (a a' : AudioOutput) (s k : ℕ) : Type 0 where
  pub left : queued a' ≡ drop k (queued a ++ drop s bytes)
  pub within : k ≤ length (queued a ++ drop s bytes)
  pub skipped : s ≡ min (length bytes) a.expired_alignment_skip
  pub skip_left : a'.expired_alignment_skip ≡ a.expired_alignment_skip - s
  pub counted_expired : a'.expired_bytes ≡ a.expired_bytes + s
  pub counted_dropped : a'.dropped_bytes ≡ a.dropped_bytes + k
  pub whole_dropped : (k % a.sample_alignment ≡ 0) ⊎ (k ≡ length (queued a ++ drop s bytes))
  pub overflow : IsOverflow a.maximum (a.size + length (drop s bytes)) a.sample_alignment k
  pub counted : IsCounted a'
  pub fits : IsWithin a'.maximum a'.size

append_chunk_lem :
    (now : ℕ) (bytes : List ℕ) (a : AudioOutput)
    → IsCounted a
    → (k : ℕ) × IsTrimmed
        (record a { chunks = a.chunks ++ (now, bytes) ∷ []; size = a.size + length bytes })
        (append_chunk now bytes a)
        k
append_chunk_lem now bytes a v = trim_locked-IsTrimmed _ (record {
  size = omega (
    arith,
    v.size,
    ap (length {A = ℕ}) (content-append a.chunks now bytes),
    length-append (queued a) bytes,
  );
  alignment = v.alignment;
})

-- A trim of the queue that has the new bytes behind it.
IsWritten-from :
    {bytes : List ℕ} {s k : ℕ} (a a1 : AudioOutput) {a' : AudioOutput}
    → s ≡ min (length bytes) a.expired_alignment_skip
    → queued a1 ≡ queued a ++ drop s bytes
    → a1.sample_alignment ≡ a.sample_alignment
    → a1.expired_alignment_skip ≡ a.expired_alignment_skip - s
    → a1.expired_bytes ≡ a.expired_bytes + s
    → a1.dropped_bytes ≡ a.dropped_bytes
    → a1.maximum ≡ a.maximum
    → a1.size ≡ a.size + length (drop s bytes)
    → IsTrimmed a1 a' k
    → IsWritten bytes a a' s k
IsWritten-from a a1 es eq ea ek ex ed em ez t = record {
  left = rw (← eq) t.left;
  within = rw (← eq) t.within;
  skipped = es;
  skip_left = omega (arith, t.same_skip, ek);
  counted_expired = omega (arith, t.same_expired, ex);
  counted_dropped = omega (arith, t.counted_dropped, ed);
  whole_dropped = rw (← eq, ← ea) t.whole_dropped;
  overflow = rw (← em, ← ez, ← ea) t.overflow;
  counted = t.counted;
  fits = t.fits;
}

empty_of : (xs : List ℕ) → length xs ≡ 0 → xs ≡ []
empty_of [] e = refl
empty_of (x ∷ xs) e = absurd (omega (arith, e))

-- All the bytes complete the expired sample.
used_up :
    (bytes : List ℕ) (s : ℕ) (a : AudioOutput)
    → IsCounted a
    → IsWithin a.maximum a.size
    → s ≡ min (length bytes) a.expired_alignment_skip
    → length (drop s bytes) ≡ 0
    → IsWritten bytes a
        (record a {
          expired_alignment_skip = a.expired_alignment_skip - s;
          expired_bytes = a.expired_bytes + s;
        })
        s
        0
used_up bytes s a v f es e = record {
  left = sym (rw (empty_of (drop s bytes) e) (append-nil (queued a)));
  within = omega arith;
  skipped = es;
  skip_left = refl;
  counted_expired = refl;
  counted_dropped = omega arith;
  whole_dropped = inl (zero-mod a.sample_alignment);
  overflow = IsOverflow-zero a.maximum _ a.sample_alignment v.alignment;
  counted = record { size = v.size; alignment = v.alignment };
  fits = f;
}

-- On a queue whose size is counted and within the maximum, `write` of `bytes` completes an expired
-- sample with the first `s` of them, for `s` the missing bytes or all of `bytes`, appends the others
-- to the queue, and drops from its front `k` bytes, for some `k`: whole samples or everything; none
-- without a maximum, or when what is then queued is within it; and otherwise less than one sample more
-- than what is over the maximum. The expired and the dropped bytes are counted, the size stays
-- counted, and it is within the maximum.
pub write-IsWritten :
    (now : ℕ) (bytes : List ℕ) (a : AudioOutput)
    → IsCounted a
    → IsWithin a.maximum a.size
    → (s k : ℕ) × IsWritten bytes a (write now bytes a) s k
unfolding write
write-IsWritten now [] a v f = (
  0,
  0,
  record {
    left = sym (append-nil (queued a));
    within = omega arith;
    skipped = omega arith;
    skip_left = omega arith;
    counted_expired = omega arith;
    counted_dropped = omega arith;
    whole_dropped = inl (zero-mod a.sample_alignment);
    overflow = IsOverflow-zero a.maximum _ a.sample_alignment v.alignment;
    counted = v;
    fits = f;
  },
)
write-IsWritten now (b ∷ bs) a v f = elim (Bool-cases (a.expired_alignment_skip == 0)) [
  | inl whole ↦
      let none_left = (==_iff a.expired_alignment_skip 0).0 whole in
      let (k, t) = append_chunk_lem now (b ∷ bs) a v in
      (
        0,
        k,
        simp whole (
            IsWritten-from a _ (omega (arith, none_left)) (content-append a.chunks now (b ∷ bs))
              refl (omega arith) (omega arith) refl refl refl t),
      )
  | inr cut ↦
      let s = min (length (b ∷ bs)) a.expired_alignment_skip in
      let a1 = record a {
        expired_alignment_skip = a.expired_alignment_skip - s;
        expired_bytes = a.expired_bytes + s;
      } in
      elim (Bool-cases (length (drop s (b ∷ bs)) == 0)) [
        | inl all ↦ (
          s,
          0,
          simp (cut, all)
              (used_up (b ∷ bs) s a v f refl ((==_iff (length (drop s (b ∷ bs))) 0).0 all)),
        )
        | inr some_left ↦
            let (k, t) =
              append_chunk_lem now (drop s (b ∷ bs)) a1
                (record { size = v.size; alignment = v.alignment }) in
            (
              s,
              k,
              simp (cut, some_left)
                  (IsWritten-from a _ refl (content-append a.chunks now (drop s (b ∷ bs))) refl refl
                    refl refl refl refl t),
            )
      ]
]
