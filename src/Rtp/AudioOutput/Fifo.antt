-- ===== src/Rtp/AudioOutput/Fifo.antt =====
-- `read` as a whole: what it returns, and what it leaves in the queue.
use native.Mathlib.Nat.{zero-mod}
use mathlib.Core.Path.{subst}
use rfcvoip.Prelude.{
  ℕ, ◌+◌, ◌-◌, ◌%◌, ◌≤◌, min, ◌≡◌, refl, sym, ap, ◌∙◌, List, ◌++◌, length, take, drop, replicate,
  arith,
}
use rfcvoip.Rtp.AudioOutput.{AudioOutput, take_locked, read_audio, silence}
use rfcvoip.Rtp.AudioOutput.Queue.{content}
use rfcvoip.Rtp.AudioOutput.Reading.{
  queued, IsCounted, Took, take_locked_output, take_locked-Took, length-take_locked,
  expired-take_locked, below_multiple,
}

-- A read of `n` bytes that expires `k` bytes and then plays `j`: the packet is the next `j` queued
-- bytes and silence behind them; what is played is whole samples, and so is what expired together
-- with what the skip grew by.
pub record IsRead (n : ℕ) (a : AudioOutput) (r : List ℕ × AudioOutput) (k j : ℕ) : Type 0 where
  pub took : Took (k + j) a r.1
  pub packet : r.0 ≡ take j (drop k (queued a)) ++ replicate (n - j) a.silence_byte
  pub fits : j ≤ n
  pub whole_output : j % a.sample_alignment ≡ 0
  pub skip_grows : a.expired_alignment_skip ≤ r.1.expired_alignment_skip
  pub whole_expired :
      (k + (r.1.expired_alignment_skip - a.expired_alignment_skip)) % a.sample_alignment ≡ 0
  pub counted_expired : r.1.expired_bytes ≡ a.expired_bytes + k

pub none_whole : (x d : ℕ) → x ≡ 0 → x % d ≡ 0
none_whole x d e = rw e (zero-mod d)

pub Took-at : (k k' : ℕ) {a b : AudioOutput} → k ≡ k' → Took k a b → Took k' a b
Took-at k k' {a} {b} e t = subst (λ x. Took x a b) e t

-- The same queue with other fields changed.
pub Took-relabel :
    {k : ℕ} {a b : AudioOutput} (b' : AudioOutput)
    → Took k a b
    → b'.chunks ≡ b.chunks
    → b'.size ≡ b.size
    → b'.sample_alignment ≡ b.sample_alignment
    → b'.silence_byte ≡ b.silence_byte
    → b'.dropped_bytes ≡ b.dropped_bytes
    → b'.maximum ≡ b.maximum
    → Took k a b'
Took-relabel b' t ec es ea eb ed em = record {
  left = ap content ec ∙ t.left;
  within = t.within;
  counted = record { size = rw (es, ec) t.counted.size; alignment = rw ea t.counted.alignment };
  same_alignment = ea ∙ t.same_alignment;
  same_silence = eb ∙ t.same_silence;
  same_dropped = ed ∙ t.same_dropped;
  same_maximum = em ∙ t.same_maximum;
}

-- A read that plays nothing, and changes neither the queue nor the counts of bytes.
pub silent_IsRead :
    (n : ℕ) (a a' : AudioOutput)
    → Took 0 a a'
    → a'.expired_alignment_skip ≡ a.expired_alignment_skip
    → a'.expired_bytes ≡ a.expired_bytes
    → IsRead n a (silence n a, a') 0 0
silent_IsRead n a a' t ek ex = record {
  took = Took-at 0 (0 + 0) (omega arith) t;
  packet = ap (λ (k : ℕ). replicate k a.silence_byte) (omega arith);
  fits = omega arith;
  whole_output = none_whole _ _ refl;
  skip_grows = omega arith;
  whole_expired = none_whole _ _ (omega arith);
  counted_expired = omega arith;
}

skip-take_locked :
    (n : ℕ) (a : AudioOutput)
    → (take_locked n a).1.expired_alignment_skip ≡ a.expired_alignment_skip
unfolding take_locked
skip-take_locked n a = refl

pub read_audio-IsRead :
    (n : ℕ) (a : AudioOutput) → IsCounted a → (j : ℕ) × IsRead n a (read_audio n a) 0 j
unfolding read_audio
read_audio-IsRead n a v =
    let available = min n a.size in
    let count = available - available % a.sample_alignment in
    let size : length (take_locked count a).0 ≡ count =
      omega (arith, length-take_locked count a v, v.size) in
    (
      length (take_locked count a).0,
      record {
        took =
            Took-at (length (take_locked count a).0) (0 + length (take_locked count a).0)
              (omega arith)
              (Took-relabel _ (take_locked-Took count a v) refl refl refl refl refl refl);
        packet =
            ap (λ (o : List ℕ). o ++ replicate (n - length (take_locked count a).0) a.silence_byte)
              (take_locked_output count a v ∙ ap (λ (k : ℕ). take k (queued a)) (sym size));
        fits = omega (arith, size);
        whole_output = rw size (below_multiple available a.sample_alignment);
        skip_grows = omega (arith, skip-take_locked count a);
        whole_expired = none_whole _ _ (omega (arith, skip-take_locked count a));
        counted_expired = omega (arith, expired-take_locked count a);
      },
    )

-- A read after a change that touches neither the queue nor the counts of bytes.
pub IsRead-from :
    {n j : ℕ} {r : List ℕ × AudioOutput} (a a' : AudioOutput)
    → IsCounted a
    → a'.chunks ≡ a.chunks
    → a'.sample_alignment ≡ a.sample_alignment
    → a'.silence_byte ≡ a.silence_byte
    → a'.dropped_bytes ≡ a.dropped_bytes
    → a'.maximum ≡ a.maximum
    → a'.expired_alignment_skip ≡ a.expired_alignment_skip
    → a'.expired_bytes ≡ a.expired_bytes
    → IsRead n a' r 0 j
    → IsRead n a r 0 j
IsRead-from a a' v ec ea eb ed em ek ex h = record {
  took = record {
    left = h.took.left ∙ rw ec;
    within = rw (← ec) h.took.within;
    counted = h.took.counted;
    same_alignment = h.took.same_alignment ∙ ea;
    same_silence = h.took.same_silence ∙ eb;
    same_dropped = h.took.same_dropped ∙ ed;
    same_maximum = h.took.same_maximum ∙ em;
  };
  packet = h.packet ∙ rw (ec, eb);
  fits = h.fits;
  whole_output = rw (← ea) h.whole_output;
  skip_grows = omega (arith, h.skip_grows);
  whole_expired = rw (← ea, ← ek) h.whole_expired;
  counted_expired = omega (arith, h.counted_expired);
}
