-- ===== src/Rtp/AudioOutput/Expiry.antt =====
-- The expiry that starts a read in the realtime mode, and the read as a whole.
use native.Mathlib.Nat.{mod-add-mod}
use rfcvoip.Prelude.{
  ℕ, zero, suc, ◌+◌, ◌-◌, ◌%◌, ◌≤◌, ◌≡◌, refl, sym, ap, ◌∙◌, true, ◌||◌, not, Option, none, some,
  inl, inr, List, [], length, ltb, leb, arith, length-drop, Bool-cases,
}
use rfcvoip.Rtp.AudioOutput.{
  AudioOutput, expire_chunks, expire, has_waited, read_primed, read_realtime, read_buffered, read,
}
use rfcvoip.Rtp.AudioOutput.Queue.{expire_chunks_lem}
use rfcvoip.Rtp.AudioOutput.Reading.{
  queued, IsCounted, Took, Took-trans, Took-none, finish_sample_lem,
}
use rfcvoip.Rtp.AudioOutput.Fifo.{
  IsRead, silent_IsRead, read_audio-IsRead, IsRead-from, Took-at, Took-relabel, none_whole,
}

-- The expiry removes `k` bytes, counts them, and leaves the queue and the skip at a sample boundary.
pub record IsExpired (a a' : AudioOutput) (k : ℕ) : Type 0 where
  pub took : Took k a a'
  pub skip_grows : a.expired_alignment_skip ≤ a'.expired_alignment_skip
  pub whole : (k + (a'.expired_alignment_skip - a.expired_alignment_skip)) % a.sample_alignment ≡ 0
  pub counted_expired : a'.expired_bytes ≡ a.expired_bytes + k

pub expire-IsExpired :
    (now latency : ℕ) (a : AudioOutput)
    → IsCounted a
    → (k : ℕ) × IsExpired a (expire now latency a) k
unfolding expire
expire-IsExpired now latency a v =
    let (bound, left) = expire_chunks_lem now latency a.chunks in
    let e = (expire_chunks now latency a.chunks).0 in
    let chunks = (expire_chunks now latency a.chunks).1 in
    let a1 = record a { chunks = chunks; size = a.size - e } in
    let counted : IsCounted a1 = record {
      size = omega (arith, ap (length {A = ℕ}) left, length-drop e (queued a), v.size, bound);
      alignment = v.alignment;
    } in
    let t : Took e a a1 = record {
      left = left;
      within = bound;
      counted = counted;
      same_alignment = refl;
      same_silence = refl;
      same_dropped = refl;
      same_maximum = refl;
    } in
    let (s, f) = finish_sample_lem e a1 counted in
    (
      e + s,
      record {
        took = Took-trans t f.took;
        skip_grows = f.skip_grows;
        whole = f.whole;
        counted_expired = f.counted_expired;
      },
    )

add_whole : (x y d : ℕ) → x % d ≡ 0 → y % d ≡ 0 → (x + y) % d ≡ 0
add_whole x y d hx hy = sym (mod-add-mod x d y) ∙ rw hx (ap (λ (z : ℕ). z % d) (omega arith) ∙ hy)

none_left : (x d : ℕ) → (0 + x) % d ≡ 0 → x % d ≡ 0
none_left x d h = ap (λ (z : ℕ). z % d) (omega arith) ∙ h

-- A read that follows an expiry.
after_expiry :
    (n : ℕ) {k j : ℕ} {a a' : AudioOutput} {r : List ℕ × AudioOutput}
    → IsExpired a a' k
    → IsRead n a' r 0 j
    → IsRead n a r k j
after_expiry n {k} {j} {a} {a'} {r} x h = record {
  took = Took-at (k + (0 + j)) (k + j) (omega arith) (Took-trans x.took h.took);
  packet = h.packet ∙ rw (x.took.left, x.took.same_silence);
  fits = h.fits;
  whole_output = rw (← x.took.same_alignment) h.whole_output;
  skip_grows = omega (arith, h.skip_grows, x.skip_grows);
  whole_expired =
      let rest : (r.1.expired_alignment_skip - a'.expired_alignment_skip) % a.sample_alignment ≡ 0 =
        none_left _ _ (rw (← x.took.same_alignment) h.whole_expired) in
      let e : k + (r.1.expired_alignment_skip - a.expired_alignment_skip)
          ≡ k
            + (a'.expired_alignment_skip - a.expired_alignment_skip)
            + (r.1.expired_alignment_skip - a'.expired_alignment_skip) =
        omega (arith, h.skip_grows, x.skip_grows) in
      rw e (add_whole _ _ a.sample_alignment x.whole rest);
  counted_expired = omega (arith, h.counted_expired, x.counted_expired);
}

read_primed-IsRead :
    (n : ℕ) (a : AudioOutput) → IsCounted a → (j : ℕ) × IsRead n a (read_primed n a) 0 j
unfolding read_primed
read_primed-IsRead n a v = elim (Bool-cases (ltb a.size n)) [
  | inl starved ↦ (
    0,
    rw starved (
        silent_IsRead n a _ (Took-relabel _ (Took-none a v) refl refl refl refl refl refl) refl
          refl),
  )
  | inr served ↦ rw served (read_audio-IsRead n a v)
]

read_realtime-IsRead :
    (now n : ℕ) (a : AudioOutput) → IsCounted a → (j : ℕ) × IsRead n a (read_realtime now n a) 0 j
unfolding read_realtime
read_realtime-IsRead now n a v = elim (Bool-cases a.primed) [
  | inl primed ↦ simp primed (read_primed-IsRead n a v)
  | inr waiting ↦
      simp waiting
        (elim (Bool-cases
          (ltb a.size n || not (leb a.prefill a.size || has_waited now a.prefill_time a.chunks))) [
            | inl silent ↦ (
              0,
              rw silent (
                  silent_IsRead n a _ (Took-relabel _ (Took-none a v) refl refl refl refl refl refl)
                    refl refl),
            )
            | inr ready ↦
                let a' = record a { primed = true } in
                let (j, h) =
                  read_primed-IsRead n a' (record { size = v.size; alignment = v.alignment }) in
                (j, rw ready (IsRead-from a a' v refl refl refl refl refl refl refl h))
          ])
]

read_buffered-IsRead :
    (n : ℕ) (a : AudioOutput) → IsCounted a → (j : ℕ) × IsRead n a (read_buffered n a) 0 j
unfolding read_buffered
read_buffered-IsRead n a v = elim (Bool-cases (ltb a.size n)) [
  | inl starved ↦
      let a' = record a { underruns = a.underruns + 1 } in
      let (j, h) = read_audio-IsRead n a' (record { size = v.size; alignment = v.alignment }) in
      (j, rw starved (IsRead-from a a' v refl refl refl refl refl refl refl h))
  | inr served ↦ rw served (read_audio-IsRead n a v)
]

-- `read` in each mode, with the mode as a variable.
mode : (now n : ℕ) → AudioOutput → Option ℕ → List ℕ × AudioOutput
mode now n a m = elim m [
  | none ↦ read_buffered n a
  | some latency ↦ read_realtime now n (expire now latency a)
]

mode-IsRead :
    (now n : ℕ) (a : AudioOutput) (m : Option ℕ)
    → IsCounted a
    → (k j : ℕ) × IsRead n a (mode now n a m) k j
unfolding mode
mode-IsRead now n a none v = let (j, h) = read_buffered-IsRead n a v in (0, j, h)
mode-IsRead now n a (some latency) v =
    let (k, x) = expire-IsExpired now latency a v in
    let (j, h) = read_realtime-IsRead now n (expire now latency a) x.took.counted in
    (k, j, after_expiry n x h)

nothing_IsRead : (a : AudioOutput) → IsCounted a → IsRead 0 a ([], a) 0 0
nothing_IsRead a v = record {
  took = Took-none a v;
  packet = refl;
  fits = omega arith;
  whole_output = none_whole _ _ refl;
  skip_grows = omega arith;
  whole_expired = none_whole _ _ (omega arith);
  counted_expired = omega arith;
}

-- On a queue whose size is counted, `read` of `n` bytes expires the first `k` bytes of the queue,
-- plays the next `j` and leaves the others in their order, for some `k` and `j`: the packet is the `j`
-- bytes played with silence up to `n`; `j` is a whole number of samples, and so is `k` with what the
-- skip grew by; the expired bytes are counted, no byte is counted as dropped, and the size stays
-- counted.
pub read-IsRead :
    (now n : ℕ) (a : AudioOutput) → IsCounted a → (k j : ℕ) × IsRead n a (read now n a) k j
unfolding read mode
read-IsRead now zero a v = (0, 0, nothing_IsRead a v)
read-IsRead now (suc n) a v = mode-IsRead now (suc n) a a.max_latency v

buffered_mode :
    (now n : ℕ) (a : AudioOutput) (m : Option ℕ)
    → m ≡ none
    → IsCounted a
    → (j : ℕ) × IsRead n a (mode now n a m) 0 j
unfolding mode
buffered_mode now n a none e v = read_buffered-IsRead n a v
buffered_mode now n a (some latency) e v = absurd (ground arith)

-- In the buffered mode `read` expires nothing.
pub read_buffered_mode :
    (now n : ℕ) (a : AudioOutput)
    → a.max_latency ≡ none
    → IsCounted a
    → (j : ℕ) × IsRead n a (read now n a) 0 j
unfolding read mode
read_buffered_mode now zero a e v = (0, nothing_IsRead a v)
read_buffered_mode now (suc n) a e v = buffered_mode now (suc n) a a.max_latency e v
