-- ===== src/Rtp/AudioOutput/Sequences.antt =====
-- Any sequence of calls of the audio output, each at its own time.
use rfcvoip.Prelude.{
  ℕ, ◌+◌, refl, ap, ◌||◌, Option, none, some, inl, inr, List, [], ◌∷◌, length, ltb, ◌==◌, arith,
  length-drop, Bool-cases,
}
use rfcvoip.Rtp.AudioOutput.{
  AudioOutput, trim_locked, configured, configure, empty_output, init, enable_realtime, write, read,
}
use rfcvoip.Rtp.AudioOutput.Reading.{queued, IsCounted}
use rfcvoip.Rtp.AudioOutput.Expiry.{read-IsRead}
use rfcvoip.Rtp.AudioOutput.Writing.{IsWithin, IsWithin-below, trim_locked-IsTrimmed}
use rfcvoip.Rtp.AudioOutput.Calls.{write-IsWritten}

-- The size is counted and within the maximum.
pub record IsBounded (a : AudioOutput) : Type 0 where
  pub counted : IsCounted a
  pub fits : IsWithin a.maximum a.size

pub data Call : Type 0 where
  write_call : List ℕ → Call
  read_call : (n : ℕ) → Call
  configure_call : (frame_bytes period silence_byte : ℕ) → Call
  enable_call : (max_latency prefill : ℕ) → Call

or_same : AudioOutput → Option AudioOutput → AudioOutput
or_same a none = a
or_same a (some a') = a'

-- A call of `enable_realtime` that is refused leaves the object as it was.
pub perform : (now : ℕ) → Call → AudioOutput → AudioOutput
perform now (write_call bytes) a = write now bytes a
perform now (read_call n) a = (read now n a).1
perform now (configure_call frame_bytes period silence_byte) a =
    configure frame_bytes period silence_byte a
perform now (enable_call max_latency prefill) a = or_same a (enable_realtime max_latency prefill a)

pub perform_all : List (ℕ × Call) → AudioOutput → AudioOutput
perform_all [] a = a
perform_all ((now, call) ∷ calls) a = perform_all calls (perform now call a)

trim_locked-IsBounded : (a : AudioOutput) → IsCounted a → IsBounded (trim_locked a)
trim_locked-IsBounded a v =
    let (k, t) = trim_locked-IsTrimmed a v in record { counted = t.counted; fits = t.fits }

pub configure-IsBounded :
    (frame_bytes period silence_byte : ℕ) (a : AudioOutput)
    → IsCounted a
    → IsBounded (configure frame_bytes period silence_byte a)
unfolding configure
configure-IsBounded frame_bytes period silence_byte a v =
    trim_locked-IsBounded (configured frame_bytes period silence_byte a)
      (record { size = v.size; alignment = v.alignment })

enable_realtime-IsBounded :
    (max_latency prefill : ℕ) (a : AudioOutput)
    → IsBounded a
    → IsBounded (or_same a (enable_realtime max_latency prefill a))
unfolding enable_realtime or_same
enable_realtime-IsBounded max_latency prefill a v =
    elim (Bool-cases (max_latency == 0 || ltb max_latency prefill)) [
      | inl refused ↦ simp refused v
      | inr allowed ↦ simp allowed (
          trim_locked-IsBounded _
            (configure-IsBounded a.frame_bytes a.period a.silence_byte _
              (record { size = v.counted.size; alignment = v.counted.alignment })).counted)
    ]

read-IsBounded : (now n : ℕ) (a : AudioOutput) → IsBounded a → IsBounded (read now n a).1
read-IsBounded now n a v =
    let (k, j, h) = read-IsRead now n a v.counted in
    record {
      counted = h.took.counted;
      fits = rw h.took.same_maximum (
          IsWithin-below a.maximum a.size (read now n a).1.size
            (omega (
              arith,
              h.took.counted.size,
              v.counted.size,
              ap (length {A = ℕ}) h.took.left,
              length-drop (k + j) (queued a),
            ))
            v.fits);
    }

pub perform-IsBounded :
    (now : ℕ) (call : Call) (a : AudioOutput) → IsBounded a → IsBounded (perform now call a)
unfolding perform
perform-IsBounded now (write_call bytes) a v =
    let (s, k, h) = write-IsWritten now bytes a v.counted v.fits in
    record { counted = h.counted; fits = h.fits }
perform-IsBounded now (read_call n) a v = read-IsBounded now n a v
perform-IsBounded now (configure_call frame_bytes period silence_byte) a v =
    configure-IsBounded frame_bytes period silence_byte a v.counted
perform-IsBounded now (enable_call max_latency prefill) a v =
    enable_realtime-IsBounded max_latency prefill a v

init-IsBounded :
    (frame_bytes silence_byte sample_alignment : ℕ)
    → IsBounded (init frame_bytes silence_byte sample_alignment)
unfolding init
init-IsBounded frame_bytes silence_byte sample_alignment =
    configure-IsBounded frame_bytes 20000000 silence_byte
      (empty_output silence_byte sample_alignment) (record { size = refl; alignment = omega arith })

perform_all-IsBounded :
    (calls : List (ℕ × Call)) (a : AudioOutput) → IsBounded a → IsBounded (perform_all calls a)
unfolding perform_all
perform_all-IsBounded [] a v = v
perform_all-IsBounded ((now, call) ∷ calls) a v =
    perform_all-IsBounded calls (perform now call a) (perform-IsBounded now call a v)

-- After any sequence of writes, reads, configurations and calls of `enable_realtime` on a new audio
-- output, the size is the number of queued bytes and is within the maximum of the realtime mode.
pub perform_all-init :
    (frame_bytes silence_byte sample_alignment : ℕ) (calls : List (ℕ × Call))
    → IsBounded (perform_all calls (init frame_bytes silence_byte sample_alignment))
perform_all-init frame_bytes silence_byte sample_alignment calls =
    perform_all-IsBounded calls (init frame_bytes silence_byte sample_alignment)
      (init-IsBounded frame_bytes silence_byte sample_alignment)
