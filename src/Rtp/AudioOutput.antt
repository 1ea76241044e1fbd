-- ===== src/Rtp/AudioOutput.antt =====
-- `class RTPAudioOutput` of rfcvoip/RTP.py: the queue of PCM that the transmitter drains.
-- Times (the clock, latencies, the period) are whole nanoseconds; the two quotients of floats with
-- their 1e-9 slack are the exact quotients of these.
pub mod Queue
pub mod Reading
pub mod Fifo
pub mod Expiry
pub mod Writing
pub mod Calls
pub mod Sequences
mod Tests
use rfcvoip.Prelude.{
  ℕ, zero, suc, ◌+◌, ◌-◌, ◌*◌, ◌/◌, ◌%◌, ◌^◌, min, max, ◌≡◌, Bool, true, false, ◌&&◌, ◌||◌, not,
  Option, none, some, List, [], ◌∷◌, ◌++◌, length, take, drop, replicate, ltb, leb, ◌==◌,
  if◌then◌else◌,
}

-- The queue: each chunk with the time at which it was queued.
abbrev pub Chunks : Type 0
Chunks = List (ℕ × List ℕ)

pub data OutputState : Type 0 where
  prefilling underrun audio : OutputState

pub record AudioOutput : Type 0 where
  pub chunks : Chunks
  pub size : ℕ
  pub primed : Bool
  pub max_latency : Option ℕ
  pub prefill_time : ℕ
  pub sample_alignment : ℕ
  pub expired_alignment_skip : ℕ
  pub underruns : ℕ
  pub dropped_bytes : ℕ
  pub expired_bytes : ℕ
  pub output_state : OutputState
  pub frame_bytes : ℕ
  pub period : ℕ
  pub silence_byte : ℕ
  pub prefill : ℕ
  pub maximum : Option ℕ

-- The loop of `_take_locked`: the bytes taken from the front, and the chunks left.
pub take_chunks : ℕ → Chunks → List ℕ × Chunks
take_chunks n [] = ([], [])
take_chunks zero (c ∷ chunks) = ([], c ∷ chunks)
take_chunks (suc n) ((queued_at, chunk) ∷ chunks) =
    let count = min (suc n) (length chunk) in
    let rest = take_chunks (suc n - count) chunks in
    if ltb count (length chunk)
    then (take count chunk, (queued_at, drop count chunk) ∷ chunks)
    else (chunk ++ rest.0, rest.1)

-- `_take_locked`
pub take_locked : ℕ → AudioOutput → List ℕ × AudioOutput
take_locked n a =
    let (output, chunks) = take_chunks n a.chunks in
    (output, record a { chunks = chunks; size = a.size - length output })

-- The loop of `_trim_locked`.
pub discard_chunks : ℕ → Chunks → Chunks
discard_chunks n [] = []
discard_chunks zero (c ∷ chunks) = c ∷ chunks
discard_chunks (suc n) ((queued_at, chunk) ∷ chunks) =
    let count = min (suc n) (length chunk) in
    let rest = discard_chunks (suc n - count) chunks in
    if ltb count (length chunk) then (queued_at, drop count chunk) ∷ chunks else rest

-- `(n + alignment - 1) // alignment * alignment`
abbrev pub round_up : ℕ → ℕ → ℕ
round_up n alignment = (n + alignment - 1) / alignment * alignment

pub trim_to : ℕ → AudioOutput → AudioOutput
trim_to maximum a =
    let excess = min a.size (round_up (a.size - maximum) a.sample_alignment) in
    record a {
      chunks = discard_chunks excess a.chunks;
      size = a.size - excess;
      dropped_bytes = a.dropped_bytes + excess;
    }

-- `_trim_locked`
pub trim_locked : AudioOutput → AudioOutput
trim_locked a = elim a.maximum [
  | none ↦ a
  | some maximum ↦ if leb a.size maximum then a else trim_to maximum a
]

-- `math.ceil(prefill / period - 1e-9)`, and 0 where that is negative
abbrev pub prefill_frames : ℕ → ℕ → ℕ
prefill_frames prefill period =
    (prefill * 10 ^ 9 - period + period * 10 ^ 9 - 1) / (period * 10 ^ 9)

-- `int(max_latency / period + 1e-9)`
abbrev pub latency_frames : ℕ → ℕ → ℕ
latency_frames latency period = (latency * 10 ^ 9 + period) / (period * 10 ^ 9)

abbrev pub maximum_for : Option ℕ → ℕ → ℕ → Option ℕ
maximum_for none period frame_bytes = none
maximum_for (some latency) period frame_bytes =
    some (max frame_bytes (latency_frames latency period * frame_bytes))

abbrev pub at_most : ℕ → Option ℕ → ℕ
at_most n none = n
at_most n (some m) = min n m

-- `configure` before it trims; a frame has at least one byte, and a period at least one millisecond.
abbrev pub configured : (frame_bytes period silence_byte : ℕ) → AudioOutput → AudioOutput
configured frame_bytes period silence_byte a =
    let frame = max 1 frame_bytes in
    let time = max 1000000 period in
    let maximum = maximum_for a.max_latency time frame in
    record a {
      frame_bytes = frame;
      period = time;
      silence_byte = silence_byte;
      prefill = at_most (max 1 (prefill_frames a.prefill_time time) * frame) maximum;
      maximum = maximum;
    }

-- `configure`
pub configure : (frame_bytes period silence_byte : ℕ) → AudioOutput → AudioOutput
configure frame_bytes period silence_byte a =
    trim_locked (configured frame_bytes period silence_byte a)

-- The fields that `__init__` sets before it calls `configure`.
abbrev pub empty_output : (silence_byte sample_alignment : ℕ) → AudioOutput
empty_output silence_byte sample_alignment = record {
  chunks = [];
  size = 0;
  primed = false;
  max_latency = none;
  prefill_time = 0;
  sample_alignment = max 1 sample_alignment;
  expired_alignment_skip = 0;
  underruns = 0;
  dropped_bytes = 0;
  expired_bytes = 0;
  output_state = prefilling;
  frame_bytes = 0;
  period = 0;
  silence_byte = silence_byte;
  prefill = 0;
  maximum = none;
}

-- `__init__`
pub init : (frame_bytes silence_byte sample_alignment : ℕ) → AudioOutput
init frame_bytes silence_byte sample_alignment =
    configure frame_bytes 20000000 silence_byte (empty_output silence_byte sample_alignment)

-- `enable_realtime`; `none` is the `ValueError`. Whole nanoseconds are finite and not negative.
pub enable_realtime : (max_latency prefill : ℕ) → AudioOutput → Option AudioOutput
enable_realtime max_latency prefill a =
    if max_latency == 0 || ltb max_latency prefill
    then none
    else some (
        trim_locked (
          configure a.frame_bytes a.period a.silence_byte
            (record a { max_latency = some max_latency; prefill_time = prefill; primed = false })))

-- The tail of `write` for data that is not empty.
abbrev pub append_chunk : (now : ℕ) → List ℕ → AudioOutput → AudioOutput
append_chunk now bytes a =
    trim_locked (record a { chunks = a.chunks ++ (now, bytes) ∷ []; size = a.size + length bytes })

-- `write`, at the time `now` that the clock gives.
pub write : (now : ℕ) → List ℕ → AudioOutput → AudioOutput
write now [] a = a
write now (b ∷ bs) a =
    if a.expired_alignment_skip == 0
    then append_chunk now (b ∷ bs) a
    else (let skipped = min (length (b ∷ bs)) a.expired_alignment_skip in
        let rest = drop skipped (b ∷ bs) in
        let a1 = record a {
          expired_alignment_skip = a.expired_alignment_skip - skipped;
          expired_bytes = a.expired_bytes + skipped;
        } in
        if length rest == 0 then a1 else append_chunk now rest a1)

-- The loop of `read` over the chunks older than the latency: the bytes expired, and the chunks left.
pub expire_chunks : (now latency : ℕ) → Chunks → ℕ × Chunks
expire_chunks now latency [] = (0, [])
expire_chunks now latency ((queued_at, chunk) ∷ chunks) =
    let rest = expire_chunks now latency chunks in
    if ltb (queued_at + latency) now
    then (length chunk + rest.0, rest.1)
    else (0, (queued_at, chunk) ∷ chunks)

-- Expired bytes end at a sample boundary: the rest of a sample that was cut goes too, now or when it
-- is written.
pub finish_sample : ℕ → AudioOutput → AudioOutput
finish_sample expired a =
    if expired % a.sample_alignment == 0
    then record a { expired_bytes = a.expired_bytes + expired }
    else (let suffix = a.sample_alignment - expired % a.sample_alignment in
        let (discarded, a1) = take_locked suffix a in
        record a1 {
          expired_alignment_skip = a.expired_alignment_skip + (suffix - length discarded);
          expired_bytes = a.expired_bytes + (expired + length discarded);
        })

pub expire : (now latency : ℕ) → AudioOutput → AudioOutput
expire now latency a =
    let (expired, chunks) = expire_chunks now latency a.chunks in
    finish_sample expired (record a { chunks = chunks; size = a.size - expired })

-- Whether the oldest chunk has waited for the prefill time.
abbrev pub has_waited : (now prefill : ℕ) → Chunks → Bool
has_waited now prefill [] = false
has_waited now prefill ((queued_at, chunk) ∷ chunks) = leb (queued_at + prefill) now

abbrev pub silence : ℕ → AudioOutput → List ℕ
silence n a = replicate n a.silence_byte

-- The tail of `read`: whole samples from the queue, then silence.
pub read_audio : ℕ → AudioOutput → List ℕ × AudioOutput
read_audio n a =
    let available = min n a.size in
    let (output, a1) = take_locked (available - available % a.sample_alignment) a in
    (
      output ++ silence (n - length output) a,
      record a1 { output_state = if length output == 0 then underrun else audio },
    )

-- The branch of `read` for a queue that is primed.
pub read_primed : ℕ → AudioOutput → List ℕ × AudioOutput
read_primed n a =
    if ltb a.size n
    then (
      silence n a,
      record a { underruns = a.underruns + 1; primed = false; output_state = underrun },
    )
    else read_audio n a

pub read_realtime : (now n : ℕ) → AudioOutput → List ℕ × AudioOutput
read_realtime now n a =
    if a.primed
    then read_primed n a
    else if ltb a.size n || not (leb a.prefill a.size || has_waited now a.prefill_time a.chunks)
    then (silence n a, record a { output_state = prefilling })
    else read_primed n (record a { primed = true })

pub read_buffered : ℕ → AudioOutput → List ℕ × AudioOutput
read_buffered n a =
    read_audio n (if ltb a.size n then record a { underruns = a.underruns + 1 } else a)

-- `read`, at the time `now`, of a length that is not negative
pub read : (now n : ℕ) → AudioOutput → List ℕ × AudioOutput
read now zero a = ([], a)
read now (suc n) a = elim a.max_latency [
  | none ↦ read_buffered (suc n) a
  | some latency ↦ read_realtime now (suc n) (expire now latency a)
]
