-- ===== src/Rtp/AudioOutput/Tests.antt =====
-- Runs of the audio output on small queues, and the theorems about it at them.
use rfcvoip.Prelude.{ℕ, ◌≡◌, refl, arith, true, none, some, [], ◌∷◌}
use rfcvoip.Rtp.AudioOutput.{
  AudioOutput, audio, init, write, read, read_realtime, expire, finish_sample, expire_chunks,
  take_locked, take_chunks, read_primed, read_audio,
}
use rfcvoip.Rtp.AudioOutput.Reading.{IsCounted}
use rfcvoip.Rtp.AudioOutput.Fifo.{IsRead}
use rfcvoip.Rtp.AudioOutput.Expiry.{read-IsRead, read_buffered_mode}
use rfcvoip.Rtp.AudioOutput.Calls.{IsWritten, write-IsWritten}
use rfcvoip.Rtp.AudioOutput.Sequences.{
  write_call, read_call, enable_call, IsBounded, perform_all, perform_all-init,
}

-- A realtime queue of 2-byte samples with room for two frames of 4 bytes; three bytes of it are old.
abbrev live : AudioOutput
live = record {
  chunks = (0, 1 ∷ 2 ∷ 3 ∷ []) ∷ (90, 4 ∷ 5 ∷ 6 ∷ 7 ∷ 8 ∷ []) ∷ [];
  size = 8;
  primed = true;
  max_latency = some 60;
  prefill_time = 20;
  sample_alignment = 2;
  expired_alignment_skip = 0;
  underruns = 0;
  dropped_bytes = 0;
  expired_bytes = 0;
  output_state = audio;
  frame_bytes = 4;
  period = 30;
  silence_byte = 128;
  prefill = 4;
  maximum = some 8;
}

live-IsCounted : IsCounted live
live-IsCounted = record { size = refl; alignment = omega arith }

-- The old bytes expire with the rest of the sample that they cut.
plays_samples : (read 100 4 live).0 ≡ 5 ∷ 6 ∷ 7 ∷ 8 ∷ []
unfolding read read_realtime expire finish_sample expire_chunks take_locked take_chunks read_primed
    read_audio
plays_samples = refl

read-IsRead_example : (k j : ℕ) × IsRead 4 live (read 100 4 live) k j
read-IsRead_example = read-IsRead 100 4 live live-IsCounted

-- The same queue in the buffered mode.
abbrev whole_file : AudioOutput
whole_file = record live { max_latency = none; maximum = none }

read_buffered_mode_example : (j : ℕ) × IsRead 4 whole_file (read 100 4 whole_file) 0 j
read_buffered_mode_example =
    read_buffered_mode 100 4 whole_file refl (record { size = refl; alignment = omega arith })

-- A sample is cut: the first byte written completes it.
abbrev cut : AudioOutput
cut = record live { expired_alignment_skip = 1 }

write-IsWritten_example :
    (s k : ℕ) × IsWritten (9 ∷ 10 ∷ 11 ∷ []) cut (write 100 (9 ∷ 10 ∷ 11 ∷ []) cut) s k
write-IsWritten_example =
    write-IsWritten 100 (9 ∷ 10 ∷ 11 ∷ []) cut (record { size = refl; alignment = omega arith })
      (omega arith)

perform_all-init_example : IsBounded (
    perform_all
      ((0, enable_call 60000000 20000000) ∷ (1, write_call (1 ∷ 2 ∷ [])) ∷ (2, read_call 2) ∷ [])
      (init 2 128 1))
perform_all-init_example =
    perform_all-init 2 128 1
      ((0, enable_call 60000000 20000000) ∷ (1, write_call (1 ∷ 2 ∷ [])) ∷ (2, read_call 2) ∷ [])
