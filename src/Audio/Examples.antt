-- ===== src/Audio/Examples.antt =====
-- Samples at concrete inputs, over the integer arithmetic.
use voice_elf.Prelude.{true, ◌≡◌, refl, List, [], ◌∷◌, ◌++◌, length, replicate, some, arith}
use voice_elf.Prelude.Int.{ℤ, pos, negsuc}
use voice_elf.Prelude.Sample.{integer_float, integer_floats}
use voice_elf.Prelude.Float.{Floats}
use voice_elf.Audio.Pcm.{frame_samples, pcm16_bytes, decode_frame}
use voice_elf.Audio.Pcm.Codec.{decode_frame-pcm16_bytes, decode_frame-length}
use voice_elf.Audio.Voice.{
  Biquad, VoiceAudioProcessor, process, observe, no_quality, accepts_asr, observe_frame,
  SpeechQuality,
}
use voice_elf.Audio.Voice.Chunks.{accepts_asr-observe}
use voice_elf.Audio.Voice.Counts.{audible_count, joined, peak, observe-counts}
use voice_elf.Audio.Voice.Equation.{Filters, faded, process-Filters}
use voice_elf.Prelude.{min, ◌+◌}

little_endian : pcm16_bytes (pos 4660 ∷ negsuc 1 ∷ []) ≡ 52 ∷ 18 ∷ 254 ∷ 255 ∷ []
unfolding pcm16_bytes
little_endian = refl

abbrev flat_frame : List ℤ
flat_frame = replicate 512 (negsuc 6)

decode_frame-pcm16_bytes_example : decode_frame (pcm16_bytes flat_frame) ≡ some flat_frame
decode_frame-pcm16_bytes_example = decode_frame-pcm16_bytes flat_frame refl (omega arith)

decode_frame-length_example :
    (length (pcm16_bytes flat_frame) ≡ 1024) × (length flat_frame ≡ frame_samples)
decode_frame-length_example =
    decode_frame-length (pcm16_bytes flat_frame) flat_frame
      (decode_frame-pcm16_bytes flat_frame refl (omega arith))

abbrev unit_stage : Biquad ℤ
unit_stage = record {
  b0 = pos 1;
  b1 = negsuc 0;
  b2 = pos 2;
  a1 = pos 0;
  a2 = pos 1;
  x1 = pos 0;
  x2 = pos 0;
  y1 = pos 0;
  y2 = pos 0;
}

abbrev processor : VoiceAudioProcessor ℤ
processor = record {
  first_stage = unit_stage;
  second_stage = unit_stage;
  processed_samples = 0;
  fade_in_samples = 160;
}

process-Filters_example :
    (once : List ℤ) × (twice : List ℤ) × Filters integer_float unit_stage (pos 3 ∷ pos 4 ∷ []) once
    × Filters integer_float unit_stage once twice
    × ((process integer_float processor (pos 3 ∷ pos 4 ∷ [])).1 ≡ faded integer_float 160 0 twice)
process-Filters_example = process-Filters integer_float processor (pos 3 ∷ pos 4 ∷ [])

abbrev three_frames : List ℤ
three_frames = flat_frame ++ flat_frame ++ flat_frame

-- An arithmetic in which every frame is audible.
abbrev loud_floats : Floats ℤ ℤ
loud_floats = record integer_floats { f32 = record integer_float { le = λ a b. true } }

abbrev good_quality : SpeechQuality ℤ
good_quality = record { total_frames = 3; audible_speech_frames = 3; peak_frame_rms = pos 1 }

observe-counts_example :
    let after =
      observe loud_floats good_quality (joined (flat_frame ∷ flat_frame ∷ []) (pos 3 ∷ [])) in
    (after.total_frames ≡ min (3 + 2) 4294967295)
    × (after.audible_speech_frames
        ≡ min (3 + audible_count loud_floats (flat_frame ∷ flat_frame ∷ [])) 4294967295)
    × (after.peak_frame_rms ≡ peak loud_floats (pos 1) (flat_frame ∷ flat_frame ∷ []))
observe-counts_example =
    observe-counts loud_floats (flat_frame ∷ flat_frame ∷ []) (pos 3 ∷ []) good_quality
      (refl, (refl, tt)) (omega arith) (omega arith) (omega arith)

both_audible : audible_count loud_floats (flat_frame ∷ flat_frame ∷ []) ≡ 2
both_audible = refl

three_frames_accepted :
    accepts_asr (observe loud_floats (no_quality loud_floats) three_frames) ≡ true
unfolding accepts_asr observe observe_frame no_quality
three_frames_accepted = refl

good_accepted : accepts_asr good_quality ≡ true
unfolding accepts_asr
good_accepted = refl

accepts_asr-observe_example : accepts_asr (observe integer_floats good_quality flat_frame) ≡ true
accepts_asr-observe_example =
    accepts_asr-observe integer_floats good_quality flat_frame good_accepted
