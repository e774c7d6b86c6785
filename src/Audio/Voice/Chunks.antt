-- ===== src/Audio/Voice/Chunks.antt =====
-- What is accepted for recognition.
use voice_elf.Prelude.{
  leb→le, leb→le, ℕ, zero, suc, ◌+◌, ◌/◌, ◌≤◌, ◌≡◌, List, length, take, drop, arith, true,
}
use voice_elf.Prelude.Int.{ℤ}
use voice_elf.Prelude.Float.{Floats}
use voice_elf.Audio.Pcm.{frame_samples}
use voice_elf.Audio.Voice.{
  SpeechQuality, observe, observe_chunks, observe_frame, accepts_asr, no_quality,
}

module _ {F32 F64 : Type 0} (fl : Floats F32 F64) where
  frame_counts :
      (q : SpeechQuality F32) (frame : List ℤ)
      → (observe_frame fl q frame).audible_speech_frames ≤ q.audible_speech_frames + 1
  unfolding observe_frame
  frame_counts q frame = ground arith

  chunks_count :
      (n : ℕ) (q : SpeechQuality F32) (xs : List ℤ)
      → (observe_chunks fl n q xs).audible_speech_frames ≤ q.audible_speech_frames + n
  unfolding observe_chunks
  chunks_count zero q xs = omega arith
  chunks_count (suc n) q xs = omega (
    arith,
    frame_counts q (take frame_samples xs),
    chunks_count n (observe_frame fl q (take frame_samples xs)) (drop frame_samples xs),
  )

  -- Samples that are accepted for recognition are at least three frames, 1536 samples.
  pub accepts_asr-length :
      (xs : List ℤ) → accepts_asr (observe fl (no_quality fl) xs) ≡ true → 1536 ≤ length xs
  unfolding observe accepts_asr no_quality
  accepts_asr-length xs h =
      omega (arith, leb→le 3 _ h, chunks_count (length xs / frame_samples) (no_quality fl) xs)

  frame_keeps :
      (q : SpeechQuality F32) (frame : List ℤ)
      → 3 ≤ q.audible_speech_frames
      → 3 ≤ (observe_frame fl q frame).audible_speech_frames
  unfolding observe_frame
  frame_keeps q frame h = ground arith

  chunks_keep :
      (n : ℕ) (q : SpeechQuality F32) (xs : List ℤ)
      → 3 ≤ q.audible_speech_frames
      → 3 ≤ (observe_chunks fl n q xs).audible_speech_frames
  unfolding observe_chunks
  chunks_keep zero q xs h = h
  chunks_keep (suc n) q xs h =
      chunks_keep n (observe_frame fl q (take frame_samples xs)) (drop frame_samples xs)
        (frame_keeps q (take frame_samples xs) h)

  -- A segment that is accepted stays accepted, whatever is heard later.
  pub accepts_asr-observe :
      (q : SpeechQuality F32) (xs : List ℤ)
      → accepts_asr q ≡ true
      → accepts_asr (observe fl q xs) ≡ true
  unfolding observe accepts_asr
  accepts_asr-observe q xs h =
      ground (arith, leb→le 3 _ h, chunks_keep (length xs / frame_samples) q xs)
