-- ===== src/Vad/Detector/Drain.antt =====
-- The queue of `BrowserAudioVad` as `voice_elf_audio_next` empties it.
use voice_elf.Prelude.{ℕ, zero, suc, ◌≡◌, refl, List, [], ◌∷◌, map, length, bit_or, ap, ◌∙◌}
use voice_elf.Prelude.Int.{ℤ}
use voice_elf.Prelude.Float.{Floats}
use voice_elf.Vad.Detector.{Detector, AudioFrame, Silero, next_frame, take_next, flag_frame_ready}

module _ {F32 F64 Net : Type 0} (fl : Floats F32 F64) (silero : Silero F32 Net) where
  -- What a caller sees of `n` calls: each result with the samples and the level that it exposes.
  abbrev pub polls : ℕ → Detector F32 Net → List (ℕ × List ℤ × F32)
  polls zero d = []
  polls (suc n) d =
      let y = next_frame fl silero d in (y.1, y.0.output, y.0.output_level) ∷ polls n y.0

  abbrev pub exposed : AudioFrame F32 → ℕ × List ℤ × F32
  exposed f = (bit_or flag_frame_ready f.flags, f.samples, f.level)

  polls_queue :
      (q : List (AudioFrame F32)) (d : Detector F32 Net)
      → d.ready ≡ q
      → polls (length q) d ≡ map exposed q
  unfolding next_frame take_next
  polls_queue [] d e = refl
  polls_queue (f ∷ rest) d e =
      ap
        (λ (y : Detector F32 Net × ℕ).
          (y.1, y.0.output, y.0.output_level) ∷ polls (length rest) y.0)
        (ap (take_next fl silero d) e)
      ∙ ap (◌∷◌ (exposed f)) (
          polls_queue rest (record d { ready = rest; output = f.samples; output_level = f.level })
            refl)

  -- Polling as often as there are frames in the queue returns them oldest first, each with the
  -- ready flag, its samples and its level; a poll of an empty queue returns 0 and
  -- changes nothing.
  pub polls_all :
      (d : Detector F32 Net)
      → (polls (length d.ready) d ≡ map exposed d.ready)
        × (d.ready ≡ [] → next_frame fl silero d ≡ (d, 0))
  unfolding next_frame take_next
  polls_all d = (polls_queue d.ready d refl, λ e. ap (take_next fl silero d) e)
