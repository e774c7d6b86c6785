-- ===== src/Vad/Detector/Judging.antt =====
-- How `BrowserAudioVad` of web-vad/src/lib.rs judges a frame: the noise floor, the enhanced filter
-- with its hum lock, and the energy hangover.
use voice_elf.Prelude.{ℕ, ◌-◌, ◌||◌, ◌&&◌, not, Bool, true, false, List, leb, if◌then◌else◌}
use voice_elf.Prelude.Int.{ℤ}
use voice_elf.Prelude.Float.{Floats}
use voice_elf.Vad.Features.{zero_crossing_rate}
use voice_elf.Vad.Gate.{accepts_active_energy}
use voice_elf.Vad.Detector.State.{
  Detector, Silero, sat16, energy_hangover_frames, hum_lock_frames, hum_clear_frames,
}

module _ {F32 F64 Net : Type 0} (fl : Floats F32 F64) (silero : Silero F32 Net) where
  open fl.f32 use {lit, lt, le, mul, add, sub, max_of, clamp}

  unfoldable pub update_noise_floor : Detector F32 Net → F32 → Detector F32 Net
  update_noise_floor d level =
      let observed = clamp level (lit 2 4) (lit 12 3) in
      let smoothing = if lt d.noise_floor observed then lit 97 2 else lit 82 2 in
      record d {
        noise_floor = add (mul d.noise_floor smoothing) (mul observed (sub (lit 1 0) smoothing));
      }

  -- The hum counter and the lock, before the frame itself is judged.
  unfoldable pub count_hum : Detector F32 Net → Bool → Detector F32 Net
  count_hum d hum_frame =
      let run : ℕ = if hum_frame then sat16 d.hum_run else 0 in
      if leb hum_lock_frames run
      then record d {
        hum_locked = true;
        hum_run = 0;
        hum_clear_run = 0;
        recovered_from_hum = false;
        segment_model_frames =
            if not d.recovered_from_hum && d.segment_active then 0 else d.segment_model_frames;
      }
      else record d { hum_run = run }

  -- A frame that is no hum while the lock holds: three clear frames release it.
  unfoldable pub clear_hum : Detector F32 Net → Bool → Detector F32 Net × Bool
  clear_hum d clear_frame =
      if clear_frame
      then (if leb hum_clear_frames (sat16 d.hum_clear_run)
          then (
            record d {
              hum_locked = false;
              hum_clear_run = 0;
              recovered_from_hum = true;
              acoustic_override = true;
              acoustic_voice = true;
            },
            true,
          )
          else (record d { hum_clear_run = sat16 d.hum_clear_run }, not d.hum_locked))
      else (record d { hum_clear_run = d.hum_clear_run - 1 }, not d.hum_locked)

  -- `frame_is_speech_like` by its tests: `noisy` for too many crossings, `hum_frame` for a loud frame
  -- with very few, `clear_frame` for a loud frame with enough of them.
  unfoldable pub judge : Detector F32 Net → Bool → Bool → Bool → Detector F32 Net × Bool
  unfolding count_hum clear_hum
  judge d noisy hum_frame clear_frame =
      let d' = count_hum d hum_frame in
      if noisy
      then (d, false)
      else if not d.enhanced_voice_filter
      then (d, true)
      else if hum_frame
      then (d', false)
      else if not d'.hum_locked
      then (
        if d'.recovered_from_hum && clear_frame then record d' { acoustic_voice = true } else d',
        true,
      )
      else clear_hum d' clear_frame

  abbrev pub is_clear : F32 → F32 → Bool
  is_clear level crossing_rate = le (lit 12 3) level && le (lit 2 2) crossing_rate

  abbrev pub is_hum : F32 → F32 → Bool
  is_hum level crossing_rate = le (lit 3 2) level && le crossing_rate (lit 12 3)

  unfoldable pub frame_is_speech_like : Detector F32 Net → List ℤ → F32 → Detector F32 Net × Bool
  frame_is_speech_like d frame level =
      let crossing_rate = zero_crossing_rate fl frame in
      judge (record d { acoustic_override = false; acoustic_voice = false })
        (lt (lit 32 2) crossing_rate) (is_hum level crossing_rate) (is_clear level crossing_rate)

  -- The bookkeeping of `classify_voiced`, by its tests: the result is (voiced, model_voiced).
  unfoldable pub bridge : Detector F32 Net → Bool → Bool → Detector F32 Net × (Bool × Bool)
  bridge d model_voiced loud_enough =
      let run : ℕ = if model_voiced then 0 else sat16 d.model_silence_run in
      let energy_hangover =
        accepts_active_energy d.gate && leb run energy_hangover_frames && loud_enough in
      (record d { model_silence_run = run }, (model_voiced || energy_hangover, model_voiced))

  unfoldable pub classify_voiced :
      Detector F32 Net → F32 → F32 → Bool → Bool → Detector F32 Net × (Bool × Bool)
  classify_voiced d probability level speech_like acoustic_override =
      let configured = if d.enhanced_voice_filter then lit 12 3 else lit 5 3 in
      let signal_to_noise = if d.enhanced_voice_filter then lit 18 1 else lit 135 2 in
      let start_level = max_of configured (mul d.noise_floor signal_to_noise) in
      let active_level = max_of (lit 8 3) (mul d.noise_floor (lit 12 1)) in
      bridge d
        ((le (lit 3 2) probability || acoustic_override) && le start_level level && speech_like)
        (le active_level level)
