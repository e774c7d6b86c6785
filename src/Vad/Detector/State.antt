-- ===== src/Vad/Detector/State.antt =====
-- The state of `BrowserAudioVad` of web-vad/src/lib.rs, its constants, and its queues: where a frame
-- goes.
use voice_elf.Prelude.{
  ℕ, ◌+◌, Bool, true, List, [], ◌∷◌, ◌++◌, length, replicate, bit_or, bit_and, min, ◌==◌,
  if◌then◌else◌,
}
use voice_elf.Prelude.Int.{ℤ}
use voice_elf.Vad.Gate.{
  SpeechGate, has, flag_speech_started, flag_speech_active, flag_speech_ended, flag_voiced,
  flag_forced_end,
}

abbrev pub frame_samples : ℕ
frame_samples = 512

abbrev pub max_input_samples : ℕ
max_input_samples = 2048

abbrev pub pre_roll_frames : ℕ
pre_roll_frames = 16

abbrev pub enhanced_pre_roll_frames : ℕ
enhanced_pre_roll_frames = 32

abbrev pub energy_hangover_frames : ℕ
energy_hangover_frames = 6

abbrev pub hum_lock_frames : ℕ
hum_lock_frames = 8

abbrev pub hum_clear_frames : ℕ
hum_clear_frames = 3

abbrev pub flag_frame_ready : ℕ
flag_frame_ready = 1073741824

abbrev pub flag_invalid_input : ℕ
flag_invalid_input = 2147483648

-- `saturating_add(1)` on u16 and u32
abbrev pub sat16 : ℕ → ℕ
sat16 n = min (n + 1) 65535

abbrev pub sat32 : ℕ → ℕ
sat32 n = min (n + 1) 4294967295

-- The network: its state between frames is `Net` (weights and workspace) and a vector. `forward`
-- returns the output tensor and the next state vector.
pub record Silero (F32 Net : Type 0) : Type 0 where
  pub fresh : Net
  pub forward : Net → List F32 → List F32 → (List F32 × List F32) × Net

pub record AudioFrame (F32 : Type 0) : Type 0 where
  pub samples : List ℤ
  pub flags : ℕ
  pub level : F32

pub record Detector (F32 Net : Type 0) : Type 0 where
  pub net : Net
  pub model_state : List F32
  pub gate : SpeechGate
  pub noise_floor : F32
  pub model_silence_run : ℕ
  pub segment_model_frames : ℕ
  pub completed_model_frames : ℕ
  pub enhanced_voice_filter : Bool
  pub hum_locked : Bool
  pub hum_run : ℕ
  pub hum_clear_run : ℕ
  pub recovered_from_hum : Bool
  pub acoustic_override : Bool
  pub acoustic_voice : Bool
  pub output : List ℤ
  pub output_level : F32
  pub input_level : F32
  pub frame : List ℤ
  pub frame_offset : ℕ
  pub pre_roll : List (List ℤ × F32)
  pub pre_roll_limit : ℕ
  pub ready : List (AudioFrame F32)
  pub segment_active : Bool

-- `[value; n]`
unfoldable pub blank {ℓ} : {A : Type ℓ} → ℕ → A → List A
blank n value = replicate n value

module _ {F32 : Type 0} where
  -- `pre_roll.drain(..).enumerate()`: the first frame is marked as the start, the last one takes
  -- the flags of the current frame.
  unfoldable pub release : ℕ → ℕ → List (List ℤ × F32) → List (AudioFrame F32)
  release first_flag flags [] = []
  release first_flag flags ((samples, level) ∷ []) =
      record {
        samples = samples;
        flags =
            bit_or (bit_or flag_speech_active first_flag)
              (bit_and flags (bit_or (bit_or flag_voiced flag_forced_end) flag_speech_ended));
        level = level;
      }
      ∷ []
  release first_flag flags ((samples, level) ∷ next ∷ rest) =
      record { samples = samples; flags = bit_or flag_speech_active first_flag; level = level }
      ∷ release 0 flags (next ∷ rest)

  abbrev pub drop_oldest : List (List ℤ × F32) → List (List ℤ × F32)
  drop_oldest [] = []
  drop_oldest (x ∷ xs) = xs

module _ {F32 Net : Type 0} where
  unfoldable pub remember : Detector F32 Net → List ℤ → F32 → Detector F32 Net
  remember d frame level = record d {
    pre_roll =
        (if length d.pre_roll == d.pre_roll_limit then drop_oldest d.pre_roll else d.pre_roll)
        ++ (frame, level) ∷ [];
  }

  -- The first half of `route_frame`: where the frame goes.
  unfoldable pub deliver : Detector F32 Net → List ℤ → F32 → ℕ → Detector F32 Net
  unfolding release remember
  deliver d frame level flags =
      if has flags flag_speech_started
      then record d {
        segment_active = true;
        ready = d.ready ++ release flag_speech_started flags (d.pre_roll ++ (frame, level) ∷ []);
        pre_roll = [];
      }
      else if d.segment_active
      then record d {
        ready = d.ready ++ record { samples = frame; flags = flags; level = level } ∷ [];
      }
      else remember d frame level

  -- `voice_elf_audio_segment_speech_frames`, for a live instance.
  unfoldable pub segment_speech_frames : Detector F32 Net → ℕ
  segment_speech_frames d =
      if d.segment_active then d.segment_model_frames else d.completed_model_frames
