-- ===== src/Vad/Gate.antt =====
-- The speech gate of web-vad/src/lib.rs: `SpeechGate` decides frame by frame where a segment starts
-- and ends. The u16 and u32 counters wrap at their width; flags are bits of a u32.
pub mod Protocol
pub mod Bounds
pub mod Runs
mod Examples
use voice_elf.Prelude.{
  ℕ, ◌+◌, ◌-◌, ◌*◌, ◌/◌, ◌%◌, ◌||◌, ◌&&◌, Bool, true, false, List, [], ◌∷◌, bit_or, bit_and, min,
  max, leb, ltb, ◌==◌, not, if◌then◌else◌,
}

abbrev pub u16 : ℕ → ℕ
u16 n = n % 65536

abbrev pub u32 : ℕ → ℕ
u32 n = n % 4294967296

abbrev pub flag_speech_started : ℕ
flag_speech_started = 1

abbrev pub flag_speech_active : ℕ
flag_speech_active = 2

abbrev pub flag_speech_ended : ℕ
flag_speech_ended = 4

abbrev pub flag_voiced : ℕ
flag_voiced = 8

abbrev pub flag_forced_end : ℕ
flag_forced_end = 16

-- `flags & mask != 0`
abbrev pub has : ℕ → ℕ → Bool
has flags mask = not (bit_and flags mask == 0)

abbrev pub start_trigger : ℕ
start_trigger = 1

abbrev pub enhanced_start_trigger : ℕ
enhanced_start_trigger = 1

abbrev pub end_silence_frames : ℕ
end_silence_frames = 88

abbrev pub forced_continuation_frames : ℕ
forced_continuation_frames = 6

pub record SpeechGate : Type 0 where
  pub speaking : Bool
  pub voiced_run : ℕ
  pub silence_run : ℕ
  pub active_frames : ℕ
  pub max_active_frames : ℕ
  pub continuation_frames : ℕ
  pub start_trigger_frames : ℕ

-- `max_utterance_seconds.clamp(5, 20) * 1_000 / 32`
abbrev pub frame_limit : ℕ → ℕ
frame_limit seconds = min (max seconds 5) 20 * 1000 / 32

unfoldable pub new : ℕ → Bool → SpeechGate
new max_utterance_seconds enhanced_voice_filter = record {
  speaking = false;
  voiced_run = 0;
  silence_run = 0;
  active_frames = 0;
  max_active_frames = frame_limit max_utterance_seconds;
  continuation_frames = 0;
  start_trigger_frames = if enhanced_voice_filter then enhanced_start_trigger else start_trigger;
}

abbrev voiced_flags : Bool → ℕ
voiced_flags voiced = if voiced then flag_voiced else 0

-- The branch of `process` for a gate that is closed.
unfoldable pub process_idle : SpeechGate → Bool → SpeechGate × ℕ
process_idle g voiced =
    let run : ℕ = if voiced then u16 (g.voiced_run + 1) else 0 in
    if leb g.start_trigger_frames run
    then (
      record g {
        speaking = true;
        voiced_run = run;
        silence_run = 0;
        active_frames = 1;
        continuation_frames = 0;
      },
      bit_or (voiced_flags voiced) (bit_or flag_speech_started flag_speech_active),
    )
    else (
      record g { voiced_run = run; continuation_frames = g.continuation_frames - 1 },
      voiced_flags voiced,
    )

-- The branch of `process` for a gate that is open.
unfoldable pub process_speaking : SpeechGate → Bool → SpeechGate × ℕ
process_speaking g voiced =
    let active : ℕ = u32 (g.active_frames + 1) in
    let silence : ℕ = if voiced then 0 else u16 (g.silence_run + 1) in
    let forced : Bool = leb g.max_active_frames active in
    if leb end_silence_frames silence || forced
    then (
      record g {
        speaking = false;
        voiced_run = 0;
        silence_run = 0;
        active_frames = 0;
        continuation_frames = if forced && voiced then forced_continuation_frames else 0;
      },
      if forced
          then bit_or (bit_or (voiced_flags voiced) flag_speech_ended) flag_forced_end
          else bit_or (voiced_flags voiced) flag_speech_ended,
    )
    else (
      record g { active_frames = active; silence_run = silence },
      bit_or (voiced_flags voiced) flag_speech_active,
    )

unfoldable pub process : SpeechGate → Bool → SpeechGate × ℕ
unfolding process_idle process_speaking
process g voiced = if g.speaking then process_speaking g voiced else process_idle g voiced

unfoldable pub reset : SpeechGate → SpeechGate
reset g = record g {
  speaking = false;
  voiced_run = 0;
  silence_run = 0;
  active_frames = 0;
  continuation_frames = 0;
}

unfoldable pub accepts_active_energy : SpeechGate → Bool
accepts_active_energy g = g.speaking || ltb 0 g.continuation_frames

-- The gate after a sequence of frames, each voiced or not: the calls of `process` that
-- `push_resampled` makes.
unfoldable pub run : SpeechGate → List Bool → SpeechGate
run g [] = g
run g (v ∷ vs) = run (process g v).0 vs

-- The flags of the successive frames.
unfoldable pub flags_of : SpeechGate → List Bool → List ℕ
flags_of g [] = []
flags_of g (v ∷ vs) = (process g v).1 ∷ flags_of (process g v).0 vs
