-- ===== src/Vad/Gate/Protocol.antt =====
-- What the flags that `SpeechGate::process` returns say of the gate.
use voice_elf.Prelude.{ℕ, ◌≡◌, ◌&&◌, Bool, true, false, not, arith}
use voice_elf.Vad.Gate.{
  SpeechGate, process, has, flag_speech_started, flag_speech_active, flag_speech_ended, flag_voiced,
  flag_forced_end,
}

-- How the flags of one frame relate the gate before to the gate after it.
pub record Edges (before after : SpeechGate) (voiced : Bool) (flags : ℕ) : Type 0 where
  pub started : has flags flag_speech_started ≡ (not before.speaking && after.speaking)
  pub ended : has flags flag_speech_ended ≡ (before.speaking && not after.speaking)
  pub active : has flags flag_speech_active ≡ after.speaking
  pub voice : has flags flag_voiced ≡ voiced
  pub forced :
      has flags flag_forced_end ≡ true → (before.speaking ≡ true) × (after.speaking ≡ false)

-- The flags of a frame tell exactly which edge the gate took: started on a closed gate that opens,
-- ended on an open gate that closes, active when it is open afterwards, voiced as the input was,
-- and a forced end only where an open gate closes.
pub process-Edges :
    (g : SpeechGate) (voiced : Bool) → Edges g (process g voiced).0 voiced (process g voiced).1
unfolding process
process-Edges g voiced = ground arith
