-- ===== src/Vad/Gate/Bounds.antt =====
-- The counters of `SpeechGate` stay within their limits, so none of them wraps.
use voice_elf.Prelude.{ℕ, ◌≤◌, ◌<◌, ◌≡◌, Bool, true, false, arith, List, [], ◌∷◌}
use voice_elf.Vad.Gate.{SpeechGate, new, process, reset, run, frame_limit}

pub record IsValid (g : SpeechGate) : Type 0 where
  pub limit_low : 156 ≤ g.max_active_frames
  pub limit_high : g.max_active_frames ≤ 625
  pub trigger : g.start_trigger_frames ≡ 1
  pub closed_run : g.speaking ≡ false → g.voiced_run ≡ 0
  pub closed_active : g.speaking ≡ false → g.active_frames ≡ 0
  pub open_active : g.speaking ≡ true → g.active_frames < g.max_active_frames
  pub open_counted : g.speaking ≡ true → 0 < g.active_frames
  pub silence_short : g.silence_run < 88
  pub continuation : g.continuation_frames ≤ 6

-- A segment holds between 156 frames (5 s) and 625 frames (20 s), whatever the caller asks for.
frame_limit_range : (seconds : ℕ) → (156 ≤ frame_limit seconds) × (frame_limit seconds ≤ 625)
frame_limit_range seconds = omega arith

-- A new gate satisfies the invariant for every requested duration and both filter modes.
pub new-IsValid : (seconds : ℕ) (enhanced : Bool) → IsValid (new seconds enhanced)
unfolding new
new-IsValid seconds enhanced = ground (arith, frame_limit_range seconds)

-- Every frame keeps a valid gate valid.
pub process-IsValid : (g : SpeechGate) (voiced : Bool) → IsValid g → IsValid (process g voiced).0
unfolding process
process-IsValid g voiced v = ground arith

-- A reset keeps the invariant.
pub reset-IsValid : (g : SpeechGate) → IsValid g → IsValid (reset g)
unfolding reset
reset-IsValid g v = ground arith

-- Any sequence of frames keeps the invariant.
pub run-IsValid : (g : SpeechGate) (vs : List Bool) → IsValid g → IsValid (run g vs)
unfolding run
run-IsValid g [] v = v
run-IsValid g (x ∷ vs) v = run-IsValid (process g x).0 vs (process-IsValid g x v)
