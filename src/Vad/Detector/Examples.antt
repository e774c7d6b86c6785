-- ===== src/Vad/Detector/Examples.antt =====
-- The detector at concrete inputs, over the integer arithmetic and a network that always answers
-- with the same tensor.
use voice_elf.Prelude.{
  none, some, ◌≤◌, ℕ, ◌+◌, ◌-◌, ◌≡◌, ◌||◌, ◌&&◌, not, refl, Bool, true, false, if◌then◌else◌, List,
  [], ◌∷◌, ◌++◌, map, drop, length, leb, arith,
}
use voice_elf.Prelude.Int.{ℤ, pos, negsuc}
use voice_elf.Prelude.Sample.{integer_floats, integer_float}
use voice_elf.Vad.Features.{frame_crossings, frame_crossings-lt}
use voice_elf.Vad.Detector.{
  Detector, AudioFrame, Silero, new, initial_detector, push_frame, push_all, next_frame, judge,
  sat16,
}
use voice_elf.Vad.Detector.Invariant.{IsValid, new-IsValid, push_all-IsValid}
use voice_elf.Vad.Detector.Stream.{samples_of, flags_of, buffered, push_frame_sent, push_frame_kept}
use voice_elf.Vad.Detector.Brackets.{Brackets, push_all-Brackets}
use voice_elf.Vad.Detector.Drain.{polls, exposed, polls_all}
use voice_elf.Vad.Detector.Bridge.{AllFalse, Unconfirmed, verdicts, Unconfirmed-limit}
use voice_elf.Vad.Detector.Hum.{judge_locked, hum_frames, hum_frames_lock}

abbrev constant_model : ℤ → Silero ℤ ℕ
constant_model answer = record {
  fresh = 0;
  forward = λ net input state. ((answer ∷ [], state), net);
}

abbrev loud : List ℤ
loud = pos 900 ∷ pos 900 ∷ []

abbrev idle_detector : Detector ℤ ℕ
idle_detector = initial_detector integer_floats (constant_model (pos 9)) 20 false

is_made :
    (m : ℤ)
    → new integer_floats (constant_model m) 20 48000 false
      ≡ some (initial_detector integer_floats (constant_model m) 20 false)
unfolding new
is_made m = refl

is_refused : new integer_floats (constant_model (pos 9)) 20 7999 false ≡ none
unfolding new
is_refused = refl

abbrev hummed : Detector ℤ ℕ
hummed = record idle_detector { enhanced_voice_filter = true; hum_locked = true; hum_clear_run = 2 }

push_all-IsValid_example :
    IsValid (push_all integer_floats (constant_model (pos 9)) idle_detector loud)
push_all-IsValid_example =
    push_all-IsValid integer_floats (constant_model (pos 9)) idle_detector loud
      (new-IsValid integer_floats (constant_model (pos 9)) 20 48000 false _ (is_made (pos 9)))

push_frame_sent_example :
    let y = push_frame integer_floats (constant_model (pos 9)) idle_detector loud in
    samples_of y.ready
    ≡ samples_of idle_detector.ready
      ++ (if idle_detector.gate.speaking || y.gate.speaking
          then buffered idle_detector.pre_roll ++ loud ∷ []
          else [])
push_frame_sent_example =
    push_frame_sent integer_floats (constant_model (pos 9)) idle_detector loud
      (new-IsValid integer_floats (constant_model (pos 9)) 20 48000 false _ (is_made (pos 9)))

push_all-Brackets_example :
    let y = push_all integer_floats (constant_model (pos 9)) idle_detector loud in
    (new_frames : List (AudioFrame ℤ)) × (y.ready ≡ idle_detector.ready ++ new_frames)
    × Brackets idle_detector.gate.speaking (flags_of new_frames) y.gate.speaking
push_all-Brackets_example =
    push_all-Brackets integer_floats (constant_model (pos 9)) idle_detector loud
      (new-IsValid integer_floats (constant_model (pos 9)) 20 48000 false _ (is_made (pos 9)))

abbrev sending : Detector ℤ ℕ
sending = record idle_detector { ready = record { samples = loud; flags = 3; level = pos 7 } ∷ [] }

polls_all_example :
    (polls integer_floats (constant_model (pos 9)) (length sending.ready) sending
      ≡ map (exposed integer_floats (constant_model (pos 9))) sending.ready)
    × (sending.ready ≡ []
        → next_frame integer_floats (constant_model (pos 9)) sending ≡ (sending, 0))
polls_all_example = polls_all integer_floats (constant_model (pos 9)) sending

judge_locked_example :
    (judge integer_floats (constant_model (pos 9)) hummed false false true).1
    ≡ (not false && not false && true && leb 3 (sat16 hummed.hum_clear_run))
judge_locked_example =
    judge_locked integer_floats (constant_model (pos 9)) hummed false false true refl refl

hum_frames_lock_example :
    (hum_frames integer_floats
      (constant_model (pos 9))
      8
      (record idle_detector { enhanced_voice_filter = true })).hum_locked
    ≡ true
unfolding initial_detector
hum_frames_lock_example =
    hum_frames_lock integer_floats (constant_model (pos 9)) 8
      (record idle_detector { enhanced_voice_filter = true }) refl (omega arith) (omega arith)

frame_crossings-lt_example :
    frame_crossings integer_float (pos 5 ∷ negsuc 5 ∷ []) + 1 ≤ length (pos 5 ∷ negsuc 5 ∷ [])
frame_crossings-lt_example = frame_crossings-lt integer_float (pos 5) (negsuc 5 ∷ [])

abbrev quiet : List ℤ
quiet = pos 0 ∷ pos 0 ∷ []

stays_closed :
    (push_frame integer_floats (constant_model (pos 0)) idle_detector quiet).gate.speaking ≡ false
unfolding push_frame voice_elf.Vad.Detector.route_frame voice_elf.Vad.Detector.gate_frame
    voice_elf.Vad.Gate.process voice_elf.Vad.Detector.classify_voiced voice_elf.Vad.Detector.bridge
    voice_elf.Vad.Detector.frame_is_speech_like judge voice_elf.Vad.Features.zero_crossing_rate
    frame_crossings voice_elf.Prelude.Int.◌-ℤ◌ voice_elf.Prelude.Int.◌+ℤ◌
    voice_elf.Vad.Gate.accepts_active_energy voice_elf.Vad.Detector.predict_speech initial_detector
    voice_elf.Vad.Detector.update_noise_floor voice_elf.Vad.Detector.deliver
stays_closed = refl

push_frame_kept_example :
    buffered (push_frame integer_floats (constant_model (pos 0)) idle_detector quiet).pre_roll
    ≡ drop
        (length idle_detector.pre_roll + 1 - idle_detector.pre_roll_limit)
        (buffered idle_detector.pre_roll ++ quiet ∷ [])
unfolding initial_detector
push_frame_kept_example =
    push_frame_kept integer_floats (constant_model (pos 0)) idle_detector quiet
      (new-IsValid integer_floats (constant_model (pos 0)) 20 48000 false _ (is_made (pos 0))) refl
      stays_closed

-- The gate is open, and energy alone has bridged six frames.
abbrev open_detector : Detector ℤ ℕ
open_detector = record idle_detector {
  gate = record idle_detector.gate { speaking = true; active_frames = 1 };
  model_silence_run = 6;
}

open-Unconfirmed :
    Unconfirmed integer_floats (constant_model (pos 0)) open_detector (quiet ∷ quiet ∷ [])
unfolding push_frame voice_elf.Vad.Detector.route_frame voice_elf.Vad.Detector.gate_frame
    voice_elf.Vad.Gate.process voice_elf.Vad.Detector.classify_voiced voice_elf.Vad.Detector.bridge
    voice_elf.Vad.Detector.frame_is_speech_like judge voice_elf.Vad.Features.zero_crossing_rate
    frame_crossings voice_elf.Prelude.Int.◌-ℤ◌ voice_elf.Prelude.Int.◌+ℤ◌
    voice_elf.Vad.Gate.accepts_active_energy voice_elf.Vad.Detector.predict_speech initial_detector
    voice_elf.Vad.Detector.update_noise_floor voice_elf.Vad.Detector.deliver
open-Unconfirmed = (refl, refl, (refl, refl, tt))

Unconfirmed-limit_example : AllFalse integer_floats (constant_model (pos 0)) (
    drop
      (6 - open_detector.model_silence_run)
      (verdicts integer_floats (constant_model (pos 0)) open_detector (quiet ∷ quiet ∷ [])))
Unconfirmed-limit_example =
    Unconfirmed-limit integer_floats (constant_model (pos 0)) open_detector (quiet ∷ quiet ∷ [])
      open-Unconfirmed
