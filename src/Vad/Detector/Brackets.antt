-- ===== src/Vad/Detector/Brackets.antt =====
-- The flags of the frames that `BrowserAudioVad` sends: every segment is bracketed.
use voice_elf.Prelude.{refl}
use voice_elf.Prelude.{
  ℕ, suc, ◌≡◌, Bool, true, false, not, if◌then◌else◌, ◌==◌, Bool-cases, inl, inr, List, [], ◌∷◌,
  ◌++◌, arith, sym, ap, ◌∙◌,
}
use mathlib.Core.List.{map-append, append-nil, append_assoc}
use voice_elf.Prelude.Int.{ℤ}
use voice_elf.Prelude.Float.{Floats}
use voice_elf.Vad.Features.{rms_level}
use voice_elf.Vad.Gate.{SpeechGate, has, flag_speech_started, flag_speech_ended, process}
use voice_elf.Vad.Detector.{
  frame_samples, Detector, AudioFrame, Silero, release, route_frame, push_frame, push_resampled,
  push_all, float_to_pcm16,
}
use voice_elf.Vad.Detector.Classified.{Gated, push_frame-Gated}
use voice_elf.Vad.Detector.Invariant.{whole_frame-IsValid, IsValid, push_resampled-IsValid}
use voice_elf.Vad.Detector.Stream.{
  flags_of, ready_opened, ready_active, ready_idle, ended_eq, started_eq, route_gate_speaking,
}

-- From a state (a segment is open or not) the frames lead to the last state, where a frame carries
-- the start flag exactly if no segment is open before it, and none is open after it exactly if it
-- carries the end flag.
abbrev pub Brackets : Bool → List ℕ → Bool → Type 0
Brackets open_now [] last = open_now ≡ last
Brackets open_now (f ∷ fs) last =
    (has f flag_speech_started ≡ not open_now) × Brackets (not (has f flag_speech_ended)) fs last

pub Brackets-append :
    (a b c : Bool) (xs ys : List ℕ) → Brackets a xs b → Brackets b ys c → Brackets a (xs ++ ys) c
Brackets-append a b c [] ys h k = rw h k
Brackets-append a b c (x ∷ xs) ys h k =
    (h.0, Brackets-append (not (has x flag_speech_ended)) b c xs ys h.1 k)

-- The flags of a frame that opens the gate.
opening_flags :
    (g : SpeechGate) (voiced : Bool)
    → g.speaking ≡ false
    → (process g voiced).0.speaking ≡ true
    → (process g voiced).1 ≡ (if voiced then 11 else 3)
unfolding process
opening_flags g voiced b a = ground arith

module _ {F32 : Type 0} where
  flags-release :
      (voiced first : Bool) (xs : List (List ℤ × F32)) (last : List ℤ × F32)
      → Brackets
          (not first)
          (flags_of (
            release
              (if first then flag_speech_started else 0)
              (if voiced then 11 else 3)
              (xs ++ last ∷ [])))
          true
  unfolding release
  flags-release true true [] last = (refl, refl)
  flags-release true false [] last = (refl, refl)
  flags-release false true [] last = (refl, refl)
  flags-release false false [] last = (refl, refl)
  flags-release voiced true (x ∷ []) last = (refl, flags-release voiced false [] last)
  flags-release voiced false (x ∷ []) last = (refl, flags-release voiced false [] last)
  flags-release voiced true (x ∷ y ∷ ys) last = (refl, flags-release voiced false (y ∷ ys) last)
  flags-release voiced false (x ∷ y ∷ ys) last = (refl, flags-release voiced false (y ∷ ys) last)

module _ {F32 F64 Net : Type 0} (fl : Floats F32 F64) (silero : Silero F32 Net) where
  module _ (d x : Detector F32 Net) (frame : List ℤ) (level : F32) (voiced : Bool) (flags : ℕ)
      (v : IsValid d) (g : Gated d x voiced flags) where
    -- The frames sent, by whether the gate is open before and after.
    added : Bool → Bool → List (AudioFrame F32)
    added true after = record { samples = frame; flags = flags; level = level } ∷ []
    added false true = release flag_speech_started flags (d.pre_roll ++ (frame, level) ∷ [])
    added false false = []

    route_added :
        (before after : Bool)
        → d.gate.speaking ≡ before
        → x.gate.speaking ≡ after
        → (route_frame fl silero x frame level flags).ready ≡ d.ready ++ added before after
    unfolding added
    route_added true after b a = ready_active fl silero d x frame level voiced flags v g b
    route_added false true b a = ready_opened fl silero d x frame level voiced flags v g b a
    route_added false false b a =
        ready_idle fl silero d x frame level voiced flags v g b a ∙ sym (append-nil _)

    flags_opened :
        d.gate.speaking ≡ false → x.gate.speaking ≡ true → flags ≡ (if voiced then 11 else 3)
    flags_opened b a =
        g.step.1
        ∙ opening_flags d.gate voiced b (ap (λ (k : SpeechGate). k.speaking) (sym g.step.0) ∙ a)

    added-Brackets :
        (before after : Bool)
        → d.gate.speaking ≡ before
        → x.gate.speaking ≡ after
        → Brackets before (flags_of (added before after)) after
    unfolding added
    added-Brackets true after b a =
        let s = started_eq fl silero d x frame level voiced flags v g in
        let e = ended_eq fl silero d x frame level voiced flags v g in ground arith
    added-Brackets false true b a =
        rw (flags_opened b a) (flags-release voiced true d.pre_roll (frame, level))
    added-Brackets false false b a = refl

    route-Brackets :
        (new_frames : List (AudioFrame F32)) × ((route_frame fl silero x frame level flags).ready
          ≡ d.ready ++ new_frames)
        × Brackets d.gate.speaking (flags_of new_frames) x.gate.speaking
    route-Brackets = (
      added d.gate.speaking x.gate.speaking,
      route_added _ _ refl refl,
      added-Brackets _ _ refl refl,
    )

  -- The frames that one frame of input adds to the queue are bracketed, from the state of the gate
  -- before it to the state after it.
  pub push_frame-Brackets :
      (d : Detector F32 Net) (frame : List ℤ)
      → IsValid d
      → let y = push_frame fl silero d frame in
        (new_frames : List (AudioFrame F32)) × (y.ready ≡ d.ready ++ new_frames)
        × Brackets d.gate.speaking (flags_of new_frames) y.gate.speaking
  push_frame-Brackets d frame v =
      let (x, voiced, flags, g, e) = push_frame-Gated fl silero d frame in
      rw (e, route_gate_speaking fl silero x frame (rms_level fl frame) flags)
        (route-Brackets d x frame (rms_level fl frame) voiced flags v g)

  push_resampled-Brackets :
      (d : Detector F32 Net) (sample : ℤ)
      → IsValid d
      → let y = push_resampled fl silero d sample in
        (new_frames : List (AudioFrame F32)) × (y.ready ≡ d.ready ++ new_frames)
        × Brackets d.gate.speaking (flags_of new_frames) y.gate.speaking
  unfolding push_resampled
  push_resampled-Brackets d sample v = elim (Bool-cases (suc d.frame_offset == frame_samples)) [
    | inl whole ↦ rw whole (push_frame-Brackets _ _ (whole_frame-IsValid fl silero d sample v))
    | inr part ↦ rw part ([], sym (append-nil d.ready), refl)
  ]

  -- In a well-formed detector, whatever input arrives, the frames that it adds to the queue are
  -- bracketed: a frame carries the start flag exactly if no segment was open, a segment ends
  -- exactly at an end flag, and the gate is open afterwards exactly if the last segment has no end.
  pub push_all-Brackets :
      (d : Detector F32 Net) (xs : List F32)
      → IsValid d
      → let y = push_all fl silero d xs in
        (new_frames : List (AudioFrame F32)) × (y.ready ≡ d.ready ++ new_frames)
        × Brackets d.gate.speaking (flags_of new_frames) y.gate.speaking
  unfolding push_all
  push_all-Brackets d [] v = ([], sym (append-nil d.ready), refl)
  push_all-Brackets d (x ∷ xs) v =
      let sample = float_to_pcm16 fl silero x in
      let y = push_resampled fl silero d sample in
      let (fs, e, b) = push_resampled-Brackets d sample v in
      let (gs, e', b') = push_all-Brackets y xs (push_resampled-IsValid fl silero d sample v) in
      (
        fs ++ gs,
        e' ∙ ap (λ r. r ++ gs) e ∙ append_assoc d.ready fs gs,
        rw (map-append (λ (f : AudioFrame F32). f.flags) fs gs)
            (Brackets-append d.gate.speaking y.gate.speaking _ (flags_of fs) (flags_of gs) b b'),
      )
