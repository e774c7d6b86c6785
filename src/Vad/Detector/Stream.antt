-- ===== src/Vad/Detector/Stream.antt =====
-- The frames that `BrowserAudioVad` sends: none is lost or repeated, the frames before a start come
-- first, and every segment is bracketed by its start and end flags.
use voice_elf.Prelude.{◌≤◌, ◌<◌, refl, true, false, []}
use voice_elf.Prelude.{
  ℕ, ◌+◌, ◌-◌, ◌≡◌, Bool, not, ◌||◌, ◌&&◌, if◌then◌else◌, ◌==◌, Bool-cases, inl, inr, List, ◌∷◌,
  ◌++◌, map, length, drop, arith, sym, ap, ◌∙◌,
}
use mathlib.Core.List.{map-append, append-nil}
use voice_elf.Prelude.Int.{ℤ}
use voice_elf.Prelude.Float.{Floats}
use voice_elf.Vad.Features.{rms_level}
use voice_elf.Vad.Gate.{SpeechGate, has, flag_speech_started, flag_speech_ended}
use voice_elf.Vad.Gate.Protocol.{process-Edges}
use voice_elf.Vad.Detector.{
  Detector, AudioFrame, Silero, release, remember, drop_oldest, deliver, route_frame, push_frame,
}
use voice_elf.Vad.Detector.Classified.{Gated, push_frame-Gated}
use voice_elf.Vad.Detector.Invariant.{IsValid}

module _ {F32 : Type 0} where
  abbrev pub samples_of : List (AudioFrame F32) → List (List ℤ)
  samples_of = map λ f. f.samples

  abbrev pub flags_of : List (AudioFrame F32) → List ℕ
  flags_of = map λ f. f.flags

  abbrev pub buffered : List (List ℤ × F32) → List (List ℤ)
  buffered = map λ b. b.0

  samples-release :
      (m flags : ℕ) (xs : List (List ℤ × F32)) → samples_of (release m flags xs) ≡ buffered xs
  unfolding release
  samples-release m flags [] = refl
  samples-release m flags ((s, l) ∷ []) = refl
  samples-release m flags ((s, l) ∷ y ∷ ys) = ap (◌∷◌ s) (samples-release 0 flags (y ∷ ys))

  drop_one :
      (q : List (List ℤ × F32)) (frame : List ℤ) (level : F32)
      → 0 < length q
      → buffered (drop_oldest q ++ (frame, level) ∷ []) ≡ drop 1 (buffered q ++ frame ∷ [])
  drop_one [] frame level h = absurd (omega arith)
  drop_one (b ∷ q) frame level h = map-append _ q _

module _ {F32 Net : Type 0} where
  deliver_started :
      (x : Detector F32 Net) (frame : List ℤ) (level : F32) (flags : ℕ)
      → has flags flag_speech_started ≡ true
      → (deliver x frame level flags).ready
        ≡ x.ready ++ release flag_speech_started flags (x.pre_roll ++ (frame, level) ∷ [])
  unfolding deliver
  deliver_started x frame level flags e = rw e

  deliver_active :
      (x : Detector F32 Net) (frame : List ℤ) (level : F32) (flags : ℕ)
      → has flags flag_speech_started ≡ false
      → x.segment_active ≡ true
      → (deliver x frame level flags).ready
        ≡ x.ready ++ record { samples = frame; flags = flags; level = level } ∷ []
  unfolding deliver
  deliver_active x frame level flags e a = rw (e, a)

  deliver_idle :
      (x : Detector F32 Net) (frame : List ℤ) (level : F32) (flags : ℕ)
      → has flags flag_speech_started ≡ false
      → x.segment_active ≡ false
      → deliver x frame level flags ≡ remember x frame level
  unfolding deliver
  deliver_idle x frame level flags e a = rw (e, a)

  remember_kept :
      (x : Detector F32 Net) (frame : List ℤ) (level : F32)
      → length x.pre_roll ≤ x.pre_roll_limit
      → 0 < x.pre_roll_limit
      → buffered (remember x frame level).pre_roll
        ≡ drop (length x.pre_roll + 1 - x.pre_roll_limit) (buffered x.pre_roll ++ frame ∷ [])
  unfolding remember
  remember_kept x frame level h p = elim (Bool-cases (length x.pre_roll == x.pre_roll_limit)) [
    | inl full ↦
        let one : length x.pre_roll + 1 - x.pre_roll_limit ≡ 1 = ground arith in
        rw (full, one) (drop_one x.pre_roll frame level (ground arith))
    | inr room ↦
        let none_over : length x.pre_roll + 1 - x.pre_roll_limit ≡ 0 = ground arith in
        rw (room, none_over) (map-append _ x.pre_roll _)
  ]

module _ {F32 F64 Net : Type 0} (fl : Floats F32 F64) (silero : Silero F32 Net) where
  route_ready :
      (x : Detector F32 Net) (frame : List ℤ) (level : F32) (flags : ℕ)
      → (route_frame fl silero x frame level flags).ready ≡ (deliver x frame level flags).ready
  unfolding route_frame
  route_ready x frame level flags = elim (Bool-cases (has flags flag_speech_ended)) [
    | inl e ↦ rw e
    | inr e ↦ rw e
  ]

  route_pre_roll :
      (x : Detector F32 Net) (frame : List ℤ) (level : F32) (flags : ℕ)
      → has flags flag_speech_ended ≡ false
      → (route_frame fl silero x frame level flags).pre_roll
        ≡ (deliver x frame level flags).pre_roll
  unfolding route_frame
  route_pre_roll x frame level flags e = rw e

  pub route_gate :
      (x : Detector F32 Net) (frame : List ℤ) (level : F32) (flags : ℕ)
      → (route_frame fl silero x frame level flags).gate ≡ x.gate
  unfolding route_frame deliver remember
  route_gate x frame level flags = ground arith

  pub route_gate_speaking :
      (x : Detector F32 Net) (frame : List ℤ) (level : F32) (flags : ℕ)
      → (route_frame fl silero x frame level flags).gate.speaking ≡ x.gate.speaking
  route_gate_speaking x frame level flags =
      ap (λ (k : SpeechGate). k.speaking) (route_gate x frame level flags)

  module _ (d x : Detector F32 Net) (frame : List ℤ) (level : F32) (voiced : Bool) (flags : ℕ)
      (v : IsValid d) (g : Gated d x voiced flags) where
    pub started_eq : has flags flag_speech_started ≡ (not d.gate.speaking && x.gate.speaking)
    started_eq = ground (arith, process-Edges d.gate voiced)

    pub ended_eq : has flags flag_speech_ended ≡ (d.gate.speaking && not x.gate.speaking)
    ended_eq = ground (arith, process-Edges d.gate voiced)

    pub active_eq : x.segment_active ≡ d.gate.speaking
    active_eq = g.active ∙ v.sync

    pub ready_opened :
        d.gate.speaking ≡ false
        → x.gate.speaking ≡ true
        → (route_frame fl silero x frame level flags).ready
          ≡ d.ready ++ release flag_speech_started flags (d.pre_roll ++ (frame, level) ∷ [])
    ready_opened b a =
        route_ready x frame level flags
        ∙ deliver_started x frame level flags (started_eq ∙ rw (b, a) refl)
        ∙ rw (g.ready, g.pre_roll) refl

    pub ready_active :
        d.gate.speaking ≡ true
        → (route_frame fl silero x frame level flags).ready
          ≡ d.ready ++ record { samples = frame; flags = flags; level = level } ∷ []
    ready_active b =
        route_ready x frame level flags
        ∙ deliver_active x frame level flags (started_eq ∙ rw b refl) (active_eq ∙ b)
        ∙ rw g.ready refl

    pub ready_idle :
        d.gate.speaking ≡ false
        → x.gate.speaking ≡ false
        → (route_frame fl silero x frame level flags).ready ≡ d.ready
    unfolding remember
    ready_idle b a =
        route_ready x frame level flags
        ∙ ap (λ y. y.ready)
            (deliver_idle x frame level flags (started_eq ∙ rw (b, a) refl) (active_eq ∙ b))
        ∙ g.ready

    -- What the frame adds to the queue: with a segment open before or after it, the waiting frames
    -- and then itself; otherwise nothing.
    route_sent :
        samples_of (route_frame fl silero x frame level flags).ready
        ≡ samples_of d.ready
          ++ (if d.gate.speaking || x.gate.speaking then buffered d.pre_roll ++ frame ∷ [] else [])
    route_sent = elim (Bool-cases d.gate.speaking) [
      | inl b ↦ rw (ready_active b, b, v.roll_empty (v.sync ∙ b)) (map-append _ d.ready _)
      | inr b ↦ elim (Bool-cases x.gate.speaking) [
        | inl a ↦
            rw (ready_opened b a, b, a)
              (map-append _ d.ready _
                ∙ ap (◌++◌ (samples_of d.ready)) (
                    samples-release _ flags (d.pre_roll ++ (frame, level) ∷ [])
                    ∙ map-append _ d.pre_roll _))
        | inr a ↦ rw (ready_idle b a, b, a) (sym (append-nil _))
      ]
    ]

    -- A frame that finds and leaves the gate closed waits, and the oldest waiting frame is dropped
    -- where there is no room.
    route_kept :
        d.gate.speaking ≡ false
        → x.gate.speaking ≡ false
        → buffered (route_frame fl silero x frame level flags).pre_roll
          ≡ drop (length d.pre_roll + 1 - d.pre_roll_limit) (buffered d.pre_roll ++ frame ∷ [])
    route_kept b a =
        ap buffered (
          route_pre_roll x frame level flags (ended_eq ∙ rw b refl)
          ∙ ap (λ y. y.pre_roll)
              (deliver_idle x frame level flags (started_eq ∙ rw (b, a) refl) (active_eq ∙ b)))
        ∙ remember_kept x frame level (omega (arith, ap length g.pre_roll, g.limit, v.roll_bound))
            (omega (arith, g.limit, v.roll_limit))
        ∙ cc (g.pre_roll, g.limit)

  -- In a well-formed detector, a frame that finds or leaves the gate open is sent, behind the frames
  -- that waited, in the order in which they came; a frame that finds and leaves it closed sends
  -- nothing.
  pub push_frame_sent :
      (d : Detector F32 Net) (frame : List ℤ)
      → IsValid d
      → let y = push_frame fl silero d frame in
        samples_of y.ready
        ≡ samples_of d.ready
          ++ (if d.gate.speaking || y.gate.speaking then buffered d.pre_roll ++ frame ∷ [] else [])
  push_frame_sent d frame v =
      let (x, voiced, flags, g, e) = push_frame-Gated fl silero d frame in
      rw (e, route_gate x frame (rms_level fl frame) flags)
        (route_sent d x frame (rms_level fl frame) voiced flags v g)

  -- In a well-formed detector, a frame that finds and leaves the gate closed is kept as the newest of
  -- the frames that wait for a start; the oldest go, as far as there are more than the limit.
  pub push_frame_kept :
      (d : Detector F32 Net) (frame : List ℤ)
      → IsValid d
      → let y = push_frame fl silero d frame in
        d.gate.speaking ≡ false
        → y.gate.speaking ≡ false
        → buffered y.pre_roll
          ≡ drop (length d.pre_roll + 1 - d.pre_roll_limit) (buffered d.pre_roll ++ frame ∷ [])
  push_frame_kept d frame v b a =
      let (x, voiced, flags, g, e) = push_frame-Gated fl silero d frame in
      rw e (
        route_kept d x frame (rms_level fl frame) voiced flags v g b
          (sym (route_gate_speaking x frame (rms_level fl frame) flags) ∙ (rw e at a)))
