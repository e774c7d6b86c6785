-- ===== src/Vad/Detector/Invariant.antt =====
-- What holds of `BrowserAudioVad` between two samples: the router and the gate agree on whether a
-- segment is open, and every buffer stays within its bound.
use voice_elf.Prelude.{
  ◌&&◌, leb, some, set, length-map, sym, ◌∙◌, length-replicate, Bool-cases, ◌==◌, inl, inr, ℕ, suc,
  ◌+◌, ◌≤◌, ◌<◌, ◌≡◌, refl, Bool, true, List, [], ◌∷◌, length, length-append, length-set, arith,
  subst,
}
use voice_elf.Prelude.Int.{ℤ, pos}
use voice_elf.Prelude.Float.{Floats}
use voice_elf.Vad.Features.{rms_level}
use voice_elf.Vad.Gate
use voice_elf.Vad.Gate.{has, flag_speech_started, flag_speech_ended}
use voice_elf.Vad.Gate.Bounds
use voice_elf.Vad.Gate.Protocol.{process-Edges}
use voice_elf.Vad.Detector.{
  initial_detector, take_next, float_to_pcm16, blank, Detector, AudioFrame, Silero, new, reset,
  deliver, remember, drop_oldest, route_frame, push_frame, push_resampled, push_all, next_frame,
  frame_samples,
}
use voice_elf.Vad.Detector.Classified.{Gated, push_frame-Gated}

module _ {F32 : Type 0} where
  drop_oldest_room :
      (xs : List (List ℤ × F32)) (n : ℕ) → length xs ≡ n → 0 < n → length (drop_oldest xs) + 1 ≤ n
  drop_oldest_room [] n e p = omega arith
  drop_oldest_room (x ∷ xs) n e p = omega arith

module _ {F32 Net : Type 0} where
  pub record IsValid (d : Detector F32 Net) : Type 0 where
    pub gate : Gate.Bounds.IsValid d.gate
    pub sync : d.segment_active ≡ d.gate.speaking
    pub offset : d.frame_offset < frame_samples
    pub frame_length : length d.frame ≡ frame_samples
    pub roll_bound : length d.pre_roll ≤ d.pre_roll_limit
    pub roll_limit : 0 < d.pre_roll_limit
    pub roll_empty : d.segment_active ≡ true → d.pre_roll ≡ []

  remember_bound :
      (d : Detector F32 Net) (frame : List ℤ) (level : F32)
      → length d.pre_roll ≤ d.pre_roll_limit
      → 0 < d.pre_roll_limit
      → length (remember d frame level).pre_roll ≤ d.pre_roll_limit
  unfolding remember
  remember_bound d frame level h p = elim (Bool-cases (length d.pre_roll == d.pre_roll_limit)) [
    | inl full ↦
        rw (full, length-append (drop_oldest d.pre_roll) ((frame, level) ∷ []))
          (drop_oldest_room d.pre_roll d.pre_roll_limit (ground arith) p)
    | inr room ↦ rw (room, length-append d.pre_roll ((frame, level) ∷ [])) (ground arith)
  ]

module _ {F32 F64 Net : Type 0} (fl : Floats F32 F64) (silero : Silero F32 Net) where
  initial_detector-IsValid :
      (seconds : ℕ) (enhanced : Bool) → IsValid (initial_detector fl silero seconds enhanced)
  unfolding initial_detector Gate.new blank
  initial_detector-IsValid seconds enhanced = record {
    gate = Gate.Bounds.new-IsValid seconds enhanced;
    sync = refl;
    offset = omega arith;
    frame_length = length-replicate 512 (pos 0);
    roll_bound = omega arith;
    roll_limit = ground arith;
    roll_empty = λ e. refl;
  }

  -- A detector that `new` returns, for whatever duration, sample rate and mode, is well formed.
  pub new-IsValid :
      (seconds rate : ℕ) (enhanced : Bool) (d : Detector F32 Net)
      → new fl silero seconds rate enhanced ≡ some d
      → IsValid d
  unfolding new
  new-IsValid seconds rate enhanced d e = elim (Bool-cases (leb 8000 rate && leb rate 192000)) [
    | inl good ↦
        let same : initial_detector fl silero seconds enhanced ≡ d = ground (arith, good, e) in
        subst IsValid same (initial_detector-IsValid seconds enhanced)
    | inr bad ↦ absurd (ground (arith, bad, e))
  ]

  route_gate :
      (x : Detector F32 Net) (frame : List ℤ) (level : F32) (flags : ℕ)
      → (route_frame fl silero x frame level flags).gate ≡ x.gate
  unfolding route_frame deliver remember
  route_gate x frame level flags = ground arith

  route-IsValid :
      (d x : Detector F32 Net) (frame : List ℤ) (level : F32) (voiced : Bool) (flags : ℕ)
      → IsValid d
      → Gated d x voiced flags
      → IsValid (route_frame fl silero x frame level flags)
  unfolding route_frame deliver
  route-IsValid d x frame level voiced flags v g = record {
    gate =
        subst Gate.Bounds.IsValid (sym (route_gate x frame level flags ∙ g.step.0))
          (Gate.Bounds.process-IsValid d.gate voiced v.gate);
    sync = ground (arith, process-Edges d.gate voiced);
    offset = ground arith;
    frame_length = ground arith;
    roll_bound = ground (arith, remember_bound x frame level);
    roll_limit = ground arith;
    roll_empty = ground (arith, process-Edges d.gate voiced);
  }

  -- A whole frame keeps the detector well formed.
  pub push_frame-IsValid :
      (d : Detector F32 Net) (frame : List ℤ) → IsValid d → IsValid (push_frame fl silero d frame)
  push_frame-IsValid d frame v =
      let (x, voiced, flags, g, e) = push_frame-Gated fl silero d frame in
      rw e (route-IsValid d x frame (rms_level fl frame) voiced flags v g)

  -- With the last sample of a frame in place.
  pub whole_frame-IsValid :
      (d : Detector F32 Net) (sample : ℤ)
      → IsValid d
      → IsValid (record d { frame = set d.frame d.frame_offset sample; frame_offset = 0 })
  whole_frame-IsValid d sample v = record {
    gate = v.gate;
    sync = v.sync;
    offset = omega arith;
    frame_length = length-set d.frame d.frame_offset sample ∙ v.frame_length;
    roll_bound = v.roll_bound;
    roll_limit = v.roll_limit;
    roll_empty = v.roll_empty;
  }

  -- A sample keeps it well formed.
  pub push_resampled-IsValid :
      (d : Detector F32 Net) (sample : ℤ) → IsValid d → IsValid (push_resampled fl silero d sample)
  unfolding push_resampled
  push_resampled-IsValid d sample v = elim (Bool-cases (suc d.frame_offset == frame_samples)) [
    | inl whole ↦ rw whole (push_frame-IsValid _ _ (whole_frame-IsValid d sample v))
    | inr part ↦ rw part (record {
      gate = v.gate;
      sync = v.sync;
      offset = ground arith;
      frame_length = length-set d.frame d.frame_offset sample ∙ v.frame_length;
      roll_bound = v.roll_bound;
      roll_limit = v.roll_limit;
      roll_empty = v.roll_empty;
    })
  ]

  -- Resampled input of any length keeps a well-formed detector well formed.
  pub push_all-IsValid :
      (d : Detector F32 Net) (xs : List F32) → IsValid d → IsValid (push_all fl silero d xs)
  unfolding push_all
  push_all-IsValid d [] v = v
  push_all-IsValid d (x ∷ xs) v =
      push_all-IsValid (push_resampled fl silero d (float_to_pcm16 fl silero x)) xs
        (push_resampled-IsValid d (float_to_pcm16 fl silero x) v)

  take_next-IsValid :
      (d : Detector F32 Net) (q : List (AudioFrame F32))
      → IsValid d
      → IsValid (take_next fl silero d q).0
  unfolding take_next
  take_next-IsValid d [] v = v
  take_next-IsValid d (f ∷ rest) v = record {
    gate = v.gate;
    sync = v.sync;
    offset = v.offset;
    frame_length = v.frame_length;
    roll_bound = v.roll_bound;
    roll_limit = v.roll_limit;
    roll_empty = v.roll_empty;
  }

  -- Taking a frame from the queue keeps it well formed.
  pub next_frame-IsValid : (d : Detector F32 Net) → IsValid d → IsValid (next_frame fl silero d).0
  unfolding next_frame
  next_frame-IsValid d v = take_next-IsValid d d.ready v

  -- A reset keeps it well formed.
  pub reset-IsValid : (d : Detector F32 Net) → IsValid d → IsValid (reset fl silero d)
  unfolding reset Gate.reset
  reset-IsValid d v = record {
    gate = Gate.Bounds.reset-IsValid d.gate v.gate;
    sync = refl;
    offset = omega arith;
    frame_length = length-map d.frame (λ _. pos 0) ∙ v.frame_length;
    roll_bound = omega arith;
    roll_limit = v.roll_limit;
    roll_empty = λ e. refl;
  }
