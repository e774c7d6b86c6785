-- ===== src/Audio/Voice/Counts.antt =====
-- `SpeechQuality::observe` of server/src/audio.rs: what it counts.
use voice_elf.Prelude.{
  ℕ, zero, suc, ◌+◌, ◌/◌, ◌≤◌, ◌<◌, ◌≡◌, refl, sym, subst, ap, ◌∙◌, ◌*◌, min, Bool, ◌&&◌,
  Bool-cases, inl, inr, if◌then◌else◌, List, [], ◌∷◌, ◌++◌, length, length-append, take, drop,
  arith,
}
use voice_elf.Prelude.Int.{ℤ}
use voice_elf.Prelude.Float.{Floats}
use voice_elf.Audio.Voice.{SpeechQuality, frame_features, observe, observe_chunks, observe_frame}

take-whole {ℓ} : {A : Type ℓ} (n : ℕ) (xs ys : List A) → length xs ≡ n → take n (xs ++ ys) ≡ xs
take-whole zero [] ys h = refl
take-whole zero (x ∷ xs) ys h = absurd (omega arith)
take-whole (suc n) [] ys h = absurd (omega arith)
take-whole (suc n) (x ∷ xs) ys h = ap (◌∷◌ x) (take-whole n xs ys (omega arith))

drop-whole {ℓ} : {A : Type ℓ} (n : ℕ) (xs ys : List A) → length xs ≡ n → drop n (xs ++ ys) ≡ ys
drop-whole zero [] ys h = refl
drop-whole zero (x ∷ xs) ys h = absurd (omega arith)
drop-whole (suc n) [] ys h = absurd (omega arith)
drop-whole (suc n) (x ∷ xs) ys h = drop-whole n xs ys (omega arith)

-- Frames of 512 samples.
abbrev pub Whole : List (List ℤ) → Type 0
Whole [] = Unit {0}
Whole (frame ∷ frames) = (length frame ≡ 512) × Whole frames

-- The frames one behind the other, and a rest.
abbrev pub joined : List (List ℤ) → List ℤ → List ℤ
joined [] rest = rest
joined (frame ∷ frames) rest = frame ++ joined frames rest

module _ {F32 F64 : Type 0} (fl : Floats F32 F64) where
  -- A level of 0.01 at least, and from 0.015 to 0.32 of the samples crossing the centre.
  abbrev pub audible : List ℤ → Bool
  audible frame =
      let (level, rate) = frame_features fl frame in
      fl.f32.le (fl.f32.lit 1 2) level
      && (fl.f32.le (fl.f32.lit 15 3) rate && fl.f32.le rate (fl.f32.lit 32 2))

  abbrev pub audible_count : List (List ℤ) → ℕ
  audible_count [] = 0
  audible_count (frame ∷ frames) =
      let rest = audible_count frames in if audible frame then suc rest else rest

  abbrev pub peak : F32 → List (List ℤ) → F32
  peak level [] = level
  peak level (frame ∷ frames) = peak (fl.f32.max_of level (frame_features fl frame).0) frames

  record Counted (q : SpeechQuality F32) (frames : List (List ℤ)) (after : SpeechQuality F32)
      : Type 0 where
    total : after.total_frames ≡ min (q.total_frames + length frames) 4294967295
    heard :
        after.audible_speech_frames
        ≡ min (q.audible_speech_frames + audible_count frames) 4294967295
    loudest : after.peak_frame_rms ≡ peak q.peak_frame_rms frames

  observe_chunks-whole :
      (n : ℕ) (q : SpeechQuality F32) (frame rest : List ℤ)
      → length frame ≡ 512
      → observe_chunks fl (suc n) q (frame ++ rest)
        ≡ observe_chunks fl n (observe_frame fl q frame) rest
  unfolding observe_chunks
  observe_chunks-whole n q frame rest w =
      ap (λ t. observe_chunks fl n (observe_frame fl q t) (drop 512 (frame ++ rest)))
        (take-whole 512 frame rest w)
      ∙ ap (observe_chunks fl n (observe_frame fl q frame)) (drop-whole 512 frame rest w)

  observe_frame-heard :
      (q : SpeechQuality F32) (frame : List ℤ)
      → (observe_frame fl q frame).audible_speech_frames ≡ (
          if audible frame
          then min (q.audible_speech_frames + 1) 4294967295
          else q.audible_speech_frames)
  unfolding observe_frame
  observe_frame-heard q frame = refl

  observe_frame-Counted :
      (q : SpeechQuality F32) (frame : List ℤ) (frames : List (List ℤ)) (after : SpeechQuality F32)
      → q.total_frames ≤ 4294967295
      → q.audible_speech_frames ≤ 4294967295
      → Counted (observe_frame fl q frame) frames after
      → Counted q (frame ∷ frames) after
  unfolding observe_frame
  observe_frame-Counted q frame frames after t a c = record {
    total = omega (arith, c.total);
    heard = elim (Bool-cases (audible frame)) [
      | inl e ↦ ground (arith, c.heard, observe_frame-heard q frame)
      | inr e ↦ ground (arith, c.heard, observe_frame-heard q frame)
    ];
    loudest = c.loudest;
  }

  frame_bounds :
      (q : SpeechQuality F32) (frame : List ℤ)
      → q.audible_speech_frames ≤ 4294967295
      → ((observe_frame fl q frame).total_frames ≤ 4294967295)
        × ((observe_frame fl q frame).audible_speech_frames ≤ 4294967295)
  unfolding observe_frame
  frame_bounds q frame a = ground arith

  observe_chunks-Counted :
      (frames : List (List ℤ)) (rest : List ℤ) (q : SpeechQuality F32)
      → Whole frames
      → q.total_frames ≤ 4294967295
      → q.audible_speech_frames ≤ 4294967295
      → Counted q frames (observe_chunks fl (length frames) q (joined frames rest))
  unfolding observe_chunks
  observe_chunks-Counted [] rest q w t a = record {
    total = omega arith;
    heard = omega arith;
    loudest = refl;
  }
  observe_chunks-Counted (frame ∷ frames) rest q w t a =
      let (t', a') = frame_bounds q frame a in
      subst (Counted q (frame ∷ frames))
        (sym (observe_chunks-whole (length frames) q frame (joined frames rest) w.0))
        (observe_frame-Counted q frame frames _ t a
          (observe_chunks-Counted frames rest (observe_frame fl q frame) w.1 t' a'))

  length-joined :
      (frames : List (List ℤ)) (rest : List ℤ)
      → Whole frames
      → length (joined frames rest) ≡ 512 * length frames + length rest
  length-joined [] rest w = omega arith
  length-joined (frame ∷ frames) rest w =
      omega (arith, length-append frame (joined frames rest), length-joined frames rest w.1, w.0)

  -- Of frames of 512 samples one behind the other and a rest of fewer, with counters of 32 bits,
  -- `observe` counts every whole frame and exactly the audible ones, both up to the largest number,
  -- keeps the highest level of a frame and of those before, and leaves out the rest.
  pub observe-counts :
      (frames : List (List ℤ)) (rest : List ℤ) (q : SpeechQuality F32)
      → Whole frames
      → length rest < 512
      → q.total_frames ≤ 4294967295
      → q.audible_speech_frames ≤ 4294967295
      → let after = observe fl q (joined frames rest) in
        (after.total_frames ≡ min (q.total_frames + length frames) 4294967295)
        × (after.audible_speech_frames
            ≡ min (q.audible_speech_frames + audible_count frames) 4294967295)
        × (after.peak_frame_rms ≡ peak q.peak_frame_rms frames)
  unfolding observe
  observe-counts frames rest q w short t a =
      let n : length (joined frames rest) / 512 ≡ length frames =
        omega (arith, length-joined frames rest w) in
      let c =
        subst (λ (k : ℕ). Counted q frames (observe_chunks fl k q (joined frames rest))) (sym n)
          (observe_chunks-Counted frames rest q w t a) in
      (c.total, c.heard, c.loudest)
