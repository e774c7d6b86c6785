-- ===== src/Vad/Resampler/Rounds.antt =====
-- The loop of the resampler ends.
use voice_elf.Prelude.{
  ℕ, zero, suc, ◌<◌, ◌≡◌, refl, Bool-cases, inl, inr, true, List, [], ◌∷◌, ◌++◌, length, some,
  arith,
}
use voice_elf.Prelude.Float.{Floats}
use voice_elf.Vad.Resampler.{
  StreamingResampler, filter_all, one, interpolate, resample, drain, process_samples,
}

module _ {F32 F64 : Type 0} (fl : Floats F32 F64) where
  -- On the positions of a set, such as the finite ones that are not negative, a round before the end of
  -- the source leads to another one of them, and brings the number of rounds that are left down.
  abbrev pub Counts : (F64 → Type 0) → (F64 → ℕ) → List F32 → F64 → Type 0
  Counts Reachable rounds source ratio =
      (position : F64)
      → Reachable position
      → fl.f64.lt (fl.f64.add position (one fl)) (fl.f64.of_ℕ (length source)) ≡ true
      → Reachable (fl.f64.add position ratio)
        × (rounds (fl.f64.add position ratio) < rounds position)

  resample_ends :
      (Reachable : F64 → Type 0) (rounds : F64 → ℕ) (fuel : ℕ) (source : List F32)
      (ratio position : F64)
      → Counts Reachable rounds source ratio
      → Reachable position
      → rounds position < fuel
      → (r : F64 × List F32) × (resample fl fuel source ratio position ≡ some r)
  unfolding resample
  resample_ends Reachable rounds zero source ratio position c i h = absurd (omega arith)
  resample_ends Reachable rounds (suc fuel) source ratio position c i h =
      elim (Bool-cases (fl.f64.lt (fl.f64.add position (one fl)) (fl.f64.of_ℕ (length source)))) [
        | inl more ↦
            let (next, fewer) = c position i more in
            let ((p, xs), e) =
              resample_ends Reachable rounds fuel source ratio (fl.f64.add position ratio) c next
                (omega arith) in
            ((p, interpolate fl source position ∷ xs), rw (more, e) refl)
        | inr done ↦ ((position, []), rw done refl)
      ]

  -- If on the positions of a set, in which the first one is, each round of the loop stays in the set and
  -- brings a count of rounds down, then with more fuel than the count at the first position the
  -- resampler returns.
  pub process_samples_ends :
      (Reachable : F64 → Type 0) (rounds : F64 → ℕ) (fuel : ℕ) (r : StreamingResampler F32 F64)
      (input : List F32)
      → Counts Reachable rounds (r.source ++ (filter_all fl.f32 r.anti_alias input).1) r.ratio
      → Reachable r.position
      → rounds r.position < fuel
      → (result : StreamingResampler F32 F64 × List F32) × (process_samples fl fuel r input
          ≡ some result)
  unfolding process_samples
  process_samples_ends Reachable rounds fuel r input c i h =
      let ((p, xs), e) =
        resample_ends Reachable rounds fuel (r.source ++ (filter_all fl.f32 r.anti_alias input).1)
          r.ratio r.position c i h in
      by_rounds (p, xs) e
    where
      by_rounds :
          (last : F64 × List F32)
          → resample fl fuel
              (r.source ++ (filter_all fl.f32 r.anti_alias input).1)
              r.ratio
              r.position
            ≡ some last
          → (result : StreamingResampler F32 F64 × List F32) × (drain fl r
                (filter_all fl.f32 r.anti_alias input).0
                (r.source ++ (filter_all fl.f32 r.anti_alias input).1)
                (resample fl fuel
                  (r.source ++ (filter_all fl.f32 r.anti_alias input).1)
                  r.ratio
                  r.position)
              ≡ some result)
      by_rounds last e = rw e (_, refl)
