-- ===== src/Vad/Detector/Hum.antt =====
-- The enhanced filter of `BrowserAudioVad`: the hum lock.
use voice_elf.Prelude.{
  ◌⊎◌, Bool-cases, inl, inr, ℕ, zero, suc, ◌+◌, ◌≤◌, ◌<◌, ◌≡◌, Bool, true, false, not, ◌&&◌, ◌||◌,
  leb, arith,
}
use voice_elf.Prelude.Float.{Floats}
use voice_elf.Vad.Detector.{Detector, Silero, judge, sat16, hum_clear_frames}

module _ {F32 F64 Net : Type 0} (fl : Floats F32 F64) (silero : Silero F32 Net) where
  -- While the lock holds, a frame passes as speech exactly if it is neither noisy nor hum, is clear,
  -- and is the one that completes the run of three clear frames.
  pub judge_locked :
      (d : Detector F32 Net) (noisy hum clear : Bool)
      → d.enhanced_voice_filter ≡ true
      → d.hum_locked ≡ true
      → (judge fl silero d noisy hum clear).1
        ≡ (not noisy && not hum && clear && leb hum_clear_frames (sat16 d.hum_clear_run))
  unfolding judge
  judge_locked d noisy hum clear e l = ground arith

  -- The filter after a run of hum frames.
  abbrev pub hum_frames : ℕ → Detector F32 Net → Detector F32 Net
  hum_frames zero d = d
  hum_frames (suc n) d = hum_frames n (judge fl silero d false true false).0

  record Hummed (d x : Detector F32 Net) : Type 0 where
    enhanced : x.enhanced_voice_filter ≡ true
    locked : x.hum_locked ≡ (d.hum_locked || leb 8 (sat16 d.hum_run))
    run : (x.hum_locked ≡ true) ⊎ (x.hum_run ≡ d.hum_run + 1)

  judge-Hummed :
      (d : Detector F32 Net)
      → d.enhanced_voice_filter ≡ true
      → Hummed d (judge fl silero d false true false).0
  unfolding judge
  judge-Hummed d e = ground arith

  locked_stays :
      (n : ℕ) (d : Detector F32 Net)
      → d.enhanced_voice_filter ≡ true
      → d.hum_locked ≡ true
      → (hum_frames n d).hum_locked ≡ true
  locked_stays zero d e l = l
  locked_stays (suc n) d e l =
      let h = judge-Hummed d e in locked_stays n _ h.enhanced (ground arith)

  -- In enhanced mode, with fewer than eight hum frames counted before, hum frames that bring the
  -- count to eight or more engage the lock, and it holds while the hum goes on.
  pub hum_frames_lock :
      (n : ℕ) (d : Detector F32 Net)
      → d.enhanced_voice_filter ≡ true
      → d.hum_run < 8
      → 8 ≤ d.hum_run + n
      → (hum_frames n d).hum_locked ≡ true
  hum_frames_lock zero d e s h = absurd (omega arith)
  hum_frames_lock (suc n) d e s h =
      let k = judge-Hummed d e in
      let next = judge fl silero d false true false in
      elim (Bool-cases next.0.hum_locked) [
        | inl l ↦ locked_stays n next.0 k.enhanced l
        | inr u ↦
            let short : next.0.hum_run < 8 = ground arith in
            hum_frames_lock n next.0 k.enhanced short (ground arith)
      ]
