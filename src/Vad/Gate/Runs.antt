-- ===== src/Vad/Gate/Runs.antt =====
-- `SpeechGate` over sequences of frames: how segments alternate, when they end and when they go on.
use voice_elf.Prelude.{
  ℕ, zero, suc, ◌+◌, ◌≤◌, ◌<◌, ◌≡◌, refl, Bool, true, false, not, ◌||◌, arith, List, [], ◌∷◌,
  length, replicate, Bool-cases, or_false, ◌∙◌, inl, inr, if◌then◌else◌,
}
use voice_elf.Vad.Gate.{
  SpeechGate, process, run, flags_of, has, flag_speech_started, flag_speech_ended,
}
use voice_elf.Vad.Gate.Bounds.{IsValid, process-IsValid, run-IsValid}

-- Whether some frame carries the flag.
abbrev pub some_has : ℕ → List ℕ → Bool
some_has mask [] = false
some_has mask (f ∷ fs) = has f mask || some_has mask fs

-- Flags alternate: a start only while no segment is open, an end only while one is.
abbrev pub Alternates : Bool → List ℕ → Type 0
Alternates open_now [] = Unit {0}
Alternates false (f ∷ fs) =
    (has f flag_speech_ended ≡ false) × Alternates (has f flag_speech_started) fs
Alternates true (f ∷ fs) =
    (has f flag_speech_started ≡ false) × Alternates (not (has f flag_speech_ended)) fs

step-Alternates :
    (g : SpeechGate) (v : Bool) (fs : List ℕ)
    → Alternates (process g v).0.speaking fs
    → Alternates g.speaking ((process g v).1 ∷ fs)
unfolding process
step-Alternates g v fs h = ground arith

-- From any gate and for any frames, starts and ends alternate, beginning with an end exactly if the
-- gate was open.
pub flags_of-Alternates : (g : SpeechGate) (vs : List Bool) → Alternates g.speaking (flags_of g vs)
unfolding flags_of
flags_of-Alternates g [] = tt
flags_of-Alternates g (v ∷ vs) =
    step-Alternates g v (flags_of (process g v).0 vs) (flags_of-Alternates (process g v).0 vs)

-- The unvoiced frames at the end of a sequence that follows `n` unvoiced ones.
abbrev pub trailing : ℕ → List Bool → ℕ
trailing n [] = n
trailing n (v ∷ vs) = trailing (if v then 0 else n + 1) vs

-- What one frame does to an open gate that it does not close.
pub record Continues (g after : SpeechGate) (v : Bool) : Type 0 where
  pub speaking : after.speaking ≡ true
  pub active : after.active_frames ≡ g.active_frames + 1
  pub silence : after.silence_run ≡ (if v then 0 else g.silence_run + 1)
  pub limit : after.max_active_frames ≡ g.max_active_frames

process-Continues :
    (g : SpeechGate) (v : Bool)
    → IsValid g
    → g.speaking ≡ true
    → has (process g v).1 flag_speech_ended ≡ false
    → Continues g (process g v).0 v
unfolding process
process-Continues g v i s h = ground arith

process_limit :
    (g : SpeechGate) (v : Bool) → (process g v).0.max_active_frames ≡ g.max_active_frames
unfolding process
process_limit g v = ground arith

run_limit : (g : SpeechGate) (vs : List Bool) → (run g vs).max_active_frames ≡ g.max_active_frames
unfolding run
run_limit g [] = refl
run_limit g (v ∷ vs) = run_limit (process g v).0 vs ∙ process_limit g v

-- While the segment of a valid open gate does not end, the gate stays open and counts exactly: the
-- frames, and the unvoiced frames since the last voiced one.
pub run_counts :
    (g : SpeechGate) (vs : List Bool)
    → IsValid g
    → g.speaking ≡ true
    → some_has flag_speech_ended (flags_of g vs) ≡ false
    → ((run g vs).speaking ≡ true)
      × ((run g vs).active_frames ≡ g.active_frames + length vs)
      × ((run g vs).silence_run ≡ trailing g.silence_run vs)
unfolding run flags_of
run_counts g [] i s h = (s, omega arith, refl)
run_counts g (v ∷ vs) i s h =
    let (go_on, rest) = or_false (has (process g v).1 flag_speech_ended) _ h in
    let c = process-Continues g v i s go_on in
    let (s', a, q) = run_counts (process g v).0 vs (process-IsValid g v i) c.speaking rest in
    (s', omega (arith, a, c.active), rw (← c.silence) q)

-- After `n` unvoiced frames, no 88 of them come in a row.
abbrev pub QuietWithin : ℕ → List Bool → Type 0
QuietWithin n [] = Unit {0}
QuietWithin n (v ∷ vs) = let n' : ℕ = if v then 0 else n + 1 in (n' < 88) × QuietWithin n' vs

process_goes_on :
    (g : SpeechGate) (v : Bool)
    → IsValid g
    → g.speaking ≡ true
    → g.active_frames + 1 < g.max_active_frames
    → (if v then 0 else g.silence_run + 1) < 88
    → has (process g v).1 flag_speech_ended ≡ false
unfolding process
process_goes_on g v i s a q = ground arith

-- A valid open gate reports no end while its frames stay below the length limit and no 88 unvoiced
-- frames, those before included, come in a row.
pub run_not_cut :
    (g : SpeechGate) (vs : List Bool)
    → IsValid g
    → g.speaking ≡ true
    → g.active_frames + length vs < g.max_active_frames
    → QuietWithin g.silence_run vs
    → some_has flag_speech_ended (flags_of g vs) ≡ false
unfolding flags_of
run_not_cut g [] i s a q = refl
run_not_cut g (v ∷ vs) i s a q =
    let now = process_goes_on g v i s (omega arith) q.0 in
    let c = process-Continues g v i s now in
    let a' : (process g v).0.active_frames + length vs < (process g v).0.max_active_frames =
      omega (arith, c.active, c.limit) in
    let q' : QuietWithin (process g v).0.silence_run vs = rw c.silence q.1 in
    rw (now, run_not_cut (process g v).0 vs (process-IsValid g v i) c.speaking a' q') refl

-- Whatever the frames are, a valid open gate reports an end by the time its limit of frames is used
-- up.
pub run_ends :
    (g : SpeechGate) (vs : List Bool)
    → IsValid g
    → g.speaking ≡ true
    → g.max_active_frames ≤ g.active_frames + length vs
    → some_has flag_speech_ended (flags_of g vs) ≡ true
run_ends g vs i s a = elim (Bool-cases (some_has flag_speech_ended (flags_of g vs))) [
  | inl e ↦ e
  | inr e ↦
      let (s', count, _) = run_counts g vs i s e in
      let r = run-IsValid g vs i in absurd (omega (arith, r.open_active s', count, run_limit g vs))
]

trailing-replicate : (n k : ℕ) → trailing n (replicate k false) ≡ n + k
trailing-replicate n zero = omega arith
trailing-replicate n (suc k) = omega (arith, trailing-replicate (n + 1) k)

-- Eighty-eight unvoiced frames in a row, those before included, end the segment of a valid open
-- gate.
pub run_silence_ends :
    (g : SpeechGate) (k : ℕ)
    → IsValid g
    → g.speaking ≡ true
    → 88 ≤ g.silence_run + k
    → some_has flag_speech_ended (flags_of g (replicate k false)) ≡ true
run_silence_ends g k i s a =
    elim (Bool-cases (some_has flag_speech_ended (flags_of g (replicate k false)))) [
      | inl e ↦ e
      | inr e ↦
          let (_, _, quiet) = run_counts g (replicate k false) i s e in
          let r = run-IsValid g (replicate k false) i in
          absurd (omega (arith, r.silence_short, quiet, trailing-replicate g.silence_run k))
    ]
