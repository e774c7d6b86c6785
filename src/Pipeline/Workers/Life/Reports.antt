-- ===== src/Pipeline/Workers/Life/Reports.antt =====
-- The reports of a job with its mark t1 are made without a panic.
use voice_elf.Prelude.{ℕ, ◌≡◌, refl, Option, none, some}
use voice_elf.Pipeline.Latency.{Mark, LatencyObserver, LatencyReport, with_marks}
use voice_elf.Pipeline.Session.Types.{UtteranceJob}
use voice_elf.Pipeline.Workers.Trace.{◌>>=◌}
use voice_elf.Pipeline.Workers.Types.{WorkerContext}
use voice_elf.Pipeline.Workers.Recognition.{WorkM, or_panic}
use voice_elf.Pipeline.Workers.Life
use voice_elf.Pipeline.Workers.Life.Rules.{Runs}

-- A job behind the gate's decision has its mark t1.
abbrev pub Marked : LatencyObserver → Type 0
Marked o = (m : Mark) × (o.t1 ≡ some m)

pub report_made :
    (o : LatencyObserver) (n : ℕ) (t1 t4 : Option Mark) (m : Mark)
    → t1 ≡ some m
    → (m' : Mark) → t4 ≡ some m'
    → (r : LatencyReport) × (with_marks o n t1 t4 ≡ some r)
report_made o n none t4 m e m' e' = absurd (none_marked e)
  where
    none_marked : none ≡ some m → ⊥
    none_marked h = cc
report_made o n (some a) none m e m' e' = absurd (none_marked e')
  where
    none_marked : none ≡ some m' → ⊥
    none_marked h = cc
report_made o n (some a) (some b) m e m' e' = (_, refl)

module _ (c : WorkerContext) (job : UtteranceJob) where
  -- With its mark a report is made, and then the rest.
  pub Runs-report :
      {A : Type 0} (p : Life.Worker) (Q : A → Life.Stage → Type 0) (s : Life.Stage)
      (report : Option LatencyReport) (f : LatencyReport → WorkM A)
      → (r : LatencyReport) × (report ≡ some r)
      → ((r : LatencyReport) → Runs c job p s (f r) Q)
      → Runs c job p s (or_panic report >>= f) Q
  Runs-report p Q s none f (r, e) run = absurd (none_made e)
    where
      none_made : none ≡ some r → ⊥
      none_made e = cc
  Runs-report p Q s (some r) f made run = run r
