-- ===== src/Pipeline/Workers/Life/Rules.antt =====
-- Rules for the parts of a worker's function: from which stage they may run, and where they lead.
use voice_elf.Prelude.{if◌then◌else◌, sym, subst, ◌≡◌, refl, Bool, true, false, List, [], ◌∷◌, ◌++◌}
use voice_elf.Prelude.Text.{Text}
use voice_elf.Pipeline.Session.Types.{UtteranceJob}
use voice_elf.Pipeline.Workers.Trace.{Result, ok, err, ◌>>=◌, ◌>>◌, pure, fail, emit, guard}
use voice_elf.Pipeline.Workers.Types.{
  WorkerContext, WorkerEvent, Action, StoreCall, Cause, no_speech, other, panicked,
}
use voice_elf.Pipeline.Workers.Recognition.{
  WorkM, call_store, tell_failure, show_deltas, Left, handed, given_up, ended, hand_on,
}
use voice_elf.Pipeline.Workers.Life

module _ (c : WorkerContext) (job : UtteranceJob) where
  pub Follows-append :
      (s m s' : Life.Stage) (bs cs : List Action)
      → Life.Follows c job s bs m
      → Life.Follows c job m cs s'
      → Life.Follows c job s (bs ++ cs) s'
  Follows-append s m s' [] cs (Life.stay _) g = g
  Follows-append s m s' (b ∷ bs) cs (Life.go _ k _ _ _ mv f) g =
      Life.go s k s' b (bs ++ cs) mv (Follows-append k m s' bs cs f g)

  -- How a function of the worker `p` ends: with a value and a stage that `P` allows, or with an error
  -- where the worker may fail; it does not panic.
  abbrev pub Ends :
      {A : Type 0} → Life.Worker → (A → Life.Stage → Type 0) → Result Cause A → Life.Stage → Type 0
  Ends p P (ok a) s = P a s
  Ends p P (err no_speech) s = Life.MayFail p s
  Ends p P (err other) s = Life.MayFail p s
  Ends p P (err panicked) s = ⊥

  pub record Runs {A : Type 0} (p : Life.Worker) (s : Life.Stage) (m : WorkM A)
      (P : A → Life.Stage → Type 0) : Type 0 where
    pub stage : Life.Stage
    pub follows : Life.Follows c job s m.0 stage
    pub ends : Ends p P m.1 stage

  abbrev pub runs :
      {A : Type 0} {p : Life.Worker} {s : Life.Stage} {m : WorkM A} {P : A → Life.Stage → Type 0}
      (s' : Life.Stage)
      → Life.Follows c job s m.0 s'
      → Ends p P m.1 s'
      → Runs p s m P
  runs s' f e = record { stage = s'; follows = f; ends = e }

  module _ (p : Life.Worker) where
    pub Runs-bind :
        {A A' : Type 0} (P : A → Life.Stage → Type 0) (Q : A' → Life.Stage → Type 0)
        (s : Life.Stage) (m : WorkM A) (f : A → WorkM A')
        → Runs p s m P
        → ((a : A) (s' : Life.Stage) → P a s' → Runs p s' (f a) Q)
        → Runs p s (m >>= f) Q
    Runs-bind P Q s (bs, ok a) f r k =
        let rest = k a r.stage r.ends in
        runs rest.stage (Follows-append s r.stage rest.stage bs (f a).0 r.follows rest.follows)
          rest.ends
    Runs-bind P Q s (bs, err no_speech) f r k = runs r.stage r.follows r.ends
    Runs-bind P Q s (bs, err other) f r k = runs r.stage r.follows r.ends
    Runs-bind P Q s (bs, err panicked) f r k = absurd r.ends

    shown-Runs :
        (show : Text → Text → WorkerEvent) (s : Life.Stage)
        → ((delta text : Text) → Life.Moves c job s (Action.send (show delta text)) s)
        → (live : Text) (deltas : List Text)
        → Runs p s (show_deltas show live deltas) (λ text s'. s' ≡ s)
    unfolding show_deltas
    shown-Runs show s mv live [] = runs s (Life.stay s) refl
    shown-Runs show s mv live (d ∷ ds) =
        let rest = shown-Runs show s mv (live ++ d) ds in
        runs rest.stage (Life.go s s rest.stage _ _ (mv d (live ++ d)) rest.follows) rest.ends

    module _ {A : Type 0} (Q : A → Life.Stage → Type 0) where
      -- An action, and then the rest.
      pub Runs-emit :
          (s m : Life.Stage) (b : Action) (k : WorkM A)
          → Life.Moves c job s b m
          → Runs p m k Q
          → Runs p s (emit b >> k) Q
      Runs-emit s m b k mv r = runs r.stage (Life.go s m r.stage b k.0 mv r.follows) r.ends

      pub Runs-pure : (s : Life.Stage) (a : A) → Q a s → Runs p s (pure a) Q
      Runs-pure s a q = runs s (Life.stay s) q

      pub Runs-fail : (s : Life.Stage) → Life.MayFail p s → Runs p s (fail {A = A} other) Q
      Runs-fail s may = runs s (Life.stay s) may

      -- A test that may fail, and then the rest.
      pub Runs-guard :
          (s : Life.Stage) (b : Bool) (k : WorkM A)
          → Life.MayFail p s
          → (b ≡ true → Runs p s k Q)
          → Runs p s (guard b other >> k) Q
      Runs-guard s true k may run = run refl
      Runs-guard s false k may run = Runs-fail s may

      -- A call of the database, and then the rest.
      pub Runs-store :
          (s m : Life.Stage) (call : StoreCall) (answer : Bool) (k : WorkM A)
          → Life.Moves c job s (Action.store call true) m
          → Life.Moves c job s (Action.store call false) (Life.broken p)
          → Runs p m k Q
          → (c.has_database ≡ false → Runs p s k Q)
          → Runs p s (call_store c call answer >> k) Q
      Runs-store s m call answer k kept lost run run' = by_database c.has_database refl
        where
          called :
              (answer : Bool)
              → Runs p s ((emit (Action.store call answer) >> guard answer other) >> k) Q
          called true = Runs-emit s m (Action.store call true) k kept run
          called false =
              runs (Life.broken p)
                (Life.go s (Life.broken p) (Life.broken p) (Action.store call false) [] lost
                  (Life.stay _))
                (Life.broken_off p)

          by_database :
              (b : Bool)
              → c.has_database ≡ b
              → Runs p s
                  ((if b then (emit (Action.store call answer) >> guard answer other) else pure tt)
                    >> k)
                  Q
          by_database true e = called answer
          by_database false e = run' e

      -- Texts that are shown at one stage, and then the rest.
      pub Runs-show :
          (show : Text → Text → WorkerEvent) (s : Life.Stage) (live : Text) (deltas : List Text)
          (f : Text → WorkM A)
          → ((delta text : Text) → Life.Moves c job s (Action.send (show delta text)) s)
          → ((text : Text) → Runs p s (f text) Q)
          → Runs p s (show_deltas show live deltas >>= f) Q
      Runs-show show s live deltas f mv run =
          Runs-bind (λ text s'. s' ≡ s) Q s (show_deltas show live deltas) f
            (shown-Runs show s mv live deltas)
            (λ text s' e. subst (λ m. Runs p m (f text) Q) (sym e) (run text))

  -- Where a worker may fail, it tells so, and that is the end.
  pub tell_failure-Follows :
      (p : Life.Worker) (s : Life.Stage) (answer : Bool) (event : WorkerEvent)
      → Life.MayFail p s
      → Life.Tells c job p event
      → Life.Follows c job s (tell_failure c job.id (Life.failure_code p) answer event) Life.failed
  tell_failure-Follows p s answer event may tells = by_database c.has_database refl
    where
      by_database :
          (b : Bool)
          → c.has_database ≡ b
          → Life.Follows c job s
              (if b
                then Action.store (StoreCall.mark_failed job.id (Life.failure_code p)) answer
                  ∷ Action.send event
                  ∷ []
                else Action.send event ∷ [])
              Life.failed
      by_database true e =
          Life.go s (Life.marked p) Life.failed _ _ (Life.mark_failure p s answer may e) (
            Life.go (Life.marked p) Life.failed Life.failed _ _ (Life.tell_failure p event tells)
              (Life.stay _))
      by_database false e =
          Life.go s Life.failed Life.failed _ _ (Life.tell_unmarked p s event may tells e)
            (Life.stay _)

  -- How a worker leaves a job: handed on, with its failure told, or with the next worker gone.
  abbrev pub LeftAt : {J : Type 0} → (J → Life.Stage → Type 0) → Bool → Life.Stage → Left J → Type 0
  LeftAt {J} P open_output s (handed j) = P j s
  LeftAt {J} P open_output s given_up = s ≡ Life.failed
  LeftAt {J} P open_output s ended = (open_output ≡ false) × ((j : J) × P j s)

  pub LeftAt-hand_on :
      {J : Type 0} (P : J → Life.Stage → Type 0) (open_output : Bool) (s : Life.Stage) (j : J)
      → P j s
      → LeftAt P open_output s (hand_on open_output j)
  LeftAt-hand_on P true s j q = q
  LeftAt-hand_on P false s j q = (refl, (j, q))
