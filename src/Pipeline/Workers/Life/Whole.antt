-- ===== src/Pipeline/Workers/Life/Whole.antt =====
-- The workers behind one another: a job goes through the queues of the three in turn.
use voice_elf.Prelude.{some, arith, ◌≡◌, refl, sym, subst, Bool, true, false, ◌&&◌, List, ◌++◌}
use voice_elf.Pipeline.Latency.{Mark, LatencyObserver, mark_vad_complete}
use voice_elf.Pipeline.Session.Types.{UtteranceJob}
use voice_elf.Pipeline.Workers.Types.{WorkerContext, Work, TranslationJob, SynthesisJob, Action}
use voice_elf.Pipeline.Workers.Recognition.{
  RecognitionAnswers, Left, handed, finish_live_job, given_up, ended, transcription_round,
}
use voice_elf.Pipeline.Workers.Translation.{TranslationAnswers, translation_round}
use voice_elf.Pipeline.Workers.Speech.{SpeechAnswers, synthesis_round}
use voice_elf.Pipeline.Workers.Life
use voice_elf.Pipeline.Workers.Life.Reports.{Marked}
use voice_elf.Pipeline.Workers.Life.Rules.{Follows-append, LeftAt}
use voice_elf.Pipeline.Workers.Life.Recognise.{Transcribed, transcription_round-Follows}
use voice_elf.Pipeline.Workers.Life.Translate.{Translated, translation_round-Follows}
use voice_elf.Pipeline.Workers.Life.Playing.{HaveChannels}
use voice_elf.Pipeline.Workers.Life.Speak.{Done, synthesis_round-Follows}

-- What follows a round that has handed its job on.
abbrev pub followed_by :
    {J K : Type 0} → (J → List Action × Left K) → List Action × Left J → List Action × Left K
followed_by next (bs, handed j) = let r = next j in (bs ++ r.0, r.1)
followed_by next (bs, given_up) = (bs, given_up)
followed_by next (bs, ended) = (bs, ended)

-- All that the workers do for one job.
unfoldable pub process_utterance :
    WorkerContext
    → RecognitionAnswers
    → TranslationAnswers
    → SpeechAnswers
    → Work
    → List Action × Left (Unit {0})
process_utterance c heard translated spoken w =
    followed_by (λ j. followed_by (synthesis_round c spoken) (translation_round c translated j))
      (transcription_round c heard w)

-- The last stage of a job. Only a worker that has gone leaves it between the stages.
abbrev pub LastStage : Bool → Left (Unit {0}) → Life.Stage → Type 0
LastStage queues_open (handed u) s = s ≡ Life.completed
LastStage queues_open given_up s = s ≡ Life.failed
LastStage queues_open ended s = queues_open ≡ false

module _ (c : WorkerContext) (heard : RecognitionAnswers) (translated : TranslationAnswers)
    (spoken : SpeechAnswers) where
  abbrev Lasts : UtteranceJob → Life.Stage → List Action × Left (Unit {0}) → Type 0
  Lasts job s₀ r =
      (s : Life.Stage) × Life.Follows c job s₀ r.0 s
      × LastStage (heard.output_open && translated.output_open) r.1 s

  spoken-Lasts :
      (job : UtteranceJob) (k : SynthesisJob) (s : Life.Stage)
      → HaveChannels spoken.chunks
      → (s ≡ Life.translated k.translated_text) × (k.work.job ≡ job) × Marked k.work.latency
      → Lasts job s (synthesis_round c spoken k)
  spoken-Lasts job k s h (at_stage, same, marked) =
      subst (λ x. Lasts job x (synthesis_round c spoken k)) (sym at_stage)
        (subst (λ x. Lasts x (Life.translated k.translated_text) (synthesis_round c spoken k)) same
          (last (synthesis_round c spoken k) (synthesis_round-Follows c spoken k marked h)))
    where
      last :
          (r : List Action × Left (Unit {0}))
          → (s : Life.Stage) × Life.Follows c k.work.job (Life.translated k.translated_text) r.0 s
            × LeftAt c k.work.job Done true s r.1
          → Lasts k.work.job (Life.translated k.translated_text) r
      last (bs, handed u) (s, follows, left) = (s, follows, left)
      last (bs, given_up) (s, follows, left) = (s, follows, left)
      last (bs, ended) (s, follows, left) = absurd (open_there left.0)
        where
          open_there : true ≡ false → ⊥
          open_there e = cc

  translated-Lasts :
      (job : UtteranceJob) (j : TranslationJob) (s : Life.Stage)
      → HaveChannels spoken.chunks
      → (s ≡ Life.transcribed j.transcription.text j.transcription.language)
        × (j.work.job ≡ job)
        × Marked j.work.latency
      → Lasts job s (followed_by (synthesis_round c spoken) (translation_round c translated j))
  translated-Lasts job j s h (at_stage, same, marked) =
      let r = followed_by (synthesis_round c spoken) (translation_round c translated j) in
      subst (λ x. Lasts job x r) (sym at_stage)
        (subst (λ x. Lasts x (Life.transcribed j.transcription.text j.transcription.language) r)
          same
          (last (translation_round c translated j)
            (translation_round-Follows c translated j marked)))
    where
      last :
          (r : List Action × Left SynthesisJob)
          → (s : Life.Stage) × Life.Follows c j.work.job
              (Life.transcribed j.transcription.text j.transcription.language)
              r.0
              s
            × LeftAt c j.work.job (Translated c translated j) translated.output_open s r.1
          → Lasts j.work.job
              (Life.transcribed j.transcription.text j.transcription.language)
              (followed_by (synthesis_round c spoken) r)
      last (bs, handed k) (s, follows, left) =
          let (s', more, lasts) = spoken-Lasts j.work.job k s h left in
          (s', Follows-append c j.work.job _ _ _ bs _ follows more, lasts)
      last (bs, given_up) (s, follows, left) = (s, follows, left)
      last (bs, ended) (s, follows, left) = (s, follows, ground (arith, left.0))

  -- If every chunk of the synthesiser has channels, then whatever the recogniser, the translator,
  -- the synthesiser, the database and the media store answer, what the workers do for an utterance
  -- that is put into their queue follows the stages of its life: without a panic, it is completed,
  -- or its failure is told exactly once and last, or the next worker has gone. So every final text
  -- has gone through the room's policy; where there is a database, the transcript event and the
  -- final delta of the translation are sent only once their text is stored, while the final delta of
  -- the transcript is sent before; and the audio that is saved and counted is the audio that was
  -- played.
  pub process_utterance-Follows :
      (job : UtteranceJob) (latency : LatencyObserver) (has_live : Bool) (now : Mark)
      → HaveChannels spoken.chunks
      → Lasts job Life.queued
          (process_utterance c heard translated spoken (finish_live_job job latency has_live now))
  unfolding process_utterance finish_live_job mark_vad_complete
  process_utterance-Follows job latency has_live now h =
      last (transcription_round c heard w) (transcription_round-Follows c heard w (now, refl))
    where
      w : Work
      w = record { job = job; latency = record latency { t1 = some now }; has_live = has_live }

      last :
          (r : List Action × Left TranslationJob)
          → (s : Life.Stage) × Life.Follows c job Life.queued r.0 s
            × LeftAt c job (Transcribed c heard w) heard.output_open s r.1
          → Lasts job Life.queued (
              followed_by
                (λ j. followed_by (synthesis_round c spoken) (translation_round c translated j))
                r)
      last (bs, handed j) (s, follows, left) =
          let (s', more, lasts) = translated-Lasts job j s h left in
          (s', Follows-append c job _ _ _ bs _ follows more, lasts)
      last (bs, given_up) (s, follows, left) = (s, follows, left)
      last (bs, ended) (s, follows, left) = (s, follows, ground (arith, left.0))
