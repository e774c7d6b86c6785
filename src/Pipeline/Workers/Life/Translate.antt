-- ===== src/Pipeline/Workers/Life/Translate.antt =====
-- One round of the worker that translates.
use voice_elf.Prelude.{◌≡◌, refl, length, Option, none, some}
use voice_elf.Prelude.Text.{Text}
use voice_elf.Pipeline.Latency.{
  LatencyReport, text_report, mark_translation_complete, report_with_t4,
}
use voice_elf.Pipeline.Session.Types.{UtteranceJob}
use voice_elf.Pipeline.Workers.Trace.{ok, err, ◌>>=◌, ◌>>◌, emit, pure}
use voice_elf.Pipeline.Workers.Types.{
  Action, WorkerEvent, WorkerContext, TranslationJob, SynthesisJob, no_speech, other, panicked,
}
use voice_elf.Pipeline.Workers.Recognition.{WorkM, show_deltas}
use voice_elf.Pipeline.Workers.Translation.{
  TranslationAnswers, partial_translation, policy_text, or_fail, keep_translation, translate,
  after_translate, translation_round,
}
use voice_elf.Pipeline.Workers.Life
use voice_elf.Pipeline.Workers.Life.Reports.{Marked, report_made, Runs-report}
use voice_elf.Pipeline.Workers.Life.Rules.{
  Follows-append, Runs, runs, Runs-emit, Runs-pure, Runs-store, Runs-show, LeftAt, LeftAt-hand_on,
  tell_failure-Follows,
}

module _ (c : WorkerContext) (a : TranslationAnswers) (j : TranslationJob) where
  abbrev job : UtteranceJob
  job = j.work.job

  abbrev before : Life.Stage
  before = Life.in_translation j.transcription.text j.transcription.language

  abbrev R : {A : Type 0} → Life.Stage → WorkM A → (A → Life.Stage → Type 0) → Type 0
  R = Runs c job Life.translator

  -- A job with a translation that has been told.
  abbrev pub Translated : SynthesisJob → Life.Stage → Type 0
  Translated k s =
      (s ≡ Life.translated k.translated_text) × (k.work.job ≡ job) × Marked k.work.latency

  text_made :
      Marked j.work.latency
      → (r : LatencyReport) × (text_report
            (mark_translation_complete j.work.latency a.translated_at)
            (length job.samples)
          ≡ some r)
  unfolding text_report report_with_t4 mark_translation_complete
  text_made (m, e) =
      report_made (mark_translation_complete j.work.latency a.translated_at) (length job.samples)
        j.work.latency.t1 (some a.translated_at) m e a.translated_at refl

  stays-Marked :
      Marked j.work.latency → Marked (mark_translation_complete j.work.latency a.translated_at)
  unfolding mark_translation_complete
  stays-Marked m = m

  keep_translation-Runs :
      (raw : Text)
      → Marked j.work.latency
      → R before (keep_translation c a j (policy_text c raw)) Translated
  unfolding keep_translation
  keep_translation-Runs raw marked =
      Runs-report c job Life.translator _ _ _ _ (text_made marked) (λ r.
        Runs-store c job Life.translator _ _ _ _ _ _ (Life.keep_translation _ _ raw r)
          (Life.lose_translation _ _ _ r)
          (Runs-emit c job Life.translator _ _ _ _ _ (Life.show_kept _ _ _) (told r))
          (λ none_there.
            Runs-emit c job Life.translator _ _ _ _ _ (Life.show_unkept _ _ raw none_there)
              (told r)))
    where
      told :
          (r : LatencyReport)
          → R
              (Life.translation_shown j.transcription.text j.transcription.language
                (policy_text c raw))
              (do
                emit (
                    Action.send (
                      WorkerEvent.translation job.id j.transcription.text
                        (policy_text c raw)
                        j.transcription.language
                        job.config.target_language))
                emit (Action.send (WorkerEvent.latency_report job.id r))
                pure (record {
                  work = record j.work {
                    latency = mark_translation_complete j.work.latency a.translated_at;
                  };
                  translated_text = policy_text c raw;
                }))
              Translated
      told r = Runs-emit c job Life.translator _ _ _ _ _ (Life.tell_translation _ _ _) (
          Runs-emit c job Life.translator _ _ _ _ _ (Life.tell_text_latency _ r)
            (Runs-pure c job Life.translator _ _ _ (refl, refl, stays-Marked marked)))

  translate-Runs :
      Marked j.work.latency
      → R
          (Life.transcribed j.transcription.text j.transcription.language)
          (translate c a j)
          Translated
  unfolding translate
  translate-Runs marked = Runs-emit c job Life.translator _ _ _ _ _ (Life.begin_translation _ _) (
      Runs-emit c job Life.translator _ _ _ _ _ (Life.ask_translator _ _) (
        Runs-show c job Life.translator _ _ _ _ _ _ (λ d t. Life.show_translation _ _ t)
          (λ text. with_result a.translated text)))
    where
      with_result :
          (r : Option Text) (text : Text)
          → R before
              (do
                translated ← or_fail r
                all_text ← show_deltas (partial_translation c j) text a.late_deltas
                keep_translation c a j (policy_text c translated))
              Translated
      with_result none text = runs c job before (Life.stay _) (Life.translation _ _)
      with_result (some t) text =
          Runs-show c job Life.translator _ _ _ _ _ _ (λ d t'. Life.show_translation _ _ t')
            (λ all_text. keep_translation-Runs t marked)

  -- From a transcript that has been told, a round of the worker leads to a translation that has been
  -- told, or its failure is.
  pub translation_round-Follows :
      Marked j.work.latency
      → let r = translation_round c a j in
        (s : Life.Stage) × Life.Follows c job
          (Life.transcribed j.transcription.text j.transcription.language)
          r.0
          s
        × LeftAt c job Translated a.output_open s r.1
  unfolding translation_round
  translation_round-Follows marked = after (translate c a j) (translate-Runs marked)
    where
      after :
          (m : WorkM SynthesisJob)
          → R (Life.transcribed j.transcription.text j.transcription.language) m Translated
          → (s : Life.Stage) × Life.Follows c job
              (Life.transcribed j.transcription.text j.transcription.language)
              (after_translate c a j.work.job.id m).0
              s
            × LeftAt c job Translated a.output_open s (after_translate c a j.work.job.id m).1
      after (bs, ok k) r =
          (r.stage, r.follows, LeftAt-hand_on c job Translated a.output_open r.stage k r.ends)
      after (bs, err panicked) r = absurd r.ends
      after (bs, err no_speech) r = (
        Life.failed,
        Follows-append c job _ _ _ bs _ r.follows (
            tell_failure-Follows c job Life.translator r.stage a.failure_stored _ r.ends
              Life.translator_tells),
        refl,
      )
      after (bs, err other) r = (
        Life.failed,
        Follows-append c job _ _ _ bs _ r.follows (
            tell_failure-Follows c job Life.translator r.stage a.failure_stored _ r.ends
              Life.translator_tells),
        refl,
      )
