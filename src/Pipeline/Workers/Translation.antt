-- ===== src/Pipeline/Workers/Translation.antt =====
-- server/src/pipeline/translation.rs: one job of the worker that translates.
use voice_elf.Prelude.{ℕ, Bool, true, false, List, [], ◌++◌, length, Option, none, some}
use voice_elf.Prelude.Text.{Text, codes}
use voice_elf.Pipeline.Latency.{Mark, mark_translation_complete, text_report}
use voice_elf.Pipeline.Session.Types.{translating}
use voice_elf.Language.{translation_terms, sanitize, normalize_translation}
use voice_elf.Pipeline.Workers.Trace.{Result, ok, err, pure, fail, emit, ◌>>=◌, ◌>>◌}
use voice_elf.Pipeline.Workers.Types.{
  TranslationJob, SynthesisJob, translation_stage, Cause, other, panicked, WorkerEvent, state,
  translation_delta, translation, latency_report, processing_failed, save_translation, Action, send,
  translate_text, WorkerContext,
}
use voice_elf.Pipeline.Workers.Recognition.{
  WorkM, call_store, or_panic, show_deltas, Left, given_up, ended, tell_failure, hand_on,
}

-- The texts that arrive before and after the translator's result, that result if it succeeds, the
-- time of it, whether the translation is stored, and whether the next worker is there.
pub record TranslationAnswers : Type 0 where
  pub deltas : List Text
  pub translated : Option Text
  pub late_deltas : List Text
  pub translated_at : Mark
  pub translation_stored : Bool
  pub failure_stored : Bool
  pub output_open : Bool

abbrev pub policy_text : WorkerContext → Text → Text
policy_text c = normalize_translation c.unicode_alphanumeric c.policy

abbrev pub partial_translation : WorkerContext → TranslationJob → Text → Text → WorkerEvent
partial_translation c j delta text =
    translation_delta j.work.job.id (policy_text c text) j.work.job.config.target_language false

abbrev pub or_fail : {A : Type 0} → Option A → WorkM A
or_fail none = fail other
or_fail (some a) = pure a

-- What follows the translator's result, with the text as the policy has it.
unfoldable pub keep_translation :
    WorkerContext → TranslationAnswers → TranslationJob → Text → WorkM SynthesisJob
keep_translation c a j translated = do
  let latency_so_far = mark_translation_complete j.work.latency a.translated_at
  latency ← or_panic (text_report latency_so_far (length j.work.job.samples))
  call_store c (save_translation j.work.job.id translated j.work.job.config.target_language latency)
      a.translation_stored
  emit (send (translation_delta j.work.job.id translated j.work.job.config.target_language true))
  emit (
      send (
        translation j.work.job.id j.transcription.text translated j.transcription.language
          j.work.job.config.target_language))
  emit (send (latency_report j.work.job.id latency))
  pure (record { work = record j.work { latency = latency_so_far }; translated_text = translated })

unfoldable pub translate : WorkerContext → TranslationAnswers → TranslationJob → WorkM SynthesisJob
translate c a j = do
  emit (send (state translating j.work.job.id))
  emit (
      translate_text (sanitize c.unicode_alphanumeric c.policy j.transcription.text)
        j.transcription.language j.work.job.config.target_language (translation_terms c.policy))
  live_text ← show_deltas (partial_translation c j) [] a.deltas
  translated ← or_fail a.translated
  all_text ← show_deltas (partial_translation c j) live_text a.late_deltas
  keep_translation c a j (policy_text c translated)

abbrev pub after_translate :
    WorkerContext
    → TranslationAnswers
    → ℕ
    → List Action × Result Cause SynthesisJob
    → List Action × Left SynthesisJob
after_translate c a id (bs, ok j) = (bs, hand_on a.output_open j)
after_translate c a id (bs, err panicked) = (bs, ended)
after_translate c a id (bs, err _) = (
  bs
      ++ tell_failure c id (codes "translation_failed") a.failure_stored
          (processing_failed id translation_stage),
  given_up,
)

-- One round of `run_translation_worker`.
unfoldable pub translation_round :
    WorkerContext → TranslationAnswers → TranslationJob → List Action × Left SynthesisJob
translation_round c a j = after_translate c a j.work.job.id (translate c a j)
