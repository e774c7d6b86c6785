-- ===== src/Pipeline/Workers/Recognition.antt =====
-- server/src/pipeline/transcription.rs: one job of the worker that recognises speech. A text is the list of its
-- characters.
use voice_elf.Prelude.{
  ℕ, Bool, true, false, if◌then◌else◌, List, [], ◌∷◌, ◌++◌, length, Option, none, some,
}
use voice_elf.Prelude.Text.{Text, codes}
use voice_elf.Pipeline.Latency.{
  Mark, LatencyObserver, mark_vad_complete, mark_stt_complete, queued_report, transcription_report,
}
use voice_elf.Pipeline.Session.Types.{UtteranceJob, transcribing}
use voice_elf.Language.{normalize_transcript}
use voice_elf.Pipeline.Workers.Trace.{Result, M, pure, fail, emit, guard, ◌>>=◌, ◌>>◌, ok, err}
use voice_elf.Pipeline.Workers.Types.{
  Transcription, Work, TranslationJob, Cause, no_speech, other, panicked, WorkerEvent, state,
  transcript_delta, transcript, media, recognition_failed, StoreCall, create_attempt,
  save_transcript, mark_failed, Action, send, store, save_source, finish_live, recognise, refine,
  MediaFile, WorkerContext,
}

abbrev pub WorkM : Type 0 → Type 0
WorkM = M Action Cause

-- A call of the database, where there is one.
abbrev pub call_store : WorkerContext → StoreCall → Bool → WorkM (Unit {0})
call_store c call answer =
    if c.has_database then (emit (store call answer) >> guard answer other) else pure tt

-- A report without its mark panics.
abbrev pub or_panic : {A : Type 0} → Option A → WorkM A
or_panic none = fail panicked
or_panic (some a) = pure a

-- What `transcribe_streaming` returns.
pub data Recognised : Type 0 where
  heard : Transcription → Recognised
  silence broken : Recognised

-- What the surroundings answer: the stored source, whether the attempt is stored, the result of the
-- live recognition, the texts that arrive before and after the result of a recognition of the whole,
-- that result, the time of it, and whether the transcript is stored.
pub record RecognitionAnswers : Type 0 where
  pub source_media : Option MediaFile
  pub attempt_stored : Bool
  pub live : Option Transcription
  pub deltas : List Text
  pub result : Recognised
  pub late_deltas : List Text
  pub heard_at : Mark
  pub transcript_stored : Bool
  pub failure_stored : Bool
  pub output_open : Bool

abbrev pub media_path : Option MediaFile → Option Text
media_path none = none
media_path (some m) = some m.path

abbrev pub media_url : Option MediaFile → Option Text
media_url none = none
media_url (some m) = some m.url

abbrev pub announce_source : ℕ → Option MediaFile → WorkM (Unit {0})
announce_source id none = pure tt
announce_source id (some m) = emit (send (media id (some m.url) none))

unfoldable pub prepare_utterance : WorkerContext → RecognitionAnswers → Work → WorkM (Unit {0})
prepare_utterance c a w = do
  emit (save_source w.job.id w.job.samples)
  latency ← or_panic (queued_report w.latency (length w.job.samples))
  call_store c
      (create_attempt w.job.id (media_path a.source_media) (media_url a.source_media) latency
        w.job.speakers)
      a.attempt_stored
  announce_source w.job.id a.source_media

-- Each text that arrives is shown behind those before it, as `show` says.
unfoldable pub show_deltas : (Text → Text → WorkerEvent) → Text → List Text → WorkM Text
show_deltas show live_text [] = pure live_text
show_deltas show live_text (d ∷ ds) =
    emit (send (show d (live_text ++ d))) >> show_deltas show (live_text ++ d) ds

abbrev pub recognised : Recognised → WorkM Transcription
recognised (heard t) = pure t
recognised silence = fail no_speech
recognised broken = fail other

abbrev pub partial_transcript : ℕ → Text → Text → Text → WorkerEvent
partial_transcript id language delta text = transcript_delta id delta text language false

unfoldable pub transcribe_completed_audio : RecognitionAnswers → Work → WorkM Transcription
transcribe_completed_audio a w = do
  emit (recognise w.job.samples w.job.config.source_language)
  live_text ← show_deltas (partial_transcript w.job.id w.job.config.source_language) [] a.deltas
  transcription ← recognised a.result
  all_text ←
      show_deltas (partial_transcript w.job.id transcription.language) live_text a.late_deltas
  pure transcription

-- `job.live.take()`, finished; the whole is recognised where it fails or is missing.
abbrev pub finished : RecognitionAnswers → Work → Option Transcription → WorkM Transcription
finished a w none = transcribe_completed_audio a w
finished a w (some primary) = pure primary

unfoldable pub first_transcription : RecognitionAnswers → Work → WorkM Transcription
first_transcription a w =
    if w.has_live
    then (emit (finish_live w.job.id) >> finished a w a.live)
    else transcribe_completed_audio a w

-- What follows the recognition, with the text as the policy has it.
unfoldable pub keep_transcript :
    WorkerContext → RecognitionAnswers → Work → Transcription → WorkM TranslationJob
keep_transcript c a w transcription = do
  emit (send (transcript_delta w.job.id [] transcription.text transcription.language true))
  let latency_so_far = mark_stt_complete w.latency a.heard_at
  latency ← or_panic (transcription_report latency_so_far (length w.job.samples))
  call_store c (save_transcript w.job.id transcription.text transcription.language latency)
      a.transcript_stored
  emit (send (transcript w.job.id transcription.text transcription.language))
  pure (record {
    work = record w { latency = latency_so_far; has_live = false };
    transcription = transcription;
  })

unfoldable pub transcribe : WorkerContext → RecognitionAnswers → Work → WorkM TranslationJob
transcribe c a w = do
  emit (send (state transcribing w.job.id))
  prepare_utterance c a w
  transcription ← first_transcription a w
  keep_transcript c a w (record transcription {
    text = normalize_transcript c.unicode_alphanumeric c.policy transcription.text;
  })

-- How a worker leaves a job: with the next worker's job, or with its failure told; a worker ends when
-- the next one is gone or when it panics.
pub data Left (J : Type 0) : Type 0 where
  handed : J → Left J
  given_up ended : Left J

abbrev pub is_no_speech : Cause → Bool
is_no_speech no_speech = true
is_no_speech other = false
is_no_speech panicked = false

-- `mark_utterance_failed`, whose own failure is only logged, and then the event.
abbrev pub tell_failure : WorkerContext → ℕ → Text → Bool → WorkerEvent → List Action
tell_failure c id code answer event =
    if c.has_database then store (mark_failed id code) answer ∷ send event ∷ [] else send event ∷ []

abbrev pub refinement_of : WorkerContext → TranslationJob → List Action
refinement_of c j =
    if c.refines
    then refine (record {
      utterance_id = j.work.job.id;
      audio = j.work.job.samples;
      source_language = j.transcription.language;
    })
      ∷ []
    else []

abbrev pub hand_on : {J : Type 0} → Bool → J → Left J
hand_on open_output j = if open_output then handed j else ended

abbrev pub after_transcribe :
    WorkerContext
    → RecognitionAnswers
    → ℕ
    → List Action × Result Cause TranslationJob
    → List Action × Left TranslationJob
after_transcribe c a id (bs, ok j) = (bs ++ refinement_of c j, hand_on a.output_open j)
after_transcribe c a id (bs, err panicked) = (bs, ended)
after_transcribe c a id (bs, err no_speech) = (
  bs
      ++ tell_failure c id (codes "recognition_failed") a.failure_stored
          (recognition_failed id true),
  given_up,
)
after_transcribe c a id (bs, err other) = (
  bs
      ++ tell_failure c id (codes "recognition_failed") a.failure_stored
          (recognition_failed id false),
  given_up,
)

-- One round of `run_transcription_worker`.
unfoldable pub transcription_round :
    WorkerContext → RecognitionAnswers → Work → List Action × Left TranslationJob
transcription_round c a w = after_transcribe c a w.job.id (transcribe c a w)

-- `PipelineWorkers::finish_live`: the job with the time of its end, as it is put into the queue.
unfoldable pub finish_live_job : UtteranceJob → LatencyObserver → Bool → Mark → Work
finish_live_job job latency has_live now = record {
  job = job;
  latency = mark_vad_complete latency now;
  has_live = has_live;
}
