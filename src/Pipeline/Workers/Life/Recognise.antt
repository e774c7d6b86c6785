-- ===== src/Pipeline/Workers/Life/Recognise.antt =====
-- One round of the worker that recognises speech.
use voice_elf.Pipeline.Workers.Life.{normalize_transcript}
use voice_elf.Prelude.{
  ap, ◌∷◌, if◌then◌else◌, sym, subst, ◌≡◌, refl, Bool, true, false, [], length, Option, none, some,
}
use voice_elf.Prelude.Text.{Text}
use voice_elf.Pipeline.Latency.{
  LatencyReport, queued_report, mark_stt_complete, transcription_report, report_with_t4,
}
use voice_elf.Pipeline.Session.Types.{UtteranceJob}
use voice_elf.Pipeline.Workers.Trace.{ok, err, ◌>>=◌, ◌>>◌, pure, emit}
use voice_elf.Pipeline.Workers.Types.{
  WorkerContext, Work, Transcription, TranslationJob, MediaFile, no_speech, other, panicked, Action,
  WorkerEvent,
}
use voice_elf.Pipeline.Workers.Recognition.{
  WorkM, RecognitionAnswers, Recognised, heard, silence, broken, prepare_utterance, announce_source,
  show_deltas, partial_transcript, recognised, transcribe_completed_audio, finished,
  first_transcription, keep_transcript, transcribe, refinement_of, after_transcribe,
  transcription_round,
}
use voice_elf.Pipeline.Workers.Life
use voice_elf.Pipeline.Workers.Life.Reports.{Marked, report_made, Runs-report}
use voice_elf.Pipeline.Workers.Life.Rules.{
  LeftAt-hand_on, LeftAt, Follows-append, Runs, runs, Runs-bind, Runs-emit, Runs-pure, Runs-store,
  Runs-show, tell_failure-Follows,
}

module _ (c : WorkerContext) (a : RecognitionAnswers) (w : Work) where
  abbrev job : UtteranceJob
  job = w.job

  abbrev R : {A : Type 0} → Life.Stage → WorkM A → (A → Life.Stage → Type 0) → Type 0
  R = Runs c job Life.recogniser

  announced :
      (m : Option MediaFile)
      → R Life.recognising (announce_source w.job.id m) (λ _ s. s ≡ Life.recognising)
  announced none = Runs-pure c job Life.recogniser _ _ _ refl
  announced (some m) =
      runs c job Life.recognising (Life.go _ _ _ _ _ (Life.tell_source m.url) (Life.stay _)) refl

  queued_made :
      Marked w.latency
      → (r : LatencyReport) × (queued_report w.latency (length w.job.samples) ≡ some r)
  unfolding queued_report report_with_t4
  queued_made (m, e) =
      report_made w.latency (length w.job.samples) w.latency.t1 w.latency.t1 m e m e

  prepare_utterance-Runs :
      Marked w.latency → R Life.recognising (prepare_utterance c a w) (λ _ s. s ≡ Life.recognising)
  unfolding prepare_utterance
  prepare_utterance-Runs marked = Runs-emit c job Life.recogniser _ _ _ _ _ Life.keep_source (
      Runs-report c job Life.recogniser _ _ _ _ (queued_made marked) (λ r.
        Runs-store c job Life.recogniser _ _ _ _ _ _ (Life.keep_attempt _ _ r)
          (Life.lose_attempt _ _ r) (announced a.source_media) (λ _. announced a.source_media)))

  transcribe_completed_audio-Runs :
      R Life.recognising (transcribe_completed_audio a w) (λ _ s. s ≡ Life.recognising)
  unfolding transcribe_completed_audio
  transcribe_completed_audio-Runs = Runs-emit c job Life.recogniser _ _ _ _ _ Life.hear (
      Runs-show c job Life.recogniser _ _ _ _ _ _
        (λ d t. Life.show_part d t w.job.config.source_language)
        (λ text. with_result a.result text))
    where
      with_result :
          (r : Recognised) (text : Text)
          → R Life.recognising
              (do
                transcription ← recognised r
                all_text ←
                    show_deltas
                      (partial_transcript w.job.id transcription.language)
                      text
                      a.late_deltas
                pure transcription)
              (λ _ s. s ≡ Life.recognising)
      with_result silence text = runs c job Life.recognising (Life.stay _) Life.recognition
      with_result broken text = runs c job Life.recognising (Life.stay _) Life.recognition
      with_result (heard t) text =
          Runs-show c job Life.recogniser _ _ _ _ _ _ (λ d t'. Life.show_part d t' t.language)
            (λ all_text. Runs-pure c job Life.recogniser _ _ _ refl)

  finished-Runs :
      (live : Option Transcription)
      → R Life.recognising (finished a w live) (λ _ s. s ≡ Life.recognising)
  finished-Runs none = transcribe_completed_audio-Runs
  finished-Runs (some t) = Runs-pure c job Life.recogniser _ _ _ refl

  first_transcription-Runs :
      R Life.recognising (first_transcription a w) (λ _ s. s ≡ Life.recognising)
  unfolding first_transcription
  first_transcription-Runs = by_live w.has_live
    where
      by_live :
          (b : Bool)
          → R Life.recognising
              (if b
                then (emit (Action.finish_live w.job.id) >> finished a w a.live)
                else transcribe_completed_audio a w)
              (λ _ s. s ≡ Life.recognising)
      by_live true = Runs-emit c job Life.recogniser _ _ _ _ _ Life.finish (finished-Runs a.live)
      by_live false = transcribe_completed_audio-Runs

  -- A job with a transcript that has been told.
  abbrev pub Transcribed : TranslationJob → Life.Stage → Type 0
  Transcribed j s =
      (s ≡ Life.transcribed j.transcription.text j.transcription.language)
      × (j.work.job ≡ w.job)
      × Marked j.work.latency

  stt_made :
      Marked w.latency
      → (r : LatencyReport) × (transcription_report
            (mark_stt_complete w.latency a.heard_at)
            (length w.job.samples)
          ≡ some r)
  unfolding transcription_report report_with_t4 mark_stt_complete
  stt_made (m, e) =
      report_made (mark_stt_complete w.latency a.heard_at) (length w.job.samples) w.latency.t1
        (some a.heard_at) m e a.heard_at refl

  stays-Marked : Marked w.latency → Marked (mark_stt_complete w.latency a.heard_at)
  unfolding mark_stt_complete
  stays-Marked m = m

  keep_transcript-Runs :
      (raw : Text) (t : Transcription)
      → t.text ≡ Life.final_transcript c job raw
      → Marked w.latency
      → R Life.recognising (keep_transcript c a w t) Transcribed
  unfolding keep_transcript
  keep_transcript-Runs raw t e marked =
      Runs-emit c job Life.recogniser _ _ _ _ _
        (subst
          (λ x.
            Life.Moves c job Life.recognising
              (Action.send (WorkerEvent.transcript_delta job.id [] x t.language true))
              (Life.recognised_text x t.language))
          (sym e) (Life.show_whole raw t.language))
        (Runs-report c job Life.recogniser _ _ _ _ (stt_made marked) (λ r.
          Runs-store c job Life.recogniser _ _ _ _ _ _ (Life.keep_transcript _ _ r)
            (Life.lose_transcript _ _ r)
            (Runs-emit c job Life.recogniser _ _ _ _ _ (Life.tell_transcript _ _)
              (Runs-pure c job Life.recogniser _ _ _ (refl, refl, stays-Marked marked)))
            (λ none_there.
              Runs-emit c job Life.recogniser _ _ _ _ _ (Life.tell_transcript_unkept _ _ none_there)
                (Runs-pure c job Life.recogniser _ _ _ (refl, refl, stays-Marked marked)))))

  transcribe-Runs : Marked w.latency → R Life.queued (transcribe c a w) Transcribed
  unfolding transcribe
  transcribe-Runs marked = Runs-emit c job Life.recogniser _ _ _ _ _ Life.begin (
      Runs-bind c job Life.recogniser (λ _ s. s ≡ Life.recognising) _ _ (prepare_utterance c a w) _
        (prepare_utterance-Runs marked)
        (λ u s e.
          subst (λ s. R s (first_transcription a w >>= rest) Transcribed) (sym e)
            (Runs-bind c job Life.recogniser (λ _ s. s ≡ Life.recognising) _ _
              (first_transcription a w) rest first_transcription-Runs
              (λ t s e.
                subst (λ s. R s (rest t) Transcribed) (sym e)
                  (keep_transcript-Runs t.text _ refl marked)))))
    where
      rest : Transcription → WorkM TranslationJob
      rest t =
          keep_transcript c a w
            (record t { text = normalize_transcript c.unicode_alphanumeric c.policy t.text })

  refined :
      (j : TranslationJob) (s : Life.Stage)
      → Transcribed j s
      → Life.Follows c job s (refinement_of c j) s
  refined j s (e, same, m) = by_engines c.refines
    where
      by_engines :
          (b : Bool)
          → Life.Follows c job s
              (if b
                then Action.refine (record {
                  utterance_id = j.work.job.id;
                  audio = j.work.job.samples;
                  source_language = j.transcription.language;
                })
                  ∷ []
                else [])
              s
      by_engines false = Life.stay s
      by_engines true =
          subst
            (λ s.
              Life.Follows c job s
                (Action.refine (record {
                  utterance_id = j.work.job.id;
                  audio = j.work.job.samples;
                  source_language = j.transcription.language;
                })
                  ∷ [])
                s)
            (sym e)
            (Life.go _ _ _ _ _
              (Life.ask_refinement _ _ _ (ap (λ (k : UtteranceJob). k.id) same)
                (ap (λ (k : UtteranceJob). k.samples) same))
              (Life.stay _))

  -- From the hand-over, a round of the worker leads to a transcript that has been told, or its
  -- failure is.
  pub transcription_round-Follows :
      Marked w.latency
      → let r = transcription_round c a w in
        (s : Life.Stage) × Life.Follows c job Life.queued r.0 s
        × LeftAt c job Transcribed a.output_open s r.1
  unfolding transcription_round
  transcription_round-Follows marked = after (transcribe c a w) (transcribe-Runs marked)
    where
      after :
          (m : WorkM TranslationJob)
          → R Life.queued m Transcribed
          → (s : Life.Stage) × Life.Follows c job Life.queued (after_transcribe c a w.job.id m).0 s
            × LeftAt c job Transcribed a.output_open s (after_transcribe c a w.job.id m).1
      after (bs, ok j) r = (
        r.stage,
        Follows-append c job _ _ _ bs (refinement_of c j) r.follows (refined j r.stage r.ends),
        LeftAt-hand_on c job Transcribed a.output_open r.stage j r.ends,
      )
      after (bs, err panicked) r = absurd r.ends
      after (bs, err no_speech) r = (
        Life.failed,
        Follows-append c job _ _ _ bs _ r.follows (
            tell_failure-Follows c job Life.recogniser r.stage a.failure_stored _ r.ends
              (Life.recogniser_tells true)),
        refl,
      )
      after (bs, err other) r = (
        Life.failed,
        Follows-append c job _ _ _ bs _ r.follows (
            tell_failure-Follows c job Life.recogniser r.stage a.failure_stored _ r.ends
              (Life.recogniser_tells false)),
        refl,
      )
