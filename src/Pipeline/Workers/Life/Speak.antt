-- ===== src/Pipeline/Workers/Life/Speak.antt =====
-- One round of the worker that speaks: what is played is what is saved.
use voice_elf.Prelude.{
  ℕ, ◌/◌, ◌==◌, ◌≡◌, refl, sym, subst, not, true, Bool-cases, inl, inr, List, length, Option, none,
  some, arith,
}
use voice_elf.Prelude.Int.{ℤ}
use voice_elf.Prelude.Text.{Text, codes, strip_prefix}
use voice_elf.Pipeline.Latency.{LatencyReport, final_report, mark_tts_complete, report_with_t4}
use voice_elf.Pipeline.Session.Types.{UtteranceJob}
use voice_elf.Pipeline.Workers.Trace.{ok, err, ◌>>=◌, ◌>>◌, guard, emit}
use voice_elf.Pipeline.Workers.Types.{
  Action, WorkerEvent, WorkerContext, StoreCall, MediaFile, SynthesisJob, no_speech, other,
  panicked,
}
use voice_elf.Pipeline.Workers.Recognition.{or_panic, WorkM, call_store}
use voice_elf.Pipeline.Workers.Translation.{or_fail}
use voice_elf.Pipeline.Workers.Speech.{
  SpeechAnswers, is_joined, is_success, custom_voice, Stream, no_stream, receive_chunks, end_stream,
  keep_audio, speak_job, after_speak, synthesis_round,
}
use voice_elf.Pipeline.Workers.Life
use voice_elf.Pipeline.Workers.Life.Reports.{Marked, report_made, Runs-report}
use voice_elf.Pipeline.Workers.Life.Rules.{
  Follows-append, Runs, runs, Runs-bind, Runs-emit, Runs-fail, Runs-guard, Runs-store, LeftAt,
  tell_failure-Follows,
}
use voice_elf.Pipeline.Workers.Life.Playing.{
  HaveChannels, stream_of, Tracks, not_begun, begun, reference_of-Runs, receive_chunks-Runs,
}

abbrev pub Done : Unit {0} → Life.Stage → Type 0
Done _ s = s ≡ Life.completed

module _ (c : WorkerContext) (a : SpeechAnswers) (j : SynthesisJob) where
  abbrev job : UtteranceJob
  job = j.work.job

  abbrev R : {A : Type 0} → Life.Stage → WorkM A → (A → Life.Stage → Type 0) → Type 0
  R = Runs c job Life.speaker

  final_made :
      Marked j.work.latency
      → (r : LatencyReport) × (final_report
            (mark_tts_complete j.work.latency a.spoken_at)
            (length job.samples)
          ≡ some r)
  unfolding final_report report_with_t4 mark_tts_complete
  final_made (m, e) =
      report_made (mark_tts_complete j.work.latency a.spoken_at) (length job.samples)
        j.work.latency.t1 (some a.spoken_at) m e a.spoken_at refl

  -- Without a stream there is nothing to save.
  silent-Runs : (d : Text) → R (Life.speaking_text d) (keep_audio c a j.work no_stream) Done
  unfolding keep_audio
  silent-Runs d =
      Runs-guard c job Life.speaker _ _ (is_success a.task_end) _ (Life.silence d)
        (λ ok_result. Runs-fail c job Life.speaker _ _ (Life.silence d))

  played-Runs :
      (rate channels : ℕ) (engine : Text) (xs : List ℤ)
      → Marked j.work.latency
      → R
          (Life.played rate channels xs)
          (keep_audio c a j.work (stream_of rate channels engine xs))
          Done
  unfolding keep_audio
  played-Runs rate channels engine xs marked =
      Runs-guard c job Life.speaker _ _ (is_success a.task_end) _ (Life.after_playback _ _ _)
        (λ ok_result.
          Runs-guard c job Life.speaker _ _ (not (length xs == 0)) _ (Life.after_playback _ _ _)
            (λ some_samples.
              Runs-emit c job Life.speaker _ _ _ _ _ (Life.keep_audio _ _ _) (saved a.saved)))
    where
      told :
          (m : MediaFile) (r : LatencyReport)
          → R
              (Life.audio_saved rate channels xs)
              (emit (Action.send (WorkerEvent.media job.id none (some m.url)))
                >> emit (Action.send (WorkerEvent.latency_report job.id r)))
              (λ _ s. s ≡ Life.completed)
      told m r =
          Runs-emit c job Life.speaker _ _ _ _ _ (Life.tell_audio _ _ _ _)
            (runs c job Life.completed (Life.go _ _ _ _ _ (Life.complete r) (Life.stay _)) refl)

      saved :
          (m : Option MediaFile)
          → R
              (Life.audio_saved rate channels xs)
              (do
                m' ← or_fail m
                latency ← or_panic (
                    final_report
                      (mark_tts_complete j.work.latency a.spoken_at)
                      (length job.samples))
                call_store c (StoreCall.complete_audio job.id m'.path m'.url latency) a.audio_stored
                emit (Action.send (WorkerEvent.media job.id none (some m'.url)))
                emit (Action.send (WorkerEvent.latency_report job.id latency)))
              (λ _ s. s ≡ Life.completed)
      saved none = Runs-fail c job Life.speaker _ _ (Life.after_saving _ _ _)
      saved (some m) = Runs-report c job Life.speaker _ _ _ _ (final_made marked) (λ r.
          Runs-store c job Life.speaker _ _ _ _ _ _ (Life.keep_place _ _ _ _ _ r)
            (Life.lose_place _ _ _ _ _ r) (told m r) (λ none_there. told m r))

  ended-Runs :
      (s : Stream) (m : Life.Stage)
      → Marked j.work.latency
      → Tracks s m
      → R m (end_stream job.id s s.started >> keep_audio c a j.work s) Done
  ended-Runs s m marked (not_begun d) = silent-Runs d
  ended-Runs s m marked (begun rate channels engine xs h) = elim (Bool-cases (channels == 0)) [
    | inl e ↦ absurd (ground (arith, h))
    | inr e ↦
        subst
          (λ b.
            R (Life.playing_stream rate channels xs)
              ((guard (not b) panicked
                  >> emit (Action.send (WorkerEvent.audio_end job.id (length xs / channels))))
                >> keep_audio c a j.work (stream_of rate channels engine xs))
              Done)
          (sym e)
          (Runs-emit c job Life.speaker _ _ _ _ _ (Life.stop_audio _ _ _)
            (played-Runs rate channels engine xs marked))
  ]

  Tracks-MayFail : (s : Stream) (m : Life.Stage) → Tracks s m → Life.MayFail Life.speaker m
  Tracks-MayFail s m (not_begun d) = Life.silence d
  Tracks-MayFail s m (begun rate channels engine xs h) = Life.playback rate channels xs

  joined-Runs :
      (s : Stream) (m : Life.Stage)
      → Marked j.work.latency
      → Tracks s m
      → R m
          (guard (is_joined a.task_end) other
            >> (end_stream job.id s s.started >> keep_audio c a j.work s))
          Done
  joined-Runs s m marked t =
      Runs-guard c job Life.speaker _ _ (is_joined a.task_end) _ (Tracks-MayFail s m t)
        (λ there. ended-Runs s m marked t)

  speak_job-Runs :
      Marked j.work.latency
      → HaveChannels a.chunks
      → R (Life.translated j.translated_text) (speak_job c a j) Done
  unfolding speak_job
  speak_job-Runs marked h = Runs-emit c job Life.speaker _ _ _ _ _ (Life.begin_speech _) (
      Runs-bind c job Life.speaker (λ _ s. s ≡ Life.preparing_speech j.translated_text) _ _ _ _
        (reference_of-Runs c a j j.translated_text
          (custom_voice c (strip_prefix (codes "custom:") job.config.voice)))
        (λ reference s e.
          subst (λ s. R s (rest reference) Done) (sym e)
            (Runs-emit c job Life.speaker _ _ _ _ _ (Life.speak_text j.translated_text reference) (
              Runs-bind c job Life.speaker Tracks _ _ _ _
                (receive_chunks-Runs c a j no_stream _ a.chunks (not_begun j.translated_text) h)
                (λ s' m t. joined-Runs s' m marked t)))))
    where
      rest : Option Text → WorkM (Unit {0})
      rest reference = do
        emit (Action.speak (Life.spoken c job j.translated_text reference))
        s ← receive_chunks job.id no_stream a.chunks
        guard (is_joined a.task_end) other
        end_stream job.id s s.started
        keep_audio c a j.work s

  -- From a translation that has been told, a round of the worker leads to audio that has been played
  -- and saved, or its failure is told.
  pub synthesis_round-Follows :
      Marked j.work.latency
      → HaveChannels a.chunks
      → let r = synthesis_round c a j in
        (s : Life.Stage) × Life.Follows c job (Life.translated j.translated_text) r.0 s
        × LeftAt c job Done true s r.1
  unfolding synthesis_round
  synthesis_round-Follows marked h = after (speak_job c a j) (speak_job-Runs marked h)
    where
      after :
          (m : WorkM (Unit {0}))
          → R (Life.translated j.translated_text) m Done
          → (s : Life.Stage) × Life.Follows c job
              (Life.translated j.translated_text)
              (after_speak c a j.work.job.id m).0
              s
            × LeftAt c job Done true s (after_speak c a j.work.job.id m).1
      after (bs, ok k) r = (r.stage, r.follows, r.ends)
      after (bs, err panicked) r = absurd r.ends
      after (bs, err no_speech) r = (
        Life.failed,
        Follows-append c job _ _ _ bs _ r.follows (
            tell_failure-Follows c job Life.speaker r.stage a.failure_stored _ r.ends
              Life.speaker_tells),
        refl,
      )
      after (bs, err other) r = (
        Life.failed,
        Follows-append c job _ _ _ bs _ r.follows (
            tell_failure-Follows c job Life.speaker r.stage a.failure_stored _ r.ends
              Life.speaker_tells),
        refl,
      )
