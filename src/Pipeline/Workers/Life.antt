-- ===== src/Pipeline/Workers/Life.antt =====
-- What may be done for one utterance after its hand-over, in what order and with what contents, as a
-- relation between stages.
mod Stages
pub mod Rules
pub mod Reports
pub mod Recognise
pub mod Translate
pub mod Playing
pub mod Speak
pub mod Whole
use voice_elf.Prelude.{
  ℕ, ◌/◌, ◌≡◌, Bool, true, false, List, [], ◌∷◌, ◌++◌, length, Option, none, some,
}
use voice_elf.Prelude.Int.{ℤ}
use voice_elf.Prelude.Text.{Text, codes}
use voice_elf.Audio.Pcm.{pcm16_bytes}
use voice_elf.Pipeline.Latency.{LatencyReport}
use voice_elf.Pipeline.Session.Types.{
  UtteranceJob, SpeakerIdentity, transcribing, translating, synthesizing, playing,
}
use voice_elf.Language.{translation_terms, normalize_transcript, normalize_translation, sanitize}
use voice_elf.Tts.{TtsRequest}
use voice_elf.Pipeline.Workers.Types.{
  WorkerContext, WorkerEvent, Action, StoreCall, RefinementJob, ProcessingStage,
}
unfoldable pub use Stages.*

module _ (c : WorkerContext) (job : UtteranceJob) where
  -- The event that tells a failure.
  pub data Tells : Worker → WorkerEvent → Type 0 where
    recogniser_tells :
        (no_speech : Bool) → Tells recogniser (WorkerEvent.recognition_failed job.id no_speech)
    translator_tells :
        Tells translator (WorkerEvent.processing_failed job.id ProcessingStage.translation_stage)
    speaker_tells : Tells speaker (WorkerEvent.processing_failed job.id ProcessingStage.tts_stage)

  -- Final texts have gone through the policy.
  abbrev pub final_transcript : Text → Text
  final_transcript = normalize_transcript c.unicode_alphanumeric c.policy

  abbrev pub final_translation : Text → Text
  final_translation = normalize_translation c.unicode_alphanumeric c.policy

  abbrev pub spoken : Text → Option Text → TtsRequest
  spoken d reference = record {
    text = sanitize c.unicode_alphanumeric c.policy d;
    language = job.config.target_language;
    voice = job.config.voice;
    reference_audio_path = reference;
  }

  pub data Moves : Stage → Action → Stage → Type 0 where
    begin : Moves queued (Action.send (WorkerEvent.state transcribing job.id)) recognising
    keep_source : Moves recognising (Action.save_source job.id job.samples) recognising
    keep_attempt :
        (path url : Option Text) (r : LatencyReport)
        → Moves recognising
            (Action.store (StoreCall.create_attempt job.id path url r job.speakers) true)
            recognising
    lose_attempt :
        (path url : Option Text) (r : LatencyReport)
        → Moves recognising
            (Action.store (StoreCall.create_attempt job.id path url r job.speakers) false)
            (broken recogniser)
    tell_source :
        (url : Text)
        → Moves recognising (Action.send (WorkerEvent.media job.id (some url) none)) recognising
    finish : Moves recognising (Action.finish_live job.id) recognising
    hear : Moves recognising (Action.recognise job.samples job.config.source_language) recognising
    show_part :
        (delta text language : Text)
        → Moves recognising
            (Action.send (WorkerEvent.transcript_delta job.id delta text language false))
            recognising
    show_whole :
        (raw language : Text)
        → Moves recognising
            (Action.send
              (WorkerEvent.transcript_delta job.id [] (final_transcript raw) language true))
            (recognised_text (final_transcript raw) language)
    keep_transcript :
        (t l : Text) (r : LatencyReport)
        → Moves
            (recognised_text t l)
            (Action.store (StoreCall.save_transcript job.id t l r) true)
            (transcript_kept t l)
    lose_transcript :
        (t l : Text) (r : LatencyReport)
        → Moves
            (recognised_text t l)
            (Action.store (StoreCall.save_transcript job.id t l r) false)
            (broken recogniser)
    tell_transcript :
        (t l : Text)
        → Moves
            (transcript_kept t l)
            (Action.send (WorkerEvent.transcript job.id t l))
            (transcribed t l)
    tell_transcript_unkept :
        (t l : Text)
        → c.has_database ≡ false
        → Moves
            (recognised_text t l)
            (Action.send (WorkerEvent.transcript job.id t l))
            (transcribed t l)
    ask_refinement :
        (t l : Text) (r : RefinementJob)
        → r.utterance_id ≡ job.id
        → r.audio ≡ job.samples
        → Moves (transcribed t l) (Action.refine r) (transcribed t l)
    begin_translation :
        (t l : Text)
        → Moves
            (transcribed t l)
            (Action.send (WorkerEvent.state translating job.id))
            (in_translation t l)
    ask_translator :
        (t l : Text)
        → Moves
            (in_translation t l)
            (Action.translate_text
              (sanitize c.unicode_alphanumeric c.policy t)
              l
              job.config.target_language
              (translation_terms c.policy))
            (in_translation t l)
    show_translation :
        (t l raw : Text)
        → Moves
            (in_translation t l)
            (Action.send (
              WorkerEvent.translation_delta job.id
                (final_translation raw)
                job.config.target_language
                false))
            (in_translation t l)
    keep_translation :
        (t l raw : Text) (r : LatencyReport)
        → Moves
            (in_translation t l)
            (Action.store
              (StoreCall.save_translation job.id
                (final_translation raw)
                job.config.target_language
                r)
              true)
            (translation_kept t l (final_translation raw))
    lose_translation :
        (t l d : Text) (r : LatencyReport)
        → Moves
            (in_translation t l)
            (Action.store (StoreCall.save_translation job.id d job.config.target_language r) false)
            (broken translator)
    show_kept :
        (t l d : Text)
        → Moves
            (translation_kept t l d)
            (Action.send (WorkerEvent.translation_delta job.id d job.config.target_language true))
            (translation_shown t l d)
    show_unkept :
        (t l raw : Text)
        → c.has_database ≡ false
        → Moves
            (in_translation t l)
            (Action.send (
              WorkerEvent.translation_delta job.id
                (final_translation raw)
                job.config.target_language
                true))
            (translation_shown t l (final_translation raw))
    tell_translation :
        (t l d : Text)
        → Moves
            (translation_shown t l d)
            (Action.send (WorkerEvent.translation job.id t d l job.config.target_language))
            (translation_told d)
    tell_text_latency :
        (d : Text) (r : LatencyReport)
        → Moves
            (translation_told d)
            (Action.send (WorkerEvent.latency_report job.id r))
            (translated d)
    begin_speech :
        (d : Text)
        → Moves
            (translated d)
            (Action.send (WorkerEvent.state synthesizing job.id))
            (preparing_speech d)
    find_voice :
        (d : Text) (voice : ℕ)
        → c.has_database ≡ true
        → Moves
            (preparing_speech d)
            (Action.store (StoreCall.get_voice_reference voice) true)
            (preparing_speech d)
    lose_voice :
        (d : Text) (voice : ℕ)
        → Moves
            (preparing_speech d)
            (Action.store (StoreCall.get_voice_reference voice) false)
            (broken speaker)
    speak_text :
        (d : Text) (reference : Option Text)
        → Moves (preparing_speech d) (Action.speak (spoken d reference)) (speaking_text d)
    start_audio :
        (d engine : Text) (rate channels : ℕ)
        → Moves
            (speaking_text d)
            (Action.send (WorkerEvent.audio_start job.id engine rate channels))
            (starting rate channels)
    begin_playing :
        (rate channels : ℕ)
        → Moves
            (starting rate channels)
            (Action.send (WorkerEvent.state playing job.id))
            (playing_stream rate channels [])
    play_chunk :
        (rate channels : ℕ) (xs ys : List ℤ)
        → Moves
            (playing_stream rate channels xs)
            (Action.send_audio (pcm16_bytes ys))
            (playing_stream rate channels (xs ++ ys))
    stop_audio :
        (rate channels : ℕ) (xs : List ℤ)
        → Moves
            (playing_stream rate channels xs)
            (Action.send (WorkerEvent.audio_end job.id (length xs / channels)))
            (played rate channels xs)
    keep_audio :
        (rate channels : ℕ) (xs : List ℤ)
        → Moves
            (played rate channels xs)
            (Action.save_translated job.id xs rate channels)
            (audio_saved rate channels xs)
    keep_place :
        (rate channels : ℕ) (xs : List ℤ) (path url : Text) (r : LatencyReport)
        → Moves
            (audio_saved rate channels xs)
            (Action.store (StoreCall.complete_audio job.id path url r) true)
            (audio_saved rate channels xs)
    lose_place :
        (rate channels : ℕ) (xs : List ℤ) (path url : Text) (r : LatencyReport)
        → Moves
            (audio_saved rate channels xs)
            (Action.store (StoreCall.complete_audio job.id path url r) false)
            (broken speaker)
    tell_audio :
        (rate channels : ℕ) (xs : List ℤ) (url : Text)
        → Moves
            (audio_saved rate channels xs)
            (Action.send (WorkerEvent.media job.id none (some url)))
            audio_told
    complete :
        (r : LatencyReport)
        → Moves audio_told (Action.send (WorkerEvent.latency_report job.id r)) completed
    mark_failure :
        (p : Worker) (s : Stage) (answer : Bool)
        → MayFail p s
        → c.has_database ≡ true
        → Moves s (Action.store (StoreCall.mark_failed job.id (failure_code p)) answer) (marked p)
    tell_failure :
        (p : Worker) (event : WorkerEvent)
        → Tells p event
        → Moves (marked p) (Action.send event) failed
    tell_unmarked :
        (p : Worker) (s : Stage) (event : WorkerEvent)
        → MayFail p s
        → Tells p event
        → c.has_database ≡ false
        → Moves s (Action.send event) failed

  -- A list of actions that leads from one stage to another.
  pub data Follows : Stage → List Action → Stage → Type 0 where
    stay : (s : Stage) → Follows s [] s
    go :
        (s m s' : Stage) (b : Action) (bs : List Action)
        → Moves s b m
        → Follows m bs s'
        → Follows s (b ∷ bs) s'
