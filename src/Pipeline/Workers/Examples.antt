-- ===== src/Pipeline/Workers/Examples.antt =====
-- An utterance that is recognised, translated and spoken with a database, and one whose translator fails.
use voice_elf.Prelude.{◌≡◌, refl, true, false, List, [], ◌∷◌, none, some, arith}
use voice_elf.Prelude.Int.{pos}
use voice_elf.Prelude.Text.{codes, is_alphanumeric}
use voice_elf.Pipeline.Config.{default}
use voice_elf.Pipeline.Latency.{new}
use voice_elf.Pipeline.Session.Types.{UtteranceJob}
use voice_elf.Tts.{TtsAudioChunk}
use voice_elf.Pipeline.Workers.Types.{Transcription, WorkerContext, RefinementJob}
use voice_elf.Pipeline.Workers.Recognition.{
  RecognitionAnswers, heard, finish_live_job, handed, given_up,
}
use voice_elf.Pipeline.Workers.Translation.{TranslationAnswers}
use voice_elf.Pipeline.Workers.Speech.{succeeded, SpeechAnswers, not_owned}
use voice_elf.Pipeline.Workers.Refinement.{EngineAnswers, refinement_round}
use voice_elf.Pipeline.Workers.Refined.{events_of, told, refinement_round-told}
use voice_elf.Pipeline.Workers.Life
use voice_elf.Pipeline.Workers.Life.Whole.{process_utterance, LastStage, process_utterance-Follows}

abbrev context : WorkerContext
context = record {
  has_database = true;
  policy = record { terms = []; blocked = [] };
  unicode_alphanumeric = is_alphanumeric;
  refines = true;
  parse_uuid = λ t. none;
}

abbrev job : UtteranceJob
job = record { id = 7; samples = pos 1 ∷ pos 2 ∷ []; config = default; speakers = [] }

abbrev transcription : Transcription
transcription = record { text = codes "good day"; language = codes "en"; segments = [] }

abbrev recognition : RecognitionAnswers
recognition = record {
  source_media = some (record { path = codes "a.wav"; url = codes "/a" });
  attempt_stored = true;
  live = none;
  deltas = codes "good" ∷ [];
  result = heard transcription;
  late_deltas = codes " day" ∷ [];
  heard_at = (3000000, 3);
  transcript_stored = true;
  failure_stored = true;
  output_open = true;
}

abbrev translation : TranslationAnswers
translation = record {
  deltas = [];
  translated = some (codes "bonjour");
  late_deltas = codes "bonjour" ∷ [];
  translated_at = (4000000, 4);
  translation_stored = true;
  failure_stored = true;
  output_open = true;
}

abbrev chunk : TtsAudioChunk
chunk = record {
  engine = codes "e";
  audio = record { samples = pos 5 ∷ pos 6 ∷ []; sample_rate = 24000; channels = 1 };
}

abbrev speech : SpeechAnswers
speech = record {
  reference = not_owned;
  chunks = chunk ∷ chunk ∷ [];
  task_end = succeeded;
  saved = some (record { path = codes "b.wav"; url = codes "/b" });
  spoken_at = (5000000, 5);
  audio_stored = true;
  failure_stored = true;
}

process_utterance-Follows_example :
    let r =
      process_utterance context recognition translation speech
        (finish_live_job job (new (1000000, 1)) false (2000000, 2)) in
    (s : Life.Stage) × Life.Follows context job Life.queued r.0 s × LastStage true r.1 s
process_utterance-Follows_example =
    process_utterance-Follows context recognition translation speech job (new (1000000, 1)) false
      (2000000, 2) (omega arith, (omega arith, tt))

is_spoken :
    (process_utterance context recognition translation speech
      (finish_live_job job (new (1000000, 1)) false (2000000, 2))).1
    ≡ handed tt
unfolding process_utterance finish_live_job
    voice_elf.Pipeline.Workers.Recognition.transcription_round
    voice_elf.Pipeline.Workers.Recognition.transcribe
    voice_elf.Pipeline.Workers.Recognition.prepare_utterance
    voice_elf.Pipeline.Workers.Recognition.first_transcription
    voice_elf.Pipeline.Workers.Recognition.transcribe_completed_audio
    voice_elf.Pipeline.Workers.Recognition.show_deltas
    voice_elf.Pipeline.Workers.Recognition.keep_transcript voice_elf.Pipeline.Latency.queued_report
    voice_elf.Pipeline.Latency.report_with_t4 voice_elf.Pipeline.Latency.mark_vad_complete
    voice_elf.Pipeline.Latency.transcription_report voice_elf.Pipeline.Latency.mark_stt_complete
    voice_elf.Pipeline.Latency.text_report voice_elf.Pipeline.Latency.mark_translation_complete
    voice_elf.Pipeline.Latency.final_report voice_elf.Pipeline.Latency.mark_tts_complete
    voice_elf.Pipeline.Workers.Translation.translation_round
    voice_elf.Pipeline.Workers.Translation.translate
    voice_elf.Pipeline.Workers.Translation.keep_translation
    voice_elf.Pipeline.Workers.Speech.synthesis_round voice_elf.Pipeline.Workers.Speech.speak_job
    voice_elf.Pipeline.Workers.Speech.receive_chunk voice_elf.Pipeline.Workers.Speech.receive_chunks
    voice_elf.Pipeline.Workers.Speech.keep_audio voice_elf.Language.normalize_transcript
    voice_elf.Pipeline.Latency.new default
is_spoken = refl

is_given_up :
    (process_utterance context recognition
      (record translation { translated = none })
      speech
      (finish_live_job job (new (1000000, 1)) false (2000000, 2))).1
    ≡ given_up
unfolding process_utterance finish_live_job
    voice_elf.Pipeline.Workers.Recognition.transcription_round
    voice_elf.Pipeline.Workers.Recognition.transcribe
    voice_elf.Pipeline.Workers.Recognition.prepare_utterance
    voice_elf.Pipeline.Workers.Recognition.first_transcription
    voice_elf.Pipeline.Workers.Recognition.transcribe_completed_audio
    voice_elf.Pipeline.Workers.Recognition.show_deltas
    voice_elf.Pipeline.Workers.Recognition.keep_transcript voice_elf.Pipeline.Latency.queued_report
    voice_elf.Pipeline.Latency.report_with_t4 voice_elf.Pipeline.Latency.mark_vad_complete
    voice_elf.Pipeline.Latency.transcription_report voice_elf.Pipeline.Latency.mark_stt_complete
    voice_elf.Pipeline.Latency.text_report voice_elf.Pipeline.Latency.mark_translation_complete
    voice_elf.Pipeline.Latency.final_report voice_elf.Pipeline.Latency.mark_tts_complete
    voice_elf.Pipeline.Workers.Translation.translation_round
    voice_elf.Pipeline.Workers.Translation.translate
    voice_elf.Pipeline.Workers.Translation.keep_translation
is_given_up = refl

abbrev second_hearing : RefinementJob
second_hearing = record { utterance_id = 7; audio = pos 1 ∷ []; source_language = codes "en" }

abbrev engines : List EngineAnswers
engines =
    record {
      name = codes "slow";
      result = some transcription;
      start_stored = false;
      result_stored = true;
    }
    ∷ record { name = codes "slower"; result = none; start_stored = true; result_stored = true }
    ∷ []

refinement_round-told_example :
    events_of (refinement_round context second_hearing engines)
    ≡ told context second_hearing engines
refinement_round-told_example = refinement_round-told context second_hearing engines
