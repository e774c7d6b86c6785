-- ===== src/Pipeline/Workers/Refinement.antt =====
-- server/src/pipeline/refinement.rs: one job of the worker that recognises the speech again, with each engine.
use voice_elf.Prelude.{Bool, if◌then◌else◌, List, [], ◌∷◌, ◌++◌, map, Option, none, some}
use voice_elf.Prelude.Text.{Text}
use voice_elf.Language.{normalize_transcript}
use voice_elf.Pipeline.Workers.Types.{
  TranscriptionSegment, Transcription, RefinementJob, processing, completed, failed,
  transcript_refinement, StoreCall, start_refinement, save_refinement, fail_refinement, Action,
  send, store, recognise, WorkerContext,
}

-- An engine's name, what `transcribe_completed` returns for the job, and what the database answers.
pub record EngineAnswers : Type 0 where
  pub name : Text
  pub result : Option Transcription
  pub start_stored : Bool
  pub result_stored : Bool

-- A failure of the database is only logged.
abbrev pub try_store : WorkerContext → StoreCall → Bool → List Action
try_store c call answer = if c.has_database then store call answer ∷ [] else []

abbrev pub clean_segment : WorkerContext → TranscriptionSegment → TranscriptionSegment
clean_segment c s = record s { text = normalize_transcript c.unicode_alphanumeric c.policy s.text }

abbrev pub clean_transcription : WorkerContext → Transcription → Transcription
clean_transcription c t = record t {
  text = normalize_transcript c.unicode_alphanumeric c.policy t.text;
  segments = map (clean_segment c) t.segments;
}

abbrev pub refinement_result :
    WorkerContext → RefinementJob → EngineAnswers → Option Transcription → List Action
refinement_result c j e (some t) =
    try_store c (save_refinement j.utterance_id e.name t.text t.language t.segments) e.result_stored
    ++ send (
        transcript_refinement j.utterance_id e.name completed (some t.text) (some t.language)
          t.segments)
      ∷ []
refinement_result c j e none =
    try_store c (fail_refinement j.utterance_id e.name) e.result_stored
    ++ send (transcript_refinement j.utterance_id e.name failed none none []) ∷ []

abbrev pub cleaned : WorkerContext → Option Transcription → Option Transcription
cleaned c none = none
cleaned c (some t) = some (clean_transcription c t)

abbrev pub refine_with : WorkerContext → RefinementJob → EngineAnswers → List Action
refine_with c j e =
    try_store c (start_refinement j.utterance_id e.name) e.start_stored
    ++ (send (transcript_refinement j.utterance_id e.name processing none none [])
        ∷ (recognise j.audio j.source_language ∷ refinement_result c j e (cleaned c e.result)))

-- One round of `run_refinement_worker`.
unfoldable pub refinement_round : WorkerContext → RefinementJob → List EngineAnswers → List Action
refinement_round c j [] = []
refinement_round c j (e ∷ es) = refine_with c j e ++ refinement_round c j es
