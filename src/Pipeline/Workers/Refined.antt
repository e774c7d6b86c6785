-- ===== src/Pipeline/Workers/Refined.antt =====
-- What the client is told of a refinement.
use voice_elf.Prelude.{
  ℕ, ◌≡◌, refl, ap, ◌∙◌, Bool, true, false, if◌then◌else◌, List, [], ◌∷◌, ◌++◌, map, Option, none,
  some,
}
use voice_elf.Prelude.Text.{Text}
use voice_elf.Language.{normalize_transcript}
use voice_elf.Pipeline.Workers.Types.{
  Transcription, TranscriptionSegment, RefinementJob, processing, completed, failed, WorkerEvent,
  transcript_refinement, Action, send, send_audio, store, save_source, save_translated, finish_live,
  recognise, translate_text, speak, refine, StoreCall, WorkerContext,
}
use voice_elf.Pipeline.Workers.Refinement.{
  EngineAnswers, clean_segment, cleaned, refinement_result, refine_with, refinement_round,
}

abbrev pub events_of : List Action → List WorkerEvent
events_of [] = []
events_of (send e ∷ bs) = e ∷ events_of bs
events_of (send_audio xs ∷ bs) = events_of bs
events_of (store call answer ∷ bs) = events_of bs
events_of (save_source id xs ∷ bs) = events_of bs
events_of (save_translated id xs rate channels ∷ bs) = events_of bs
events_of (finish_live id ∷ bs) = events_of bs
events_of (recognise xs language ∷ bs) = events_of bs
events_of (translate_text text from to terms ∷ bs) = events_of bs
events_of (speak request ∷ bs) = events_of bs
events_of (refine j ∷ bs) = events_of bs

-- The segments, with the room's terms in their texts and all else as it was.
abbrev pub with_terms : WorkerContext → List TranscriptionSegment → List TranscriptionSegment
with_terms c [] = []
with_terms c (s ∷ ss) =
    record {
      start_at = s.start_at;
      end_at = s.end_at;
      speaker = s.speaker;
      text = normalize_transcript c.unicode_alphanumeric c.policy s.text;
    }
    ∷ with_terms c ss

abbrev pub ending : WorkerContext → ℕ → Text → Option Transcription → WorkerEvent
ending c id name none = transcript_refinement id name failed none none []
ending c id name (some t) =
    transcript_refinement id name completed
      (some (normalize_transcript c.unicode_alphanumeric c.policy t.text)) (some t.language)
      (with_terms c t.segments)

-- For each engine, that it is at work, and then its result.
abbrev pub told : WorkerContext → RefinementJob → List EngineAnswers → List WorkerEvent
told c j [] = []
told c j (e ∷ es) =
    transcript_refinement j.utterance_id e.name processing none none []
    ∷ ending c j.utterance_id e.name e.result
    ∷ told c j es

events_of-append : (xs ys : List Action) → events_of (xs ++ ys) ≡ events_of xs ++ events_of ys
events_of-append [] ys = refl
events_of-append (send e ∷ bs) ys = ap (λ es. e ∷ es) (events_of-append bs ys)
events_of-append (send_audio xs ∷ bs) ys = events_of-append bs ys
events_of-append (store call answer ∷ bs) ys = events_of-append bs ys
events_of-append (save_source id xs ∷ bs) ys = events_of-append bs ys
events_of-append (save_translated id xs rate channels ∷ bs) ys = events_of-append bs ys
events_of-append (finish_live id ∷ bs) ys = events_of-append bs ys
events_of-append (recognise xs language ∷ bs) ys = events_of-append bs ys
events_of-append (translate_text text from to terms ∷ bs) ys = events_of-append bs ys
events_of-append (speak request ∷ bs) ys = events_of-append bs ys
events_of-append (refine j ∷ bs) ys = events_of-append bs ys

clean_segment-with_terms :
    (c : WorkerContext) (ss : List TranscriptionSegment)
    → map (clean_segment c) ss ≡ with_terms c ss
clean_segment-with_terms c [] = refl
clean_segment-with_terms c (s ∷ ss) =
    ap (λ rest. clean_segment c s ∷ rest) (clean_segment-with_terms c ss)

module _ (c : WorkerContext) (j : RefinementJob) where
  events_of-try_store :
      (b : Bool) (call : StoreCall) (answer : Bool) (bs : List Action)
      → events_of ((if b then store call answer ∷ [] else []) ++ bs) ≡ events_of bs
  events_of-try_store true call answer bs = refl
  events_of-try_store false call answer bs = refl

  events_of-refine_with :
      (e : EngineAnswers)
      → events_of (refine_with c j e)
        ≡ transcript_refinement j.utterance_id e.name processing none none []
          ∷ ending c j.utterance_id e.name e.result
          ∷ []
  events_of-refine_with e =
      events_of-try_store c.has_database _ e.start_stored _
      ∙ ap (λ es. transcript_refinement j.utterance_id e.name processing none none [] ∷ es)
          (result e.result)
    where
      result :
          (r : Option Transcription)
          → events_of (refinement_result c j e (cleaned c r))
            ≡ ending c j.utterance_id e.name r ∷ []
      result none = events_of-try_store c.has_database _ e.result_stored _
      result (some t) =
          events_of-try_store c.has_database _ e.result_stored _
          ∙ ap
              (λ segments.
                transcript_refinement j.utterance_id e.name completed
                  (some (normalize_transcript c.unicode_alphanumeric c.policy t.text))
                  (some t.language) segments
                ∷ [])
              (clean_segment-with_terms c t.segments)

  -- Whatever the database answers, and also without one, the client is told of each engine, in their
  -- order: first that it is at work, and then exactly once its failure, or its result, where the
  -- text and the text of each segment have the policy's terms in place of their variants, and all
  -- else is as the engine returned it.
  pub refinement_round-told :
      (engines : List EngineAnswers) → events_of (refinement_round c j engines) ≡ told c j engines
  unfolding refinement_round
  refinement_round-told [] = refl
  refinement_round-told (e ∷ es) =
      events_of-append (refine_with c j e) (refinement_round c j es)
      ∙ simp (events_of-refine_with e, refinement_round-told es)
