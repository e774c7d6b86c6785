-- ===== src/Tts/Choice.antt =====
-- Which engine speaks, and what its chunks are like.
use mathlib.Core.List.{append_assoc, append-nil}
use voice_elf.Prelude.{
  ℕ, ◌+◌, ◌≡◌, refl, ap, ◌∙◌, ◌⊎◌, inl, inr, true, not, if◌then◌else◌, ◌==◌, List, [], ◌∷◌, ◌++◌,
  length, Option, none, some, arith, if_intro, Bool-cases,
}
use voice_elf.Prelude.Text.{Text}
use voice_elf.Tts.{
  TtsRequest, TtsAudioChunk, TtsEngine, Failure, Synthesis, is_some, is_candidate, engine_run,
  none_left, try_engines, synthesize, canonical_language, empty_audio, failed_before_streaming, ok,
  suppressed,
}

module _ (request : TtsRequest) (room : ℕ) where
  -- The first engine that may serve the request and sends anything at all.
  abbrev pub first_speaker : Text → List TtsEngine → Option TtsEngine
  first_speaker language [] = none
  first_speaker language (e ∷ es) =
      if not (is_candidate request language e)
      then first_speaker language es
      else if length (engine_run request room e).chunks == 0
      then first_speaker language es
      else some e

  abbrev pub failure_of : TtsEngine → Failure
  failure_of e =
      if (engine_run request room e).ok then empty_audio e.name else failed_before_streaming e.name

  abbrev pub candidates_of : Text → List TtsEngine → ℕ
  candidates_of language [] = 0
  candidates_of language (e ∷ es) =
      if not (is_candidate request language e)
      then candidates_of language es
      else candidates_of language es + 1

  abbrev pub failures_of : Text → List TtsEngine → List Failure
  failures_of language [] = []
  failures_of language (e ∷ es) =
      if not (is_candidate request language e)
      then failures_of language es
      else failure_of e ∷ failures_of language es

  -- The outcome by the first speaker: its chunks and its success, or an error that names all failures.
  abbrev pub outcome : Option TtsEngine → Text → ℕ → List Failure → List TtsAudioChunk × Synthesis
  outcome (some e) language candidates failures = (
    (engine_run request room e).chunks,
    if (engine_run request room e).ok then ok else suppressed e.name,
  )
  outcome none language candidates failures = ([], none_left language candidates failures)

  -- A candidate that sent nothing is counted, and its failure noted.
  next :
      (language : Text) (e : TtsEngine) (es : List TtsEngine) (candidates : ℕ)
      (failures : List Failure) {r : List TtsAudioChunk × Synthesis}
      → r
        ≡ outcome
            (first_speaker language es)
            language
            (candidates + 1 + candidates_of language es)
            ((failures ++ failure_of e ∷ []) ++ failures_of language es)
      → r
        ≡ outcome
            (first_speaker language es)
            language
            (candidates + (candidates_of language es + 1))
            (failures ++ failure_of e ∷ failures_of language es)
  next language e es candidates failures h =
      h
      ∙ ap
          (λ (k : ℕ).
            outcome (first_speaker language es) language k
              ((failures ++ failure_of e ∷ []) ++ failures_of language es))
          (omega arith)
      ∙ ap
          (outcome (first_speaker language es) language
            (candidates + (candidates_of language es + 1)))
          (append_assoc failures (failure_of e ∷ []) (failures_of language es))

  try_engines-outcome :
      (language : Text) (engines : List TtsEngine) (candidates : ℕ) (failures : List Failure)
      → try_engines request room language engines candidates failures
        ≡ outcome
            (first_speaker language engines)
            language
            (candidates + candidates_of language engines)
            (failures ++ failures_of language engines)
  unfolding try_engines
  try_engines-outcome language [] candidates failures =
      rw (append-nil failures) (ap (λ (k : ℕ). ([], none_left language k failures)) (omega arith))
  try_engines-outcome language (e ∷ es) candidates failures =
      elim (Bool-cases (is_candidate request language e)) [
        | inr n ↦ rw n (try_engines-outcome language es candidates failures)
        | inl y ↦ elim (Bool-cases (length (engine_run request room e).chunks == 0)) [
          | inr some_audio ↦ rw (y, some_audio) refl
          | inl nothing ↦
              rw (y, nothing)
                (next language e es candidates failures (
                  try_engines-outcome language es (candidates + 1) (failures ++ failure_of e ∷ [])))
        ]
      ]

  -- Synthesis is decided by the first engine, in order, that may serve the request and sends
  -- anything: its chunks are the output, and no later engine is used even if it then fails. If there
  -- is none, nothing is sent, and the error names the language if no engine may serve the
  -- request, or else the failure of each that may, in order.
  pub synthesize-outcome :
      (engines : List TtsEngine)
      → let language = canonical_language request.language in
        synthesize request room engines
        ≡ outcome
            (first_speaker language engines)
            language
            (candidates_of language engines)
            (failures_of language engines)
  unfolding synthesize
  synthesize-outcome engines =
      let language = canonical_language request.language in
      try_engines-outcome language engines 0 []
      ∙ ap
          (λ (k : ℕ).
            outcome (first_speaker language engines) language k (failures_of language engines))
          (omega arith)

  -- One of the engines.
  abbrev pub OneOf : List TtsEngine → TtsEngine → Type 0
  OneOf [] e = ⊥
  OneOf (x ∷ xs) e = (e ≡ x) ⊎ OneOf xs e

  -- An engine of the list that may serve the request with the given chunks, or no chunk.
  abbrev pub SpokenBy : Text → List TtsEngine → List TtsAudioChunk → Type 0
  SpokenBy language engines chunks =
      (chunks ≡ [])
      ⊎ ((e : TtsEngine) × (OneOf engines e
            × ((is_candidate request language e ≡ true)
                × (chunks ≡ (engine_run request room e).chunks))))

  later_engine :
      (language : Text) (e : TtsEngine) (es : List TtsEngine) (chunks : List TtsAudioChunk)
      → SpokenBy language es chunks
      → SpokenBy language (e ∷ es) chunks
  later_engine language e es chunks (inl h) = inl h
  later_engine language e es chunks (inr (x, (m, h))) = inr (x, (inr m, h))

  try_engines-SpokenBy :
      (language : Text) (engines : List TtsEngine) (candidates : ℕ) (failures : List Failure)
      → SpokenBy language engines (try_engines request room language engines candidates failures).0
  unfolding try_engines
  try_engines-SpokenBy language [] candidates failures = inl refl
  try_engines-SpokenBy language (e ∷ es) candidates failures =
      elim (Bool-cases (is_candidate request language e)) [
        | inr n ↦
            rw n
              (later_engine language e es _ (try_engines-SpokenBy language es candidates failures))
        | inl y ↦ rw y (
            if_intro {A = List TtsAudioChunk × Synthesis} (λ r. SpokenBy language (e ∷ es) r.0)
              (length (engine_run request room e).chunks == 0)
              (later_engine language e es _ (try_engines-SpokenBy language es (candidates + 1) _))
              (inr (e, (inl refl, (y, refl)))))
      ]

candidate_clones :
    (request : TtsRequest) (language : Text) (e : TtsEngine)
    → is_some request.reference_audio_path ≡ true
    → is_candidate request language e ≡ true
    → e.supports_voice_clone ≡ true
unfolding is_candidate
candidate_clones request language e h c = ground arith

-- A request with a custom voice (reference audio) is never served by an engine that cannot clone a
-- voice: if anything is sent, it is what one of the given engines, which can, sends.
pub synthesize_custom :
    (request : TtsRequest) (room : ℕ) (engines : List TtsEngine)
    → is_some request.reference_audio_path ≡ true
    → let chunks = (synthesize request room engines).0 in
      (chunks ≡ [])
      ⊎ ((e : TtsEngine) × (OneOf request room engines e
            × ((e.supports_voice_clone ≡ true) × (chunks ≡ (engine_run request room e).chunks))))
unfolding synthesize
synthesize_custom request room engines h =
    let language = canonical_language request.language in
    by_engine (try_engines-SpokenBy request room language engines 0 [])
  where
    by_engine :
        {chunks : List TtsAudioChunk}
        → SpokenBy request room (canonical_language request.language) engines chunks
        → (chunks ≡ [])
          ⊎ ((e : TtsEngine) × (OneOf request room engines e
                × ((e.supports_voice_clone ≡ true)
                    × (chunks ≡ (engine_run request room e).chunks))))
    by_engine (inl none_sent) = inl none_sent
    by_engine (inr (e, (m, (c, r)))) =
        inr (e, (m, (candidate_clones request (canonical_language request.language) e h c, r)))
