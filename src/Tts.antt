-- ===== src/Tts.antt =====
-- Text to speech with fallback: `TtsChunkSink`, `TtsRequest` and `canonical_language` of
-- server/src/backends/tts/mod.rs and `FallbackTtsEngine` of server/src/backends/tts/fallback.rs. An
-- engine is a parameter: the chunks that it tries to send for a request, and whether it succeeds
-- once they are sent. An engine stops with an error at a send that fails. `room` is the
-- number of chunks that the receiver takes before it is closed.
pub mod Choice
pub mod Chunks
mod Examples
use voice_elf.Prelude.{
  ℕ, zero, suc, ◌+◌, ◌-◌, ◌%◌, Bool, true, false, not, ◌||◌, ◌&&◌, if◌then◌else◌, ◌==◌, List, [],
  ◌∷◌, ◌++◌, length, Option, none, some,
}
use voice_elf.Prelude.Int.{ℤ}
use voice_elf.Prelude.Text.{Text, codes, text_eq, to_ascii_lowercase}

pub record TtsRequest : Type 0 where
  pub text : Text
  pub language : Text
  pub voice : Text
  pub reference_audio_path : Option Text

-- What an engine passes to `send`.
pub record Attempt : Type 0 where
  pub samples : List ℤ
  pub sample_rate : ℕ
  pub channels : ℕ

pub record TtsAudioChunk : Type 0 where
  pub engine : Text
  pub audio : Attempt

pub record TtsEngine : Type 0 where
  pub name : Text
  pub supports : Text → Bool
  pub supports_voice_clone : Bool
  pub speaks : TtsRequest → List Attempt × Bool

abbrev pub is_some : Option Text → Bool
is_some none = false
is_some (some path) = true

-- `language.split(['-', '_']).next()`
abbrev pub first_part : Text → Text
first_part [] = []
first_part (c ∷ cs) = if c == b'-' || c == b'_' then [] else c ∷ first_part cs

unfoldable pub canonical_language : Text → Text
canonical_language language =
    let base = to_ascii_lowercase (first_part language) in
    if text_eq base (codes "chinese")
    then codes "zh"
    else if text_eq base (codes "english")
    then codes "en"
    else base

-- The chunks that reached the receiver, and whether the engine returned `Ok`.
pub record Played : Type 0 where
  pub chunks : List TtsAudioChunk
  pub ok : Bool

unfoldable pub has_bad_metadata : Attempt → Bool
has_bad_metadata a =
    a.sample_rate == 0 || (a.channels == 0 || not (length a.samples % a.channels == 0))

-- The sends of one engine: an empty chunk is skipped, bad metadata and a closed receiver fail.
unfoldable pub play : Text → ℕ → List Attempt → Bool → Played
play name room [] result = record { chunks = []; ok = result }
play name room (a ∷ rest) result =
    let later = play name (room - 1) rest result in
    let skipped = play name room rest result in
    if length a.samples == 0
    then skipped
    else if has_bad_metadata a || room == 0
    then record { chunks = []; ok = false }
    else record { chunks = record { engine = name; audio = a } ∷ later.chunks; ok = later.ok }

pub data Failure : Type 0 where
  empty_audio failed_before_streaming : Text → Failure

pub data Synthesis : Type 0 where
  ok : Synthesis
  suppressed : Text → Synthesis  -- the engine failed after audio streaming had started
  no_engine : Text → Synthesis
  all_failed : List Failure → Synthesis

unfoldable pub is_candidate : TtsRequest → Text → TtsEngine → Bool
is_candidate request language engine = not (
    not (engine.supports language)
    || (is_some request.reference_audio_path && not engine.supports_voice_clone))

unfoldable pub engine_run : TtsRequest → ℕ → TtsEngine → Played
engine_run request room engine =
    play engine.name room (engine.speaks request).0 (engine.speaks request).1

-- What follows the loop.
abbrev pub none_left : Text → ℕ → List Failure → Synthesis
none_left language candidates failures =
    if candidates == 0 then no_engine language else all_failed failures

-- The loop over the engines, with the number of candidates and the failures so far.
unfoldable pub try_engines :
    TtsRequest → ℕ → Text → List TtsEngine → ℕ → List Failure → List TtsAudioChunk × Synthesis
try_engines request room language [] candidates failures =
    ([], none_left language candidates failures)
try_engines request room language (engine ∷ rest) candidates failures =
    let played = engine_run request room engine in
    let failure =
      if played.ok then empty_audio engine.name else failed_before_streaming engine.name in
    let skipping = try_engines request room language rest candidates failures in
    let next = try_engines request room language rest (candidates + 1) (failures ++ failure ∷ []) in
    if not (is_candidate request language engine)
    then skipping
    else if length played.chunks == 0
    then next
    else (played.chunks, if played.ok then ok else suppressed engine.name)

-- `FallbackTtsEngine::new` refuses an empty list.
unfoldable pub new : List TtsEngine → Option (List TtsEngine)
new [] = none
new (engine ∷ rest) = some (engine ∷ rest)

unfoldable pub synthesize : TtsRequest → ℕ → List TtsEngine → List TtsAudioChunk × Synthesis
synthesize request room engines =
    try_engines request room (canonical_language request.language) engines 0 []
