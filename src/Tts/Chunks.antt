-- ===== src/Tts/Chunks.antt =====
-- What reaches the receiver: well-formed chunks of one engine.
use voice_elf.Prelude.{
  ℕ, ◌-◌, ◌%◌, ◌≤◌, ◌≡◌, Bool, false, ◌||◌, ◌==◌, List, [], ◌∷◌, length, Option, none, some, arith,
  Bool-cases, inl, inr, or_false,
}
use voice_elf.Prelude.Text.{Text}
use voice_elf.Tts.{
  TtsRequest, Attempt, TtsAudioChunk, TtsEngine, has_bad_metadata, play, engine_run, synthesize,
  canonical_language,
}
use voice_elf.Tts.Choice.{first_speaker, outcome, candidates_of, failures_of, synthesize-outcome}

-- A chunk of the named engine with samples, a rate, and whole frames for its channels.
pub record ChunkIsValid (name : Text) (chunk : TtsAudioChunk) : Type 0 where
  pub engine : chunk.engine ≡ name
  pub heard : 1 ≤ length chunk.audio.samples
  pub rate : 1 ≤ chunk.audio.sample_rate
  pub channels : 1 ≤ chunk.audio.channels
  pub whole : length chunk.audio.samples % chunk.audio.channels ≡ 0

abbrev pub AllValid : Text → List TtsAudioChunk → Type 0
AllValid name [] = Unit {0}
AllValid name (c ∷ cs) = ChunkIsValid name c × AllValid name cs

abbrev pub Delivered : Text → ℕ → List TtsAudioChunk → Type 0
Delivered name room chunks = AllValid name chunks × (length chunks ≤ room)

sent-ChunkIsValid :
    (name : Text) (a : Attempt)
    → (length a.samples == 0) ≡ false
    → has_bad_metadata a ≡ false
    → ChunkIsValid name (record { engine = name; audio = a })
unfolding has_bad_metadata
sent-ChunkIsValid name a n m = ground arith

play-Delivered :
    (name : Text) (room : ℕ) (attempts : List Attempt) (result : Bool)
    → Delivered name room (play name room attempts result).chunks
unfolding play
play-Delivered name room [] result = (tt, omega arith)
play-Delivered name room (a ∷ rest) result = elim (Bool-cases (length a.samples == 0)) [
  | inl e ↦ rw e (play-Delivered name room rest result)
  | inr n ↦ elim (Bool-cases (has_bad_metadata a || room == 0)) [
    | inl e ↦ rw (n, e) (tt, omega arith)
    | inr g ↦
        let good = or_false (has_bad_metadata a) (room == 0) g in
        let later = play-Delivered name (room - 1) rest result in
        let room_left : 1 ≤ room = ground (arith, good.1) in
        rw (n, g) ((sent-ChunkIsValid name a n good.0, later.0), omega (arith, later.1, room_left))
  ]
]

engine_run-Delivered :
    (request : TtsRequest) (room : ℕ) (e : TtsEngine)
    → Delivered e.name room (engine_run request room e).chunks
unfolding engine_run
engine_run-Delivered request room e =
    play-Delivered e.name room (e.speaks request).0 (e.speaks request).1

-- Whatever the engines try to send, what reaches the receiver are chunks of one engine, each with
-- samples, a sample rate and whole frames for its channels, and no more than the receiver takes.
pub synthesize-Delivered :
    (request : TtsRequest) (room : ℕ) (engines : List TtsEngine)
    → (name : Text) × Delivered name room (synthesize request room engines).0
synthesize-Delivered request room engines =
    let language = canonical_language request.language in
    rw (synthesize-outcome request room engines)
      (by_speaker (first_speaker request room language engines))
  where
    by_speaker :
        (speaker : Option TtsEngine)
        → (name : Text) × Delivered name room
            (outcome request room speaker
              (canonical_language request.language)
              (candidates_of request room (canonical_language request.language) engines)
              (failures_of request room (canonical_language request.language) engines)).0
    by_speaker none = ([], (tt, omega arith))
    by_speaker (some e) = (e.name, engine_run-Delivered request room e)
