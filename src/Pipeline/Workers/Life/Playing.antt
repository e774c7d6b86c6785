-- ===== src/Pipeline/Workers/Life/Playing.antt =====
-- The stream of one utterance: the voice, and the chunks as they arrive.
use voice_elf.Prelude.{
  ==_iff, ℕ, ◌≤◌, ◌==◌, ◌≡◌, refl, sym, subst, Bool, true, false, if◌then◌else◌, List, [], ◌∷◌,
  Option, none, some,
}
use voice_elf.Prelude.Int.{ℤ}
use voice_elf.Prelude.Text.{Text, text_eq}
use voice_elf.Pipeline.Session.Types.{UtteranceJob}
use voice_elf.Tts.{TtsAudioChunk}
use voice_elf.Pipeline.Workers.Trace.{◌>>=◌, emit, fail}
use voice_elf.Pipeline.Workers.Types.{Action, WorkerContext, StoreCall, SynthesisJob, other}
use voice_elf.Pipeline.Workers.Recognition.{WorkM}
use voice_elf.Pipeline.Workers.Speech.{
  VoiceReference, query_failed, not_owned, owned, SpeechAnswers, reference_found, reference_path,
  reference_of, Stream, no_stream, receive_chunk, receive_chunks,
}
use voice_elf.Pipeline.Workers.Life
use voice_elf.Pipeline.Workers.Life.Rules.{
  Runs, runs, Runs-bind, Runs-emit, Runs-pure, Runs-fail, Runs-guard,
}

-- Every chunk has channels, as the sink of the synthesiser checks.
abbrev pub HaveChannels : List TtsAudioChunk → Type 0
HaveChannels [] = Unit {0}
HaveChannels (x ∷ xs) = (1 ≤ x.audio.channels) × HaveChannels xs

abbrev pub stream_of : ℕ → ℕ → Text → List ℤ → Stream
stream_of rate channels engine xs = record {
  samples = xs;
  sample_rate = some rate;
  channels = some channels;
  engine = some engine;
  started = true;
}

-- The stage that a stream has come to.
pub data Tracks : Stream → Life.Stage → Type 0 where
  not_begun : (d : Text) → Tracks no_stream (Life.speaking_text d)
  begun :
      (rate channels : ℕ) (engine : Text) (xs : List ℤ)
      → 1 ≤ channels
      → Tracks (stream_of rate channels engine xs) (Life.playing_stream rate channels xs)

Tracks-begun :
    (rate channels rate' channels' : ℕ) (engine : Text) (xs : List ℤ)
    → rate ≡ rate'
    → channels ≡ channels'
    → 1 ≤ channels'
    → Tracks (stream_of rate' channels' engine xs) (Life.playing_stream rate channels xs)
Tracks-begun rate channels rate' channels' engine xs e e' h =
    subst (λ r. Tracks (stream_of rate' channels' engine xs) (Life.playing_stream r channels xs))
      (sym e)
      (subst (λ n. Tracks (stream_of rate' channels' engine xs) (Life.playing_stream rate' n xs))
        (sym e') (begun rate' channels' engine xs h))

module _ (c : WorkerContext) (a : SpeechAnswers) (j : SynthesisJob) where
  abbrev job : UtteranceJob
  job = j.work.job

  abbrev R : {A : Type 0} → Life.Stage → WorkM A → (A → Life.Stage → Type 0) → Type 0
  R = Runs c job Life.speaker

  pub reference_of-Runs :
      (d : Text) (voice : Option ℕ)
      → R (Life.preparing_speech d) (reference_of c a voice) (λ _ s. s ≡ Life.preparing_speech d)
  reference_of-Runs d none = Runs-pure c job Life.speaker _ _ _ refl
  reference_of-Runs d (some voice) = by_database c.has_database refl a.reference
    where
      by_database :
          (b : Bool)
          → c.has_database ≡ b
          → (r : VoiceReference)
          → R
              (Life.preparing_speech d)
              (if b
                then (emit (Action.store (StoreCall.get_voice_reference voice) (reference_found r))
                    >>= λ _. reference_path r)
                else fail other)
              (λ _ s. s ≡ Life.preparing_speech d)
      by_database false e r = Runs-fail c job Life.speaker _ _ (Life.preparation d)
      by_database true e query_failed =
          runs c job (Life.broken Life.speaker)
            (Life.go _ _ _ _ _ (Life.lose_voice d voice) (Life.stay _))
            (Life.broken_off Life.speaker)
      by_database true e not_owned =
          runs c job (Life.preparing_speech d)
            (Life.go _ _ _ _ _ (Life.find_voice d voice e) (Life.stay _)) (Life.preparation d)
      by_database true e (owned path) =
          runs c job (Life.preparing_speech d)
            (Life.go _ _ _ _ _ (Life.find_voice d voice e) (Life.stay _)) refl

  receive_chunk-Runs :
      (s : Stream) (m : Life.Stage) (chunk : TtsAudioChunk)
      → Tracks s m
      → 1 ≤ chunk.audio.channels
      → R m (receive_chunk job.id s chunk) Tracks
  unfolding receive_chunk
  receive_chunk-Runs s m chunk (not_begun d) h =
      Runs-emit c job Life.speaker _ _ _ _ _ (Life.start_audio _ _ _ _) (
        Runs-emit c job Life.speaker _ _ _ _ _ (Life.begin_playing _ _) (
          Runs-emit c job Life.speaker _ _ _ _ _ (Life.play_chunk _ _ _ _)
            (Runs-pure c job Life.speaker _ _ _ (begun _ _ _ _ h))))
  receive_chunk-Runs s m chunk (begun rate channels engine xs h') h =
      Runs-guard c job Life.speaker _ _ (rate == chunk.audio.sample_rate) _ (Life.playback _ _ _)
        (λ same_rate.
          Runs-guard c job Life.speaker _ _ (channels == chunk.audio.channels) _
            (Life.playback _ _ _)
            (λ same_channels.
              Runs-guard c job Life.speaker _ _ (text_eq engine chunk.engine) _
                (Life.playback _ _ _)
                (λ same. Runs-emit c job Life.speaker _ _ _ _ _ (Life.play_chunk _ _ _ _) (
                  Runs-pure c job Life.speaker _ _ _ (
                    Tracks-begun rate channels _ _ _ _ ((==_iff _ _).0 same_rate)
                      ((==_iff _ _).0 same_channels) h)))))

  pub receive_chunks-Runs :
      (s : Stream) (m : Life.Stage) (chunks : List TtsAudioChunk)
      → Tracks s m
      → HaveChannels chunks
      → R m (receive_chunks job.id s chunks) Tracks
  unfolding receive_chunks
  receive_chunks-Runs s m [] t h = Runs-pure c job Life.speaker _ _ _ t
  receive_chunks-Runs s m (x ∷ xs) t h =
      Runs-bind c job Life.speaker Tracks Tracks m (receive_chunk job.id s x)
        (λ s'. receive_chunks job.id s' xs) (receive_chunk-Runs s m x t h.0)
        (λ s' m' t'. receive_chunks-Runs s' m' xs t' h.1)
