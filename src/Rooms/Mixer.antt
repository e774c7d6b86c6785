-- ===== src/Rooms/Mixer.antt =====
-- `run_room_mixer` of server/src/room_hub.rs: commands and ticks, one handler for each. A hash map is
-- a list of pairs, in some order. `now` is what the clock says at a tick, and the identifier that a
-- new segment would get. The pipeline's receiver is taken to be open.
pub mod Protocol
pub mod Queues
use voice_elf.Prelude.{
  ℕ, suc, ◌+◌, ◌*◌, ◌/◌, Bool, true, false, not, ◌||◌, ◌&&◌, List, [], ◌∷◌, ◌++◌, map, length,
  Option, none, some, leb, ltb, ◌==◌, if◌then◌else◌,
}
use voice_elf.Prelude.Int.{ℤ}
use voice_elf.Prelude.Text.{Text}
use voice_elf.Audio.Pcm.{frame_samples, decode_frame, pcm16_bytes}
use voice_elf.Pipeline.Config.{SessionConfig}
use voice_elf.Pipeline.Session.Types.{
  SpeakerIdentity, ClientVadStart, ClientVadEnd, VadEndReason, PipelineInput, event, audio,
  speakers, configure, start, end_segment, silence, max_duration, manual,
}
use voice_elf.Rooms.Mix.{mix_frames}

abbrev pub segment_close_ticks : ℕ
segment_close_ticks = 12

abbrev pub max_queued_frames : ℕ
max_queued_frames = 48

pub data RoomAudioCommand : Type 0 where
  configure_room : SessionConfig → RoomAudioCommand
  start_speaker : SpeakerIdentity → RoomAudioCommand
  audio_of : ℕ → List ℕ → RoomAudioCommand
  end_speaker remove_speaker : ℕ → RoomAudioCommand
  shutdown : RoomAudioCommand

pub record SpeakerStream : Type 0 where
  pub identity : SpeakerIdentity
  pub active : Bool
  pub frames : List (List ℤ)

pub record MixedSegment : Type 0 where
  pub id : ℕ
  pub config : SessionConfig
  pub sample_count : ℕ
  pub idle_ticks : ℕ
  pub speakers : List (ℕ × SpeakerIdentity)

pub record Mixer : Type 0 where
  pub config : SessionConfig
  pub streams : List (ℕ × SpeakerStream)
  pub segment : Option MixedSegment

-- `speaking` is a call of `hub.set_speaking`.
pub data MixerEffect : Type 0 where
  to_pipeline : PipelineInput → MixerEffect
  speaking : ℕ → Bool → MixerEffect

-- The identifier for a new segment, and whether `elapsed()` has reached the segment's duration when
-- the loop asks whether to close it, and again when it asks why.
pub record Now : Type 0 where
  pub fresh_id : ℕ
  pub over : Bool
  pub over_again : Bool

pub data MixerInput : Type 0 where
  command : RoomAudioCommand → MixerInput
  tick : Now → MixerInput

module _ {A : Type 0} where
  -- `insert`, and `entry(..)` with an update.
  abbrev pub upsert : ℕ → A → (A → A) → List (ℕ × A) → List (ℕ × A)
  upsert key fresh change [] = (key, fresh) ∷ []
  upsert key fresh change ((k, a) ∷ rest) =
      if k == key then (k, change a) ∷ rest else (k, a) ∷ upsert key fresh change rest

  -- `get_mut` with an update.
  abbrev pub update : ℕ → (A → A) → List (ℕ × A) → List (ℕ × A)
  update key change [] = []
  update key change ((k, a) ∷ rest) =
      if k == key then (k, change a) ∷ rest else (k, a) ∷ update key change rest

  abbrev pub remove : ℕ → List (ℕ × A) → List (ℕ × A)
  remove key [] = []
  remove key ((k, a) ∷ rest) = if k == key then rest else (k, a) ∷ remove key rest

abbrev pub queue_frame : List ℤ → SpeakerStream → SpeakerStream
queue_frame frame stream =
    if stream.active && ltb (length stream.frames) max_queued_frames
    then record stream { frames = stream.frames ++ frame ∷ [] }
    else stream

-- The command `Start` of a speaker with or without an identifier.
abbrev pub start_stream : Mixer → SpeakerIdentity → Option ℕ → Mixer × List MixerEffect
start_stream m speaker none = (m, [])
start_stream m speaker (some user_id) = (
  record m {
    streams =
        upsert user_id (record { identity = speaker; active = true; frames = [] })
          (λ stream. record stream { identity = speaker; active = true }) m.streams;
  },
  speaking user_id true ∷ [],
)

abbrev pub queue_audio : Mixer → ℕ → Option (List ℤ) → Mixer × List MixerEffect
queue_audio m user_id none = (m, [])
queue_audio m user_id (some frame) =
    (record m { streams = update user_id (queue_frame frame) m.streams }, [])

unfoldable pub on_command : Mixer → RoomAudioCommand → Mixer × List MixerEffect
on_command m (configure_room next) =
    (record m { config = next }, to_pipeline (event (configure next)) ∷ [])
on_command m (start_speaker speaker) = start_stream m speaker speaker.user_id
on_command m (audio_of user_id bytes) = queue_audio m user_id (decode_frame bytes)
on_command m (end_speaker user_id) = (
  record m { streams = update user_id (λ stream. record stream { active = false }) m.streams },
  speaking user_id false ∷ [],
)
on_command m (remove_speaker user_id) =
    (record m { streams = remove user_id m.streams }, speaking user_id false ∷ [])
on_command m shutdown = (m, [])

-- `pop_front` on one speaker's queue.
abbrev pub pop_one : SpeakerStream → List (List ℤ) → SpeakerStream × Option (List ℤ)
pop_one stream [] = (stream, none)
pop_one stream (frame ∷ rest) = (record stream { frames = rest }, some frame)

abbrev pub Popped : Type 0
Popped = ℕ × (SpeakerIdentity × List ℤ)

abbrev pub collect : ℕ → SpeakerIdentity → Option (List ℤ) → List Popped → List Popped
collect user_id identity none rest = rest
collect user_id identity (some frame) rest = (user_id, (identity, frame)) ∷ rest

unfoldable pub pop_frames : List (ℕ × SpeakerStream) → List (ℕ × SpeakerStream) × List Popped
pop_frames [] = ([], [])
pop_frames ((user_id, stream) ∷ rest) =
    let (stream', frame) = pop_one stream stream.frames in
    let (rest', frames) = pop_frames rest in
    ((user_id, stream') ∷ rest', collect user_id stream.identity frame frames)

abbrev pub text_leb : Text → Text → Bool
text_leb [] ys = true
text_leb (x ∷ xs) [] = false
text_leb (x ∷ xs) (y ∷ ys) = ltb x y || (x == y && text_leb xs ys)

abbrev pub insert_by_name : SpeakerIdentity → List SpeakerIdentity → List SpeakerIdentity
insert_by_name s [] = s ∷ []
insert_by_name s (t ∷ ts) =
    if text_leb s.username t.username then s ∷ t ∷ ts else t ∷ insert_by_name s ts

-- `sort_by` on the user name, which is stable.
abbrev pub sort_by_name : List SpeakerIdentity → List SpeakerIdentity
sort_by_name [] = []
sort_by_name (s ∷ ss) = insert_by_name s (sort_by_name ss)

-- A new segment, unless there is one.
abbrev pub opened_segment : Mixer → Now → Option MixedSegment → MixedSegment × List MixerEffect
opened_segment m now (some segment) = (segment, [])
opened_segment m now none =
    let vad : ClientVadStart = record {
      engine_blank = false;
      sample_rate = 16000;
      frame_length = frame_samples;
      pre_roll = 0;
    } in
    (
      record {
        id = now.fresh_id;
        config = m.config;
        sample_count = 0;
        idle_ticks = 0;
        speakers = [];
      },
      to_pipeline (event (start now.fresh_id (some vad) m.config)) ∷ [],
    )

abbrev pub add_speakers : List Popped → List (ℕ × SpeakerIdentity) → List (ℕ × SpeakerIdentity)
add_speakers [] known = known
add_speakers ((user_id, (identity, frame)) ∷ rest) known =
    add_speakers rest (upsert user_id identity (λ _. identity) known)

abbrev pub participants : List (ℕ × SpeakerIdentity) → List SpeakerIdentity
participants known = sort_by_name (map (λ p. p.1) known)

-- A tick's frames in the current segment: its new speakers are told, and the frames mixed.
unfoldable pub mix_into : MixedSegment → List Popped → MixedSegment × List MixerEffect
mix_into current frames =
    let known = add_speakers frames current.speakers in
    let mixed = mix_frames (map (λ p. p.1.1) frames) in
    (
      record current {
        speakers = known;
        sample_count = current.sample_count + length mixed;
        idle_ticks = 0;
      },
      (if not (length known == length current.speakers)
            then to_pipeline (speakers current.id (participants known)) ∷ []
            else [])
          ++ to_pipeline (audio (pcm16_bytes mixed)) ∷ [],
    )

-- The remains of the condition on a tick without frames, after the queues have been popped.
abbrev pub any_busy : List (ℕ × SpeakerStream) → Bool
any_busy [] = false
any_busy ((user_id, stream) ∷ rest) =
    (stream.active || not (length stream.frames == 0)) || any_busy rest

abbrev pub count_idle : Bool → MixedSegment → MixedSegment
count_idle busy current = record current { idle_ticks = if busy then 0 else current.idle_ticks + 1 }

unfoldable pub finish_mixed_segment : MixedSegment → VadEndReason → List MixerEffect
finish_mixed_segment segment reason =
    to_pipeline (
      event (
        end_segment segment.id (ltb segment.sample_count (frame_samples * 6)) (
          some (record {
            reason = reason;
            sample_count = segment.sample_count;
            speech_frames = some (segment.sample_count / frame_samples);
          }))))
    ∷ []

-- The end of a tick.
unfoldable pub close_check : Option MixedSegment → Now → Option MixedSegment × List MixerEffect
close_check none now = (none, [])
close_check (some current) now =
    if leb segment_close_ticks current.idle_ticks || now.over
    then (none, finish_mixed_segment current (if now.over_again then max_duration else silence))
    else (some current, [])

abbrev pub counted : Bool → Option MixedSegment → Option MixedSegment
counted busy none = none
counted busy (some current) = some (count_idle busy current)

-- What a tick does with the frames that it took.
unfoldable pub take_in : Mixer → Now → List Popped → Option MixedSegment × List MixerEffect
take_in m now (frame ∷ rest) =
    let (current, opening) = opened_segment m now m.segment in
    let (current', mixing) = mix_into current (frame ∷ rest) in (some current', opening ++ mixing)
take_in m now [] = (counted (any_busy m.streams) m.segment, [])

unfoldable pub on_tick : Mixer → Now → Mixer × List MixerEffect
on_tick m now =
    let (streams, frames) = pop_frames m.streams in
    let (segment, mixing) = take_in (record m { streams = streams }) now frames in
    let (segment', closing) = close_check segment now in
    (record m { streams = streams; segment = segment' }, mixing ++ closing)

unfoldable pub on_input : Mixer → MixerInput → Mixer × List MixerEffect
on_input m (command c) = on_command m c
on_input m (tick now) = on_tick m now

abbrev pub silence_all : List (ℕ × SpeakerStream) → List MixerEffect
silence_all [] = []
silence_all ((user_id, stream) ∷ rest) = speaking user_id false ∷ silence_all rest

abbrev pub finish_last : Option MixedSegment → List MixerEffect
finish_last none = []
finish_last (some segment) = finish_mixed_segment segment manual

-- What follows the loop: after `Shutdown`, or when the commands' channel is closed.
unfoldable pub shut_down : Mixer → List MixerEffect
shut_down m = silence_all m.streams ++ finish_last m.segment

-- Whether the loop is left.
abbrev pub stops : MixerInput → Bool
stops (command shutdown) = true
stops _ = false

-- The inputs until the commands' channel is closed.
unfoldable pub run : Mixer → List MixerInput → List MixerEffect
run m [] = shut_down m
run m (input ∷ rest) =
    let later = run (on_input m input).0 rest in
    if stops input then shut_down m else (on_input m input).1 ++ later
