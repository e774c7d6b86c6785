-- ===== src/Rooms/Mixer/Queues.antt =====
-- The mixer's queues stay bounded and hold whole frames only, so `mix_frames` indexes in bounds.
use voice_elf.Prelude.{
  subst, ℕ, ◌≤◌, ◌<◌, ◌≡◌, refl, List, [], ◌∷◌, ◌++◌, length, length-append, Option, none, some,
  ◌==◌, if_intro, arith,
}
use voice_elf.Audio.Pcm.{frame_samples, decode_frame}
use voice_elf.Audio.Pcm.Codec.{decode_frame-length}
use voice_elf.Pipeline.Session.Types.{SpeakerIdentity}
use voice_elf.Rooms.Mixer.{
  ℤ, Mixer, MixerInput, MixedSegment, Now, Popped, RoomAudioCommand, SpeakerStream, command, tick,
  configure_room, start_speaker, audio_of, end_speaker, remove_speaker, shutdown, update, upsert,
  remove, queue_frame, start_stream, queue_audio, on_command, pop_one, pop_frames, collect,
  close_check, on_tick, on_input,
}

abbrev pub WholeFrames : List (List ℤ) → Type 0
WholeFrames [] = Unit {0}
WholeFrames (frame ∷ rest) = (length frame ≡ frame_samples) × WholeFrames rest

pub record StreamIsValid (stream : SpeakerStream) : Type 0 where
  pub bounded : length stream.frames ≤ 48
  pub whole : WholeFrames stream.frames

abbrev pub StreamsAreValid : List (ℕ × SpeakerStream) → Type 0
StreamsAreValid [] = Unit {0}
StreamsAreValid ((user_id, stream) ∷ rest) = StreamIsValid stream × StreamsAreValid rest

abbrev pub PoppedWhole : List Popped → Type 0
PoppedWhole [] = Unit {0}
PoppedWhole ((user_id, (identity, frame)) ∷ rest) =
    (length frame ≡ frame_samples) × PoppedWhole rest

abbrev pub SegmentIsFresh : Option MixedSegment → Type 0
SegmentIsFresh none = Unit {0}
SegmentIsFresh (some segment) = segment.idle_ticks < 12

-- Queues of at most 48 whole frames, and a segment that has not been idle for twelve ticks.
pub record IsValid (m : Mixer) : Type 0 where
  pub streams : StreamsAreValid m.streams
  pub fresh : SegmentIsFresh m.segment

WholeFrames-append :
    (xs : List (List ℤ)) (frame : List ℤ)
    → WholeFrames xs
    → length frame ≡ frame_samples
    → WholeFrames (xs ++ frame ∷ [])
WholeFrames-append [] frame h e = (e, tt)
WholeFrames-append (x ∷ xs) frame h e = (h.0, WholeFrames-append xs frame h.1 e)

update-StreamsAreValid :
    (user_id : ℕ) (change : SpeakerStream → SpeakerStream) (streams : List (ℕ × SpeakerStream))
    → ((stream : SpeakerStream) → StreamIsValid stream → StreamIsValid (change stream))
    → StreamsAreValid streams
    → StreamsAreValid (update user_id change streams)
update-StreamsAreValid user_id change [] f h = tt
update-StreamsAreValid user_id change ((k, stream) ∷ rest) f h =
    if_intro StreamsAreValid (k == user_id) (f stream h.0, h.1)
      (h.0, update-StreamsAreValid user_id change rest f h.1)

upsert-StreamsAreValid :
    (user_id : ℕ) (fresh : SpeakerStream) (change : SpeakerStream → SpeakerStream)
    (streams : List (ℕ × SpeakerStream))
    → StreamIsValid fresh
    → ((stream : SpeakerStream) → StreamIsValid stream → StreamIsValid (change stream))
    → StreamsAreValid streams
    → StreamsAreValid (upsert user_id fresh change streams)
upsert-StreamsAreValid user_id fresh change [] n f h = (n, tt)
upsert-StreamsAreValid user_id fresh change ((k, stream) ∷ rest) n f h =
    if_intro StreamsAreValid (k == user_id) (f stream h.0, h.1)
      (h.0, upsert-StreamsAreValid user_id fresh change rest n f h.1)

remove-StreamsAreValid :
    (user_id : ℕ) (streams : List (ℕ × SpeakerStream))
    → StreamsAreValid streams
    → StreamsAreValid (remove user_id streams)
remove-StreamsAreValid user_id [] h = tt
remove-StreamsAreValid user_id ((k, stream) ∷ rest) h =
    if_intro StreamsAreValid (k == user_id) h.1 (h.0, remove-StreamsAreValid user_id rest h.1)

queue_frame-StreamIsValid :
    (frame : List ℤ) (stream : SpeakerStream)
    → length frame ≡ frame_samples
    → StreamIsValid stream
    → StreamIsValid (queue_frame frame stream)
queue_frame-StreamIsValid frame stream e v =
    let w = WholeFrames-append stream.frames frame v.whole e in
    let n = length-append stream.frames (frame ∷ []) in ground (arith, w, n)

queue_audio-IsValid :
    (m : Mixer) (user_id : ℕ) (frame : Option (List ℤ))
    → ((xs : List ℤ) → frame ≡ some xs → length xs ≡ frame_samples)
    → IsValid m
    → IsValid (queue_audio m user_id frame).0
queue_audio-IsValid m user_id none f v = v
queue_audio-IsValid m user_id (some frame) f v = record {
  streams =
      update-StreamsAreValid user_id (queue_frame frame) m.streams
        (λ stream. queue_frame-StreamIsValid frame stream (f frame refl)) v.streams;
  fresh = v.fresh;
}

start_stream-IsValid :
    (m : Mixer) (speaker : SpeakerIdentity) (user : Option ℕ)
    → IsValid m
    → IsValid (start_stream m speaker user).0
start_stream-IsValid m speaker none v = v
start_stream-IsValid m speaker (some user_id) v = record {
  streams =
      upsert-StreamsAreValid user_id _ _ m.streams (record { bounded = omega arith; whole = tt })
        (λ stream h. record { bounded = h.bounded; whole = h.whole }) v.streams;
  fresh = v.fresh;
}

on_command-IsValid : (m : Mixer) (c : RoomAudioCommand) → IsValid m → IsValid (on_command m c).0
unfolding on_command
on_command-IsValid m (configure_room next) v = record { streams = v.streams; fresh = v.fresh }
on_command-IsValid m (start_speaker speaker) v = start_stream-IsValid m speaker speaker.user_id v
on_command-IsValid m (audio_of user_id bytes) v =
    queue_audio-IsValid m user_id (decode_frame bytes) (λ xs e. (decode_frame-length bytes xs e).1)
      v
on_command-IsValid m (end_speaker user_id) v = record {
  streams =
      update-StreamsAreValid user_id _ m.streams
        (λ stream h. record { bounded = h.bounded; whole = h.whole }) v.streams;
  fresh = v.fresh;
}
on_command-IsValid m (remove_speaker user_id) v = record {
  streams = remove-StreamsAreValid user_id m.streams v.streams;
  fresh = v.fresh;
}
on_command-IsValid m shutdown v = v

pop_one-StreamIsValid :
    (stream : SpeakerStream) (frames : List (List ℤ))
    → stream.frames ≡ frames
    → StreamIsValid stream
    → StreamIsValid (pop_one stream frames).0
pop_one-StreamIsValid stream [] e v = v
pop_one-StreamIsValid stream (frame ∷ rest) e v =
    let w : WholeFrames (frame ∷ rest) = subst WholeFrames e v.whole in
    let n : length (frame ∷ rest) ≤ 48 =
      subst (λ (fs : List (List ℤ)). length fs ≤ 48) e v.bounded in
    record { bounded = omega arith; whole = w.1 }

pop_frames-StreamsAreValid :
    (streams : List (ℕ × SpeakerStream))
    → StreamsAreValid streams
    → StreamsAreValid (pop_frames streams).0
unfolding pop_frames
pop_frames-StreamsAreValid [] h = tt
pop_frames-StreamsAreValid ((user_id, stream) ∷ rest) h =
    (pop_one-StreamIsValid stream stream.frames refl h.0, pop_frames-StreamsAreValid rest h.1)

collect-PoppedWhole :
    (user_id : ℕ) (stream : SpeakerStream) (frames : List (List ℤ)) (popped : List Popped)
    → WholeFrames frames
    → PoppedWhole popped
    → PoppedWhole (collect user_id stream.identity (pop_one stream frames).1 popped)
collect-PoppedWhole user_id stream [] popped h k = k
collect-PoppedWhole user_id stream (frame ∷ rest) popped h k = (h.0, k)

-- Every frame that a tick of a valid mixer mixes has 512 samples.
pub pop_frames-PoppedWhole :
    (streams : List (ℕ × SpeakerStream))
    → StreamsAreValid streams
    → PoppedWhole (pop_frames streams).1
unfolding pop_frames
pop_frames-PoppedWhole [] h = tt
pop_frames-PoppedWhole ((user_id, stream) ∷ rest) h =
    collect-PoppedWhole user_id stream stream.frames (pop_frames rest).1 h.0.whole
      (pop_frames-PoppedWhole rest h.1)

close_check-fresh :
    (segment : Option MixedSegment) (now : Now) → SegmentIsFresh (close_check segment now).0
unfolding close_check
close_check-fresh none now = tt
close_check-fresh (some current) now = ground arith

on_tick-IsValid : (m : Mixer) (now : Now) → IsValid m → IsValid (on_tick m now).0
unfolding on_tick
on_tick-IsValid m now v = record {
  streams = pop_frames-StreamsAreValid m.streams v.streams;
  fresh = close_check-fresh _ now;
}

-- Whatever command arrives or the clock says, a valid mixer stays valid.
pub on_input-IsValid : (m : Mixer) (input : MixerInput) → IsValid m → IsValid (on_input m input).0
unfolding on_input
on_input-IsValid m (command c) v = on_command-IsValid m c v
on_input-IsValid m (tick now) v = on_tick-IsValid m now v
