-- ===== src/Rooms/Mixer/Protocol.antt =====
-- What the mixer sends to the pipeline is a conversation that the pipeline accepts.
use voice_elf.Prelude.{
  subst, ℕ, ◌+◌, ◌*◌, ◌/◌, ◌≡◌, refl, sym, ap, ◌∙◌, Bool, not, List, [], ◌∷◌, ◌++◌, map, length,
  Option, none, some, ltb, leb, ◌==◌, ◌||◌, if_intro, if◌then◌else◌,
}
use voice_elf.Audio.Pcm.{decode_frame, pcm16_bytes}
use voice_elf.Audio.Pcm.Codec.{length-pcm16_bytes}
use voice_elf.Pipeline.Config.{SessionConfig}
use voice_elf.Pipeline.Session.Types.{
  SpeakerIdentity, ClientVadStart, ClientVadEnd, VadEndReason, PipelineInput, event, audio,
  speakers, configure, start, end_segment, manual, validate_vad_start,
}
use voice_elf.Rooms.Mix.{mix_frames}
use voice_elf.Rooms.Mix.Average.{length-mix_frames}
use voice_elf.Rooms.Mixer.{
  ℤ, Mixer, MixerEffect, MixerInput, MixedSegment, Now, Popped, RoomAudioCommand, SpeakerStream,
  to_pipeline, speaking, command, tick, configure_room, start_speaker, audio_of, end_speaker,
  remove_speaker, start_stream, queue_audio, on_command, opened_segment, mix_into, add_speakers,
  participants, finish_mixed_segment, close_check, counted, any_busy, pop_frames, take_in, on_tick,
  on_input, silence_all, finish_last, shut_down, stops, shutdown, run,
}

-- The state of a conversation: no segment, or one with its identifier and the samples sent so far.
pub data Talk : Type 0 where
  quiet : Talk
  talking : ℕ → ℕ → Talk

-- One input that the pipeline may get: a start while no segment is open, with metadata that the
-- pipeline accepts; whole frames and speakers for the open segment only; and its end, with
-- the exact number of samples and frames, and silent exactly if it has fewer than six frames.
pub data Takes : Talk → PipelineInput → Talk → Type 0 where
  configured : (t : Talk) (c : SessionConfig) → Takes t (event (configure c)) t
  opened :
      (id : ℕ) (vad : ClientVadStart) (c : SessionConfig)
      → validate_vad_start vad ≡ none
      → Takes quiet (event (start id (some vad) c)) (talking id 0)
  heard :
      (id n : ℕ) (bytes : List ℕ)
      → length bytes ≡ 1024
      → Takes (talking id n) (audio bytes) (talking id (n + 512))
  named :
      (id n : ℕ) (names : List SpeakerIdentity)
      → Takes (talking id n) (speakers id names) (talking id n)
  ended :
      (id n : ℕ) (silent : Bool) (m : ClientVadEnd)
      → m.sample_count ≡ n
      → m.speech_frames ≡ some (n / 512)
      → silent ≡ ltb n 3072
      → Takes (talking id n) (event (end_segment id silent (some m))) quiet

-- The effects lead from one state of the conversation to another.
abbrev pub Follows : Talk → List MixerEffect → Talk → Type 0
Follows t [] t' = t ≡ t'
Follows t (to_pipeline input ∷ es) t' = (next : Talk) × (Takes t input next × Follows next es t')
Follows t (speaking user_id on ∷ es) t' = Follows t es t'

pub Follows-append :
    (a b c : Talk) (xs ys : List MixerEffect)
    → Follows a xs b
    → Follows b ys c
    → Follows a (xs ++ ys) c
Follows-append a b c [] ys h k = subst (λ t. Follows t ys c) (sym h) k
Follows-append a b c (to_pipeline input ∷ xs) ys h k =
    (h.0, (h.1.0, Follows-append h.0 b c xs ys h.1.1 k))
Follows-append a b c (speaking user_id on ∷ xs) ys h k = Follows-append a b c xs ys h k

abbrev pub talk_of : Option MixedSegment → Talk
talk_of none = quiet
talk_of (some segment) = talking segment.id segment.sample_count

start_stream-Follows :
    (m : Mixer) (speaker : SpeakerIdentity) (user : Option ℕ)
    → Follows
        (talk_of m.segment)
        (start_stream m speaker user).1
        (talk_of (start_stream m speaker user).0.segment)
start_stream-Follows m speaker none = refl
start_stream-Follows m speaker (some user_id) = refl

queue_audio-Follows :
    (m : Mixer) (user_id : ℕ) (frame : Option (List ℤ))
    → Follows
        (talk_of m.segment)
        (queue_audio m user_id frame).1
        (talk_of (queue_audio m user_id frame).0.segment)
queue_audio-Follows m user_id none = refl
queue_audio-Follows m user_id (some frame) = refl

on_command-Follows :
    (m : Mixer) (c : RoomAudioCommand)
    → Follows (talk_of m.segment) (on_command m c).1 (talk_of (on_command m c).0.segment)
unfolding on_command
on_command-Follows m (configure_room next) =
    (talk_of m.segment, (configured (talk_of m.segment) next, refl))
on_command-Follows m (start_speaker speaker) = start_stream-Follows m speaker speaker.user_id
on_command-Follows m (audio_of user_id bytes) = queue_audio-Follows m user_id (decode_frame bytes)
on_command-Follows m (end_speaker user_id) = refl
on_command-Follows m (remove_speaker user_id) = refl
on_command-Follows m shutdown = refl

opened_segment-Follows :
    (m : Mixer) (now : Now) (segment : Option MixedSegment)
    → Follows
        (talk_of segment)
        (opened_segment m now segment).1
        (talk_of (some (opened_segment m now segment).0))
unfolding validate_vad_start
opened_segment-Follows m now none =
    (talking now.fresh_id 0, (opened now.fresh_id _ m.config refl, refl))
opened_segment-Follows m now (some segment) = refl

mix_into-Follows :
    (current : MixedSegment) (frames : List Popped)
    → Follows
        (talk_of (some current))
        (mix_into current frames).1
        (talk_of (some (mix_into current frames).0))
unfolding mix_into
mix_into-Follows current frames =
    let known = add_speakers frames current.speakers in
    let mixed = mix_frames (map (λ p. p.1.1) frames) in
    let size : length mixed ≡ 512 = length-mix_frames (map (λ p. p.1.1) frames) in
    let now = talking current.id current.sample_count in
    let next = talking current.id (current.sample_count + length mixed) in
    let told : List MixerEffect =
      if not (length known == length current.speakers)
      then to_pipeline (speakers current.id (participants known)) ∷ []
      else [] in
    let tells : Follows now told now =
      if_intro (λ es. Follows now es now) (not (length known == length current.speakers))
        {x = to_pipeline (speakers current.id (participants known)) ∷ []} {y = []}
        (now, (named current.id current.sample_count (participants known), refl)) refl in
    Follows-append now now next told (to_pipeline (audio (pcm16_bytes mixed)) ∷ []) tells (
      talking current.id (current.sample_count + 512),
      (
        heard current.id current.sample_count (pcm16_bytes mixed)
            (length-pcm16_bytes mixed ∙ ap (λ (k : ℕ). k * 2) size),
        ap (λ (k : ℕ). talking current.id (current.sample_count + k)) (sym size),
      ),
    )

finish-Follows :
    (segment : MixedSegment) (reason : VadEndReason)
    → Follows (talk_of (some segment)) (finish_mixed_segment segment reason) quiet
unfolding finish_mixed_segment
finish-Follows segment reason =
    (quiet, (ended segment.id segment.sample_count _ _ refl refl refl, refl))

close_check-Follows :
    (segment : Option MixedSegment) (now : Now)
    → Follows (talk_of segment) (close_check segment now).1 (talk_of (close_check segment now).0)
unfolding close_check
close_check-Follows none now = refl
close_check-Follows (some current) now =
    if_intro {A = Option MixedSegment × List MixerEffect}
      (λ r. Follows (talk_of (some current)) r.1 (talk_of r.0))
      (leb 12 current.idle_ticks || now.over) (finish-Follows current _) refl

take_in-Follows :
    (m : Mixer) (now : Now) (frames : List Popped)
    → Follows (talk_of m.segment) (take_in m now frames).1 (talk_of (take_in m now frames).0)
unfolding take_in
take_in-Follows m now [] = by_segment (any_busy m.streams) m.segment
  where
    by_segment :
        (busy : Bool) (segment : Option MixedSegment)
        → talk_of segment ≡ talk_of (counted busy segment)
    by_segment busy none = refl
    by_segment busy (some current) = refl
take_in-Follows m now (frame ∷ rest) =
    let current = opened_segment m now m.segment in
    Follows-append _ _ _ current.1 _ (opened_segment-Follows m now m.segment)
      (mix_into-Follows current.0 (frame ∷ rest))

-- Whatever command arrives or the clock says, what the mixer sends to the pipeline goes on with the
-- conversation of its open segment, and leads to the state of the segment that it then has.
pub on_input-Follows :
    (m : Mixer) (input : MixerInput)
    → Follows (talk_of m.segment) (on_input m input).1 (talk_of (on_input m input).0.segment)
unfolding on_input on_tick
on_input-Follows m (command c) = on_command-Follows m c
on_input-Follows m (tick now) =
    let (streams, frames) = pop_frames m.streams in
    let taken = take_in (record m { streams = streams }) now frames in
    Follows-append _ _ _ taken.1 _ (take_in-Follows (record m { streams = streams }) now frames)
      (close_check-Follows taken.0 now)

silence_all-Follows :
    (t : Talk) (streams : List (ℕ × SpeakerStream)) → Follows t (silence_all streams) t
silence_all-Follows t [] = refl
silence_all-Follows t ((user_id, stream) ∷ rest) = silence_all-Follows t rest

finish_last-Follows :
    (segment : Option MixedSegment) → Follows (talk_of segment) (finish_last segment) quiet
finish_last-Follows none = refl
finish_last-Follows (some segment) = finish-Follows segment manual

shut_down-Follows : (m : Mixer) → Follows (talk_of m.segment) (shut_down m) quiet
unfolding shut_down
shut_down-Follows m =
    Follows-append _ _ quiet (silence_all m.streams) _
      (silence_all-Follows (talk_of m.segment) m.streams) (finish_last-Follows m.segment)

-- Whatever commands and ticks the mixer gets, what it sends to the pipeline until it is shut down
-- is a conversation, from the state of its segment at first to the end of its last segment.
pub run-Follows :
    (m : Mixer) (inputs : List MixerInput) → Follows (talk_of m.segment) (run m inputs) quiet
unfolding run
run-Follows m [] = shut_down-Follows m
run-Follows m (input ∷ rest) =
    let next = on_input m input in
    if_intro {A = List MixerEffect} (λ es. Follows (talk_of m.segment) es quiet) (stops input)
      (shut_down-Follows m)
      (Follows-append _ _ quiet next.1 _ (on_input-Follows m input) (run-Follows next.0 rest))
