-- ===== src/Rooms/Examples.antt =====
-- Two speakers in a room: their frames are mixed until both are silent.
use voice_elf.Prelude.{
  get_or, ℕ, ◌≡◌, refl, true, false, List, [], ◌∷◌, replicate, none, some, arith,
}
use voice_elf.Prelude.Text.{codes}
use voice_elf.Prelude.Int.{ℤ, pos, negsuc, ◌+ℤ◌, ◌-ℤ◌}
use voice_elf.Pipeline.Config.{default}
use voice_elf.Pipeline.Session.Types.{SpeakerIdentity}
use voice_elf.Rooms.Mix.{mix_frames, wrap_i32}
use voice_elf.Rooms.Mix.Average.{average, mix_frames-average, mix_frames_alone}
use voice_elf.Rooms.Mixer.{
  Mixer, MixerInput, Now, command, tick, start_speaker, audio_of, end_speaker, on_input, run,
}
use voice_elf.Rooms.Mixer.Protocol.{Follows, quiet, run-Follows}
use voice_elf.Rooms.Mixer.Queues.{IsValid, on_input-IsValid}

abbrev ada : SpeakerIdentity
ada = record { user_id = some 1; username = codes "ada" }

abbrev bob : SpeakerIdentity
bob = record { user_id = some 2; username = codes "bob" }

abbrev empty_room : Mixer
empty_room = record { config = default; streams = []; segment = none }

abbrev early : Now
early = record { fresh_id = 7; over = false; over_again = false }

abbrev late : Now
late = record { fresh_id = 8; over = true; over_again = true }

abbrev sound : List ℕ
sound = replicate 1024 1

abbrev meeting : List MixerInput
meeting =
    command (start_speaker ada)
    ∷ command (start_speaker bob)
    ∷ command (audio_of 1 sound)
    ∷ command (audio_of 2 sound)
    ∷ tick early
    ∷ command (end_speaker 1)
    ∷ tick late
    ∷ []

run-Follows_example : Follows quiet (run empty_room meeting) quiet
run-Follows_example = run-Follows empty_room meeting

abbrev with_ada : Mixer
with_ada = record {
  config = default;
  streams = (1, record { identity = ada; active = true; frames = [] }) ∷ [];
  segment = none;
}

on_input-IsValid_example : IsValid (on_input with_ada (command (audio_of 1 sound))).0
on_input-IsValid_example =
    on_input-IsValid with_ada (command (audio_of 1 sound))
      (record { streams = (record { bounded = omega arith; whole = tt }, tt); fresh = tt })

abbrev voices : List (List ℤ)
voices = (pos 3 ∷ negsuc 9 ∷ []) ∷ (pos 4 ∷ negsuc 0 ∷ []) ∷ []

mix_frames-average_example :
    get_or (mix_frames voices) 1 (pos 0) ≡ average (negsuc 9 ∷ negsuc 0 ∷ [])
mix_frames-average_example =
    mix_frames-average voices 1
      ((omega arith, (omega arith, tt)), ((omega arith, (omega arith, tt)), tt)) (omega arith)
      (omega arith)

rounded_towards_zero : average (negsuc 9 ∷ negsuc 0 ∷ []) ≡ negsuc 4
unfolding ◌-ℤ◌
rounded_towards_zero = refl

-- Beyond 65,535 frames the sum may wrap.
sum_wraps : wrap_i32 (pos 2147483647 +ℤ pos 1) ≡ negsuc 2147483647
unfolding wrap_i32 ◌+ℤ◌
sum_wraps = refl

abbrev steady : List ℤ
steady = replicate 512 (negsuc 6)

mix_frames_alone_example : mix_frames (steady ∷ []) ≡ steady
mix_frames_alone_example = mix_frames_alone steady refl (omega arith)
