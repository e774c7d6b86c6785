-- ===== src/Rooms/Hub/Examples.antt =====
-- A room that is entered, left, and entered again.
use voice_elf.Prelude.{◌≡◌, refl, true, false, List, [], ◌∷◌, none, some}
use voice_elf.Prelude.Int.{pos}
use voice_elf.Prelude.Text.{codes, to_ascii_lowercase}
use voice_elf.Pipeline.Session.Types.{flush}
use voice_elf.Rooms.Hub.{
  Hub, HubCall, connect_to, cut, close, disconnect_one, mute_member, speaking, event_of, audio_from,
  RoomRecord, UserRecord, RuntimeMember, RoomRuntime, look, run_calls, send_audio, send_event,
  set_muted,
}
use voice_elf.Rooms.Hub.Mixers.{Leads, mixer_of}
use voice_elf.Rooms.Hub.Whole.{run_calls-Leads}
use voice_elf.Rooms.Hub.Rights.{set_muted-refused}
use voice_elf.Rooms.Hub.Serving.{IsValid, run_calls-IsValid}

abbrev room : RoomRecord
room = record {
  id = 1;
  owner_id = 5;
  source_language = codes "en";
  target_language = codes "zh";
  max_utterance_seconds = pos 20;
}

abbrev user : UserRecord
user = record { id = 5; username = codes "Ann" }

abbrev calls : List HubCall
calls =
    connect_to room user [] (codes "b") 10
    ∷ audio_from 1 5 (0 ∷ [])
    ∷ mute_member 1 5 true
    ∷ disconnect_one 1 5
    ∷ connect_to room user [] (codes "b") 11
    ∷ cut 5
    ∷ close 1
    ∷ []

run_calls-Leads_example :
    let after = run_calls to_ascii_lowercase [] calls in Leads 1 none after.1 (mixer_of 1 after.0)
run_calls-Leads_example = run_calls-Leads to_ascii_lowercase 1 [] calls tt

run_calls-IsValid_example : IsValid (run_calls to_ascii_lowercase [] calls).0
run_calls-IsValid_example = run_calls-IsValid to_ascii_lowercase [] calls tt

-- A user is cut off and enters again before the old connection has left: its leaving is taken for that
-- of the new one, and the mixer is shut down.
abbrev early_return : List HubCall
early_return =
    connect_to room user [] (codes "b") 10
    ∷ cut 5
    ∷ connect_to room user [] (codes "b") 11
    ∷ disconnect_one 1 5
    ∷ []

loses_its_mixer : mixer_of 1 (run_calls to_ascii_lowercase [] early_return).0 ≡ none
unfolding run_calls voice_elf.Rooms.Hub.disconnect voice_elf.Rooms.Hub.connect
    voice_elf.Rooms.Hub.disconnect_user
loses_its_mixer = refl

abbrev guest : RuntimeMember
guest = record {
  username = codes "Bo";
  is_owner = false;
  is_muted = false;
  connections = 1;
  is_speaking = true;
}

abbrev one_room : Hub
one_room =
    (1, record { members = (7, guest) ∷ []; audio = some 10; backend = some (codes "b") }) ∷ []

set_muted-refused_example :
    let after = (set_muted to_ascii_lowercase one_room 1 7 true).0 in
    (send_event after 1 7 flush ≡ ([], false)) × (send_audio after 1 7 (0 ∷ []) ≡ ([], false))
set_muted-refused_example =
    set_muted-refused to_ascii_lowercase one_room 1 7 guest flush (0 ∷ []) refl refl
