-- ===== src/Rooms/Hub.antt =====
-- `RoomHub` of server/src/room_hub.rs: which rooms are live, who is in them, and what their mixers
-- are sent. A call is its section under the lock, with what it then sends; a hash map is a list of pairs. A
-- mixer is known by a number, which is given when it is started. The channels' receivers are taken to
-- be open.
mod Types
pub mod Mixers
pub mod Keys
pub mod Calls
pub mod Whole
pub mod Serving
pub mod Rights
mod Examples
unfoldable pub use Types.*
use voice_elf.Prelude.{
  ℕ, suc, ◌+◌, ◌-◌, Bool, true, false, not, ◌||◌, ◌&&◌, List, [], ◌∷◌, ◌++◌, map, Option, none,
  some, ◌==◌, ltb, if◌then◌else◌,
}
use voice_elf.Prelude.Int.{ℤ, pos, negsuc}
use voice_elf.Prelude.Text.{Text, text_eq}
use voice_elf.Language.{sort_from}
use voice_elf.Pipeline.Config.{SessionConfig, default}
use voice_elf.Pipeline.Session.Types.{
  SpeakerIdentity, ClientEvent, configure, start, end_segment, flush,
}
use voice_elf.Rooms.Mixer.{
  RoomAudioCommand, configure_room, start_speaker, audio_of, end_speaker, remove_speaker, shutdown,
  upsert, update, remove, text_leb,
}

abbrev pub or_new_room : Option RoomRuntime → RoomRuntime
or_new_room none = record { members = []; audio = none; backend = none }
or_new_room (some runtime) = runtime

-- `runtime.audio_tx`, started where there is none, and the backend with it.
abbrev pub start_audio :
    RoomRecord → Text → ℕ → RoomRuntime → Option ℕ → RoomRuntime × List HubEffect
start_audio room backend fresh runtime (some mixer) = (runtime, [])
start_audio room backend fresh runtime none = (
  record runtime { audio = some fresh; backend = some backend },
  start_mixer room.id fresh (room_config room) ∷ [],
)

abbrev pub add_connection :
    RoomRecord → UserRecord → List RoomMemberRecord → RoomRuntime → RoomRuntime
add_connection room user members runtime = record runtime {
  members =
      upsert user.id
        (record (new_member user.username (room.owner_id == user.id) false) { connections = 1 })
        (λ m. record m { connections = m.connections + 1 }) (sync_members members runtime.members);
}

abbrev pub may_publish : RuntimeMember → Bool
may_publish m = m.is_owner || not m.is_muted

abbrev pub publishes : Option RuntimeMember → Bool
publishes none = false
publishes (some m) = may_publish m

abbrev pub cut_off : RuntimeMember → RuntimeMember
cut_off m = record m { connections = 0; is_speaking = false }

abbrev pub cut_user : ℕ → RoomRuntime → RoomRuntime
cut_user user runtime = record runtime { members = update user cut_off runtime.members }

abbrev pub cut_everywhere : ℕ → Hub → Hub
cut_everywhere user = map λ room. (room.0, cut_user user room.1)

abbrev pub revocation : ℕ → ℕ → Option RuntimeMember → List HubEffect
revocation user room none = []
revocation user room (some m) = revoke room user ∷ []

abbrev pub revocations : ℕ → Hub → List HubEffect
revocations user [] = []
revocations user ((room, runtime) ∷ rest) =
    revocation user room (look user runtime.members) ++ revocations user rest

abbrev pub command_to : ℕ → RoomAudioCommand → Option ℕ → List HubEffect
command_to room command none = []
command_to room command (some mixer) = to_mixer room mixer command ∷ []

abbrev pub shut_down_of : ℕ → Option RoomRuntime → List HubEffect
shut_down_of room none = []
shut_down_of room (some runtime) = command_to room shutdown runtime.audio

unfoldable pub close_room : Hub → ℕ → Hub × List HubEffect
close_room hub room = (remove room hub, shut_down_of room (look room hub))

abbrev pub all_gone : List (ℕ × RuntimeMember) → Bool
all_gone [] = true
all_gone ((user, m) ∷ rest) = m.connections == 0 && all_gone rest

abbrev pub drop_connection : RuntimeMember → RuntimeMember
drop_connection m = record m {
  connections = m.connections - 1;
  is_speaking = if m.connections - 1 == 0 then false else m.is_speaking;
}

abbrev pub was_last : Option RuntimeMember → Bool
was_last none = false
was_last (some m) = m.connections - 1 == 0

-- The room with a connection less, and the command for its mixer.
abbrev pub leave : ℕ → ℕ → RoomRuntime → RoomRuntime × List HubEffect
leave room user runtime =
    let members = update user drop_connection runtime.members in
    if all_gone members
    then (
      record runtime { members = members; audio = none },
      command_to room shutdown runtime.audio,
    )
    else (
      record runtime { members = members },
      if was_last (look user runtime.members)
          then command_to room (remove_speaker user) runtime.audio
          else [],
    )

abbrev pub live_state : RoomMemberRecord → Option RuntimeMember → RoomMemberState
live_state m none = record {
  user_id = m.user_id;
  username = m.username;
  is_owner = m.is_owner;
  is_muted = m.is_muted;
  is_online = false;
  is_speaking = false;
}
live_state m (some live) = record {
  user_id = m.user_id;
  username = m.username;
  is_owner = m.is_owner;
  is_muted = live.is_muted;
  is_online = ltb 0 live.connections;
  is_speaking = live.is_speaking;
}

abbrev pub member_in : Option RoomRuntime → ℕ → Option RuntimeMember
member_in none user = none
member_in (some runtime) user = look user runtime.members

unfoldable pub member_states : Hub → ℕ → List RoomMemberRecord → List RoomMemberState
member_states hub room = map λ m. live_state m (member_in (look room hub) m.user_id)

abbrev pub change_member : ℕ → (RuntimeMember → RuntimeMember) → RoomRuntime → RoomRuntime
change_member user change runtime = record runtime { members = update user change runtime.members }

abbrev pub mute : Bool → RuntimeMember → RuntimeMember
mute is_muted m = record m {
  is_muted = is_muted;
  is_speaking = if is_muted then false else m.is_speaking;
}

-- `none` is an event that is accepted without a command.
abbrev pub command_of : ℕ → RuntimeMember → ClientEvent → Option RoomAudioCommand
command_of user m (configure config) = if m.is_owner then some (configure_room config) else none
command_of user m (start id vad config) =
    some (start_speaker (record { user_id = some user; username = m.username }))
command_of user m (end_segment id silent vad) = some (end_speaker user)
command_of user m flush = some (end_speaker user)

abbrev pub send_command : ℕ → Option ℕ → Option RoomAudioCommand → List HubEffect × Bool
send_command room none command = ([], false)
send_command room (some mixer) none = ([], true)
send_command room (some mixer) (some command) = (to_mixer room mixer command ∷ [], true)

-- A call of a member who may publish; nobody else's is accepted.
abbrev pub publish :
    ℕ
    → Option RoomRuntime
    → Option RuntimeMember
    → (RuntimeMember → Option RoomAudioCommand)
    → List HubEffect × Bool
publish room none m command = ([], false)
publish room (some runtime) none command = ([], false)
publish room (some runtime) (some m) command =
    if m.is_muted && not m.is_owner
    then ([], false)
    else send_command room runtime.audio (command m)

unfoldable pub send_event : Hub → ℕ → ℕ → ClientEvent → List HubEffect × Bool
send_event hub room user event =
    publish room (look room hub) (member_in (look room hub) user) (λ m. command_of user m event)

unfoldable pub send_audio : Hub → ℕ → ℕ → List ℕ → List HubEffect × Bool
send_audio hub room user bytes =
    publish room (look room hub) (member_in (look room hub) user) (λ m. some (audio_of user bytes))

module _ (to_lowercase : Text → Text) where
  -- Owners first, then by name.
  abbrev pub member_before : RoomMemberState → RoomMemberState → Bool
  member_before a b =
      (a.is_owner && not b.is_owner)
      || ((not (not a.is_owner && b.is_owner))
          && text_leb (to_lowercase a.username) (to_lowercase b.username))

  abbrev pub members_event : ℕ → Option RoomRuntime → List HubEffect
  members_event room none = []
  members_event room (some runtime) =
      room_members room (sort_from member_before [] (map state_of runtime.members)) ∷ []

  unfoldable pub broadcast_members : Hub → ℕ → List HubEffect
  broadcast_members hub room = members_event room (look room hub)

  unfoldable pub connect :
      Hub
      → RoomRecord
      → UserRecord
      → List RoomMemberRecord
      → Text
      → ℕ
      → Hub × List HubEffect × Reply
  connect hub room user members backend fresh =
      let joined = add_connection room user members (or_new_room (look room.id hub)) in
      let started = start_audio room backend fresh joined joined.audio in
      let hub' = upsert room.id started.0 (λ _. started.0) hub in
      (
        hub',
        started.1 ++ broadcast_members hub' room.id,
        connected (publishes (look user.id joined.members)) started.0.backend,
      )

  abbrev pub removal : Hub → ℕ → ℕ → RoomRuntime → Option RuntimeMember → List HubEffect
  removal hub user room runtime none = []
  removal hub user room runtime (some m) =
      command_to room (remove_speaker user) runtime.audio ++ broadcast_members hub room

  -- What is sent to each affected room, with the hub as it is now.
  abbrev pub removals : Hub → ℕ → Hub → List HubEffect
  removals hub user [] = []
  removals hub user ((room, runtime) ∷ rest) =
      removal hub user room runtime (look user runtime.members) ++ removals hub user rest

  unfoldable pub disconnect_user : Hub → ℕ → Hub × List HubEffect
  disconnect_user hub user =
      let hub' = cut_everywhere user hub in (hub', revocations user hub ++ removals hub' user hub)

  abbrev pub disconnect_from : Hub → ℕ → ℕ → Option RoomRuntime → Hub × List HubEffect
  disconnect_from hub room user none = (hub, [])
  disconnect_from hub room user (some runtime) =
      let left = leave room user runtime in
      let hub' = update room (λ _. left.0) hub in (hub', left.1 ++ broadcast_members hub' room)

  unfoldable pub disconnect : Hub → ℕ → ℕ → Hub × List HubEffect
  disconnect hub room user = disconnect_from hub room user (look room hub)

  abbrev pub set_muted_in :
      Hub → ℕ → ℕ → Bool → Option RoomRuntime → Option RuntimeMember → Hub × List HubEffect
  set_muted_in hub room user is_muted none m = (hub, [])
  set_muted_in hub room user is_muted (some runtime) none = (hub, [])
  set_muted_in hub room user is_muted (some runtime) (some m) =
      let hub' = update room (change_member user (mute is_muted)) hub in
      (
        hub',
        (if is_muted then command_to room (remove_speaker user) runtime.audio else [])
            ++ broadcast_members hub' room,
      )

  unfoldable pub set_muted : Hub → ℕ → ℕ → Bool → Hub × List HubEffect
  set_muted hub room user is_muted =
      set_muted_in hub room user is_muted (look room hub) (member_in (look room hub) user)

  abbrev pub set_speaking_in : Hub → ℕ → ℕ → Bool → Option RuntimeMember → Hub × List HubEffect
  set_speaking_in hub room user is_speaking none = (hub, [])
  set_speaking_in hub room user is_speaking (some m) =
      let hub' =
        update room (change_member user (λ m. record m { is_speaking = is_speaking })) hub in
      if (m.is_speaking && is_speaking) || (not m.is_speaking && not is_speaking)
      then (hub, [])
      else (hub', broadcast_members hub' room)

  unfoldable pub set_speaking : Hub → ℕ → ℕ → Bool → Hub × List HubEffect
  set_speaking hub room user is_speaking =
      set_speaking_in hub room user is_speaking (member_in (look room hub) user)

module _ (to_lowercase : Text → Text) where
  abbrev pub on_call : Hub → HubCall → Hub × List HubEffect
  on_call hub (connect_to room user members backend fresh) =
      let r = connect to_lowercase hub room user members backend fresh in (r.0, r.1)
  on_call hub (cut user) = disconnect_user to_lowercase hub user
  on_call hub (close room) = close_room hub room
  on_call hub (disconnect_one room user) = disconnect to_lowercase hub room user
  on_call hub (mute_member room user is_muted) = set_muted to_lowercase hub room user is_muted
  on_call hub (speaking room user is_speaking) = set_speaking to_lowercase hub room user is_speaking
  on_call hub (event_of room user event) = (hub, (send_event hub room user event).0)
  on_call hub (audio_from room user bytes) = (hub, (send_audio hub room user bytes).0)

  unfoldable pub run_calls : Hub → List HubCall → Hub × List HubEffect
  run_calls hub [] = (hub, [])
  run_calls hub (call ∷ calls) =
      let r = on_call hub call in let rest = run_calls r.0 calls in (rest.0, r.1 ++ rest.1)
