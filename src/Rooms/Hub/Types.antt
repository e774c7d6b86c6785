-- ===== src/Rooms/Hub/Types.antt =====
-- The data of `RoomHub`, and what is made of a room's and a member's records.
use voice_elf.Prelude.{
  ℕ, ◌-◌, Bool, false, List, [], ◌∷◌, Option, none, some, ◌==◌, ltb, if◌then◌else◌,
}
use voice_elf.Prelude.Int.{ℤ, pos, negsuc}
use voice_elf.Prelude.Text.{Text}
use voice_elf.Pipeline.Config.{SessionConfig, default}
use voice_elf.Pipeline.Session.Types.{ClientEvent}
use voice_elf.Rooms.Mixer.{RoomAudioCommand, upsert}

pub record RoomRecord : Type 0 where
  pub id : ℕ
  pub owner_id : ℕ
  pub source_language : Text
  pub target_language : Text
  pub max_utterance_seconds : ℤ

pub record UserRecord : Type 0 where
  pub id : ℕ
  pub username : Text

pub record RoomMemberRecord : Type 0 where
  pub user_id : ℕ
  pub username : Text
  pub is_owner : Bool
  pub is_muted : Bool

pub record RuntimeMember : Type 0 where
  pub username : Text
  pub is_owner : Bool
  pub is_muted : Bool
  pub connections : ℕ
  pub is_speaking : Bool

pub record RoomRuntime : Type 0 where
  pub members : List (ℕ × RuntimeMember)
  pub audio : Option ℕ
  pub backend : Option Text

abbrev pub Hub : Type 0
Hub = List (ℕ × RoomRuntime)

pub record RoomMemberState : Type 0 where
  pub user_id : ℕ
  pub username : Text
  pub is_owner : Bool
  pub is_muted : Bool
  pub is_online : Bool
  pub is_speaking : Bool

-- `start_mixer` is `start_audio_runtime`; `revoke` is the send on a member's `disconnect` channel, and
-- `room_members` the event to all who are in the room.
pub data HubEffect : Type 0 where
  start_mixer : ℕ → ℕ → SessionConfig → HubEffect
  to_mixer : ℕ → ℕ → RoomAudioCommand → HubEffect
  revoke : ℕ → ℕ → HubEffect
  room_members : ℕ → List RoomMemberState → HubEffect

abbrev pub look : {A : Type 0} → ℕ → List (ℕ × A) → Option A
look key [] = none
look key ((k, a) ∷ rest) = if k == key then some a else look key rest

abbrev pub state_of : ℕ × RuntimeMember → RoomMemberState
state_of (user_id, member) = record {
  user_id = user_id;
  username = member.username;
  is_owner = member.is_owner;
  is_muted = member.is_muted;
  is_online = ltb 0 member.connections;
  is_speaking = member.is_speaking;
}

abbrev pub new_member : Text → Bool → Bool → RuntimeMember
new_member username is_owner is_muted = record {
  username = username;
  is_owner = is_owner;
  is_muted = is_muted;
  connections = 0;
  is_speaking = false;
}

abbrev pub sync_member : RoomMemberRecord → RuntimeMember → RuntimeMember
sync_member m current = record current {
  username = m.username;
  is_owner = m.is_owner;
  is_muted = m.is_muted;
}

abbrev pub sync_members :
    List RoomMemberRecord → List (ℕ × RuntimeMember) → List (ℕ × RuntimeMember)
sync_members [] members = members
sync_members (m ∷ ms) members =
    sync_members ms
      (upsert m.user_id (new_member m.username m.is_owner m.is_muted) (sync_member m) members)

-- `as u32`, of an i32.
abbrev pub as_u32 : ℤ → ℕ
as_u32 (pos n) = n
as_u32 (negsuc n) = 4294967295 - n

abbrev pub room_config : RoomRecord → SessionConfig
room_config room = record {
  source_language = room.source_language;
  target_language = room.target_language;
  voice = default.voice;
  max_utterance_seconds = as_u32 room.max_utterance_seconds;
}

-- The reply to a call: whether it was accepted, or the new connection's `can_publish` and `backend`.
pub data Reply : Type 0 where
  nothing : Reply
  accepted : Bool → Reply
  connected : Bool → Option Text → Reply

-- The calls of a hub; `speaking` comes from a mixer. `connect_to` has the number of the mixer that is
-- started if the room has none.
pub data HubCall : Type 0 where
  connect_to : RoomRecord → UserRecord → List RoomMemberRecord → Text → ℕ → HubCall
  cut : ℕ → HubCall
  close : ℕ → HubCall
  disconnect_one : ℕ → ℕ → HubCall
  mute_member speaking : ℕ → ℕ → Bool → HubCall
  event_of : ℕ → ℕ → ClientEvent → HubCall
  audio_from : ℕ → ℕ → List ℕ → HubCall
