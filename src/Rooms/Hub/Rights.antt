-- ===== src/Rooms/Hub/Rights.antt =====
-- Who may publish.
use voice_elf.Prelude.{ℕ, ◌≡◌, refl, true, false, ==_iff, List, [], Option, none, some, arith}
use voice_elf.Prelude.Text.{Text}
use voice_elf.Pipeline.Session.Types.{ClientEvent}
use voice_elf.Rooms.Mixer.{RoomAudioCommand}
use voice_elf.Rooms.Hub.{
  Hub, RoomRuntime, RuntimeMember, look, member_in, change_member, mute, set_muted_in, set_muted,
  publish, send_event, send_audio,
}
use voice_elf.Rooms.Hub.Mixers.{look-update}

module _ (to_lowercase : Text → Text) (hub : Hub) (room user : ℕ) where
  member_of-mute :
      (m : RuntimeMember) (o : Option RoomRuntime)
      → look room hub ≡ o
      → member_in o user ≡ some m
      → (o' : Option RoomRuntime) × (look room
            (set_muted_in to_lowercase hub room user true o (member_in o user)).0
          ≡ o')
        × (member_in o' user ≡ some (mute true m))
  member_of-mute m none e found = absurd (ground arith)
  member_of-mute m (some runtime) e found =
      let next = change_member user (mute true) runtime in
      (
        some next,
        rw
            (
              found,
              look-update room room (change_member user (mute true)) hub,
              e,
              (==_iff room room).1 refl,
            )
            refl,
        rw (look-update user user (mute true) runtime.members, found, (==_iff user user).1 refl)
            refl,
      )

  refused :
      (o : Option RoomRuntime) (m : RuntimeMember)
      (command : RuntimeMember → Option RoomAudioCommand)
      → m.is_muted ≡ true
      → m.is_owner ≡ false
      → publish room o (some m) command ≡ ([], false)
  refused none m command muted guest = refl
  refused (some runtime) m command muted guest = rw (muted, guest) refl

  -- Once a member of a room who does not own it has been muted, no event and no audio of theirs is
  -- accepted in the hub as it then is: nothing is sent to the mixer.
  pub set_muted-refused :
      (m : RuntimeMember) (event : ClientEvent) (bytes : List ℕ)
      → member_in (look room hub) user ≡ some m
      → m.is_owner ≡ false
      → let after = (set_muted to_lowercase hub room user true).0 in
        (send_event after room user event ≡ ([], false))
        × (send_audio after room user bytes ≡ ([], false))
  unfolding set_muted send_event send_audio
  set_muted-refused m event bytes found guest =
      let (o', e, there) = member_of-mute m (look room hub) refl found in
      rw (e, there) (refused o' (mute true m) _ refl guest, refused o' (mute true m) _ refl guest)
