-- ===== src/Rooms/Hub/Calls.antt =====
-- Each call of the hub leads from a room's mixer before it to the one after it.
use voice_elf.Prelude.{
  ℕ, ◌≡◌, refl, sym, ap, ◌∙◌, subst, Bool, true, false, ◌==◌, ==_iff, not, ◌&&◌, ◌||◌,
  if◌then◌else◌, Bool-cases, inl, inr, [], Option, none, some, arith,
}
use voice_elf.Prelude.Text.{Text}
use voice_elf.Pipeline.Session.Types.{ClientEvent, configure, start, end_segment, flush}
use voice_elf.Rooms.Mixer.{
  RoomAudioCommand, configure_room, start_speaker, audio_of, end_speaker, remove_speaker, shutdown,
  update,
}
use voice_elf.Rooms.Hub.{
  Hub, RoomRuntime, RuntimeMember, look, broadcast_members, command_to, shut_down_of, close_room,
  leave, all_gone, drop_connection, was_last, disconnect_from, disconnect, member_in, set_muted_in,
  set_muted, change_member, mute, set_speaking_in, set_speaking, command_of, publish,
}
use voice_elf.Rooms.Hub.Mixers.{
  after_command, audio_in, mixer_of, mixer_after, Distinct, changed, look-update, look-remove,
  Leads, Leads-append, broadcast-Leads, command_to-Leads, plain-Leads, send_command-Leads,
}

module _ (to_lowercase : Text → Text) (r : ℕ) where
  pub event_is_plain :
      (user : ℕ) (m : RuntimeMember) (event : ClientEvent) (x : RoomAudioCommand)
      → command_of user m event ≡ some x
      → (current : Option ℕ) → after_command current x ≡ current
  event_is_plain user m event (configure_room config) e current = refl
  event_is_plain user m event (start_speaker speaker) e current = refl
  event_is_plain user m event (audio_of id bytes) e current = refl
  event_is_plain user m event (end_speaker id) e current = refl
  event_is_plain user m event (remove_speaker id) e current = refl
  event_is_plain user m (configure config) shutdown e current = ground arith
  event_is_plain user m (start id vad config) shutdown e current = ground arith
  event_is_plain user m (end_segment id silent vad) shutdown e current = ground arith
  event_is_plain user m flush shutdown e current = ground arith

  pub nothing_Leads : (current : Option ℕ) → Leads r current [] current
  unfolding mixer_after
  nothing_Leads current = refl

  pub publish-Leads :
      (hub : Hub) (room : ℕ) (o : Option RoomRuntime) (m : Option RuntimeMember)
      (command : RuntimeMember → Option RoomAudioCommand)
      → look room hub ≡ o
      → ((m : RuntimeMember) (x : RoomAudioCommand)
          → command m ≡ some x
          → (current : Option ℕ) → after_command current x ≡ current)
      → Leads r (mixer_of r hub) (publish room o m command).0 (mixer_of r hub)
  unfolding mixer_after
  publish-Leads hub room none m command e plain = refl
  publish-Leads hub room (some runtime) none command e plain = refl
  publish-Leads hub room (some runtime) (some m) command e plain =
      elim (Bool-cases (m.is_muted && not m.is_owner)) [
        | inl muted ↦ rw muted refl
        | inr speaks ↦
            rw speaks (send_command-Leads r hub room (command m) (some runtime) e (plain m))
      ]

  -- A change of a room that keeps its mixer.
  mixer_of-update :
      (hub : Hub) (room : ℕ) (change : RoomRuntime → RoomRuntime)
      → ((runtime : RoomRuntime) → (change runtime).audio ≡ runtime.audio)
      → mixer_of r (update room change hub) ≡ mixer_of r hub
  mixer_of-update hub room change same = rw (look-update r room change hub) (by_room (look r hub))
    where
      by_room :
          (o : Option RoomRuntime)
          → audio_in (if room == r then changed change o else o) ≡ audio_in o
      by_room none = ground arith
      by_room (some runtime) = ground (arith, same runtime)

  pub set_muted-Leads :
      (hub : Hub) (room user : ℕ) (is_muted : Bool)
      → let after = set_muted to_lowercase hub room user is_muted in
        Leads r (mixer_of r hub) after.1 (mixer_of r after.0)
  unfolding set_muted
  set_muted-Leads hub room user is_muted =
      by_room (look room hub) refl (member_in (look room hub) user)
    where
      by_room :
          (o : Option RoomRuntime)
          → look room hub ≡ o
          → (m : Option RuntimeMember)
          → let after = set_muted_in to_lowercase hub room user is_muted o m in
            Leads r (mixer_of r hub) after.1 (mixer_of r after.0)
      by_room none e m = nothing_Leads (mixer_of r hub)
      by_room (some runtime) e none = nothing_Leads (mixer_of r hub)
      by_room (some runtime) e (some m) =
          let hub' = update room (change_member user (mute is_muted)) hub in
          rw (mixer_of-update hub room (change_member user (mute is_muted)) (λ x. refl)) (
            Leads-append r _ _ _ (mixer_of r hub) _ (command is_muted)
              (broadcast-Leads r to_lowercase hub' room (mixer_of r hub)))
        where
          command :
              (b : Bool)
              → Leads r
                  (mixer_of r hub)
                  (if b then command_to room (remove_speaker user) runtime.audio else [])
                  (mixer_of r hub)
          command true = plain-Leads r hub room (remove_speaker user) (some runtime) e (λ c. refl)
          command false = nothing_Leads (mixer_of r hub)

  pub set_speaking-Leads :
      (hub : Hub) (room user : ℕ) (is_speaking : Bool)
      → let after = set_speaking to_lowercase hub room user is_speaking in
        Leads r (mixer_of r hub) after.1 (mixer_of r after.0)
  unfolding set_speaking
  set_speaking-Leads hub room user is_speaking = by_member (member_in (look room hub) user)
    where
      by_member :
          (m : Option RuntimeMember)
          → let after = set_speaking_in to_lowercase hub room user is_speaking m in
            Leads r (mixer_of r hub) after.1 (mixer_of r after.0)
      by_member none = nothing_Leads (mixer_of r hub)
      by_member (some m) =
          elim (Bool-cases
            ((m.is_speaking && is_speaking) || (not m.is_speaking && not is_speaking))) [
              | inl same ↦ rw same (nothing_Leads (mixer_of r hub))
              | inr differs ↦
                  let change : RoomRuntime → RoomRuntime =
                    change_member user (λ m. record m { is_speaking = is_speaking }) in
                  rw (differs, mixer_of-update hub room change (λ x. refl))
                    (broadcast-Leads r to_lowercase (update room change hub) room (mixer_of r hub))
            ]

  shutdown-Leads :
      (hub : Hub) (room : ℕ) (o : Option RoomRuntime)
      → look room hub ≡ o
      → Leads r
          (mixer_of r hub)
          (command_to room shutdown (audio_in o))
          (if room == r then none else mixer_of r hub)
  shutdown-Leads hub room o e =
      command_to-Leads r room shutdown (audio_in o) (mixer_of r hub)
        (λ here. ap audio_in (sym e) ∙ ap (λ x. mixer_of x hub) ((==_iff room r).0 here))

  pub close_room-Leads :
      (hub : Hub) (room : ℕ)
      → Distinct hub
      → let after = close_room hub room in Leads r (mixer_of r hub) after.1 (mixer_of r after.0)
  unfolding close_room
  close_room-Leads hub room d =
      rw (look-remove r room hub d, same_commands (look room hub), outside (room == r))
        (shutdown-Leads hub room (look room hub) refl)
    where
      outside :
          (b : Bool)
          → audio_in (if b then none else look r hub) ≡ (if b then none else mixer_of r hub)
      outside true = refl
      outside false = refl

      same_commands :
          (o : Option RoomRuntime) → shut_down_of room o ≡ command_to room shutdown (audio_in o)
      same_commands none = refl
      same_commands (some runtime) = refl

  -- A room that is replaced.
  mixer_of-replace :
      (hub : Hub) (room : ℕ) (runtime next : RoomRuntime)
      → look room hub ≡ some runtime
      → mixer_of r (update room (λ x. next) hub)
        ≡ (if room == r then next.audio else mixer_of r hub)
  mixer_of-replace hub room runtime next e = elim (Bool-cases (room == r)) [
    | inl here ↦
        let there : look r hub ≡ some runtime =
          ap (λ x. look x hub) (sym ((==_iff room r).0 here)) ∙ e in
        rw (look-update r room (λ x. next) hub, here, there) refl
    | inr other ↦ rw (look-update r room (λ x. next) hub, other) refl
  ]

  leave-Leads :
      (hub : Hub) (room user : ℕ) (runtime : RoomRuntime)
      → look room hub ≡ some runtime
      → let left = leave room user runtime in
        Leads r (mixer_of r hub) left.1 (if room == r then left.0.audio else mixer_of r hub)
  leave-Leads hub room user runtime e =
      elim (Bool-cases (all_gone (update user (drop_connection) runtime.members))) [
        | inl gone ↦ rw gone (shutdown-Leads hub room (some runtime) e)
        | inr stay ↦ rw stay (
            subst
              (λ c.
                Leads r (mixer_of r hub)
                  (if was_last (look user runtime.members)
                    then command_to room (remove_speaker user) runtime.audio
                    else [])
                  c)
              kept (command (was_last (look user runtime.members))))
      ]
    where
      kept : mixer_of r hub ≡ (if room == r then runtime.audio else mixer_of r hub)
      kept = elim (Bool-cases (room == r)) [
        | inl here ↦
            rw here (ap (λ x. mixer_of x hub) (sym ((==_iff room r).0 here)) ∙ ap audio_in e)
        | inr other ↦ rw other refl
      ]

      command :
          (b : Bool)
          → Leads r
              (mixer_of r hub)
              (if b then command_to room (remove_speaker user) runtime.audio else [])
              (mixer_of r hub)
      command true = plain-Leads r hub room (remove_speaker user) (some runtime) e (λ c. refl)
      command false = nothing_Leads (mixer_of r hub)

  pub disconnect-Leads :
      (hub : Hub) (room user : ℕ)
      → let after = disconnect to_lowercase hub room user in
        Leads r (mixer_of r hub) after.1 (mixer_of r after.0)
  unfolding disconnect
  disconnect-Leads hub room user = by_room (look room hub) refl
    where
      by_room :
          (o : Option RoomRuntime)
          → look room hub ≡ o
          → let after = disconnect_from to_lowercase hub room user o in
            Leads r (mixer_of r hub) after.1 (mixer_of r after.0)
      by_room none e = nothing_Leads (mixer_of r hub)
      by_room (some runtime) e =
          let left = leave room user runtime in
          let hub' = update room (λ x. left.0) hub in
          Leads-append r left.1 (broadcast_members to_lowercase hub' room) (mixer_of r hub)
            (if room == r then left.0.audio else mixer_of r hub) (mixer_of r hub')
            (leave-Leads hub room user runtime e)
            (rw (mixer_of-replace hub room runtime left.0 e)
              (broadcast-Leads r to_lowercase hub' room _))
