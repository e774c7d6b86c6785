-- ===== src/Rooms/Hub/Whole.antt =====
-- The hub over any sequence of calls: at most one mixer for a room, and commands for it only.
use voice_elf.Prelude.{
  ℕ, ◌≡◌, refl, sym, ap, ◌∙◌, subst, true, ◌==◌, ==_iff, if◌then◌else◌, Bool-cases, inl, inr, List,
  [], ◌∷◌, ◌++◌, Option, none, some, arith,
}
use voice_elf.Prelude.Text.{Text}
use voice_elf.Rooms.Mixer.{RoomAudioCommand, audio_of, remove_speaker, upsert}
use voice_elf.Rooms.Hub.{
  Hub, HubCall, connect_to, cut, close, disconnect_one, mute_member, speaking, event_of, audio_from,
  RoomRuntime, RuntimeMember, RoomRecord, UserRecord, RoomMemberRecord, look, or_new_room,
  start_audio, add_connection, broadcast_members, connect, cut_everywhere, revocation, revocations,
  command_to, removal, removals, disconnect_user, send_event, send_audio, on_call, run_calls,
}
use voice_elf.Rooms.Hub.Mixers.{
  after_command, audio_in, mixer_of, mixer_after, Distinct, or_else, look-upsert, Leads,
  Leads-append, broadcast-Leads, command_to-Leads,
}
use voice_elf.Rooms.Hub.Keys.{call-Distinct}
use voice_elf.Rooms.Hub.Calls.{
  nothing_Leads, set_muted-Leads, set_speaking-Leads, close_room-Leads, disconnect-Leads,
  publish-Leads, event_is_plain,
}

module _ (to_lowercase : Text → Text) (r : ℕ) where
  connect-Leads :
      (hub : Hub) (room : RoomRecord) (user : UserRecord) (members : List RoomMemberRecord)
      (backend : Text) (fresh : ℕ)
      → let after = connect to_lowercase hub room user members backend fresh in
        Leads r (mixer_of r hub) after.1 (mixer_of r after.0)
  unfolding connect mixer_after
  connect-Leads hub room user members backend fresh =
      let joined = add_connection room user members (or_new_room (look room.id hub)) in
      let started = start_audio room backend fresh joined joined.audio in
      let hub' = upsert room.id started.0 (λ x. started.0) hub in
      Leads-append r started.1 (broadcast_members to_lowercase hub' room.id) (mixer_of r hub)
        (if room.id == r then started.0.audio else mixer_of r hub) (mixer_of r hub')
        (starting (look room.id hub) refl)
        (rw (mixer_of-connected started.0) (broadcast-Leads r to_lowercase hub' room.id _))
    where
      mixer_of-connected :
          (next : RoomRuntime)
          → mixer_of r (upsert room.id next (λ x. next) hub)
            ≡ (if room.id == r then next.audio else mixer_of r hub)
      mixer_of-connected next =
          rw (look-upsert r room.id next (λ x. next) hub) (by_room (look room.id hub))
        where
          by_room :
              (o : Option RoomRuntime)
              → audio_in (if room.id == r then some (or_else o next (λ x. next)) else look r hub)
                ≡ (if room.id == r then next.audio else mixer_of r hub)
          by_room none = elim (Bool-cases (room.id == r)) [ inl e ↦ rw e refl | inr e ↦ rw e refl ]
          by_room (some runtime) = elim (Bool-cases (room.id == r)) [
            | inl e ↦ rw e refl
            | inr e ↦ rw e refl
          ]

      here_audio :
          (o : Option RoomRuntime)
          → look room.id hub ≡ o
          → (room.id == r) ≡ true
          → mixer_of r hub ≡ audio_in o
      here_audio o e here =
          ap (λ x. mixer_of x hub) (sym ((==_iff room.id r).0 here)) ∙ ap audio_in e

      with_audio :
          (joined : RoomRuntime) (audio : Option ℕ)
          → joined.audio ≡ audio
          → ((room.id == r) ≡ true → mixer_of r hub ≡ audio)
          → let started = start_audio room backend fresh joined audio in
            Leads r
              (mixer_of r hub)
              started.1
              (if room.id == r then started.0.audio else mixer_of r hub)
      with_audio joined (some m) e same = elim (Bool-cases (room.id == r)) [
        | inl here ↦ rw (here, e, same here) refl
        | inr other ↦ rw other refl
      ]
      with_audio joined none e same = elim (Bool-cases (room.id == r)) [
        | inl here ↦ rw (here, same here) refl
        | inr other ↦ rw other refl
      ]

      starting :
          (o : Option RoomRuntime)
          → look room.id hub ≡ o
          → let joined = add_connection room user members (or_new_room o) in
            let started = start_audio room backend fresh joined joined.audio in
            Leads r
              (mixer_of r hub)
              started.1
              (if room.id == r then started.0.audio else mixer_of r hub)
      starting none e =
          with_audio (add_connection room user members (or_new_room none)) none refl
            (λ here. here_audio none e here)
      starting (some runtime) e =
          with_audio (add_connection room user members runtime) runtime.audio refl
            (λ here. here_audio (some runtime) e here)

  cut-mixer_of : (user : ℕ) (hub : Hub) → mixer_of r (cut_everywhere user hub) ≡ mixer_of r hub
  cut-mixer_of user [] = refl
  cut-mixer_of user ((k, runtime) ∷ rest) = ground (arith, cut-mixer_of user rest)

  revocations-Leads :
      (user : ℕ) (hub : Hub) (current : Option ℕ) → Leads r current (revocations user hub) current
  unfolding mixer_after
  revocations-Leads user [] current = refl
  revocations-Leads user ((k, runtime) ∷ rest) current =
      with_member (look user runtime.members) (revocations-Leads user rest current)
    where
      with_member :
          (m : Option RuntimeMember)
          → Leads r current (revocations user rest) current
          → Leads r current (revocation user k m ++ revocations user rest) current
      with_member none h = h
      with_member (some m) h = h

  -- Every entry of the room has this mixer.
  Agree : Option ℕ → Hub → Type 0
  Agree current [] = Unit {0}
  Agree current ((k, runtime) ∷ rest) =
      ((k == r) ≡ true → runtime.audio ≡ current) × Agree current rest

  absent-Agree : (hub : Hub) (current : Option ℕ) → look r hub ≡ none → Agree current hub
  unfolding Agree
  absent-Agree [] current e = tt
  absent-Agree ((k, runtime) ∷ rest) current e = elim (Bool-cases (k == r)) [
    | inl here ↦ absurd (ground arith)
    | inr other ↦ (λ here. absurd (ground arith), absent-Agree rest current (ground arith))
  ]

  Distinct-Agree : (hub : Hub) → Distinct hub → Agree (mixer_of r hub) hub
  unfolding Agree
  Distinct-Agree [] d = tt
  Distinct-Agree ((k, runtime) ∷ rest) d = elim (Bool-cases (k == r)) [
    | inl here ↦
        let first : mixer_of r ((k, runtime) ∷ rest) ≡ runtime.audio = rw here refl in
        subst (λ c. Agree c ((k, runtime) ∷ rest)) (sym first)
          (
            λ x. refl,
            absent-Agree rest runtime.audio
                (ap (λ x. look x rest) (sym ((==_iff k r).0 here)) ∙ d.0),
          )
    | inr other ↦
        let later : mixer_of r ((k, runtime) ∷ rest) ≡ mixer_of r rest = rw other refl in
        subst (λ c. Agree c ((k, runtime) ∷ rest)) (sym later)
          (λ here. absurd (ground arith), Distinct-Agree rest d.1)
  ]

  removals-Leads :
      (hub : Hub) (user : ℕ) (affected : Hub) (current : Option ℕ)
      → Agree current affected
      → Leads r current (removals to_lowercase hub user affected) current
  unfolding Agree
  removals-Leads hub user [] current h = nothing_Leads to_lowercase r current
  removals-Leads hub user ((k, runtime) ∷ rest) current h =
      Leads-append r _ _ current current current (with_member (look user runtime.members))
        (removals-Leads hub user rest current h.1)
    where
      same : current ≡ (if k == r then current else current)
      same = ground arith

      with_member :
          (m : Option RuntimeMember)
          → Leads r current (removal to_lowercase hub user k runtime m) current
      with_member none = nothing_Leads to_lowercase r current
      with_member (some m) =
          Leads-append r (command_to k (remove_speaker user) runtime.audio) _ current current
            current
            (subst (λ c. Leads r current (command_to k (remove_speaker user) runtime.audio) c)
              (sym same) (command_to-Leads r k (remove_speaker user) runtime.audio current h.0))
            (broadcast-Leads r to_lowercase hub k current)

  disconnect_user-Leads :
      (hub : Hub) (user : ℕ)
      → Distinct hub
      → let after = disconnect_user to_lowercase hub user in
        Leads r (mixer_of r hub) after.1 (mixer_of r after.0)
  unfolding disconnect_user
  disconnect_user-Leads hub user d = rw (cut-mixer_of user hub) (
      Leads-append r (revocations user hub) _ (mixer_of r hub) (mixer_of r hub) (mixer_of r hub)
        (revocations-Leads user hub (mixer_of r hub))
        (removals-Leads (cut_everywhere user hub) user hub (mixer_of r hub) (Distinct-Agree hub d)))

  audio_is_plain :
      (user : ℕ) (bytes : List ℕ) (x : RoomAudioCommand)
      → some (audio_of user bytes) ≡ some x
      → (current : Option ℕ) → after_command current x ≡ current
  audio_is_plain user bytes x e current = subst (λ o. after_option current o ≡ current) e refl
    where
      after_option : Option ℕ → Option RoomAudioCommand → Option ℕ
      after_option c none = c
      after_option c (some y) = after_command c y

  call-Leads :
      (hub : Hub) (call : HubCall)
      → Distinct hub
      → let after = on_call to_lowercase hub call in
        Leads r (mixer_of r hub) after.1 (mixer_of r after.0)
  unfolding send_event send_audio
  call-Leads hub (connect_to room user members backend fresh) d =
      connect-Leads hub room user members backend fresh
  call-Leads hub (cut user) d = disconnect_user-Leads hub user d
  call-Leads hub (close room) d = close_room-Leads to_lowercase r hub room d
  call-Leads hub (disconnect_one room user) d = disconnect-Leads to_lowercase r hub room user
  call-Leads hub (mute_member room user b) d = set_muted-Leads to_lowercase r hub room user b
  call-Leads hub (speaking room user b) d = set_speaking-Leads to_lowercase r hub room user b
  call-Leads hub (event_of room user event) d =
      publish-Leads to_lowercase r hub room (look room hub) _ _ refl
        (λ m x e. event_is_plain to_lowercase r user m event x e)
  call-Leads hub (audio_from room user bytes) d =
      publish-Leads to_lowercase r hub room (look room hub) _ _ refl
        (λ m x e. audio_is_plain user bytes x e)

  -- From rooms with different identifiers, for whatever calls and whatever room: each command for its
  -- mixers goes to the one that was started last and not shut down; none is started while the room
  -- has one, and at the end the room has the mixer that was started last and not shut down, if any.
  pub run_calls-Leads :
      (hub : Hub) (calls : List HubCall)
      → Distinct hub
      → let after = run_calls to_lowercase hub calls in
        Leads r (mixer_of r hub) after.1 (mixer_of r after.0)
  unfolding run_calls
  run_calls-Leads hub [] d = nothing_Leads to_lowercase r (mixer_of r hub)
  run_calls-Leads hub (call ∷ calls) d =
      let next = on_call to_lowercase hub call in
      Leads-append r next.1 _ (mixer_of r hub) (mixer_of r next.0) _ (call-Leads hub call d)
        (run_calls-Leads next.0 calls (call-Distinct to_lowercase hub call d))
