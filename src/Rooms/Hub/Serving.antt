-- ===== src/Rooms/Hub/Serving.antt =====
-- A room with connections has a mixer, by the hub's own counts, and its backend is known.
use voice_elf.Prelude.{
  subst, ℕ, ◌≡◌, refl, Bool, true, ◌==◌, ◌&&◌, ◌||◌, not, Bool-cases, inl, inr, List, [], ◌∷◌,
  Option, none, some, arith,
}
use voice_elf.Prelude.Text.{Text}
use voice_elf.Rooms.Mixer.{upsert, update, remove}
use voice_elf.Rooms.Hub.{
  Hub, HubCall, connect_to, cut, close, disconnect_one, mute_member, speaking, event_of, audio_from,
  RoomRuntime, RuntimeMember, RoomRecord, look, or_new_room, start_audio, add_connection, connect,
  cut_everywhere, cut_off, disconnect_user, close_room, all_gone, leave, drop_connection,
  disconnect_from, disconnect, change_member, mute, member_in, set_muted_in, set_muted,
  set_speaking_in, set_speaking, on_call, run_calls,
}

-- Without a mixer no member's count of connections is above zero, and with one the backend is known, so that `expect` does not panic.
pub record RoomIsValid (runtime : RoomRuntime) : Type 0 where
  pub served : runtime.audio ≡ none → all_gone runtime.members ≡ true
  pub named : runtime.backend ≡ none → runtime.audio ≡ none

abbrev pub IsValid : Hub → Type 0
IsValid [] = Unit {0}
IsValid ((room, runtime) ∷ rest) = RoomIsValid runtime × IsValid rest

module _ (k : ℕ) where
  upsert-IsValid :
      (next : RoomRuntime) (hub : Hub)
      → RoomIsValid next
      → IsValid hub
      → IsValid (upsert k next (λ _. next) hub)
  upsert-IsValid next [] v h = (v, tt)
  upsert-IsValid next ((j, runtime) ∷ rest) v h = elim (Bool-cases (j == k)) [
    | inl e ↦ rw e (v, h.1)
    | inr e ↦ rw e (h.0, upsert-IsValid next rest v h.1)
  ]

  update-IsValid :
      (change : RoomRuntime → RoomRuntime) (hub : Hub)
      → ((runtime : RoomRuntime) → RoomIsValid runtime → RoomIsValid (change runtime))
      → IsValid hub
      → IsValid (update k change hub)
  update-IsValid change [] f h = tt
  update-IsValid change ((j, runtime) ∷ rest) f h = elim (Bool-cases (j == k)) [
    | inl e ↦ rw e (f runtime h.0, h.1)
    | inr e ↦ rw e (h.0, update-IsValid change rest f h.1)
  ]

  remove-IsValid : (hub : Hub) → IsValid hub → IsValid (remove k hub)
  remove-IsValid [] h = tt
  remove-IsValid ((j, runtime) ∷ rest) h = elim (Bool-cases (j == k)) [
    | inl e ↦ rw e h.1
    | inr e ↦ rw e (h.0, remove-IsValid rest h.1)
  ]

  look-IsValid :
      (hub : Hub) (runtime : RoomRuntime)
      → look k hub ≡ some runtime
      → IsValid hub
      → RoomIsValid runtime
  look-IsValid [] runtime e h = absurd (ground arith)
  look-IsValid ((j, first) ∷ rest) runtime e h = elim (Bool-cases (j == k)) [
    | inl here ↦ subst RoomIsValid (ground arith) h.0
    | inr other ↦ look-IsValid rest runtime (ground arith) h.1
  ]

-- A change that leaves nobody connected where nobody was.
all_gone-update :
    (user : ℕ) (change : RuntimeMember → RuntimeMember) (members : List (ℕ × RuntimeMember))
    → ((m : RuntimeMember) → m.connections ≡ 0 → (change m).connections ≡ 0)
    → all_gone members ≡ true
    → all_gone (update user change members) ≡ true
all_gone-update user change [] f e = refl
all_gone-update user change ((j, m) ∷ rest) f e =
    ground (arith, f m, all_gone-update user change rest f)

change_member-IsValid :
    (user : ℕ) (change : RuntimeMember → RuntimeMember)
    → ((m : RuntimeMember) → m.connections ≡ 0 → (change m).connections ≡ 0)
    → (runtime : RoomRuntime) → RoomIsValid runtime
    → RoomIsValid (change_member user change runtime)
change_member-IsValid user change f runtime v = record {
  served = λ e. all_gone-update user change runtime.members f (v.served e);
  named = v.named;
}

connect-IsValid :
    (hub : Hub) (room : RoomRecord) (joined : RoomRuntime) (backend : Text) (fresh : ℕ)
    (audio : Option ℕ)
    → joined.audio ≡ audio
    → (joined.backend ≡ none → joined.audio ≡ none)
    → IsValid hub
    → let started = start_audio room backend fresh joined audio in
      IsValid (upsert room.id started.0 (λ _. started.0) hub)
connect-IsValid hub room joined backend fresh none e named h =
    upsert-IsValid room.id _ hub
      (record { served = λ x. absurd (ground arith); named = λ x. absurd (ground arith) }) h
connect-IsValid hub room joined backend fresh (some m) e named h =
    upsert-IsValid room.id joined hub
      (record { served = λ x. absurd (ground arith); named = named }) h

leave-IsValid :
    (room user : ℕ) (runtime : RoomRuntime)
    → RoomIsValid runtime
    → RoomIsValid (leave room user runtime).0
leave-IsValid room user runtime v =
    let change = drop_connection in
    elim (Bool-cases (all_gone (update user change runtime.members))) [
      | inl e ↦ rw e (record { served = λ x. e; named = λ x. refl })
      | inr e ↦ rw e (record {
        served = λ x. all_gone-update user change runtime.members (λ m z. omega arith) (v.served x);
        named = v.named;
      })
    ]

cut-IsValid : (user : ℕ) (hub : Hub) → IsValid hub → IsValid (cut_everywhere user hub)
cut-IsValid user [] h = tt
cut-IsValid user ((room, runtime) ∷ rest) h =
    (change_member-IsValid user (cut_off) (λ m z. refl) runtime h.0, cut-IsValid user rest h.1)

module _ (to_lowercase : Text → Text) where
  disconnect-IsValid :
      (hub : Hub) (room user : ℕ) (o : Option RoomRuntime)
      → look room hub ≡ o
      → IsValid hub
      → IsValid (disconnect_from to_lowercase hub room user o).0
  disconnect-IsValid hub room user none e h = h
  disconnect-IsValid hub room user (some runtime) e h =
      let v = leave-IsValid room user runtime (look-IsValid room hub runtime e h) in
      update-IsValid room _ hub (λ x w. v) h

  set_muted-IsValid :
      (hub : Hub) (room user : ℕ) (is_muted : Bool) (o : Option RoomRuntime)
      (m : Option RuntimeMember)
      → IsValid hub
      → IsValid (set_muted_in to_lowercase hub room user is_muted o m).0
  set_muted-IsValid hub room user is_muted none m h = h
  set_muted-IsValid hub room user is_muted (some runtime) none h = h
  set_muted-IsValid hub room user is_muted (some runtime) (some m) h =
      update-IsValid room _ hub (change_member-IsValid user (mute is_muted) (λ x z. z)) h

  set_speaking-IsValid :
      (hub : Hub) (room user : ℕ) (is_speaking : Bool) (m : Option RuntimeMember)
      → IsValid hub
      → IsValid (set_speaking_in to_lowercase hub room user is_speaking m).0
  set_speaking-IsValid hub room user is_speaking none h = h
  set_speaking-IsValid hub room user is_speaking (some m) h =
      elim (Bool-cases ((m.is_speaking && is_speaking) || (not m.is_speaking && not is_speaking))) [
        | inl e ↦ rw e h
        | inr e ↦ rw e (
            update-IsValid room _ hub
              (change_member-IsValid user (λ x. record x { is_speaking = is_speaking }) (λ x z. z))
              h)
      ]

  call-IsValid :
      (hub : Hub) (call : HubCall) → IsValid hub → IsValid (on_call to_lowercase hub call).0
  unfolding connect disconnect_user close_room disconnect set_muted set_speaking
  call-IsValid hub (connect_to room user members backend fresh) h = joined (look room.id hub) refl
    where
      joined :
          (o : Option RoomRuntime)
          → look room.id hub ≡ o
          → let runtime = add_connection room user members (or_new_room o) in
            let started = start_audio room backend fresh runtime runtime.audio in
            IsValid (upsert room.id started.0 (λ _. started.0) hub)
      joined none e =
          connect-IsValid hub room (add_connection room user members (or_new_room none)) backend
            fresh none refl (λ x. refl) h
      joined (some runtime) e =
          connect-IsValid hub room (add_connection room user members runtime) backend fresh
            runtime.audio refl (look-IsValid room.id hub runtime e h).named h
  call-IsValid hub (cut user) h = cut-IsValid user hub h
  call-IsValid hub (close room) h = remove-IsValid room hub h
  call-IsValid hub (disconnect_one room user) h =
      disconnect-IsValid hub room user (look room hub) refl h
  call-IsValid hub (mute_member room user b) h =
      set_muted-IsValid hub room user b (look room hub) (member_in (look room hub) user) h
  call-IsValid hub (speaking room user b) h =
      set_speaking-IsValid hub room user b (member_in (look room hub) user) h
  call-IsValid hub (event_of room user event) h = h
  call-IsValid hub (audio_from room user bytes) h = h

  -- From a hub in which every room where some member's count of connections is not zero has a mixer,
  -- and every room with a mixer has the name of its backend, both still hold after whatever calls.
  -- The counts are the hub's own, which disconnect_user sets to zero ahead of the sockets.
  pub run_calls-IsValid :
      (hub : Hub) (calls : List HubCall)
      → IsValid hub
      → IsValid (run_calls to_lowercase hub calls).0
  unfolding run_calls
  run_calls-IsValid hub [] h = h
  run_calls-IsValid hub (call ∷ calls) h =
      run_calls-IsValid (on_call to_lowercase hub call).0 calls (call-IsValid hub call h)
