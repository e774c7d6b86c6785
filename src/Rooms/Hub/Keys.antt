-- ===== src/Rooms/Hub/Keys.antt =====
-- The rooms of the hub keep different identifiers.
use voice_elf.Prelude.{
  ℕ, ◌≡◌, refl, Bool, ◌==◌, Bool-cases, inl, inr, List, [], ◌∷◌, Option, none, some, arith, ◌||◌,
  ◌&&◌, not,
}
use voice_elf.Prelude.Text.{Text}
use voice_elf.Rooms.Mixer.{upsert, update, remove}
use voice_elf.Rooms.Hub.{
  Hub, HubCall, connect_to, cut, close, disconnect_one, mute_member, speaking, event_of, audio_from,
  RoomRuntime, RuntimeMember, look, connect, cut_everywhere, disconnect_user, close_room,
  disconnect_from, disconnect, member_in, set_muted_in, set_muted, set_speaking_in, set_speaking,
  on_call,
}
use voice_elf.Rooms.Hub.Mixers.{Distinct, look-upsert, look-update, look-remove}

module _ {A : Type 0} where
  upsert-Distinct :
      (k : ℕ) (fresh : A) (change : A → A) (l : List (ℕ × A))
      → Distinct l
      → Distinct (upsert k fresh change l)
  upsert-Distinct k fresh change [] d = (refl, tt)
  upsert-Distinct k fresh change ((j, a) ∷ rest) d = elim (Bool-cases (j == k)) [
    | inl e ↦ rw e d
    | inr e ↦ rw e (
      ground (arith, look-upsert j k fresh change rest, d.0),
      upsert-Distinct k fresh change rest d.1,
    )
  ]

  update-Distinct :
      (k : ℕ) (change : A → A) (l : List (ℕ × A)) → Distinct l → Distinct (update k change l)
  update-Distinct k change [] d = tt
  update-Distinct k change ((j, a) ∷ rest) d = elim (Bool-cases (j == k)) [
    | inl e ↦ rw e d
    | inr e ↦
        rw e (ground (arith, look-update j k change rest, d.0), update-Distinct k change rest d.1)
  ]

  remove-Distinct : (k : ℕ) (l : List (ℕ × A)) → Distinct l → Distinct (remove k l)
  remove-Distinct k [] d = tt
  remove-Distinct k ((j, a) ∷ rest) d = elim (Bool-cases (j == k)) [
    | inl e ↦ rw e d.1
    | inr e ↦ rw e (ground (arith, look-remove j k rest d.1, d.0), remove-Distinct k rest d.1)
  ]

module _ (to_lowercase : Text → Text) where
  look-cut : (user r : ℕ) (hub : Hub) → look r hub ≡ none → look r (cut_everywhere user hub) ≡ none
  look-cut user r [] e = refl
  look-cut user r ((k, runtime) ∷ rest) e = ground (arith, look-cut user r rest)

  cut-Distinct : (user : ℕ) (hub : Hub) → Distinct hub → Distinct (cut_everywhere user hub)
  cut-Distinct user [] d = tt
  cut-Distinct user ((k, runtime) ∷ rest) d = (look-cut user k rest d.0, cut-Distinct user rest d.1)

  disconnect-Distinct :
      (hub : Hub) (room user : ℕ) (o : Option RoomRuntime)
      → Distinct hub
      → Distinct (disconnect_from to_lowercase hub room user o).0
  disconnect-Distinct hub room user none d = d
  disconnect-Distinct hub room user (some runtime) d = update-Distinct room _ hub d

  set_muted-Distinct :
      (hub : Hub) (room user : ℕ) (is_muted : Bool) (o : Option RoomRuntime)
      (m : Option RuntimeMember)
      → Distinct hub
      → Distinct (set_muted_in to_lowercase hub room user is_muted o m).0
  set_muted-Distinct hub room user is_muted none m d = d
  set_muted-Distinct hub room user is_muted (some runtime) none d = d
  set_muted-Distinct hub room user is_muted (some runtime) (some m) d = update-Distinct room _ hub d

  set_speaking-Distinct :
      (hub : Hub) (room user : ℕ) (is_speaking : Bool) (m : Option RuntimeMember)
      → Distinct hub
      → Distinct (set_speaking_in to_lowercase hub room user is_speaking m).0
  set_speaking-Distinct hub room user is_speaking none d = d
  set_speaking-Distinct hub room user is_speaking (some m) d =
      elim (Bool-cases ((m.is_speaking && is_speaking) || (not m.is_speaking && not is_speaking))) [
        | inl e ↦ rw e d
        | inr e ↦ rw e (update-Distinct room _ hub d)
      ]

  pub call-Distinct :
      (hub : Hub) (call : HubCall) → Distinct hub → Distinct (on_call to_lowercase hub call).0
  unfolding connect disconnect_user close_room disconnect set_muted set_speaking
  call-Distinct hub (connect_to room user members backend fresh) d =
      upsert-Distinct room.id _ _ hub d
  call-Distinct hub (cut user) d = cut-Distinct user hub d
  call-Distinct hub (close room) d = remove-Distinct room hub d
  call-Distinct hub (disconnect_one room user) d =
      disconnect-Distinct hub room user (look room hub) d
  call-Distinct hub (mute_member room user b) d =
      set_muted-Distinct hub room user b (look room hub) (member_in (look room hub) user) d
  call-Distinct hub (speaking room user b) d =
      set_speaking-Distinct hub room user b (member_in (look room hub) user) d
  call-Distinct hub (event_of room user event) d = d
  call-Distinct hub (audio_from room user bytes) d = d
