-- ===== src/Rooms/Hub/Mixers.antt =====
-- Which mixer a room has, as the effects of the hub tell it.
use voice_elf.Prelude.{
  ℕ, ◌≡◌, refl, sym, ap, ◌∙◌, subst, true, false, ◌==◌, ==_iff, if◌then◌else◌, Bool-cases, inl, inr,
  List, [], ◌∷◌, ◌++◌, Option, none, some, arith,
}
use voice_elf.Prelude.Text.{Text}
use voice_elf.Rooms.Mixer.{
  RoomAudioCommand, configure_room, start_speaker, audio_of, end_speaker, remove_speaker, shutdown,
  upsert, update, remove,
}
use voice_elf.Rooms.Hub.{
  Hub, HubEffect, start_mixer, to_mixer, revoke, room_members, RoomRuntime, look, members_event,
  broadcast_members, command_to, send_command,
}

-- From a room's mixer, the mixer after an effect: `none` if a mixer is started beside another one, or
-- if a command goes to another than the room's. A shutdown ends it.
abbrev pub started_beside : Option ℕ → ℕ → Option (Option ℕ)
started_beside none mixer = some (some mixer)
started_beside (some other) mixer = none

abbrev pub reached : Option ℕ → ℕ → Option ℕ → Option (Option ℕ)
reached none mixer after = none
reached (some current) mixer after = if current == mixer then some after else none

abbrev pub after_command : Option ℕ → RoomAudioCommand → Option ℕ
after_command current (configure_room config) = current
after_command current (start_speaker speaker) = current
after_command current (audio_of user bytes) = current
after_command current (end_speaker user) = current
after_command current (remove_speaker user) = current
after_command current shutdown = none

abbrev pub after_effect : ℕ → Option ℕ → HubEffect → Option (Option ℕ)
after_effect r current (start_mixer room mixer config) =
    if room == r then started_beside current mixer else some current
after_effect r current (to_mixer room mixer command) =
    if room == r then reached current mixer (after_command current command) else some current
after_effect r current (revoke room user) = some current
after_effect r current (room_members room members) = some current

abbrev pub go_on : (Option ℕ → Option (Option ℕ)) → Option (Option ℕ) → Option (Option ℕ)
go_on f none = none
go_on f (some current) = f current

unfoldable pub mixer_after : ℕ → List HubEffect → Option ℕ → Option (Option ℕ)
mixer_after r [] current = some current
mixer_after r (e ∷ es) current = go_on (mixer_after r es) (after_effect r current e)

abbrev pub audio_in : Option RoomRuntime → Option ℕ
audio_in none = none
audio_in (some runtime) = runtime.audio

abbrev pub mixer_of : ℕ → Hub → Option ℕ
mixer_of r hub = audio_in (look r hub)

abbrev pub Distinct : {A : Type 0} → List (ℕ × A) → Type 0
Distinct [] = Unit {0}
Distinct ((k, a) ∷ rest) = (look k rest ≡ none) × Distinct rest

module _ {A : Type 0} where
  abbrev pub or_else : Option A → A → (A → A) → A
  or_else none fresh change = fresh
  or_else (some a) fresh change = change a

  abbrev pub changed : (A → A) → Option A → Option A
  changed change none = none
  changed change (some a) = some (change a)

  pub look-upsert :
      (r k : ℕ) (fresh : A) (change : A → A) (l : List (ℕ × A))
      → look r (upsert k fresh change l)
        ≡ (if k == r then some (or_else (look k l) fresh change) else look r l)
  look-upsert r k fresh change [] = refl
  look-upsert r k fresh change ((j, a) ∷ rest) = ground (arith, look-upsert r k fresh change rest)

  pub look-update :
      (r k : ℕ) (change : A → A) (l : List (ℕ × A))
      → look r (update k change l) ≡ (if k == r then changed change (look r l) else look r l)
  look-update r k change [] = ground arith
  look-update r k change ((j, a) ∷ rest) = ground (arith, look-update r k change rest)

  pub look-remove :
      (r k : ℕ) (l : List (ℕ × A))
      → Distinct l
      → look r (remove k l) ≡ (if k == r then none else look r l)
  look-remove r k [] d = ground arith
  look-remove r k ((j, a) ∷ rest) d = ground (arith, look-remove r k rest d.1)

module _ (r : ℕ) where
  -- The effects lead from one mixer of the room to another.
  abbrev pub Leads : Option ℕ → List HubEffect → Option ℕ → Type 0
  Leads current es next = mixer_after r es current ≡ some next

  pub Leads-append :
      (xs ys : List HubEffect) (a b c : Option ℕ)
      → Leads a xs b
      → Leads b ys c
      → Leads a (xs ++ ys) c
  unfolding mixer_after
  Leads-append [] ys a b c h k = ground (arith, k)
  Leads-append (e ∷ es) ys a b c h k =
      further (after_effect r a e) h (λ a' h'. Leads-append es ys a' b c h' k)
    where
      further :
          (o : Option (Option ℕ))
          → go_on (mixer_after r es) o ≡ some b
          → ((a' : Option ℕ) → Leads a' es b → Leads a' (es ++ ys) c)
          → go_on (mixer_after r (es ++ ys)) o ≡ some c
      further none h' f = cc
      further (some a') h' f = f a' h'

  pub members_event-Leads :
      (to_lowercase : Text → Text) (room : ℕ) (o : Option RoomRuntime) (current : Option ℕ)
      → Leads current (members_event to_lowercase room o) current
  unfolding mixer_after
  members_event-Leads to_lowercase room none current = refl
  members_event-Leads to_lowercase room (some runtime) current = refl

  pub broadcast-Leads :
      (to_lowercase : Text → Text) (hub : Hub) (room : ℕ) (current : Option ℕ)
      → Leads current (broadcast_members to_lowercase hub room) current
  unfolding broadcast_members
  broadcast-Leads to_lowercase hub room current =
      members_event-Leads to_lowercase room (look room hub) current

  after_command-none : (command : RoomAudioCommand) → after_command none command ≡ none
  after_command-none (configure_room config) = refl
  after_command-none (start_speaker speaker) = refl
  after_command-none (audio_of user bytes) = refl
  after_command-none (end_speaker user) = refl
  after_command-none (remove_speaker user) = refl
  after_command-none shutdown = refl

  -- A command to the mixer of a room, if it has one.
  pub command_to-Leads :
      (room : ℕ) (command : RoomAudioCommand) (audio current : Option ℕ)
      → ((room == r) ≡ true → audio ≡ current)
      → Leads current
          (command_to room command audio)
          (if room == r then after_command current command else current)
  unfolding mixer_after
  command_to-Leads room command audio current h = elim (Bool-cases (room == r)) [
    | inr other ↦ rw other (elsewhere other audio)
    | inl here ↦ rw (here, ← h here) (to_this here audio)
  ]
    where
      elsewhere :
          (room == r) ≡ false → (a : Option ℕ) → Leads current (command_to room command a) current
      elsewhere other none = refl
      elsewhere other (some m) = rw other refl

      to_this :
          (room == r) ≡ true
          → (a : Option ℕ) → Leads a (command_to room command a) (after_command a command)
      to_this here none = ap some (sym (after_command-none command))
      to_this here (some m) = rw (here, (==_iff m m).1 refl) refl

  -- A command that is no shutdown leaves the room's mixer as it is.
  pub plain-Leads :
      (hub : Hub) (room : ℕ) (command : RoomAudioCommand) (o : Option RoomRuntime)
      → look room hub ≡ o
      → ((current : Option ℕ) → after_command current command ≡ current)
      → Leads (mixer_of r hub) (command_to room command (audio_in o)) (mixer_of r hub)
  plain-Leads hub room command o e plain =
      subst (λ c. Leads (mixer_of r hub) (command_to room command (audio_in o)) c)
        (ground (arith, plain (mixer_of r hub)))
        (command_to-Leads room command (audio_in o) (mixer_of r hub) same)
    where
      same : (room == r) ≡ true → audio_in o ≡ mixer_of r hub
      same here = ap audio_in (sym e) ∙ ap (λ x. mixer_of x hub) ((==_iff room r).0 here)

  pub send_command-Leads :
      (hub : Hub) (room : ℕ) (command : Option RoomAudioCommand) (o : Option RoomRuntime)
      → look room hub ≡ o
      → ((x : RoomAudioCommand)
          → command ≡ some x
          → (current : Option ℕ) → after_command current x ≡ current)
      → Leads (mixer_of r hub) (send_command room (audio_in o) command).0 (mixer_of r hub)
  unfolding mixer_after
  send_command-Leads hub room none o e plain = with_audio (audio_in o)
    where
      with_audio :
          (a : Option ℕ) → Leads (mixer_of r hub) (send_command room a none).0 (mixer_of r hub)
      with_audio none = refl
      with_audio (some m) = refl
  send_command-Leads hub room (some x) o e plain =
      rw (sent (audio_in o)) (plain-Leads hub room x o e (plain x refl))
    where
      sent : (a : Option ℕ) → (send_command room a (some x)).0 ≡ command_to room x a
      sent none = refl
      sent (some m) = refl
