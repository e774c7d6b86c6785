-- ===== src/Control.antt =====
-- The commands of the management side for the rooms: the bus, its subscribers and the listener of
-- server/src/control.rs. `Uuid::parse_str` is a parameter, and so are the identifier and the time of a command, which stand
-- in `id`.
pub mod Order
pub mod Delivery
mod Examples
use voice_elf.Prelude.{
  ℕ, zero, suc, ◌+◌, ◌-◌, ◌%◌, max, Bool, true, false, not, ◌||◌, if◌then◌else◌, ◌==◌, ltb, List,
  [], ◌∷◌, ◌++◌, length, Option, none, some,
}
use voice_elf.Prelude.Text.{Text, text_eq, member}
use voice_elf.Rooms.Hub.{HubCall, cut, close}

pub data RuntimeAction : Type 0 where
  revoke_user_sessions close_room : Text → RuntimeAction

pub record RuntimeCommand : Type 0 where
  pub id : Text
  pub sequence : ℕ
  pub action : Option RuntimeAction

pub record RuntimeCommandBus : Type 0 where
  pub next_sequence : ℕ
  pub commands : List RuntimeCommand

abbrev pub command_queue_capacity : ℕ
command_queue_capacity = 2048

abbrev pub new_bus : RuntimeCommandBus
new_bus = record { next_sequence = 1; commands = [] }

-- `fetch_add`, which wraps.
unfoldable pub take_number : RuntimeCommandBus → RuntimeCommandBus
take_number bus = record bus { next_sequence = (bus.next_sequence + 1) % 18446744073709551616 }

abbrev pub tail_of : List RuntimeCommand → List RuntimeCommand
tail_of [] = []
tail_of (c ∷ cs) = cs

-- The section under the lock.
unfoldable pub push_command : RuntimeCommandBus → RuntimeCommand → RuntimeCommandBus
push_command bus c =
    let kept =
      if length bus.commands == command_queue_capacity
      then tail_of bus.commands
      else bus.commands in
    record bus { commands = kept ++ c ∷ [] }

abbrev pub numbered : RuntimeCommandBus → Text → RuntimeAction → RuntimeCommand
numbered bus id action = record { id = id; sequence = bus.next_sequence; action = some action }

abbrev pub later_than : ℕ → List RuntimeCommand → List RuntimeCommand
later_than sequence [] = []
later_than sequence (c ∷ cs) =
    let rest = later_than sequence cs in if ltb sequence c.sequence then c ∷ rest else rest

unfoldable pub commands_after : RuntimeCommandBus → ℕ → List RuntimeCommand
commands_after bus sequence = later_than sequence bus.commands

-- Where `stream_after` begins: a number that was not given yet is one of an earlier run.
unfoldable pub first_sequence : RuntimeCommandBus → ℕ → ℕ
first_sequence bus sequence = if ltb (bus.next_sequence - 1) sequence then 0 else sequence

-- The number after the commands of one round have been sent.
abbrev pub last_sequence : ℕ → List RuntimeCommand → ℕ
last_sequence sequence [] = sequence
last_sequence sequence (c ∷ cs) = last_sequence c.sequence cs

-- One round of the loop of `stream_after`, with an open stream: what is sent, and the new number.
unfoldable pub stream_round : RuntimeCommandBus → ℕ → List RuntimeCommand × ℕ
stream_round bus sequence =
    let commands = commands_after bus sequence in (commands, last_sequence sequence commands)

-- A bus with the commands of `publish` that have a number and are not queued yet, and the number of
-- one subscriber.
pub record Traffic : Type 0 where
  pub bus : RuntimeCommandBus
  pub under_way : List RuntimeCommand
  pub sequence : ℕ

-- A `publish` makes its command, with a number; the one at an index among those under way takes the
-- lock and queues its command; the subscriber asks.
pub data BusStep : Type 0 where
  begins : Text → RuntimeAction → BusStep
  queues : ℕ → BusStep
  polls : BusStep

-- The first half of `publish`.
unfoldable pub begin_publish : Traffic → Text → RuntimeAction → Traffic
begin_publish t id action = record t {
  bus = take_number t.bus;
  under_way = t.under_way ++ numbered t.bus id action ∷ [];
}

abbrev pub put_back :
    RuntimeCommand
    → Option (RuntimeCommand × List RuntimeCommand)
    → Option (RuntimeCommand × List RuntimeCommand)
put_back c none = none
put_back c (some (d, rest)) = some (d, c ∷ rest)

abbrev pub taken : ℕ → List RuntimeCommand → Option (RuntimeCommand × List RuntimeCommand)
taken i [] = none
taken zero (c ∷ cs) = some (c, cs)
taken (suc i) (c ∷ cs) = put_back c (taken i cs)

abbrev pub queue_taken : Traffic → Option (RuntimeCommand × List RuntimeCommand) → Traffic
queue_taken t none = t
queue_taken t (some (c, rest)) = record t { bus = push_command t.bus c; under_way = rest }

-- The second half of `publish`, for the command at an index.
unfoldable pub finish_publish : Traffic → ℕ → Traffic
finish_publish t i = queue_taken t (taken i t.under_way)

-- The traffic at the end, and what the subscriber has been sent.
unfoldable pub run_bus : Traffic → List BusStep → Traffic × List RuntimeCommand
run_bus t [] = (t, [])
run_bus t (begins id action ∷ steps) = run_bus (begin_publish t id action) steps
run_bus t (queues i ∷ steps) = run_bus (finish_publish t i) steps
run_bus t (polls ∷ steps) =
    let round = stream_round t.bus t.sequence in
    let rest = run_bus (record t { sequence = round.1 }) steps in (rest.0, round.0 ++ rest.1)

abbrev pub processed_command_capacity : ℕ
processed_command_capacity = 4096

-- `ids` is a set.
pub record ProcessedCommands : Type 0 where
  pub ids : List Text
  pub order : List Text

abbrev pub remove_text : Text → List Text → List Text
remove_text t [] = []
remove_text t (u ∷ us) = if text_eq u t then us else u ∷ remove_text t us

abbrev pub expire : ProcessedCommands → List Text → ProcessedCommands
expire p [] = p
expire p (expired ∷ order) = record { ids = remove_text expired p.ids; order = order }

unfoldable pub insert_processed : ProcessedCommands → Text → ProcessedCommands
insert_processed p id =
    let grown : ProcessedCommands = record { ids = id ∷ p.ids; order = p.order ++ id ∷ [] } in
    if member id p.ids
    then p
    else if ltb processed_command_capacity (length grown.order)
    then expire grown grown.order
    else grown

pub record Listener : Type 0 where
  pub after_sequence : ℕ
  pub processed : ProcessedCommands

module _ (parse_uuid : Text → Option ℕ) where
  abbrev pub parsed : (ℕ → HubCall) → Option ℕ → Option HubCall
  parsed f none = none
  parsed f (some id) = some (f id)

  -- `none` is an error: no action, or an identifier that is none.
  unfoldable pub apply_runtime_command : Option RuntimeAction → Option HubCall
  apply_runtime_command none = none
  apply_runtime_command (some (revoke_user_sessions user)) = parsed cut (parse_uuid user)
  apply_runtime_command (some (close_room room)) = parsed close (parse_uuid room)

  abbrev pub applied : Listener → Text → Option HubCall → Listener × List HubCall
  applied l id none = (l, [])
  applied l id (some call) = (record l { processed = insert_processed l.processed id }, call ∷ [])

  -- A command that arrives at the listener, and the hub's call for it.
  unfoldable pub consume_command : Listener → RuntimeCommand → Listener × List HubCall
  consume_command l c =
      let l' = record l { after_sequence = max l.after_sequence c.sequence } in
      if member c.id l.processed.ids
      then (l', [])
      else applied l' c.id (apply_runtime_command c.action)
