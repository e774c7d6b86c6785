-- ===== src/Control/Examples.antt =====
-- Commands for a subscriber, and two publications that overlap.
use voice_elf.Prelude.{◌≡◌, refl, List, [], ◌∷◌, ◌++◌, arith}
use voice_elf.Prelude.Text.{codes}
use voice_elf.Control.{
  RuntimeCommand, revoke_user_sessions, close_room, new_bus, numbered, take_number, push_command,
  commands_after, Traffic, BusStep, begins, queues, polls, begin_publish, finish_publish, run_bus,
  stream_round,
}
use voice_elf.Control.Delivery.{published, coming, run_bus-delivers}

abbrev no_traffic : Traffic
no_traffic = record { bus = new_bus; under_way = []; sequence = 0 }

abbrev steps : List BusStep
steps =
    begins (codes "a") (revoke_user_sessions (codes "u"))
    ∷ begins (codes "b") (close_room (codes "r"))
    ∷ queues 0
    ∷ polls
    ∷ queues 0
    ∷ begins (codes "c") (close_room (codes "s"))
    ∷ polls
    ∷ []

run_bus-delivers_example :
    (run_bus no_traffic steps).1 ++ coming (run_bus no_traffic steps).0
    ≡ coming no_traffic ++ published 1 steps
unfolding commands_after begin_publish finish_publish push_command take_number stream_round
run_bus-delivers_example =
    run_bus-delivers no_traffic steps (record { rising = omega arith; under = omega arith })
      (omega arith, (omega arith, (refl, omega arith, (refl, omega arith, (omega arith, tt)))))

-- Two publications have taken the numbers 1 and 2, and the second gets the lock first. A subscriber
-- that asks between the two never gets the first.
abbrev overtaking : List BusStep
overtaking =
    begins (codes "a") (revoke_user_sessions (codes "u"))
    ∷ begins (codes "b") (close_room (codes "r"))
    ∷ queues 1
    ∷ polls
    ∷ queues 0
    ∷ polls
    ∷ []

abbrev overtaken : RuntimeCommand
overtaken = numbered (take_number new_bus) (codes "b") (close_room (codes "r"))

is_never_sent : (run_bus no_traffic overtaking).1 ≡ overtaken ∷ []
unfolding run_bus begin_publish finish_publish take_number push_command commands_after stream_round
is_never_sent = refl

nothing_is_coming : coming (run_bus no_traffic overtaking).0 ≡ []
unfolding run_bus begin_publish finish_publish take_number push_command commands_after stream_round
nothing_is_coming = refl
