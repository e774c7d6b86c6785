-- ===== src/Control/Delivery.antt =====
-- Every command reaches a subscriber that keeps up, once and in order.
use voice_elf.Prelude.{
  some, ℕ, ◌+◌, ◌%◌, ◌<◌, ◌≡◌, refl, sym, ap, ◌∙◌, Bool-cases, inl, inr, ◌==◌, List, [], ◌∷◌, ◌++◌,
  length, subst, arith,
}
use mathlib.Core.List.{append-nil, append_assoc}
use voice_elf.Prelude.Text.{Text}
use voice_elf.Control.{
  RuntimeAction, RuntimeCommand, RuntimeCommandBus, take_number, tail_of, push_command, numbered,
  later_than, commands_after, stream_round, Traffic, BusStep, begins, queues, polls, begin_publish,
  taken, queue_taken, finish_publish, run_bus,
}
use voice_elf.Control.Order.{
  Rising, Rising-append, Rising-high, Rising-low, Rising-tail, below_oldest, last-later_than,
  later_than-append, later_than-tail, oldest, oldest-append,
}

-- The commands that the steps publish, by the first number.
abbrev pub published : ℕ → List BusStep → List RuntimeCommand
published n [] = []
published n (begins id action ∷ steps) =
    record { id = id; sequence = n; action = some action } ∷ published (n + 1) steps
published n (queues i ∷ steps) = published n steps
published n (polls ∷ steps) = published n steps

-- The numbers are not used up, publications get the lock in the order of their numbers, and fewer than
-- 2048 commands then wait for the subscriber.
abbrev pub KeepsUp : Traffic → List BusStep → Type 0
KeepsUp t [] = Unit {0}
KeepsUp t (begins id action ∷ steps) =
    (t.bus.next_sequence + 1 < 18446744073709551616) × KeepsUp (begin_publish t id action) steps
KeepsUp t (queues i ∷ steps) =
    (i ≡ 0) × (length (commands_after t.bus t.sequence) < 2048) × KeepsUp (finish_publish t i) steps
KeepsUp t (polls ∷ steps) =
    KeepsUp (record t { sequence = (stream_round t.bus t.sequence).1 }) steps

-- Commands with rising numbers, the queued ones before those under way and these before the next
-- one, and the subscriber's number before those under way.
pub record IsValid (t : Traffic) : Type 0 where
  pub rising : Rising 0 (oldest t.bus.next_sequence t.under_way) t.bus.commands
  pub under : Rising t.sequence t.bus.next_sequence t.under_way

-- The command that is queued joins those that wait.
push_command-waits :
    (bus : RuntimeCommandBus) (s : ℕ) (c : RuntimeCommand)
    → Rising 0 c.sequence bus.commands
    → s < c.sequence
    → length (commands_after bus s) < 2048
    → (commands_after (push_command bus c) s ≡ commands_after bus s ++ c ∷ [])
      × Rising 0 (c.sequence + 1) (push_command bus c).commands
unfolding push_command commands_after
push_command-waits bus s c h m room =
    let last : later_than s (c ∷ []) ≡ c ∷ [] = ground arith in
    elim (Bool-cases (length bus.commands == 2048)) [
      | inl full ↦
          let kept = later_than-tail s 0 c.sequence bus.commands h (ground (arith, room)) in
          rw full (
            later_than-append s (tail_of bus.commands) (c ∷ []) ∙ rw (kept, last) refl,
            Rising-append 0 c.sequence (tail_of bus.commands) c
                (Rising-tail 0 c.sequence bus.commands h) refl,
          )
      | inr free ↦ rw free (
        later_than-append s bus.commands (c ∷ []) ∙ rw last refl,
        Rising-append 0 c.sequence bus.commands c h refl,
      )
    ]

-- What waits for the subscriber, and then what is under way.
abbrev pub coming : Traffic → List RuntimeCommand
coming t = commands_after t.bus t.sequence ++ t.under_way

begin_publish-coming :
    (t : Traffic) (id : Text) (action : RuntimeAction)
    → IsValid t
    → t.bus.next_sequence + 1 < 18446744073709551616
    → let t' = begin_publish t id action in
      (t'.bus.next_sequence ≡ t.bus.next_sequence + 1)
      × (coming t' ≡ coming t ++ numbered t.bus id action ∷ [])
      × IsValid t'
unfolding begin_publish take_number commands_after
begin_publish-coming t id action v small =
    let next = t.bus.next_sequence in
    let no_wrap : (next + 1) % 18446744073709551616 ≡ next + 1 = omega arith in
    let c = numbered t.bus id action in
    (
      no_wrap,
      sym (append_assoc (commands_after t.bus t.sequence) t.under_way (c ∷ [])),
      rw no_wrap (record {
        rising = rw (oldest-append next t.under_way c refl) v.rising;
        under = Rising-append t.sequence next t.under_way c v.under refl;
      }),
    )

finish_publish-coming :
    (t : Traffic)
    → IsValid t
    → length (commands_after t.bus t.sequence) < 2048
    → let t' = finish_publish t 0 in
      (t'.bus.next_sequence ≡ t.bus.next_sequence) × (coming t' ≡ coming t) × IsValid t'
unfolding finish_publish push_command
finish_publish-coming t v room = queued t.under_way refl
  where
    queued :
        (cs : List RuntimeCommand)
        → t.under_way ≡ cs
        → let t' = queue_taken t (taken 0 cs) in
          (t'.bus.next_sequence ≡ t.bus.next_sequence) × (coming t' ≡ coming t) × IsValid t'
    queued [] e = (refl, refl, v)
    queued (c ∷ cs) e =
        let next = t.bus.next_sequence in
        let rising = subst (λ us. Rising 0 (oldest next us) t.bus.commands) e v.rising in
        let under = subst (Rising t.sequence next) e v.under in
        let after = below_oldest c.sequence next cs under.1 in
        let (waits, risen) = push_command-waits t.bus t.sequence c rising under.0 room in
        (
          refl,
          ap (λ x. x ++ cs) waits
              ∙ append_assoc (commands_after t.bus t.sequence) (c ∷ []) cs
              ∙ ap (λ us. commands_after t.bus t.sequence ++ us) (sym e),
          record {
            rising = Rising-high 0 (c.sequence + 1) (oldest next cs) _ risen (omega arith);
            under = Rising-low c.sequence t.sequence next cs under.1 (omega (arith, under.0));
          },
        )

-- After a round only what is under way is still to come.
stream_round-coming :
    (t : Traffic)
    → IsValid t
    → let t' = record t { sequence = (stream_round t.bus t.sequence).1 } in
      (coming t' ≡ t.under_way) × IsValid t'
unfolding stream_round commands_after
stream_round-coming t v =
    let (nothing, below) =
      last-later_than t.sequence 0 (oldest t.bus.next_sequence t.under_way) t.bus.commands v.rising
        (below_oldest t.sequence t.bus.next_sequence t.under_way v.under) in
    (
      ap (λ x. x ++ t.under_way) nothing,
      record {
        rising = v.rising;
        under = Rising-low t.sequence _ t.bus.next_sequence t.under_way v.under below;
      },
    )

-- From commands with rising numbers, the queued ones before those under way, and a subscriber's
-- number before those: if publications, which may overlap, get the lock in the order of their
-- numbers, fewer than 2048 commands wait for the subscriber whenever one is queued, and the numbers
-- are not used up, then what the subscriber is sent, followed by what then waits for it and what is
-- then under way, is what waited and was under way at first, followed by all that was published,
-- each once and in order.
pub run_bus-delivers :
    (t : Traffic) (steps : List BusStep)
    → IsValid t
    → KeepsUp t steps
    → (run_bus t steps).1 ++ coming (run_bus t steps).0
      ≡ coming t ++ published t.bus.next_sequence steps
unfolding run_bus stream_round commands_after
run_bus-delivers t [] v k = sym (append-nil (coming t))
run_bus-delivers t (begins id action ∷ steps) v k =
    let (next, waits, v') = begin_publish-coming t id action v k.0 in
    run_bus-delivers (begin_publish t id action) steps v' k.1
    ∙ rw (next, waits)
        (append_assoc (coming t) (numbered t.bus id action ∷ [])
          (published (t.bus.next_sequence + 1) steps))
run_bus-delivers t (queues i ∷ steps) v k =
    let first : finish_publish t i ≡ finish_publish t 0 = ap (finish_publish t) k.0 in
    let (next, waits, v') = finish_publish-coming t v k.1 in
    run_bus-delivers (finish_publish t i) steps (subst IsValid (sym first) v') k.2
    ∙ rw (first, next, waits) refl
run_bus-delivers t (polls ∷ steps) v k =
    let (nothing, v') = stream_round-coming t v in
    let t' = record t { sequence = (stream_round t.bus t.sequence).1 } in
    let rest = run_bus t' steps in
    append_assoc (commands_after t.bus t.sequence) rest.1 (coming rest.0)
    ∙ ap (λ x. commands_after t.bus t.sequence ++ x)
        (run_bus-delivers t' steps v' k
          ∙ ap (λ x. x ++ published t.bus.next_sequence steps) nothing)
    ∙ sym (
        append_assoc (commands_after t.bus t.sequence) t.under_way
          (published t.bus.next_sequence steps))
