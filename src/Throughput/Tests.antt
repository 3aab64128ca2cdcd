-- ===== src/Throughput/Tests.antt =====
-- The load tool of utilities/throughput.rs on small inputs.
use layer4_lb.Prelude.{
  ℕ, ◌≡◌, refl, String, Option, none, some, List, [], ◌∷◌, ok, if◌then◌else◌, str_eq, All,
}
use layer4_lb.Throughput.{main_command, client, unparsable}
use layer4_lb.Throughput.Sink
use layer4_lb.Throughput.Sink.{read, tick}
use layer4_lb.Throughput.Flood
use layer4_lb.Throughput.Flood.{
  Client, connecting, waiting, connect, notify_waiters, wake, round, NotNotify, written,
  late_task_writes_nothing,
}

abbrev numbers : String → Option ℕ
numbers s = if str_eq s "1" then some 1 else if str_eq s "10" then some 10 else none

defaults_test :
    main_command numbers numbers numbers ("tool" ∷ "client" ∷ "a:80" ∷ []) ≡ client "a:80" 1 10
unfolding main_command
defaults_test = refl

bad_port_test : main_command numbers numbers numbers ("tool" ∷ "server" ∷ "x" ∷ []) ≡ unparsable
unfolding main_command
bad_port_test = refl

-- Two connections; the second one ends.
abbrev reads : List Sink.Event
reads =
    read 0 (ok 1000) ∷ tick ∷ read 1 (ok 20) ∷ read 1 (ok 0) ∷ read 1 (ok 7) ∷ read 0 (ok 3) ∷ []

reads_test : Sink.bytes_read reads Sink.start ≡ 1023
unfolding Sink.bytes_read Sink.step
reads_test = refl

abbrev clients : Client
clients = record { task = λ _. connecting; bytes_sent = 0 }

-- The first task connects in time, the second one does not.
abbrev before : List Flood.Event
before = connect 0 (ok tt) ∷ []

abbrev after : List Flood.Event
after = wake 0 5 ∷ round 0 5 (ok tt) ∷ connect 1 (ok tt) ∷ wake 1 6 ∷ round 1 6 (ok tt) ∷ []

once : All (NotNotify 10) after
once = (tt, (tt, (tt, (tt, (tt, tt)))))

still_connecting : (Flood.run 10 before clients).task 1 ≡ connecting
unfolding Flood.run
still_connecting = refl

first_writes_test :
    written 10 0 after (Flood.step 10 notify_waiters (Flood.run 10 before clients)) ≡ 1
unfolding written Flood.run Flood.step
first_writes_test = refl

late_task_writes_nothing_example :
    written 10 1 after (Flood.step 10 notify_waiters (Flood.run 10 before clients)) ≡ 0
late_task_writes_nothing_example =
    late_task_writes_nothing 10 1 before after clients still_connecting once
