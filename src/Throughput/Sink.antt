-- ===== src/Throughput/Sink.antt =====
-- `run_server` of utilities/throughput.rs: the sinks that count what they read, and the reporter.
use layer4_lb.Prelude.{
  ℕ, zero, suc, ◌+◌, ◌%◌, ◌<◌, ◌≡◌, refl, Bool, Bool-cases, inl, inr, true, false, List, [], ◌∷◌,
  Result, ok, err, arith, if◌then◌else◌, ◌==◌,
}
use layer4_lb.Prelude.Word.{usize_mod, wrapping_add, wrapping_sub}

-- The counter that the tasks share, the reporter's variable and what it has printed, and for each
-- connection whether its task still reads.
pub record Server : Type 0 where
  pub bytes_received : ℕ
  pub last_bytes : ℕ
  pub deltas : List ℕ
  pub reads : ℕ → Bool

abbrev pub start : Server
start = record { bytes_received = 0; last_bytes = 0; deltas = []; reads = λ _. true }

-- A task has read from its socket, or the reporter's interval has passed.
pub data Event : Type 0 where
  read : (connection : ℕ) → Result ℕ (Unit {0}) → Event
  tick : Event

abbrev stop : ℕ → Server → Server
stop i s = record s { reads = λ j. if j == i then false else s.reads j }

-- One round of a sink's loop. A read of nothing is the end of the stream.
abbrev sink_round : ℕ → Result ℕ (Unit {0}) → Server → Server
sink_round i (ok zero) s = stop i s
sink_round i (ok (suc n)) s = record s { bytes_received = wrapping_add s.bytes_received (suc n) }
sink_round i (err e) s = stop i s

-- One round of the reporter's loop. The subtraction is that of a release build.
abbrev report : Server → Server
report s =
    let current = s.bytes_received in
    let delta = wrapping_sub current s.last_bytes in
    record s { last_bytes = current; deltas = delta ∷ s.deltas }

unfoldable pub step : Event → Server → Server
step (read i r) s = if s.reads i then sink_round i r s else s
step tick s = report s

unfoldable pub run : List Event → Server → Server
unfolding step
run [] s = s
run (event ∷ events) s = run events (step event s)

-- The bytes that an event takes from a connection that is still read.
abbrev pub bytes_of : Event → Server → ℕ
bytes_of (read i (ok n)) s = if s.reads i then n else 0
bytes_of (read i (err e)) s = 0
bytes_of tick s = 0

unfoldable pub bytes_read : List Event → Server → ℕ
bytes_read [] s = 0
bytes_read (event ∷ events) s = bytes_of event s + bytes_read events (step event s)

abbrev pub sum : List ℕ → ℕ
sum [] = 0
sum (n ∷ ns) = n + sum ns

-- The two counters are words, and the second is what was printed.
pub record IsBalanced (s : Server) : Type 0 where
  pub counter_word : s.bytes_received < usize_mod
  pub last_word : s.last_bytes < usize_mod
  pub printed : sum s.deltas % usize_mod ≡ s.last_bytes

stop-IsBalanced : (i : ℕ) (s : Server) → IsBalanced s → IsBalanced (stop i s)
stop-IsBalanced i s b = record {
  counter_word = b.counter_word;
  last_word = b.last_word;
  printed = b.printed;
}

round-IsBalanced :
    (i : ℕ) (r : Result ℕ (Unit {0})) (s : Server) → IsBalanced s → IsBalanced (sink_round i r s)
round-IsBalanced i (ok zero) s b = stop-IsBalanced i s b
round-IsBalanced i (ok (suc n)) s b = record {
  counter_word = omega arith;
  last_word = b.last_word;
  printed = b.printed;
}
round-IsBalanced i (err e) s b = stop-IsBalanced i s b

reported : (c l d : ℕ) → c < usize_mod → d % usize_mod ≡ l → (wrapping_sub c l + d) % usize_mod ≡ c
reported c l d word e = omega (arith, word, e)

step-IsBalanced : (event : Event) (s : Server) → IsBalanced s → IsBalanced (step event s)
unfolding step
step-IsBalanced (read i r) s b = elim (Bool-cases (s.reads i)) [
  | inl reading ↦ rw reading (round-IsBalanced i r s b)
  | inr closed ↦ rw closed b
]
step-IsBalanced tick s b = record {
  counter_word = b.counter_word;
  last_word = b.counter_word;
  printed = reported s.bytes_received s.last_bytes (sum s.deltas) b.counter_word b.printed;
}

round-bytes_received :
    (i : ℕ) (r : Result ℕ (Unit {0})) (s : Server)
    → s.reads i ≡ true
    → s.bytes_received < usize_mod
    → (sink_round i r s).bytes_received ≡ (s.bytes_received + bytes_of (read i r) s) % usize_mod
round-bytes_received i (ok zero) s reading w = rw reading (omega (arith, w))
round-bytes_received i (ok (suc n)) s reading w = rw reading refl
round-bytes_received i (err e) s reading w = omega (arith, w)

closed_takes_nothing :
    (i : ℕ) (r : Result ℕ (Unit {0})) (s : Server) → s.reads i ≡ false → bytes_of (read i r) s ≡ 0
closed_takes_nothing i (ok n) s closed = rw closed refl
closed_takes_nothing i (err e) s closed = refl

step-bytes_received :
    (event : Event) (s : Server)
    → s.bytes_received < usize_mod
    → (step event s).bytes_received ≡ (s.bytes_received + bytes_of event s) % usize_mod
unfolding step
step-bytes_received (read i r) s w = elim (Bool-cases (s.reads i)) [
  | inl reading ↦ rw reading (round-bytes_received i r s reading w)
  | inr closed ↦ rw (closed_takes_nothing i r s closed, closed) (omega (arith, w))
]
step-bytes_received tick s w = omega (arith, w)

run-bytes_received :
    (events : List Event) (s : Server)
    → s.bytes_received < usize_mod
    → (run events s).bytes_received ≡ (s.bytes_received + bytes_read events s) % usize_mod
unfolding run bytes_read
run-bytes_received [] s w = omega (arith, w)
run-bytes_received (event ∷ events) s w =
    let once = step-bytes_received event s w in
    omega (arith, once, run-bytes_received events (step event s) (omega (arith, once)))

run-IsBalanced : (events : List Event) (s : Server) → IsBalanced s → IsBalanced (run events s)
unfolding run
run-IsBalanced [] s b = b
run-IsBalanced (event ∷ events) s b =
    run-IsBalanced events (step event s) (step-IsBalanced event s b)

start-IsBalanced : IsBalanced start
start-IsBalanced = record { counter_word = omega arith; last_word = omega arith; printed = refl }

-- Whatever the sinks read, whenever connections end or fail and whenever the reporter wakes, the speeds
-- that it has printed at its next round sum to the bytes read so far, up to the wrap-around of a word.
pub deltas-bytes_read :
    (events : List Event)
    → sum (step tick (run events start)).deltas % usize_mod ≡ bytes_read events start % usize_mod
unfolding step
deltas-bytes_read events =
    let s = run events start in
    let balanced = step-IsBalanced tick s (run-IsBalanced events start start-IsBalanced) in
    omega (arith, balanced.printed, run-bytes_received events start (omega arith))
