-- ===== src/Throughput/Flood.antt =====
-- `run_client` of utilities/throughput.rs: the tasks that connect, wait for the start and write.
use layer4_lb.Prelude.{
  ℕ, ◌+◌, ◌≡◌, refl, sym, subst, ==_iff, List, [], ◌∷◌, Result, ok, err, arith, if◌then◌else◌, All,
  ltb, ◌==◌, Bool-cases, inl, inr,
}
use layer4_lb.Prelude.Word.{wrapping_add}

-- 128 KB.
abbrev pub chunk : ℕ
chunk = 131072

-- Where a task stands: at `connect`, at `notified`, woken, in its loop with a deadline, or at its end.
pub data Task : Type 0 where
  connecting : Task
  waiting : Task
  notified : Task
  flooding : (deadline : ℕ) → Task
  finished : Task

pub record Client : Type 0 where
  pub task : ℕ → Task
  pub bytes_sent : ℕ

-- The answer of `connect`; the call of `notify_waiters`; a woken task reads the clock and sets its deadline;
-- a round of a task's loop, at a time, with the answer of `write_all`.
pub data Event : Type 0 where
  connect : (i : ℕ) → Result (Unit {0}) (Unit {0}) → Event
  notify_waiters : Event
  wake : (i : ℕ) (now : ℕ) → Event
  round : (i : ℕ) (now : ℕ) → Result (Unit {0}) (Unit {0}) → Event

abbrev set_task : ℕ → Task → Client → Client
set_task i t c = record c { task = λ j. if j == i then t else c.task j }

-- `notify_waiters` wakes the tasks that wait and leaves no permit for those that come later.
abbrev notify : Task → Task
notify waiting = notified
notify t = t

on_connect : ℕ → Result (Unit {0}) (Unit {0}) → Task → Client → Client
on_connect i (ok _) connecting c = set_task i waiting c
on_connect i (err _) connecting c = set_task i finished c
on_connect i r t c = c

on_wake : ℕ → ℕ → Task → Client → Client
on_wake i deadline notified c = set_task i (flooding deadline) c
on_wake i deadline t c = c

write : ℕ → Result (Unit {0}) (Unit {0}) → Client → Client
write i (ok _) c = record c { bytes_sent = wrapping_add c.bytes_sent chunk }
write i (err _) c = set_task i finished c

on_round : ℕ → ℕ → Result (Unit {0}) (Unit {0}) → Task → Client → Client
unfolding write
on_round i now r (flooding deadline) c =
    if ltb now deadline then write i r c else set_task i finished c
on_round i now r t c = c

-- `seconds` is how long a task writes.
module _ (seconds : ℕ) where
  unfoldable pub step : Event → Client → Client
  unfolding on_connect on_wake on_round
  step (connect i r) c = on_connect i r (c.task i) c
  step notify_waiters c = record c { task = λ j. notify (c.task j) }
  step (wake i now) c = on_wake i (now + seconds) (c.task i) c
  step (round i now r) c = on_round i now r (c.task i) c

  unfoldable pub run : List Event → Client → Client
  unfolding step
  run [] c = c
  run (event ∷ events) c = run events (step event c)

  -- The chunks that a task has written in its rounds.
  abbrev writes : ℕ → Event → Task → ℕ
  writes j (round i now (ok _)) (flooding deadline) =
      if j == i then (if ltb now deadline then 1 else 0) else 0
  writes j event t = 0

  unfoldable pub written : ℕ → List Event → Client → ℕ
  written j [] c = 0
  written j (event ∷ events) c = writes j event (c.task j) + written j events (step event c)

  abbrev pub NotNotify : Event → Type 0
  NotNotify notify_waiters = ⊥
  NotNotify event = Unit {0}

  -- A task that has not been woken.
  abbrev pub Asleep : Task → Type 0
  Asleep notified = ⊥
  Asleep (flooding deadline) = ⊥
  Asleep t = Unit {0}

  writes-Asleep : (j : ℕ) (event : Event) (t : Task) → Asleep t → writes j event t ≡ 0
  writes-Asleep j (round i now (ok _)) (flooding deadline) never = absurd never
  writes-Asleep j _ _ asleep = ground arith

  set_task-Asleep :
      (i j : ℕ) (t : Task) (c : Client)
      → Asleep t
      → Asleep (c.task j)
      → Asleep ((set_task i t c).task j)
  set_task-Asleep i j t c new old = elim (Bool-cases (j == i)) [
    | inl mine ↦ rw mine new
    | inr other ↦ rw other old
  ]

  -- A change of a task that is awake is none of one that is asleep.
  set_awake-Asleep :
      (i j : ℕ) (t : Task) (c : Client)
      → ¬ Asleep (c.task i)
      → Asleep (c.task j)
      → Asleep ((set_task i t c).task j)
  set_awake-Asleep i j t c awake asleep = elim (Bool-cases (j == i)) [
    | inl mine ↦ absurd (awake (subst (λ k. Asleep (c.task k)) ((==_iff j i).0 mine) asleep))
    | inr other ↦ rw other asleep
  ]

  connect-Asleep :
      (i j : ℕ) (r : Result (Unit {0}) (Unit {0})) (t : Task) (c : Client)
      → Asleep (c.task j)
      → Asleep ((on_connect i r t c).task j)
  unfolding on_connect
  connect-Asleep i j (ok _) connecting c asleep = set_task-Asleep i j waiting c tt asleep
  connect-Asleep i j (err _) connecting c asleep = set_task-Asleep i j finished c tt asleep
  connect-Asleep i j _ _ c asleep = asleep

  wake-Asleep :
      (i j deadline : ℕ) (t : Task) (c : Client)
      → c.task i ≡ t
      → Asleep (c.task j)
      → Asleep ((on_wake i deadline t c).task j)
  unfolding on_wake
  wake-Asleep i j deadline notified c e asleep =
      set_awake-Asleep i j (flooding deadline) c (subst (λ t. ¬ Asleep t) (sym e) (λ never. never))
        asleep
  wake-Asleep i j deadline _ c e asleep = asleep

  write-Asleep :
      (i j : ℕ) (r : Result (Unit {0}) (Unit {0})) (c : Client)
      → Asleep (c.task j)
      → Asleep ((write i r c).task j)
  unfolding write
  write-Asleep i j (ok _) c asleep = asleep
  write-Asleep i j (err _) c asleep = set_task-Asleep i j finished c tt asleep

  round-Asleep :
      (i j now : ℕ) (r : Result (Unit {0}) (Unit {0})) (t : Task) (c : Client)
      → Asleep (c.task j)
      → Asleep ((on_round i now r t c).task j)
  unfolding on_round
  round-Asleep i j now r (flooding deadline) c asleep = elim (Bool-cases (ltb now deadline)) [
    | inl early ↦ rw early (write-Asleep i j r c asleep)
    | inr late ↦ rw late (set_task-Asleep i j finished c tt asleep)
  ]
  round-Asleep i j now r _ c asleep = asleep

  step-Asleep :
      (j : ℕ) (event : Event) (c : Client)
      → NotNotify event
      → Asleep (c.task j)
      → Asleep ((step event c).task j)
  unfolding step
  step-Asleep j (connect i r) c quiet asleep = connect-Asleep i j r (c.task i) c asleep
  step-Asleep j notify_waiters c quiet asleep = absurd quiet
  step-Asleep j (wake i now) c quiet asleep =
      wake-Asleep i j (now + seconds) (c.task i) c refl asleep
  step-Asleep j (round i now r) c quiet asleep = round-Asleep i j now r (c.task i) c asleep

  Asleep-written :
      (j : ℕ) (events : List Event) (c : Client)
      → All NotNotify events
      → Asleep (c.task j)
      → written j events c ≡ 0
  unfolding written
  Asleep-written j [] c quiet asleep = refl
  Asleep-written j (event ∷ events) c (quiet, later) asleep = omega (
    arith,
    writes-Asleep j event (c.task j) asleep,
    Asleep-written j events (step event c) later (step-Asleep j event c quiet asleep),
  )

  -- `notify_waiters` is called once. A task that is then still connecting writes nothing, however long it
  -- runs and whenever its connection is there.
  pub late_task_writes_nothing :
      (j : ℕ) (before after : List Event) (c : Client)
      → (run before c).task j ≡ connecting
      → All NotNotify after
      → written j after (step notify_waiters (run before c)) ≡ 0
  unfolding step
  late_task_writes_nothing j before after c late once =
      Asleep-written j after (step notify_waiters (run before c)) once (rw late tt)
