-- ===== src/App/Watch/Latest.antt =====
-- The reloads of src/main.rs end with the last content of the configuration file.
use layer4_lb.Prelude.{
  ℕ, zero, suc, ◌-◌, ◌≤◌, ◌<◌, ◌≡◌, ◌⊎◌, refl, ap, ◌∙◌, String, List, [], ◌∷◌, ◌++◌, Result, arith,
  length, ltb, inl, inr, Bool-cases, Any, All,
}
use layer4_lb.Config.{Config}
use layer4_lb.App.Reload.{ReloadError}
use layer4_lb.App.Watch.{
  Notice, modify, other, failed, Watched, capacity, Event, write, notice, deliver, receive,
  callback, on_message, step, run,
}
use layer4_lb.App.Watch.Loaded.{IsLoadedSince, run-IsLoadedSince}

-- The callback and the loop take turns, once for each notice.
abbrev pub rounds : ℕ → List Event
rounds zero = receive ∷ []
rounds (suc n) = receive ∷ deliver ∷ rounds n

-- notify reports the event, if it is a change of the file, as a modification.
abbrev pub IsReported : Event → Type 0
IsReported (write text reports) = Any (λ n. n ≡ modify) reports
IsReported (notice n) = Unit {0}
IsReported deliver = Unit {0}
IsReported receive = Unit {0}

module _ (from_str : String → Result Config ReloadError) where
  -- The file is what was read last, or a reload is on its way.
  abbrev pub IsCurrent : Watched → Type 0
  IsCurrent w = Any (λ n. n ≡ modify) w.notices ⊎ ((0 < w.rx) ⊎ (w.content ≡ w.file))

  written :
      (notices reports : List Notice)
      → Any (λ n. n ≡ modify) reports
      → Any (λ n. n ≡ modify) (notices ++ reports)
  written [] reports found = found
  written (n ∷ notices) reports found = inr (written notices reports found)

  longer :
      (notices : List Notice) (m : Notice)
      → Any (λ n. n ≡ modify) notices
      → Any (λ n. n ≡ modify) (notices ++ m ∷ [])
  longer (n ∷ notices) m (inl e) = inl e
  longer (n ∷ notices) m (inr rest) = inr (longer notices m rest)
  longer [] m never = absurd never

  callback-IsCurrent :
      (notices : List Notice) (w : Watched)
      → w.notices ≡ notices
      → IsCurrent w
      → IsCurrent (callback notices w)
  unfolding callback
  callback-IsCurrent [] w e c = c
  callback-IsCurrent (modify ∷ rest) w e c = elim (Bool-cases (ltb w.rx capacity)) [
    | inl room ↦ rw room (inr (inl (omega arith)))
    | inr full ↦ rw full c
  ]
  callback-IsCurrent (other ∷ rest) w e (inl pending) = ground (arith, rw e at pending)
  callback-IsCurrent (failed ∷ rest) w e (inl pending) = ground (arith, rw e at pending)
  callback-IsCurrent (other ∷ rest) w e (inr c) = inr c
  callback-IsCurrent (failed ∷ rest) w e (inr c) = inr c

  message-IsCurrent :
      (n : ℕ) (w : Watched) → w.rx ≡ n → IsCurrent w → IsCurrent (on_message from_str n w)
  unfolding on_message
  message-IsCurrent zero w e c = c
  message-IsCurrent (suc n) w e c = inr (inr refl)

  step-IsCurrent :
      (event : Event) (w : Watched)
      → IsReported event
      → IsCurrent w
      → IsCurrent (step from_str event w)
  unfolding step
  step-IsCurrent (write text reports) w found c = inl (written w.notices reports found)
  step-IsCurrent (notice n) w _ (inl pending) = inl (longer w.notices n pending)
  step-IsCurrent (notice n) w _ (inr rest) = inr rest
  step-IsCurrent deliver w _ c = callback-IsCurrent w.notices w refl c
  step-IsCurrent receive w _ c = message-IsCurrent w.rx w refl c

  run-IsCurrent :
      (events : List Event) (w : Watched)
      → All IsReported events
      → IsCurrent w
      → IsCurrent (run from_str events w)
  unfolding run
  run-IsCurrent [] w _ c = c
  run-IsCurrent (event ∷ events) w (first, others) c =
      run-IsCurrent events (step from_str event w) others (step-IsCurrent event w first c)

  rounds-IsReported : (n : ℕ) → All IsReported (rounds n)
  rounds-IsReported zero = (tt, tt)
  rounds-IsReported (suc n) = (tt, (tt, rounds-IsReported n))

  -- The channel is never over its capacity.
  abbrev pub Fits : Watched → Type 0
  Fits w = w.rx ≤ capacity

  callback-Fits : (notices : List Notice) (w : Watched) → Fits w → Fits (callback notices w)
  unfolding callback
  callback-Fits [] w h = h
  callback-Fits (modify ∷ rest) w h = ground (arith, h)
  callback-Fits (other ∷ rest) w h = h
  callback-Fits (failed ∷ rest) w h = h

  message-Fits : (n : ℕ) (w : Watched) → w.rx ≡ n → Fits w → Fits (on_message from_str n w)
  unfolding on_message
  message-Fits zero w e h = h
  message-Fits (suc n) w e h = omega (arith, e, h)

  step-Fits : (event : Event) (w : Watched) → Fits w → Fits (step from_str event w)
  unfolding step
  step-Fits (write text reports) w h = h
  step-Fits (notice n) w h = h
  step-Fits deliver w h = callback-Fits w.notices w h
  step-Fits receive w h = message-Fits w.rx w refl h

  run-Fits : (events : List Event) (w : Watched) → Fits w → Fits (run from_str events w)
  unfolding run
  run-Fits [] w h = h
  run-Fits (event ∷ events) w h = run-Fits events (step from_str event w) (step-Fits event w h)

  -- A receipt empties the channel and leaves the notices and the file.
  message_lem :
      (n : ℕ) (w : Watched)
      → w.rx ≡ n
      → Fits w
      → let w' = on_message from_str n w in
        (w'.rx ≡ 0) × (w'.notices ≡ w.notices) × (w'.file ≡ w.file)
  unfolding on_message
  message_lem zero w e h = (e, refl, refl)
  message_lem (suc n) w e h = (omega (arith, e, h), refl, refl)

  -- A delivery while the channel is empty takes a notice.
  callback_lem :
      (notices : List Notice) (w : Watched)
      → w.rx ≡ 0
      → w.notices ≡ notices
      → let w' = callback notices w in (length w'.notices ≡ length notices - 1) × (w'.file ≡ w.file)
  unfolding callback
  callback_lem [] w empty e = (rw e refl, refl)
  callback_lem (modify ∷ rest) w empty e = rw empty (omega arith, refl)
  callback_lem (other ∷ rest) w empty e = (omega arith, refl)
  callback_lem (failed ∷ rest) w empty e = (omega arith, refl)

  rounds_lem :
      (n : ℕ) (w : Watched)
      → Fits w
      → length w.notices ≤ n
      → let w' = run from_str (rounds n) w in
        (length w'.notices ≡ 0) × (w'.rx ≡ 0) × (w'.file ≡ w.file)
  unfolding run step
  rounds_lem zero w h few =
      let (empty, same, file) = message_lem w.rx w refl h in
      (rw same (omega (arith, few)), empty, file)
  rounds_lem (suc n) w h few =
      let w₁ = on_message from_str w.rx w in
      let w₂ = callback w₁.notices w₁ in
      let (empty, same, file) = message_lem w.rx w refl h in
      let (fewer, file') = callback_lem w₁.notices w₁ empty refl in
      let count : length w₁.notices ≡ length w.notices = ap length same in
      let fits = callback-Fits w₁.notices w₁ (message-Fits w.rx w refl h) in
      let (none_left, idle, file'') = rounds_lem n w₂ fits (omega (arith, fewer, few, count)) in
      (none_left, idle, file'' ∙ file' ∙ file)

  nothing_waits : (notices : List Notice) → length notices ≡ 0 → ¬ Any (λ n. n ≡ modify) notices
  nothing_waits [] none_left never = never
  nothing_waits (n ∷ notices) none_left waiting = omega (arith, none_left)

  settled : (w : Watched) → length w.notices ≡ 0 → w.rx ≡ 0 → IsCurrent w → w.content ≡ w.file
  settled w none_left idle (inl waiting) = absurd (nothing_waits w.notices none_left waiting)
  settled w none_left idle (inr (inl message)) = absurd (omega (arith, idle, message))
  settled w none_left idle (inr (inr e)) = e

  -- Whatever is written to the file while the process runs, and however the callback and the loop
  -- interleave, no change is lost that notify reports: if each of the changes comes with a notice
  -- of a modification, if at the start the file was what was read last or a reload was on its way, and
  -- the channel held at most one message, then, once the file rests, a turn of both for each notice that
  -- waits and a last one of the loop leave the last content of the file as what the process has read. The
  -- process is then what a reload of that content has made of it, unless there was no reload at all.
  pub catches_up :
      (events : List Event) (w : Watched)
      → All IsReported events
      → IsCurrent w
      → Fits w
      → let w' = run from_str events w in
        let settled = run from_str (rounds (length w'.notices)) w' in
        (settled.content ≡ w'.file) × (settled.file ≡ w'.file) × IsLoadedSince from_str w settled
  catches_up events w reported c h =
      let w' = run from_str events w in
      let (none_left, idle, file) =
        rounds_lem (length w'.notices) w' (run-Fits events w h) (omega arith) in
      let w'' = run from_str (rounds (length w'.notices)) w' in
      let current =
        run-IsCurrent (rounds (length w'.notices)) w' (rounds-IsReported (length w'.notices))
          (run-IsCurrent events w reported c) in
      let loaded = run-IsLoadedSince from_str w events w (inl (refl, refl)) in
      (
        settled w'' none_left idle current ∙ file,
        file,
        run-IsLoadedSince from_str w (rounds (length w'.notices)) w' loaded,
      )
