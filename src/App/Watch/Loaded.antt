-- ===== src/App/Watch/Loaded.antt =====
-- The process that the reloads of src/main.rs leave, and the text it was made of.
use layer4_lb.Prelude.{
  ℕ, zero, suc, ◌≡◌, ◌⊎◌, refl, sym, ap, ◌∙◌, String, List, [], ◌∷◌, Result, ltb, inl, inr,
  Bool-cases,
}
use layer4_lb.Config.{Config}
use layer4_lb.App.Reload.{Process, ReloadError, reload}
use layer4_lb.App.Watch.{
  read_config, Notice, modify, other, failed, Watched, capacity, Event, write, notice, deliver,
  receive, callback, on_message, step, run,
}

module _ (from_str : String → Result Config ReloadError) where
  -- Since a state: no reload, or the last one was of what was read last.
  abbrev pub IsLoadedSince : Watched → Watched → Type 0
  IsLoadedSince w₀ w =
      ((w.process ≡ w₀.process) × (w.content ≡ w₀.content))
      ⊎ ((p : Process) × (w.process ≡ reload (read_config from_str w.content) p))

  -- Of two states with the same process and the same content read.
  abbrev SameProcess : Watched → Watched → Type 0
  SameProcess w w' = (w'.process ≡ w.process) × (w'.content ≡ w.content)

  SameProcess-IsLoadedSince :
      (w₀ w w' : Watched) → SameProcess w w' → IsLoadedSince w₀ w → IsLoadedSince w₀ w'
  SameProcess-IsLoadedSince w₀ w w' (same, read) (inl (old, text)) = inl (same ∙ old, read ∙ text)
  SameProcess-IsLoadedSince w₀ w w' (same, read) (inr (p, e)) =
      inr (p, same ∙ e ∙ ap (λ t. reload (read_config from_str t) p) (sym read))

  callback-SameProcess : (notices : List Notice) (w : Watched) → SameProcess w (callback notices w)
  unfolding callback
  callback-SameProcess [] w = (refl, refl)
  callback-SameProcess (modify ∷ rest) w = elim (Bool-cases (ltb w.rx capacity)) [
    | inl room ↦ rw room (refl, refl)
    | inr full ↦ rw full (refl, refl)
  ]
  callback-SameProcess (other ∷ rest) w = (refl, refl)
  callback-SameProcess (failed ∷ rest) w = (refl, refl)

  message-IsLoadedSince :
      (w₀ : Watched) (n : ℕ) (w : Watched)
      → IsLoadedSince w₀ w
      → IsLoadedSince w₀ (on_message from_str n w)
  unfolding on_message
  message-IsLoadedSince w₀ zero w l = l
  message-IsLoadedSince w₀ (suc n) w l = inr (w.process, refl)

  step-IsLoadedSince :
      (w₀ : Watched) (event : Event) (w : Watched)
      → IsLoadedSince w₀ w
      → IsLoadedSince w₀ (step from_str event w)
  unfolding step
  step-IsLoadedSince w₀ (write text reports) w l = l
  step-IsLoadedSince w₀ (notice n) w l = l
  step-IsLoadedSince w₀ deliver w l =
      SameProcess-IsLoadedSince w₀ w (callback w.notices w) (callback-SameProcess w.notices w) l
  step-IsLoadedSince w₀ receive w l = message-IsLoadedSince w₀ w.rx w l

  pub run-IsLoadedSince :
      (w₀ : Watched) (events : List Event) (w : Watched)
      → IsLoadedSince w₀ w
      → IsLoadedSince w₀ (run from_str events w)
  unfolding run
  run-IsLoadedSince w₀ [] w l = l
  run-IsLoadedSince w₀ (event ∷ events) w l =
      run-IsLoadedSince w₀ events (step from_str event w) (step-IsLoadedSince w₀ event w l)
