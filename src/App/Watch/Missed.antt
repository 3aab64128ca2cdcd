-- ===== src/App/Watch/Missed.antt =====
-- The changes of the configuration file that the callback of src/main.rs does not pass on.
use layer4_lb.Prelude.{◌≡◌, ◌≢◌, All}
use layer4_lb.Config.{Config}
use layer4_lb.App.Watch.{modify, Watched, Event, write, notice, deliver, receive}

-- No modification is reported.
abbrev pub IsQuiet : Event → Type 0
IsQuiet (write text reports) = All (λ n. n ≢ modify) reports
IsQuiet (notice n) = n ≢ modify
IsQuiet deliver = Unit {0}
IsQuiet receive = Unit {0}

-- Nothing is on its way to the loop.
pub record IsIdle (w : Watched) : Type 0 where
  pub rx : w.rx ≡ 0
  pub notices : All (λ n. n ≢ modify) w.notices

-- Idle, with what was read and made of it before.
record Unmoved (w w' : Watched) : Type 0 where
  pub idle : IsIdle w'
  pub process : w'.process ≡ w.process
  pub content : w'.content ≡ w.content
