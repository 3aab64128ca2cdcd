-- ===== src/App/Watch.antt =====
-- The watcher of the configuration file in src/main.rs and the loop that it wakes. The messages of the
-- crate notify wait for its callback, which blocks while the channel is full.
pub mod Loaded
pub mod Latest
pub mod Missed
use layer4_lb.Prelude.{
  ℕ, zero, suc, ◌+◌, ◌≤◌, ◌<◌, ◌≡◌, ◌⊎◌, refl, String, Bool, true, false, Option, none, some, List,
  [], ◌∷◌, ◌++◌, Result, ok, err, arith, length, ltb, if◌then◌else◌, inl, inr, Bool-cases, Any,
}
use layer4_lb.Config.{Config}
use layer4_lb.App.Reload.{Process, ReloadError, unreadable, reload}

-- What notify reports: a change of the file, something else about it, or an error.
pub data Notice : Type 0 where
  modify : Notice
  other : Notice
  failed : Notice

-- What the file holds, if it can be read; the notices that wait for the callback; the messages in the
-- channel; and what the process has read last.
pub record Watched : Type 0 where
  pub file : Option String
  pub notices : List Notice
  pub rx : ℕ
  pub content : Option String
  pub process : Process

-- `mpsc::channel(1)`.
abbrev pub capacity : ℕ
capacity = 1

-- Somebody changes the file, or makes it unreadable, and notify reports the change by these notices, which
-- can be none or no `modify`: a removal is reported as such, and a watch can be lost with the file it was
-- on. Or notify reports something else; its callback runs; the loop receives.
pub data Event : Type 0 where
  write : Option String → List Notice → Event
  notice : Notice → Event
  deliver : Event
  receive : Event

-- `blocking_send` waits while the channel is full.
unfoldable pub callback : List Notice → Watched → Watched
callback [] w = w
callback (modify ∷ rest) w =
    if ltb w.rx capacity then record w { notices = rest; rx = w.rx + 1 } else w
callback (other ∷ rest) w = record w { notices = rest }
callback (failed ∷ rest) w = record w { notices = rest }

-- `serde_yaml` is a parameter.
module _ (from_str : String → Result Config ReloadError) where
  pub read_config : Option String → Result Config ReloadError
  read_config none = err unreadable
  read_config (some text) = from_str text

  -- One round of the loop, if there is a message.
  unfoldable pub on_message : ℕ → Watched → Watched
  unfolding read_config
  on_message zero w = w
  on_message (suc n) w = record w {
    rx = n;
    content = w.file;
    process = reload (read_config w.file) w.process;
  }

  unfoldable pub step : Event → Watched → Watched
  unfolding callback on_message
  step (write text reports) w = record w { file = text; notices = w.notices ++ reports }
  step (notice n) w = record w { notices = w.notices ++ n ∷ [] }
  step deliver w = callback w.notices w
  step receive w = on_message w.rx w

  unfoldable pub run : List Event → Watched → Watched
  unfolding step
  run [] w = w
  run (event ∷ events) w = run events (step event w)
