-- ===== src/Metrics/Handler.antt =====
-- `metrics_handler` of src/metrics/mod.rs. The text encoder of the crate prometheus is a parameter.
use layer4_lb.Prelude.{
  Bool, [], ◌∷◌, if◌then◌else◌, ℕ, String, Option, none, some, List, Result, ok, err,
}
use layer4_lb.Metrics.{Metrics}

pub record TextEncoder : Type 1 where
  pub Error : Type 0
  pub encode : Metrics → Result (List ℕ) Error
  pub format_type : String
  -- `format!("Error: {}", e)`, as bytes.
  pub error_text : Error → List ℕ

pub record Response : Type 0 where
  pub status : ℕ
  pub content_type : Option String
  pub body : List ℕ

-- A response that sets no status has 200.
unfoldable pub metrics_handler : TextEncoder → Metrics → Response
metrics_handler encoder m = elim (encoder.encode m) [
  | err e ↦ record { status = 500; content_type = none; body = encoder.error_text e }
  | ok buffer ↦ record { status = 200; content_type = some encoder.format_type; body = buffer }
]

-- The task of src/main.rs that serves the metrics: nothing if its port cannot be bound, and otherwise a
-- response to each request that arrives, from the metrics as they are then. An accept that fails is
-- skipped.
pub metrics_server : TextEncoder → Bool → List (Option Metrics) → List Response
metrics_server encoder bound requests = if bound then respond requests else []
  where
    respond : List (Option Metrics) → List Response
    respond [] = []
    respond (none ∷ requests) = respond requests
    respond (some m ∷ requests) = metrics_handler encoder m ∷ respond requests
