-- ===== src/Metrics.antt =====
-- src/metrics/mod.rs: the process-wide metrics, a value for each tuple of labels. A labelled child
-- that was never touched reads 0. Registration and the text encoding are the crate prometheus's.
pub mod Handler
use layer4_lb.Prelude.{ℕ, String, ◌&&◌, List, [], if◌then◌else◌, str_eq}
use layer4_lb.Prelude.Int.{ℤ, pos}

-- Gauges are integers here: the program only sets them to 0 and 1 and moves them by 1. Counters
-- are 64 bits. The histogram keeps the durations that were observed, the latest first.
pub record Metrics : Type 0 where
  pub active_connections : String → ℤ
  pub total_connections : String → ℕ
  pub traffic_bytes : String → String → ℕ
  pub backend_active_connections : String → String → ℤ
  pub backend_health_status : String → String → ℤ
  pub connection_duration : String → List ℕ

abbrev pub update {ℓ} : {A : Type ℓ} → (String → A) → String → A → String → A
update f l v l' = if str_eq l' l then v else f l'

abbrev pub update₂ {ℓ} :
    {A : Type ℓ} → (String → String → A) → String → String → A → String → String → A
update₂ f l m v l' m' = if str_eq l' l && str_eq m' m then v else f l' m'

unfoldable pub init : Metrics
init = record {
  active_connections = λ _. pos 0;
  total_connections = λ _. 0;
  traffic_bytes = λ _ _. 0;
  backend_active_connections = λ _ _. pos 0;
  backend_health_status = λ _ _. pos 0;
  connection_duration = λ _. [];
}
