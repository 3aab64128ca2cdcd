-- ===== src/Core/Health.antt =====
-- src/core/health.rs: the two probes and the loop of `start_health_check`. What the network answers
-- and whether it does so in time is a parameter.
pub mod Verdict
mod Tests
use Prim.Native.String.{◌++◌ as str_append, find as find_str, len}
use mathlib.Core.Option
use layer4_lb.Prelude.{
  ℕ, ◌≡◌, String, Bool, true, false, Option, none, some, List, [], ◌∷◌, Result, ok, err, is_ok,
  if◌then◌else◌, ltb, leb, str_eq, length,
}
use layer4_lb.Config.{HealthCheckConfig}
use layer4_lb.Core.Balancer.{LoadBalancer, World, set_backend_health}

-- The answers during one probe. `in_time` says whether the probe's future ends within a number of
-- milliseconds, `read` gives the bytes of one read, and `from_utf8_lossy` is the standard library's.
pub record Answers : Type 1 where
  pub Stream : Type 0
  pub Error : Type 0
  pub connect : String → Result Stream Error
  pub write_all : String → Stream → Result Stream Error
  pub read : Stream → Result (List ℕ) Error
  pub from_utf8_lossy : List ℕ → String
  pub in_time : ℕ → Bool

-- `str::contains`: `find` answers with a position in the text, or with one beyond its length.
pub contains : String → String → Bool
contains s t = leb (find_str s t) (len s)

pub request : String → String → String
request path addr = str_append "GET " (
    str_append path
      (str_append " HTTP/1.1\r\nHost: " (str_append addr "\r\nConnection: close\r\n\r\n")))

module _ (net : Answers) where
  open net use {Stream, Error, connect, write_all, read, from_utf8_lossy, in_time}

  pub check_tcp : String → ℕ → Bool
  check_tcp addr timeout =
      if in_time timeout then elim (connect addr) [ ok stream ↦ true | err e ↦ false ] else false

  -- The match on the bytes that were read.
  pub is_ok_response : Result (List ℕ) Error → Bool
  unfolding contains
  is_ok_response (ok bytes) =
      if ltb 0 (length bytes) then contains (from_utf8_lossy bytes) "200 OK" else false
  is_ok_response (err e) = false

  -- The future `check_fut`.
  pub check_fut : String → String → Bool
  unfolding request is_ok_response
  check_fut addr path = elim (connect addr) [
    | ok stream ↦ elim (write_all (request path addr) stream) [
      | ok sent ↦ is_ok_response (read sent)
      | err e ↦ false
    ]
    | err e ↦ false
  ]

  pub check_http : String → String → ℕ → Bool
  unfolding check_fut
  check_http addr path timeout = if in_time timeout then check_fut addr path else false

  -- `check_res` of one round of the loop.
  pub check : String → HealthCheckConfig → Bool
  unfolding check_tcp check_http
  check addr config =
      if str_eq config.protocol "http"
      then check_http addr (Option.get_or config.path "/") config.timeout_ms
      else check_tcp addr config.timeout_ms

-- The loop, with the answers that its rounds get.
pub probe_rounds : LoadBalancer → String → HealthCheckConfig → List Answers → World → World
unfolding check
probe_rounds lb addr config [] w = w
probe_rounds lb addr config (net ∷ later) w =
    probe_rounds lb addr config later (set_backend_health lb addr (check net addr config) w)
