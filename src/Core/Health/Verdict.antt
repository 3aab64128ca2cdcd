-- ===== src/Core/Health/Verdict.antt =====
-- What a healthy verdict of src/core/health.rs says, and what the loop makes of the verdicts.
use Prim.Native.String.{◌++◌ as str_append}
use mathlib.Core.Option
use text.Mathlib.TextFind.{find_cases}
use layer4_lb.Prelude.{
  ℕ, ◌≡◌, ◌≢◌, refl, ap, ◌∙◌, String, Bool, true, some, List, [], ◌∷◌, Result, ok, err, str_eq,
  arith, Bool-cases, Result-cases, inl, inr, ◌⊎◌, str_eq_iff,
}
use layer4_lb.Config.{HealthCheckConfig}
use layer4_lb.Core.Balancer.{LoadBalancer, World, Backend, set_backend_health, find_backend}
use layer4_lb.Core.Balancer.Health.{set_backend_health-cell}
use layer4_lb.Core.Health.{
  Answers, contains, request, check_tcp, is_ok_response, check_fut, check_http, check, probe_rounds,
}

contains_parts :
    (s t : String)
    → contains s t ≡ true
    → (u : String) × ((v : String) × (s ≡ str_append u (str_append t v)))
unfolding contains
contains_parts s t e = elim (find_cases s t) [
  | inl hit ↦ (hit.0, (hit.1, hit.2))
  | inr miss ↦ absurd (ground arith)
]

module _ (net : Answers) where
  open net use {Stream, Error, connect, write_all, read, from_utf8_lossy, in_time}

  -- What an HTTP check has seen: a connection that took the request, and a response to it that
  -- holds "200 OK".
  pub record Served (addr path : String) : Type 0 where
    pub stream : Stream
    pub sent : Stream
    pub bytes : List ℕ
    pub before : String
    pub after : String
    pub connected : connect addr ≡ ok stream
    pub requested : write_all (request path addr) stream ≡ ok sent
    pub answered : read sent ≡ ok bytes
    pub holds : from_utf8_lossy bytes ≡ str_append before (str_append "200 OK" after)

  read_holds :
      (r : Result (List ℕ) Error)
      → is_ok_response net r ≡ true
      → (bytes : List ℕ) × ((r ≡ ok bytes) × (contains (from_utf8_lossy bytes) "200 OK" ≡ true))
  unfolding is_ok_response
  read_holds (ok bytes) e = (bytes, (refl, ground arith))
  read_holds (err x) e = absurd (ground arith)

  check_fut-Served : (addr path : String) → check_fut net addr path ≡ true → Served addr path
  unfolding check_fut
  check_fut-Served addr path e = elim (Result-cases (connect addr)) [
    | inr (x, f) ↦ absurd (ground (arith, rw (f, check_fut) at e))
    | inl (stream, f) ↦ elim (Result-cases (write_all (request path addr) stream)) [
      | inr (x, g) ↦ absurd (ground (arith, rw (f, g, check_fut) at e))
      | inl (sent, g) ↦
          let (bytes, (h, found)) = read_holds (read sent) (rw (f, g, check_fut) at e) in
          let (before, (after, parts)) = contains_parts (from_utf8_lossy bytes) "200 OK" found in
          record {
            stream = stream;
            sent = sent;
            bytes = bytes;
            before = before;
            after = after;
            connected = f;
            requested = g;
            answered = h;
            holds = parts;
          }
    ]
  ]

  check_tcp-connected :
      (addr : String) (timeout : ℕ)
      → check_tcp net addr timeout ≡ true
      → (in_time timeout ≡ true) × ((stream : Stream) × (connect addr ≡ ok stream))
  unfolding check_tcp
  check_tcp-connected addr timeout e =
      let quick : in_time timeout ≡ true = ground arith in
      elim (Result-cases (connect addr)) [
        | inl (stream, f) ↦ (quick, (stream, f))
        | inr (x, f) ↦ absurd (ground (arith, rw (quick, f) at e))
      ]

  -- A backend is found healthy only if its check ended in time and it accepted a connection; for
  -- the protocol "http" it has moreover taken the request for the configured path, or for "/", and
  -- answered with a text that holds "200 OK".
  pub healthy_means_answered :
      (addr : String) (config : HealthCheckConfig)
      → check net addr config ≡ true
      → (in_time config.timeout_ms ≡ true)
        × (((config.protocol ≡ "http") × Served addr (Option.get_or config.path "/"))
            ⊎ ((config.protocol ≢ "http") × ((stream : Stream) × (connect addr ≡ ok stream))))
  unfolding check check_http
  healthy_means_answered addr config e = elim (Bool-cases (str_eq config.protocol "http")) [
    | inl http ↦
        let quick : in_time config.timeout_ms ≡ true = ground arith in
        (
          quick,
          inl (
            (str_eq_iff config.protocol "http").0 http,
            check_fut-Served addr (Option.get_or config.path "/") (rw (http, quick) at e),
          ),
        )
    | inr other ↦
        let seen = check_tcp-connected addr config.timeout_ms (rw other at e) in
        (
          seen.0,
          inr (λ same. ground (arith, other, (str_eq_iff config.protocol "http").1 same), seen.1),
        )
  ]

-- The verdict of the last round.
pub last_verdict : String → HealthCheckConfig → List Answers → Bool → Bool
last_verdict addr config [] healthy = healthy
last_verdict addr config (net ∷ later) healthy =
    last_verdict addr config later (check net addr config)

find_backend-same :
    (w w' : World) (ps : List ℕ) (addr : String)
    → ((q : ℕ) → (w'.cell q).addr ≡ (w.cell q).addr)
    → find_backend w' ps addr ≡ find_backend w ps addr
find_backend-same w w' [] addr same = refl
find_backend-same w w' (p ∷ ps) addr same = rw (same p, find_backend-same w w' ps addr same)

-- A report changes no address.
set_backend_health-addr :
    (lb : LoadBalancer) (addr : String) (healthy : Bool) (w : World) (p : ℕ)
    → find_backend w lb.backends addr ≡ some p
    → (q : ℕ) → ((set_backend_health lb addr healthy w).cell q).addr ≡ (w.cell q).addr
set_backend_health-addr lb addr healthy w p found q =
    ground (arith, set_backend_health-cell lb addr healthy w p found q)

-- After any number of rounds, the backend that the list finds by the address has the verdict of
-- the last round for its health, and every other backend is as it was.
pub probe_rounds_lem :
    (lb : LoadBalancer) (addr : String) (config : HealthCheckConfig) (rounds : List Answers)
    (w : World) (p : ℕ)
    → find_backend w lb.backends addr ≡ some p
    → let w' = probe_rounds lb addr config rounds w in
      (w'.cell p
        ≡ record (w.cell p) { healthy = last_verdict addr config rounds (w.cell p).healthy })
      × ((q : ℕ) → q ≢ p → w'.cell q ≡ w.cell q)
unfolding probe_rounds last_verdict
probe_rounds_lem lb addr config [] w p found = (refl, λ q apart. refl)
probe_rounds_lem lb addr config (net ∷ later) w p found =
    let w₁ = set_backend_health lb addr (check net addr config) w in
    let still =
      find_backend-same w w₁ lb.backends addr
        (set_backend_health-addr lb addr (check net addr config) w p found)
      ∙ found in
    let rest = probe_rounds_lem lb addr config later w₁ p still in
    let cells = set_backend_health-cell lb addr (check net addr config) w p found in
    let own : w₁.cell p ≡ record (w.cell p) { healthy = check net addr config } =
      ground (arith, cells p) in
    (
      rest.0
          ∙ ap (λ (b : Backend). record b { healthy = last_verdict addr config later b.healthy })
              own,
      λ q apart. rest.1 q apart ∙ ground (arith, cells q),
    )
