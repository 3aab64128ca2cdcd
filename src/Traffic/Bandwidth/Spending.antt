-- ===== src/Traffic/Bandwidth/Spending.antt =====
-- What a poll of a throttled stream of src/traffic/bandwidth.rs takes from its bucket, whether it
-- succeeds or not.
use layer4_lb.Prelude.{
  ℕ, ◌+◌, ◌-◌, ◌*◌, ◌≤◌, ◌≡◌, refl, subst, Option, none, some, Result, ok, err, arith, Bool-cases,
  inl, inr, leb, leb→le, ◌==◌, ==_iff,
}
use layer4_lb.Traffic.Limiter.{
  SimpleLimiter, Attempt, ready, wait, panicked, billion, refill, check_n, attempt,
}
use layer4_lb.Traffic.Limiter.Rate.{granted, refill-pays, check_n-pays}
use layer4_lb.Traffic.Registry.Table.{Heap, write}
use layer4_lb.Traffic.Bandwidth.{
  Timer, Permit, Payment, paid, unpaid, failed, poll_permit, taken_or_wait, pay, sleeps,
}
use layer4_lb.Traffic.Bandwidth.Paying.{settled, poll_permit-settled, IsFor}

-- What a bucket has, and what its rate brings until the end.
abbrev pub funds : ℕ → SimpleLimiter → ℕ
funds end l = l.tokens + (end - l.last_update) * l.rate_per_sec

-- Of a bucket before and after: so many tokens were taken at least.
pub record Spends (end n : ℕ) (l l' : SimpleLimiter) : Type 0 where
  pub taken : n * billion + funds end l' ≤ funds end l
  pub early : l'.last_update ≤ end

pub Spends-trans :
    (end m n : ℕ) (l l' l'' : SimpleLimiter)
    → Spends end m l l'
    → Spends end n l' l''
    → Spends end (m + n) l l''
Spends-trans end m n l l' l'' s t = record {
  taken = omega (arith, s.taken, t.taken);
  early = t.early;
}

pub Spends-less :
    (end m n : ℕ) (l l' : SimpleLimiter) → n ≤ m → Spends end m l l' → Spends end n l l'
Spends-less end m n l l' le s = record { taken = omega (arith, s.taken, le); early = s.early }

pub Spends-nothing : (end : ℕ) (l : SimpleLimiter) → l.last_update ≤ end → Spends end 0 l l
Spends-nothing end l early = record { taken = omega arith; early = early }

check_n-Spends :
    (now n end : ℕ) (l : SimpleLimiter)
    → l.last_update ≤ end
    → now ≤ end
    → let (r, l') = check_n now n l in Spends end (granted r n) l l'
check_n-Spends now n end l early le =
    let p = check_n-pays now n end l early le in record { taken = omega (arith, p.0); early = p.1 }

-- The tokens that a round of `until_n_ready` takes, and the bucket behind it.
abbrev taken_by : Attempt → ℕ → ℕ
taken_by (ready l) n = n
taken_by (wait d l) n = 0
taken_by panicked n = 0

abbrev behind : Attempt → SimpleLimiter → SimpleLimiter
behind (ready l') l = l'
behind (wait d l') l = l'
behind panicked l = l

attempt-Spends :
    (now n end : ℕ) (l : SimpleLimiter)
    → l.last_update ≤ end
    → now ≤ end
    → let a = attempt now n l in Spends end (taken_by a n) l (behind a l)
unfolding attempt
attempt-Spends now n end l early le =
    let r = refill-pays now end l early le in
    elim (Bool-cases (leb (n * billion) (refill now l).tokens)) [
      | inl enough ↦ rw enough (record {
        taken = omega (arith, r.0, leb→le (n * billion) (refill now l).tokens enough);
        early = r.1;
      })
      | inr few ↦ elim (Bool-cases ((refill now l).rate_per_sec == 0)) [
        | inl still ↦ rw (few, still) (Spends-nothing end l early)
        | inr flows ↦ rw (few, flows) (record { taken = omega (arith, r.0); early = r.1 })
      ]
    ]

-- The tokens that a payment stands for.
abbrev pub paid_by : Payment → ℕ → ℕ
paid_by paid n = n
paid_by (unpaid f) n = 0
paid_by failed n = 0

settled-Spends :
    (p : ℕ) (f : Permit) (now end : ℕ) (h : Heap) (a : Attempt)
    → Spends end (taken_by a f.amount) (h.cell p) (behind a (h.cell p))
    → let (q, h') = settled p f now h a in Spends end (paid_by q f.amount) (h.cell p) (h'.cell p)
settled-Spends p f now end h (ready l) s = rw ((==_iff p p).1 refl) s
settled-Spends p f now end h (wait d l) s = rw ((==_iff p p).1 refl) s
settled-Spends p f now end h panicked s = s

poll_permit-Spends :
    ⦃timer : Timer⦄
    → (p : ℕ) (f : Permit) (now end : ℕ) (h : Heap) → (h.cell p).last_update ≤ end
    → now ≤ end
    → let (q, h') = poll_permit p f now h in Spends end (paid_by q f.amount) (h.cell p) (h'.cell p)
poll_permit-Spends p f now end h early le = elim (Bool-cases (sleeps f.deadline now)) [
  | inl asleep ↦ unfold poll_permit in rw asleep (Spends-nothing end (h.cell p) early)
  | inr awake ↦ rw (poll_permit-settled p f now h awake) (
      settled-Spends p f now end h (attempt now f.amount (h.cell p))
        (attempt-Spends now f.amount end (h.cell p) early le))
]

fresh-Spends :
    ⦃timer : Timer⦄
    → (p amount now again end : ℕ) (r : Result (Unit {0}) (Unit {0})) (l : SimpleLimiter) (h : Heap)
    → Spends end (granted r amount) (h.cell p) l
    → again ≤ end
    → let (q, h') = taken_or_wait p amount again r (write h p l) in
      Spends end (paid_by q amount) (h.cell p) (h'.cell p)
unfolding taken_or_wait granted
fresh-Spends p amount now again end (ok _) l h s le = rw ((==_iff p p).1 refl) s
fresh-Spends p amount now again end (err _) l h s le =
    let same : (write h p l).cell p ≡ l = rw ((==_iff p p).1 refl) refl in
    let future : Permit = record { amount = amount; deadline = none } in
    let (q, h') = poll_permit p future again (write h p l) in
    let later = poll_permit-Spends p future again end (write h p l) (rw same s.early) le in
    Spends-less end (0 + paid_by q amount) (paid_by q amount) (h.cell p) (h'.cell p) (omega arith) (
      Spends-trans end 0 (paid_by q amount) (h.cell p) l (h'.cell p) s
        (subst (λ x. Spends end (paid_by q amount) x (h'.cell p)) same later))

-- Steps 1 and 2 of a poll take the amount of a chunk if they clear the way for it.
pub pay-Spends :
    ⦃timer : Timer⦄
    → (p : ℕ) (o : Option Permit) (amount now again end : ℕ) (h : Heap)
    → (h.cell p).last_update ≤ end
    → IsFor amount o
    → now ≤ end
    → again ≤ end
    → let (q, h') = pay p o amount now again h in
      Spends end (paid_by q amount) (h.cell p) (h'.cell p)
unfolding pay
pay-Spends p (some f) amount now again end h early same le le' =
    rw (← same) (poll_permit-Spends p f now end h early le)
pay-Spends p none amount now again end h early same le le' =
    let (r, l) = check_n now amount (h.cell p) in
    fresh-Spends p amount now again end r l h (check_n-Spends now amount end (h.cell p) early le)
      le'
