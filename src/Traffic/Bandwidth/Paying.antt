-- ===== src/Traffic/Bandwidth/Paying.antt =====
-- What the throttled streams of src/traffic/bandwidth.rs pay, and that their waits end.
use layer4_lb.Prelude.{
  ℕ, ◌+◌, ◌*◌, ◌≤◌, ◌≡◌, ◌⊎◌, inl, inr, refl, ap, Option, none, some, Result, ok, err, arith, false,
  Bool-cases,
}
use layer4_lb.Traffic.Limiter.{
  SimpleLimiter, Attempt, ready, wait, panicked, billion, refill, check_n, attempt,
}
use layer4_lb.Traffic.Limiter.Level.{
  IsBounded, level, tokens-refill, refill-IsBounded, refill-refill,
}
use layer4_lb.Traffic.Limiter.Waiting.{attempt-charged}
use layer4_lb.Traffic.Registry.Table.{Heap, write}
use layer4_lb.Traffic.Bandwidth.{
  Timer, Permit, Payment, paid, unpaid, failed, poll_permit, taken_or_wait, pay, sleeps,
}

-- A bucket pays an amount at a time when it is left with its level then, less the amount.
abbrev pub Charged : ℕ → ℕ → ℕ → Heap → Heap → Type 0
Charged p amount t h h' = (h'.cell p).tokens + amount * billion ≡ level t (h.cell p)

-- What a poll of a future that is awake does, by what its round gives.
abbrev pub settled : ℕ → Permit → ℕ → Heap → Attempt → Payment × Heap
settled p f now h (ready l) = (paid, write h p l)
settled p f now h (wait d l) = (unpaid (record f { deadline = some (now + d) }), write h p l)
settled p f now h panicked = (failed, h)

pub poll_permit-settled :
    ⦃timer : Timer⦄
    → (p : ℕ) (f : Permit) (now : ℕ) (h : Heap) → sleeps f.deadline now ≡ false
    → poll_permit p f now h ≡ settled p f now h (attempt now f.amount (h.cell p))
unfolding poll_permit
poll_permit-settled p f now h awake = ground arith

settled-Charged :
    (p : ℕ) (f : Permit) (now : ℕ) (h h' : Heap) (a : Attempt)
    → IsBounded (h.cell p)
    → attempt now f.amount (h.cell p) ≡ a
    → settled p f now h a ≡ (paid, h')
    → Charged p f.amount now h h'
settled-Charged p f now h h' (ready l) b e s =
    ground (arith, attempt-charged now f.amount (h.cell p) l b e)
settled-Charged p f now h h' (wait d l) b e s = cc
settled-Charged p f now h h' panicked b e s = cc

-- A payment through a future takes the amount of the future at the time of the poll.
pub poll_permit-Charged :
    ⦃timer : Timer⦄
    → (p : ℕ) (f : Permit) (now : ℕ) (h h' : Heap) → IsBounded (h.cell p)
    → poll_permit p f now h ≡ (paid, h')
    → Charged p f.amount now h h'
poll_permit-Charged p f now h h' b e = elim (Bool-cases (sleeps f.deadline now)) [
  | inl asleep ↦ unfold poll_permit in ground arith
  | inr awake ↦
      settled-Charged p f now h h' (attempt now f.amount (h.cell p)) b refl
        (rw (poll_permit-settled p f now h awake) at e)
]

check_n-ok :
    (now n : ℕ) (l l' : SimpleLimiter)
    → IsBounded l
    → check_n now n l ≡ (ok tt, l')
    → l'.tokens + n * billion ≡ level now l
unfolding check_n
check_n-ok now n l l' b e = ground (arith, tokens-refill now l b)

pub check_n-err :
    (now n : ℕ) (l l' : SimpleLimiter) → check_n now n l ≡ (err tt, l') → l' ≡ refill now l
unfolding check_n
check_n-err now n l l' e = ground arith

fresh-Charged :
    ⦃timer : Timer⦄
    → (p amount now again : ℕ) (r : Result (Unit {0}) (Unit {0})) (l : SimpleLimiter) (h h' : Heap)
    → IsBounded (h.cell p)
    → now ≤ again
    → check_n now amount (h.cell p) ≡ (r, l)
    → taken_or_wait p amount again r (write h p l) ≡ (paid, h')
    → Charged p amount now h h' ⊎ Charged p amount again h h'
unfolding taken_or_wait
fresh-Charged p amount now again (ok _) l h h' b le c e =
    inl (ground (arith, check_n-ok now amount (h.cell p) l b c))
fresh-Charged p amount now again (err _) l h h' b le c e =
    let same : (write h p l).cell p ≡ refill now (h.cell p) =
      ground (arith, check_n-err now amount (h.cell p) l c) in
    let waited =
      poll_permit-Charged p (record { amount = amount; deadline = none }) again (write h p l) h'
        (rw same (refill-IsBounded now (h.cell p) b)) e in
    inr (ground (arith, waited, ap (level again) same, (refill-refill now again (h.cell p) b le).1))

-- The pending future, if there is one, is for the amount.
abbrev pub IsFor : ℕ → Option Permit → Type 0
IsFor amount none = Unit {0}
IsFor amount (some f) = f.amount ≡ amount

pub pay-Charged :
    ⦃timer : Timer⦄
    → (p : ℕ) (o : Option Permit) (amount now again : ℕ) (h h' : Heap) → IsBounded (h.cell p)
    → IsFor amount o
    → now ≤ again
    → pay p o amount now again h ≡ (paid, h')
    → Charged p amount now h h' ⊎ Charged p amount again h h'
unfolding pay
pay-Charged p (some f) amount now again h h' b same le e =
    inl (rw (← same) (poll_permit-Charged p f now h h' b e))
pay-Charged p none amount now again h h' b same le e =
    let (r, l) = check_n now amount (h.cell p) in
    fresh-Charged p amount now again r l h h' b le refl e
