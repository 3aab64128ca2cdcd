-- ===== src/Core/Balancer/Rotation.antt =====
-- The order in which `next_backend` of src/core/balancer.rs visits its list, as a rotated list.
use native.Mathlib.Nat.{mod-eq_of_lt, mod-eq-sub-mod}
use mathlib.Core.List.{Perm, perm_append_comm}
use mathlib.Core.Bool.{false}
use layer4_lb.Prelude.{
  ℕ, zero, suc, refl, [], All, All-append_comm, ◌↔◌, ◌+◌, ◌-◌, ◌%◌, ◌≤◌, ◌<◌, ◌≡◌, sym, ap, ◌∙◌,
  List, ◌++◌, length, get_or, take, drop, take-append-drop, subst, length-append, length-take,
  length-drop, get_or-append, get_or-drop, get_or-take, arith, ltb, Bool-cases, inl, inr, tests,
}

leb_of : (a b : ℕ) → ltb a b ≡ false → b ≤ a
leb_of a b h = ground arith

front_index : (s i n : ℕ) → s + i < n → (s + i) % n ≡ s + i
front_index s i n h = mod-eq_of_lt h

back_index : (s i n : ℕ) → s < n → i < n → n ≤ s + i → (s + i) % n ≡ s + i - n
back_index s i n hs hi h = mod-eq-sub-mod h ∙ mod-eq_of_lt (omega arith)

module _ {ℓ} {A : Type ℓ} where
  pub rotate : ℕ → List A → List A
  rotate s xs = drop s xs ++ take s xs

  pub rotate-nil : (s : ℕ) → rotate s [] ≡ []
  unfolding rotate
  rotate-nil zero = refl
  rotate-nil (suc s) = refl

  pub rotate-All {κ} : (P : A → Type κ) (s : ℕ) (xs : List A) → All P (rotate s xs) ↔ All P xs
  unfolding rotate
  rotate-All P s xs = (
    λ h. subst (All P) (take-append-drop s xs) (All-append_comm P (drop s xs) (take s xs) h),
    λ h. All-append_comm P (take s xs) (drop s xs) (subst (All P) (sym (take-append-drop s xs)) h),
  )

  pub length-rotate : (s : ℕ) (xs : List A) → length (rotate s xs) ≡ length xs
  unfolding rotate
  length-rotate s xs =
      omega (arith, length-append (drop s xs) (take s xs), length-take s xs, length-drop s xs)

  pub rotate-perm : (s : ℕ) (xs : List A) → Perm (rotate s xs) xs
  unfolding rotate
  rotate-perm s xs =
      subst (λ ys. Perm (drop s xs ++ take s xs) ys) (take-append-drop s xs)
        (perm_append_comm (drop s xs) (take s xs))

  pub get_or-rotate :
      (s i : ℕ) (xs : List A) (d : A)
      → s < length xs
      → i < length xs
      → get_or (rotate s xs) i d ≡ get_or xs ((s + i) % length xs) d
  unfolding rotate
  get_or-rotate s i xs d hs hi = elim (Bool-cases (ltb i (length (drop s xs)))) [
    | inl front ↦
        rw (get_or-append (drop s xs) (take s xs) i d, front, get_or-drop s xs i d)
          (ap (λ k. get_or xs k d)
            (sym (front_index s i (length xs) (omega (tests, length-drop s xs)))))
    | inr back ↦
        let late = leb_of i (length (drop s xs)) back in
        rw (get_or-append (drop s xs) (take s xs) i d, back, length-drop s xs)
          (get_or-take s xs (i - (length xs - s)) d (omega (arith, late, length-drop s xs))
            ∙ ap (λ k. get_or xs k d)
                (omega (
                  arith,
                  back_index s i (length xs) hs hi (omega (arith, late, length-drop s xs)),
                )))
  ]
