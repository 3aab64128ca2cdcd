-- ===== src/App/Reload/Registered.antt =====
-- The entries of `lbs` in src/main.rs, under which a reload finds the balancers.
use layer4_lb.Prelude.{
  ℕ, ◌≡◌, ◌≢◌, refl, sym, ◌∙◌, String, some, List, [], ◌∷◌, str_eq, str_eq_iff, Bool-cases, inl,
  inr, true, false,
}
use layer4_lb.Config.{LbRule}
use layer4_lb.App.Reload.{Process, insert_lb, get_lb, start_rule}

str_eq_refl : (s : String) → str_eq s s ≡ true
str_eq_refl s = (str_eq_iff s s).1 refl

str_eq-apart : (s t : String) → s ≢ t → str_eq s t ≡ false
str_eq-apart s t apart = elim (Bool-cases (str_eq s t)) [
  | inl same ↦ absurd (apart ((str_eq_iff s t).0 same))
  | inr other ↦ other
]

get_lb-insert_lb :
    (name : String) (p : ℕ) (lbs : List (String × ℕ)) → get_lb name (insert_lb name p lbs) ≡ some p
unfolding get_lb insert_lb
get_lb-insert_lb name p [] = rw (str_eq_refl name) refl
get_lb-insert_lb name p ((other, q) ∷ lbs) = elim (Bool-cases (str_eq other name)) [
  | inl same ↦ rw (same, same) refl
  | inr apart ↦ rw (apart, apart) (get_lb-insert_lb name p lbs)
]

get_lb-insert_other :
    (name other : String) (p : ℕ) (lbs : List (String × ℕ))
    → other ≢ name
    → get_lb name (insert_lb other p lbs) ≡ get_lb name lbs
unfolding get_lb insert_lb
get_lb-insert_other name other p [] apart = rw (str_eq-apart other name apart) refl
get_lb-insert_other name other p ((key, q) ∷ lbs) apart = elim (Bool-cases (str_eq key other)) [
  | inl same ↦
      let key_apart =
        str_eq-apart key name (λ e. apart (sym ((str_eq_iff key other).0 same) ∙ e)) in
      rw (same, key_apart) refl
  | inr differ ↦ rw (differ, get_lb, get_lb-insert_other name other p lbs apart) refl
]

-- The start of a rule puts its balancer under its name and leaves the other entries.
pub start_rule-own :
    (rule : LbRule) (s : Process) → get_lb rule.name (start_rule rule s).lbs ≡ some s.next
unfolding start_rule
start_rule-own rule s = get_lb-insert_lb rule.name s.next s.lbs

pub start_rule-others :
    (name : String) (rule : LbRule) (s : Process)
    → rule.name ≢ name
    → get_lb name (start_rule rule s).lbs ≡ get_lb name s.lbs
unfolding start_rule
start_rule-others name rule s apart = get_lb-insert_other name rule.name s.next s.lbs apart
