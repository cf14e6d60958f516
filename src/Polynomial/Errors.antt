-- ===== src/Polynomial/Errors.antt =====
-- Where the operators of poly_core/include/poly_core/polynomial.hh throw.
use stocas.Common.{ℕ, ◌≡◌, ◌≢◌, ◌↔◌, Bool, true, false, List, inl, inr, Bool-cases, if◌then◌else◌}
use stocas.Algebra.{Ring}
use stocas.Polynomial.{Polynomial, ok, err, invalid_argument, equal_vectors, merged, add, sub, mul}
use stocas.Polynomial.Value.{equal_vectors→eq, equal_vectors_self}

equal_vectors-false : (a b : List ℕ) → (equal_vectors a b ≡ false) ↔ (a ≢ b)
equal_vectors-false a b = (
  λ h e. let h' = equal_vectors_self a in cc (rw (← e) at h),
  λ ne. elim (Bool-cases (equal_vectors a b)) [
    | inl same ↦ absurd (ne (equal_vectors→eq a b same))
    | inr other ↦ other
  ],
)

-- A test that throws where it fails.
guarded_iff :
    {A : Type 0} (test : Bool) (result : A)
    → ((if test then ok result else err invalid_argument) ≡ err invalid_argument) ↔ (test ≡ false)
guarded_iff true result = (λ h. cc, λ h. cc)
guarded_iff false result = (λ h. cc, λ h. cc)

module _ {A : Type 0} (ring : Ring A) (p q : Polynomial A) where
  merged_error :
      (combine : A → A → A)
      → (merged ring combine p q ≡ err invalid_argument) ↔ (p.variables ≢ q.variables)
  unfolding merged
  merged_error combine =
      let (there, back) = guarded_iff (equal_vectors p.variables q.variables) _ in
      let (apart, joined) = equal_vectors-false p.variables q.variables in
      (λ h. apart (there h), λ ne. back (joined ne))

  -- operator+, operator- and operator* throw invalid_argument exactly when the variable lists
  -- differ.
  pub add-sub-mul_error :
      ((add ring p q ≡ err invalid_argument) ↔ (p.variables ≢ q.variables))
      × ((sub ring p q ≡ err invalid_argument) ↔ (p.variables ≢ q.variables))
      × ((mul ring p q ≡ err invalid_argument) ↔ (p.variables ≢ q.variables))
  unfolding add sub mul
  add-sub-mul_error =
      let (there, back) = guarded_iff (equal_vectors p.variables q.variables) _ in
      let (apart, joined) = equal_vectors-false p.variables q.variables in
      (merged_error ring.add, merged_error ring.sub, (λ h. apart (there h), λ ne. back (joined ne)))
