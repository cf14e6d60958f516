-- ===== src/Replace/FixedPoint.antt =====
-- replace_all_multiple of pattern_core/rewrite.cc: what it returns, and when.
use stocas.Common.{
  ℕ, zero, suc, ◌<◌, ◌≡◌, ◌↔◌, ◌⊎◌, refl, sym, ap, subst, ◌∙◌, List, inl, inr, Bool-cases, arith,
}
use stocas.SymbolTable.Attributes.{SymbolAttribute}
use stocas.Algebra.{Ring}
use stocas.Polynomial.{Result, ok, err, runtime_error}
use stocas.Atom.{Numbers, Atom}
use stocas.Derivative.{Functions}
use stocas.Derivative.Value.{Meaning, value}
use stocas.Matcher.Sequences.{equal_atoms}
use stocas.Matcher.Equality.{equal_atoms-true, equal_atoms_self}
use stocas.Replace.{Rule, replace_all_impl, next_pass, replace_all_multiple}
use stocas.Replace.Value.{IsIdentity, value-replace_all_impl}

module _ {N : Type 0} (numbers : Numbers N) (scalars : Ring N) (symbol_name : ℕ → List ℕ)
    (attributes : ℕ → List SymbolAttribute) (rule : Rule N) where
  abbrev pass : Atom N → Result (Atom N)
  pass e = replace_all_impl numbers scalars symbol_name attributes rule e

  abbrev passes : ℕ → Atom N → Result (Atom N)
  passes n e = replace_all_multiple numbers scalars symbol_name attributes rule n e

  abbrev pub IsFixed : Atom N → Type 0
  IsFixed e = pass e ≡ ok e

  -- `k` passes turn `e` into `r`.
  abbrev pub After : ℕ → Atom N → Atom N → Type 0
  After zero e r = e ≡ r
  After (suc k) e r = (m : Atom N) × (pass e ≡ ok m) × After k m r

  After-fixed : (k : ℕ) (e r : Atom N) → IsFixed e → After k e r → e ≡ r
  After-fixed zero e r fixed h = h
  After-fixed (suc k) e r fixed (m, first, rest) =
      let same : e ≡ m = cc (fixed, first) in
      same ∙ After-fixed k m r (subst IsFixed same fixed) rest

  abbrev Reaches : ℕ → Atom N → Atom N → Type 0
  Reaches n e r = (k : ℕ) × (k < n) × After k e r × IsFixed r

  next_pass_ok :
      (n : ℕ) (e r : Atom N) (p : Result (Atom N))
      → pass e ≡ p
      → next_pass numbers scalars symbol_name attributes rule e p (λ m. passes n m) ≡ ok r
      → ((m : Atom N) × (passes n m ≡ ok r) × (pass e ≡ ok m)) ⊎ ((e ≡ r) × IsFixed r)
  unfolding next_pass
  next_pass_ok n e r (err f) known h = cc
  next_pass_ok n e r (ok m) known h =
      elim (Bool-cases (equal_atoms numbers symbol_name attributes m e)) [
        | inl equal ↦
            let same = equal_atoms-true numbers symbol_name attributes m e equal in
            let returned : m ≡ r = (let h' = rw equal at h in cc h') in
            let start = sym same ∙ returned in inr (start, subst IsFixed start (known ∙ ap ok same))
        | inr apart ↦ inl (m, rw apart at h, known)
      ]

  reaches : (n : ℕ) (e r : Atom N) → passes n e ≡ ok r → Reaches n e r
  unfolding replace_all_multiple
  reaches zero e r h = cc
  reaches (suc n) e r h = elim (next_pass_ok n e r (pass e) refl h) [
    | inr (start, fixed) ↦ (0, omega arith, start, fixed)
    | inl (m, later, first) ↦
        let (k, below, after, fixed) = reaches n m r later in
        (suc k, omega (arith, below), (m, first, after), fixed)
  ]

  returns : (n k : ℕ) (e r : Atom N) → k < n → After k e r → IsFixed r → passes n e ≡ ok r
  unfolding replace_all_multiple next_pass
  returns zero k e r below after fixed = absurd (omega (arith, below))
  returns (suc n) zero e r below after fixed =
      let start : pass e ≡ ok e = subst IsFixed (sym after) fixed in
      rw (start, equal_atoms_self numbers symbol_name attributes e) (ap ok after)
  returns (suc n) (suc k) e r below (m, first, after) fixed =
      elim (Bool-cases (equal_atoms numbers symbol_name attributes m e)) [
        | inl equal ↦
            let same = equal_atoms-true numbers symbol_name attributes m e equal in
            let m_fixed = subst IsFixed (sym same) (first ∙ ap ok same) in
            rw (first, equal) (ap ok (After-fixed k m r m_fixed after))
        | inr apart ↦ rw (first, apart) (returns n k m r (omega (arith, below)) after fixed)
      ]

  -- replace_all_multiple with a cap returns r exactly where fewer passes than the cap turn the
  -- expression into r and one more pass leaves r as it is.
  pub replace_all_multiple_iff :
      (n : ℕ) (e r : Atom N)
      → (replace_all_multiple numbers scalars symbol_name attributes rule n e ≡ ok r)
        ↔ ((k : ℕ) × (k < n) × After k e r × IsFixed r)
  replace_all_multiple_iff n e r = (reaches n e r, λ h. returns n h.0 e r h.1 h.2 h.3)

  module _ {V : Type 0} (functions : Functions) (ring : Ring V) (meaning : Meaning N V scalars ring)
      (env : ℕ → V) where
    abbrev means : Atom N → V
    means t = value numbers scalars functions ring meaning env t

    next_pass-outcome :
        (n : ℕ) (e m : Atom N)
        → ((r : Atom N) × (passes n m ≡ ok r) × (means r ≡ means m))
          ⊎ (passes n m ≡ err runtime_error)
        → means m ≡ means e
        → ((r : Atom N) × (next_pass numbers scalars symbol_name attributes rule e
                (ok m)
                (λ t. passes n t)
              ≡ ok r)
            × (means r ≡ means e))
          ⊎ (next_pass numbers scalars symbol_name attributes rule e (ok m) (λ t. passes n t)
              ≡ err runtime_error)
    unfolding next_pass
    next_pass-outcome n e m later same =
        elim (Bool-cases (equal_atoms numbers symbol_name attributes m e)) [
          | inl equal ↦ inl (m, rw equal, same)
          | inr apart ↦ elim later [
            | inl (r, made, right) ↦ inl (r, rw apart made, right ∙ same)
            | inr out ↦ inr (rw apart out)
          ]
        ]

    -- For a rule whose pattern never throws and whose accepted bindings bind the replacement and
    -- give it the value of the pattern, under the conditions of the soundness of matching,
    -- replace_all_multiple returns an expression with the value of the one that it started from,
    -- or throws runtime_error.
    pub replace_all_multiple-outcome :
        (n : ℕ) (e : Atom N)
        → IsIdentity numbers scalars symbol_name attributes functions ring meaning env rule
        → ((r : Atom N) × (replace_all_multiple numbers scalars symbol_name attributes rule n e
              ≡ ok r)
            × (value numbers scalars functions ring meaning env r
                ≡ value numbers scalars functions ring meaning env e))
          ⊎ (replace_all_multiple numbers scalars symbol_name attributes rule n e
              ≡ err runtime_error)
    unfolding replace_all_multiple
    replace_all_multiple-outcome zero e identity = inr refl
    replace_all_multiple-outcome (suc n) e identity =
        let (m, made, same) =
          value-replace_all_impl numbers scalars symbol_name attributes functions ring meaning env
            rule e identity in
        rw made (next_pass-outcome n e m (replace_all_multiple-outcome n m identity) same)
