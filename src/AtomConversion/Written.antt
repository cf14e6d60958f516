-- ===== src/AtomConversion/Written.antt =====
-- poly_core/atom_conversion.cc: the expressions that polynomial_to_atom builds can be read back, and with
-- the exponents of the polynomial.
use stocas.Common.{
  ℕ, zero, suc, ◌+◌, ◌≡◌, ◌≤◌, ◌<◌, refl, ap, true, false, List, [], ◌∷◌, Option, some, max, ◌==◌,
  inl, inr, Bool-cases, arith,
}
use stocas.Common.Int.{ℤ, pos}
use stocas.Algebra.{Ring}
use stocas.Monomial.{Monomial, exponent_mod}
use stocas.Polynomial.{Term}
use stocas.Polynomial.Terms.{AllTerms}
use stocas.Atom.{Numbers, Kind, add, mul, tag, position, Atom, node, Atoms, nil, cons}
use stocas.Atom.Builders.{single_or, canonical, sort_atoms, flatten_atoms}
use stocas.Atom.Builders.Folds.{fold-canonical, canonical-Each}
use stocas.Derivative.{Functions}
use stocas.Derivative.Value.{Meaning}
use stocas.AtomConversion.{
  factor, factors_of, with_coefficient, term_atom, term_atoms, atom_of_terms,
}
use stocas.AtomConversion.Steps.{greatest, total}
use stocas.AtomConversion.Lookup.{HasVariable}
use stocas.AtomConversion.Reading.{
  exponent_of, degree_bound, degree_bounds, IsReadable, AllReadable,
}

module _ {N : Type 0} (numbers : Numbers N) (scalars : Ring N) (from_exponent : ℕ → N)
    (integer_of : N → Option ℤ) (functions : Functions) (meaning : Meaning N N scalars scalars)
    (env : ℕ → N) (variables : List ℕ)
    (exponents : (e : ℕ) → integer_of (from_exponent e) ≡ some (pos e)) where
  abbrev degree : Atom N → ℕ
  degree t = degree_bound numbers scalars functions meaning env integer_of variables t

  abbrev degrees : Atoms N → List ℕ
  degrees ts = degree_bounds numbers scalars functions meaning env integer_of variables ts

  abbrev Readable : Atom N → Type 0
  Readable t = IsReadable numbers scalars functions meaning env integer_of variables t

  abbrev EachReadable : Atoms N → Type 0
  EachReadable ts = AllReadable numbers scalars functions meaning env integer_of variables ts

  add_position :
      (l : Kind N) (us : Atoms N)
      → (position (tag l) == 2) ≡ true
      → degree (node l us) ≡ greatest (degrees us)
  add_position add us h = refl
  add_position l us h = cc

  mul_position :
      (l : Kind N) (us : Atoms N)
      → (position (tag l) == 3) ≡ true
      → degree (node l us) ≡ total (degrees us)
  mul_position mul us h = refl
  mul_position l us h = cc

  canonical-Readable :
      (k : Kind N) (ts : Atoms N)
      → EachReadable ts
      → EachReadable (sort_atoms numbers (flatten_atoms (tag k) ts))
  canonical-Readable k ts h =
      canonical-Each numbers Readable EachReadable tt (λ t us p hs. (p, hs)) (λ t us hs. hs) k
        (λ l us e p. p.1) ts h

  single_or_add-Readable :
      (ts : Atoms N)
      → EachReadable ts
      → Readable (single_or numbers add ts)
        × (degree (single_or numbers add ts) ≡ greatest (degrees ts))
  unfolding single_or canonical
  single_or_add-Readable (cons t nil) h = (h.0, omega arith)
  single_or_add-Readable ts h = (
    (tt, canonical-Readable add ts h),
    fold-canonical numbers degree degrees refl (λ t us. refl) max 0 add (λ a b. omega arith)
        (λ a b c. omega arith) (λ a. omega arith) add_position ts,
  )

  single_or_mul-Readable :
      (ts : Atoms N)
      → EachReadable ts
      → Readable (single_or numbers mul ts)
        × (degree (single_or numbers mul ts) ≡ total (degrees ts))
  unfolding single_or canonical
  single_or_mul-Readable (cons t nil) h = (h.0, omega arith)
  single_or_mul-Readable ts h = (
    (tt, canonical-Readable mul ts h),
    fold-canonical numbers degree degrees refl (λ t us. refl) ◌+◌ 0 mul (λ a b. omega arith)
        (λ a b c. omega arith) (λ a. omega arith) mul_position ts,
  )

  factors_of-Readable :
      (vs : List ℕ) (m : Monomial)
      → ((s : ℕ) → HasVariable s vs → HasVariable s variables)
      → total m < exponent_mod
      → EachReadable (factors_of numbers scalars from_exponent vs m)
        × (total (degrees (factors_of numbers scalars from_exponent vs m)) ≤ total m)
  unfolding factors_of factor
  factors_of-Readable [] m listed l = (tt, omega arith)
  factors_of-Readable (s ∷ vs) [] listed l = (tt, omega arith)
  factors_of-Readable (s ∷ vs) (zero ∷ es) listed l =
      let (h, b) = factors_of-Readable vs es (λ v g. listed v (inr g)) (omega arith) in
      (h, omega arith)
  factors_of-Readable (s ∷ vs) (suc zero ∷ es) listed l =
      let (h, b) = factors_of-Readable vs es (λ v g. listed v (inr g)) (omega arith) in
      (((listed s (inl refl), tt), h), omega arith)
  factors_of-Readable (s ∷ vs) (suc (suc e) ∷ es) listed l =
      let (h, b) = factors_of-Readable vs es (λ v g. listed v (inr g)) (omega arith) in
      let present : (suc (suc e) == 0) ≡ false = ground arith in
      let above_one : (suc (suc e) == 1) ≡ false = ground arith in
      let read : exponent_of (integer_of (from_exponent (suc (suc e)))) ≡ suc (suc e) =
        ap exponent_of (exponents (suc (suc e))) in
      let power_readable : Readable (factor numbers scalars from_exponent s (suc (suc e))) =
        rw above_one (
          (suc (suc e), exponents (suc (suc e)), omega arith),
          ((listed s (inl refl), tt), ((tt, tt), tt)),
        ) in
      let power_degree : degree (factor numbers scalars from_exponent s (suc (suc e)))
          ≡ suc (suc e) =
        rw (above_one, read) (omega arith) in
      rw present ((power_readable, h), omega arith)

  with_coefficient-Readable :
      (c : N) (fs : Atoms N)
      → EachReadable fs
      → EachReadable (with_coefficient numbers scalars from_exponent c fs)
        × (total (degrees (with_coefficient numbers scalars from_exponent c fs))
            ≡ total (degrees fs))
  unfolding with_coefficient
  with_coefficient-Readable c nil h = (((tt, tt), tt), omega arith)
  with_coefficient-Readable c (cons f fs) h =
      elim (Bool-cases (numbers.equal_numbers c scalars.one)) [
        | inl unit ↦ rw unit (h, refl)
        | inr other ↦ rw other (((tt, tt), h), omega arith)
      ]

  abbrev FitExponents : List (Term N) → Type 0
  FitExponents ts = AllTerms (λ m. total m < exponent_mod) ts

  term_atoms-Readable :
      (ts : List (Term N))
      → FitExponents ts
      → EachReadable (term_atoms numbers scalars from_exponent variables ts)
        × (greatest (degrees (term_atoms numbers scalars from_exponent variables ts))
            < exponent_mod)
  unfolding term_atoms term_atom
  term_atoms-Readable [] h = (tt, omega arith)
  term_atoms-Readable ((m, c) ∷ ts) (l, h) =
      let fs : Atoms N = factors_of numbers scalars from_exponent variables m in
      let (each, below) = factors_of-Readable variables m (λ s g. g) l in
      let (operands, same) = with_coefficient-Readable c fs each in
      let (whole, whole_degree) =
        single_or_mul-Readable (with_coefficient numbers scalars from_exponent c fs) operands in
      let (others, others_below) = term_atoms-Readable ts h in ((whole, others), omega arith)

  pub atom_of_terms-Readable :
      (ts : List (Term N))
      → FitExponents ts
      → Readable (atom_of_terms numbers scalars from_exponent variables ts)
        × (degree (atom_of_terms numbers scalars from_exponent variables ts) < exponent_mod)
  unfolding atom_of_terms
  atom_of_terms-Readable [] h = ((tt, tt), omega arith)
  atom_of_terms-Readable (t ∷ ts) h =
      let (each, below) = term_atoms-Readable (t ∷ ts) h in
      let (whole, whole_degree) =
        single_or_add-Readable (term_atoms numbers scalars from_exponent variables (t ∷ ts)) each in
      (whole, omega arith)
