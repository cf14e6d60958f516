-- ===== src/Normalize/Products.antt =====
-- atom_core/normalize.cc: normalize_mul and normalize_pow keep the value.
use stocas.Common.{
  ℕ, ◌≡◌, refl, sym, ap, ap₂, ◌∙◌, List, [], ◌∷◌, Option, none, some, inl, inr, Bool-cases,
}
use stocas.Algebra.{Ring}
use stocas.Algebra.Laws.{mul-one, zero-mul, mul-zero}
use stocas.Atom.{Numbers, num, var, add, mul, pow, fun, Atom, node, Atoms, nil, cons}
use stocas.Derivative.{Functions}
use stocas.Atom.Builders.Folds.{fold}
use stocas.Derivative.Value.{
  Meaning, value, values, value_kind, multiply-append, value-single_or_mul,
}
use stocas.Normalize.{
  AtomMap, number, add_to, split_power, with_constant, collect_bases, base_factors, product_of,
  normalize_mul, normalize_pow,
}
use stocas.Normalize.Combine.{combined, combined-add_to, shuffle}

-- The first two powers of every value.
pub record PowerLaws {N V : Type 0} {scalars : Ring N} {ring : Ring V}
    (meaning : Meaning N V scalars ring) : Type 0 where
  pub raise_zero : (v : V) → meaning.raise v ring.zero ≡ ring.one
  pub raise_one : (v : V) → meaning.raise v ring.one ≡ v

module _ {N V : Type 0} (numbers : Numbers N) (scalars : Ring N) (functions : Functions)
    (ring : Ring V) (meaning : Meaning N V scalars ring) (env : ℕ → V) where
  open meaning use {constant, raise}
  open ring use {mul as times}

  abbrev means : Atom N → V
  means t = value numbers scalars functions ring meaning env t

  abbrev means_all : Atoms N → List V
  means_all ts = values numbers scalars functions ring meaning env ts

  abbrev multiplied : Atoms N → V
  multiplied ts = fold times ring.one (means_all ts)

  -- Exponents add up, as where the base has an inverse.
  abbrev pub AddsExponents : V → Type 0
  AddsExponents v =
      (c d : N)
      → raise v (ring.add (constant c) (constant d))
        ≡ times (raise v (constant c)) (raise v (constant d))

  -- The exponents of the bases of the factors that are not numbers add up.
  abbrev pub AllAddExponents : Atoms N → Type 0
  AllAddExponents nil = Unit
  AllAddExponents (cons (node (num c) us) ts) = AllAddExponents ts
  AllAddExponents (cons t ts) =
      AddsExponents (means (split_power numbers scalars t).0) × AllAddExponents ts

  abbrev bases_value : AtomMap N → V
  bases_value m =
      combined numbers scalars times ring.one ring.mul_comm ring.mul_assoc
        (λ t e. raise (means t) (constant e)) m

  module _ (laws : PowerLaws meaning) where
    raise_unit : (v : V) → raise v (constant scalars.one) ≡ v
    raise_unit v = ap (raise v) meaning.constant_one ∙ laws.raise_one v

    value-split_power :
        (t : Atom N)
        → raise
            (means (split_power numbers scalars t).0)
            (constant (split_power numbers scalars t).1)
          ≡ means t
    unfolding split_power
    value-split_power (node pow (cons base (cons (node (num e) ts) nil))) = refl
    value-split_power t = raise_unit (means t)

    product_round :
        (c k m rest : V) → times (times (times c k) m) rest ≡ times (times c m) (times k rest)
    product_round =
        shuffle numbers scalars times ring.one ring.mul_comm ring.mul_assoc
          (λ t e. raise (means t) (constant e))

    base_round :
        (t : Atom N) (c : N) (m : AtomMap N) (rest : V)
        → AddsExponents (means (split_power numbers scalars t).0)
        → times
            (times (constant c) (
              bases_value (
                add_to numbers scalars
                  (split_power numbers scalars t).0
                  (split_power numbers scalars t).1
                  m)))
            rest
          ≡ times (times (constant c) (bases_value m)) (times (means t) rest)
    base_round t c m rest adds =
        let (base, e) = split_power numbers scalars t in
        ap (λ v. times (times (constant c) v) rest)
          (combined-add_to numbers scalars times ring.one ring.mul_comm ring.mul_assoc _ base e m
              (λ d. ap (raise (means base)) (meaning.constant_add d e) ∙ adds d e)
            ∙ ap (λ v. times v (bases_value m)) (value-split_power t))
        ∙ ap (λ v. times v rest) (sym (ring.mul_assoc (constant c) (means t) (bases_value m)))
        ∙ product_round (constant c) (means t) (bases_value m) rest

    abbrev outcome : Option (N × AtomMap N) → V
    outcome none = ring.zero
    outcome (some (c, m)) = times (constant c) (bases_value m)

    value-collect_bases :
        (ts : Atoms N) (c : N) (m : AtomMap N)
        → AllAddExponents ts
        → outcome (collect_bases numbers scalars ts c m)
          ≡ times (times (constant c) (bases_value m)) (multiplied ts)
    unfolding collect_bases
    value-collect_bases nil c m adds = sym (mul-one ring _)
    value-collect_bases (cons (node (num d) us) ts) c m adds =
        elim (Bool-cases (numbers.equal_numbers d scalars.zero)) [
          | inl nought ↦ rw nought (
              sym (
                ap (λ v. times (times (constant c) (bases_value m)) (times v (multiplied ts)))
                  (ap constant ((numbers.equal_iff d scalars.zero).0 nought)
                    ∙ meaning.constant_zero)
                ∙ ap (times (times (constant c) (bases_value m))) (zero-mul ring (multiplied ts))
                ∙ mul-zero ring (times (constant c) (bases_value m))))
          | inr other ↦ rw other (
              value-collect_bases ts (scalars.mul c d) m adds
              ∙ ap (λ v. times (times v (bases_value m)) (multiplied ts)) (meaning.constant_mul c d)
              ∙ product_round (constant c) (constant d) (bases_value m) (multiplied ts))
        ]
    value-collect_bases (cons (node (var s) us) ts) c m (adds, all) =
        value-collect_bases ts c _ all ∙ base_round (node (var s) us) c m (multiplied ts) adds
    value-collect_bases (cons (node add us) ts) c m (adds, all) =
        value-collect_bases ts c _ all ∙ base_round (node add us) c m (multiplied ts) adds
    value-collect_bases (cons (node mul us) ts) c m (adds, all) =
        value-collect_bases ts c _ all ∙ base_round (node mul us) c m (multiplied ts) adds
    value-collect_bases (cons (node pow us) ts) c m (adds, all) =
        value-collect_bases ts c _ all ∙ base_round (node pow us) c m (multiplied ts) adds
    value-collect_bases (cons (node (fun h) us) ts) c m (adds, all) =
        value-collect_bases ts c _ all ∙ base_round (node (fun h) us) c m (multiplied ts) adds

    value-base_factors :
        (m : AtomMap N) → multiplied (base_factors numbers scalars m) ≡ bases_value m
    unfolding base_factors
    value-base_factors [] = refl
    value-base_factors ((t, e) ∷ m) = elim (Bool-cases (numbers.equal_numbers e scalars.zero)) [
      | inl nought ↦
          let e_zero = (numbers.equal_iff e scalars.zero).0 nought in
          rw nought (
            value-base_factors m
            ∙ sym (
                ap (λ v. times v (bases_value m))
                  (ap (λ x. raise (means t) (constant x)) e_zero
                    ∙ ap (raise (means t)) meaning.constant_zero
                    ∙ laws.raise_zero (means t))
                ∙ ring.one-mul (bases_value m)))
      | inr some_left ↦ elim (Bool-cases (numbers.equal_numbers e scalars.one)) [
        | inl unit ↦
            let e_one = (numbers.equal_iff e scalars.one).0 unit in
            rw (some_left, unit)
              (ap₂ times (sym (ap (λ x. raise (means t) (constant x)) e_one ∙ raise_unit (means t)))
                (value-base_factors m))
        | inr other ↦
            rw (some_left, other) (ap (times (raise (means t) (constant e))) (value-base_factors m))
      ]
    ]

    value-with_constant_mul :
        (c : N) (ts : Atoms N)
        → multiplied (with_constant numbers scalars scalars.one c ts)
          ≡ times (constant c) (multiplied ts)
    unfolding with_constant
    value-with_constant_mul c nil = refl
    value-with_constant_mul c (cons t ts) =
        elim (Bool-cases (numbers.equal_numbers c scalars.one)) [
          | inl unit ↦ rw unit (
              sym (
                ap (λ v. times v (multiplied (cons t ts)))
                  (ap constant ((numbers.equal_iff c scalars.one).0 unit) ∙ meaning.constant_one)
                ∙ ring.one-mul (multiplied (cons t ts))))
          | inr other ↦ rw other (
              multiply-append numbers scalars functions ring meaning env (cons t ts)
                (cons (number numbers scalars c) nil)
              ∙ ap (times (multiplied (cons t ts))) (mul-one ring (constant c))
              ∙ ring.mul_comm (multiplied (cons t ts)) (constant c))
        ]

    value-product_of :
        (r : Option (N × AtomMap N)) → means (product_of numbers scalars r) ≡ outcome r
    unfolding product_of
    value-product_of none = meaning.constant_zero
    value-product_of (some (c, m)) =
        value-single_or_mul numbers scalars functions ring meaning env
          (with_constant numbers scalars scalars.one c (base_factors numbers scalars m))
        ∙ value-with_constant_mul c (base_factors numbers scalars m)
        ∙ ap (times (constant c)) (value-base_factors m)

    pub value-normalize_mul :
        (ts : Atoms N)
        → AllAddExponents ts
        → means (normalize_mul numbers scalars ts) ≡ multiplied ts
    unfolding normalize_mul
    value-normalize_mul ts adds =
        value-product_of (collect_bases numbers scalars ts scalars.one [])
        ∙ value-collect_bases ts scalars.one [] adds
        ∙ ap (λ v. times v (multiplied ts))
            (mul-one ring (constant scalars.one) ∙ meaning.constant_one)
        ∙ ring.one-mul (multiplied ts)

    pub value-normalize_pow :
        (ts : Atoms N)
        → means (normalize_pow numbers scalars ts)
          ≡ value_kind numbers scalars functions ring meaning env pow (means_all ts)
    unfolding normalize_pow
    value-normalize_pow (cons base (cons (node (num e) us) nil)) =
        elim (Bool-cases (numbers.equal_numbers e scalars.zero)) [
          | inl nought ↦
              let e_zero = (numbers.equal_iff e scalars.zero).0 nought in
              rw nought (
                meaning.constant_one
                ∙ sym (
                    ap (λ x. raise (means base) (constant x)) e_zero
                    ∙ ap (raise (means base)) meaning.constant_zero
                    ∙ laws.raise_zero (means base)))
          | inr some_left ↦ elim (Bool-cases (numbers.equal_numbers e scalars.one)) [
            | inl unit ↦
                let e_one = (numbers.equal_iff e scalars.one).0 unit in
                rw (some_left, unit)
                  (sym (ap (λ x. raise (means base) (constant x)) e_one ∙ raise_unit (means base)))
            | inr other ↦ rw (some_left, other)
          ]
        ]
    value-normalize_pow ts = refl
