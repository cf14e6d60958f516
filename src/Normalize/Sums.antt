-- ===== src/Normalize/Sums.antt =====
-- atom_core/normalize.cc: the normal form of an expression has the value of the expression.
use stocas.Common.{ℕ, ◌≡◌, refl, sym, ap, ap₂, ◌∙◌, List, [], ◌∷◌, inl, inr, Bool-cases}
use stocas.Algebra.{Ring}
use stocas.Algebra.Laws.{add-zero, mul-one, add-mul, zero-mul}
use stocas.Atom.{Numbers, num, mul, Atom, node, Atoms, nil, cons}
use stocas.Derivative.{Functions}
use stocas.Atom.Builders.Folds.{fold}
use stocas.Derivative.Value.{Meaning, value, values, sum-append, value-single_or_add}
use stocas.Derivative.Rules.{product_two}
use stocas.Normalize.{
  AtomMap, number, add_to, split_coefficient, collect_terms, term_children, with_constant,
  normalize_add,
}
use stocas.Normalize.Combine.{combined, combined-add_to, shuffle}

module _ {N V : Type 0} (numbers : Numbers N) (scalars : Ring N) (functions : Functions)
    (ring : Ring V) (meaning : Meaning N V scalars ring) (env : ℕ → V) where
  open meaning use {constant, raise}
  open ring use {add as plus, mul as times}

  abbrev pub means : Atom N → V
  means t = value numbers scalars functions ring meaning env t

  abbrev pub means_all : Atoms N → List V
  means_all ts = values numbers scalars functions ring meaning env ts

  abbrev added : Atoms N → V
  added ts = fold plus ring.zero (means_all ts)

  abbrev multiplied : Atoms N → V
  multiplied ts = fold times ring.one (means_all ts)

  abbrev terms_value : AtomMap N → V
  terms_value m =
      combined numbers scalars plus ring.zero ring.add_comm ring.add_assoc
        (λ t c. times (constant c) (means t)) m

  value-split_coefficient :
      (t : Atom N)
      → times
          (constant (split_coefficient numbers scalars t).0)
          (means (split_coefficient numbers scalars t).1)
        ≡ means t
  unfolding split_coefficient
  value-split_coefficient (node mul (cons (node (num c) ts) (cons rest nil))) =
      ap (times (constant c)) (sym (mul-one ring (means rest)))
  value-split_coefficient t =
      ap (λ c. times c (means t)) meaning.constant_one ∙ ring.one-mul (means t)

  value-add_term :
      (t : Atom N) (c : N) (m : AtomMap N)
      → terms_value (add_to numbers scalars t c m)
        ≡ plus (times (constant c) (means t)) (terms_value m)
  value-add_term t c m =
      combined-add_to numbers scalars plus ring.zero ring.add_comm ring.add_assoc _ t c m (λ d.
        ap (λ v. times v (means t)) (meaning.constant_add d c)
        ∙ add-mul ring (constant d) (constant c) (means t))

  sum_round : (c k m rest : V) → plus (plus (plus c k) m) rest ≡ plus (plus c m) (plus k rest)
  sum_round =
      shuffle numbers scalars plus ring.zero ring.add_comm ring.add_assoc
        (λ t c. times (constant c) (means t))

  -- A child that is no number goes to the map.
  abbrev after_term : Atoms N → N → AtomMap N → Atom N → N × AtomMap N
  after_term ts c m t =
      let (coefficient, term) = split_coefficient numbers scalars t in
      collect_terms numbers scalars ts c (add_to numbers scalars term coefficient m)

  abbrev outcome : N × AtomMap N → V
  outcome r = plus (constant r.0) (terms_value r.1)

  term_round :
      (t : Atom N) (c : N) (m : AtomMap N) (rest : V)
      → plus
          (plus (constant c) (
            terms_value (
              add_to numbers scalars
                (split_coefficient numbers scalars t).1
                (split_coefficient numbers scalars t).0
                m)))
          rest
        ≡ plus (plus (constant c) (terms_value m)) (plus (means t) rest)
  term_round t c m rest =
      ap (λ v. plus (plus (constant c) v) rest)
        (value-add_term _ _ m ∙ ap (λ v. plus v (terms_value m)) (value-split_coefficient t))
      ∙ ap (λ v. plus v rest) (sym (ring.add_assoc (constant c) (means t) (terms_value m)))
      ∙ sum_round (constant c) (means t) (terms_value m) rest

  value-collect_terms :
      (ts : Atoms N) (c : N) (m : AtomMap N)
      → outcome (collect_terms numbers scalars ts c m)
        ≡ plus (plus (constant c) (terms_value m)) (added ts)
  unfolding collect_terms
  value-collect_terms nil c m = sym (add-zero ring _)
  value-collect_terms (cons (node (num d) us) ts) c m =
      value-collect_terms ts (scalars.add c d) m
      ∙ ap (λ v. plus (plus v (terms_value m)) (added ts)) (meaning.constant_add c d)
      ∙ sum_round (constant c) (constant d) (terms_value m) (added ts)
  value-collect_terms (cons t ts) c m = value-collect_terms ts c _ ∙ term_round t c m (added ts)

  value-term_children : (m : AtomMap N) → added (term_children numbers scalars m) ≡ terms_value m
  unfolding term_children
  value-term_children [] = refl
  value-term_children ((t, c) ∷ m) = elim (Bool-cases (numbers.equal_numbers c scalars.zero)) [
    | inl nought ↦ rw nought (
        value-term_children m
        ∙ sym (
            ap (λ v. plus (times v (means t)) (terms_value m))
              (ap constant ((numbers.equal_iff c scalars.zero).0 nought) ∙ meaning.constant_zero)
            ∙ ap (λ v. plus v (terms_value m)) (zero-mul ring (means t))
            ∙ ring.zero-add (terms_value m)))
    | inr some_left ↦ elim (Bool-cases (numbers.equal_numbers c scalars.one)) [
      | inl unit ↦
          rw (some_left, unit)
            (ap₂ plus
              (sym (
                ap (λ v. times v (means t))
                  (ap constant ((numbers.equal_iff c scalars.one).0 unit) ∙ meaning.constant_one)
                ∙ ring.one-mul (means t)))
              (value-term_children m))
      | inr other ↦
          rw (some_left, other)
            (ap₂ plus
              (product_two numbers scalars functions ring meaning env (number numbers scalars c) t)
              (value-term_children m))
    ]
  ]

  value-with_constant_add :
      (c : N) (ts : Atoms N)
      → added (with_constant numbers scalars scalars.zero c ts) ≡ plus (constant c) (added ts)
  unfolding with_constant
  value-with_constant_add c nil = refl
  value-with_constant_add c (cons t ts) = elim (Bool-cases (numbers.equal_numbers c scalars.zero)) [
    | inl unit ↦ rw unit (
        sym (
          ap (λ v. plus v (added (cons t ts)))
            (ap constant ((numbers.equal_iff c scalars.zero).0 unit) ∙ meaning.constant_zero)
          ∙ ring.zero-add (added (cons t ts))))
    | inr other ↦ rw other (
        sum-append numbers scalars functions ring meaning env (cons t ts)
          (cons (number numbers scalars c) nil)
        ∙ ap (plus (added (cons t ts))) (add-zero ring (constant c))
        ∙ ring.add_comm (added (cons t ts)) (constant c))
  ]

  pub value-normalize_add : (ts : Atoms N) → means (normalize_add numbers scalars ts) ≡ added ts
  unfolding normalize_add
  value-normalize_add ts =
      let r = collect_terms numbers scalars ts scalars.zero [] in
      value-single_or_add numbers scalars functions ring meaning env
        (with_constant numbers scalars scalars.zero r.0 (term_children numbers scalars r.1))
      ∙ value-with_constant_add r.0 (term_children numbers scalars r.1)
      ∙ ap (plus (constant r.0)) (value-term_children r.1)
      ∙ value-collect_terms ts scalars.zero []
      ∙ ap (λ v. plus v (added ts)) (add-zero ring (constant scalars.zero) ∙ meaning.constant_zero)
      ∙ ring.zero-add (added ts)
