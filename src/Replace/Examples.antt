-- ===== src/Replace/Examples.antt =====
-- Runs of pattern_core/rewrite.cc over the integers, with the rule a_ ^ 1 = a_. The symbols 0 and 1 are
-- x and y, and 3 is a_.
use stocas.Common.{
  ℕ, suc, ◌<◌, ◌≡◌, ◌↔◌, ◌⊎◌, refl, sym, subst, ◌∙◌, true, false, List, [], ◌∷◌, none, some, ◌==◌,
  if◌then◌else◌, inl, inr, Bool-cases, arith,
}
use stocas.Common.Int.{ℤ, pos, ◌==ℤ◌}
use stocas.SymbolTable.Attributes.{SymbolAttribute}
use stocas.Algebra.Integers.{integer_ring, one-mul, mul_comm}
use stocas.Polynomial.{ok, err, runtime_error}
use stocas.Atom.{num, var, add, mul, pow, fun, Atom, node, nil, cons, compare_atoms}
use stocas.Atom.Builders.{canonical}
use stocas.Atom.Builders.Views.{count_atoms}
use stocas.Derivative.IntegerMeaning.{integers, meaning, functions}
use stocas.Derivative.Value.{value}
use stocas.Rewrite.{atom, wildcard_kind, find_binding, substitute_impl}
use stocas.Rewrite.Value.{IsBound, bound_value}
use stocas.Matcher.{MatchBindings}
use stocas.Matcher.Impl.{match_impl}
use stocas.Replace.{Rule, replace_all_multiple}
use stocas.Replace.Value.{IsIdentity}
use stocas.Replace.FixedPoint.{
  After, IsFixed, replace_all_multiple_iff, replace_all_multiple-outcome,
}

abbrev name_of : ℕ → List ℕ
name_of s = if s == 3 then 97 ∷ 95 ∷ [] else 120 ∷ []

abbrev attributes : ℕ → List SymbolAttribute
attributes s = []

abbrev number : ℕ → Atom ℤ
number n = node (num (pos n)) nil

abbrev first_power : Rule ℤ
first_power = record {
  pattern_atom = node pow (cons (node (var 3) nil) (cons (number 1) nil));
  replacement = node (var 3) nil;
  guard = λ b. true;
}

abbrev matched : Atom ℤ → MatchBindings ℤ
matched u = (3, atom u) ∷ []

first_power_cases :
    (t : Atom ℤ)
    → (match_impl integers name_of attributes first_power.pattern_atom t [] ≡ ok none)
      ⊎ ((u : Atom ℤ) × (match_impl integers name_of attributes first_power.pattern_atom t []
            ≡ ok (some (matched u))))
unfolding match_impl wildcard_kind find_binding
first_power_cases (node (num c) ts) = inl refl
first_power_cases (node (var s) ts) = inl refl
first_power_cases (node add ts) = inl refl
first_power_cases (node mul ts) = inl refl
first_power_cases (node (fun f) ts) = inl refl
first_power_cases (node pow nil) = inl refl
first_power_cases (node pow (cons u nil)) = inl refl
first_power_cases (node pow (cons u (cons (node (num c) us) nil))) =
    elim (Bool-cases (pos 1 ==ℤ c)) [ inl e ↦ inr (u, rw e) | inr e ↦ inl (rw e) ]
first_power_cases (node pow (cons u (cons (node (var s) us) nil))) = inl refl
first_power_cases (node pow (cons u (cons (node add us) nil))) = inl refl
first_power_cases (node pow (cons u (cons (node mul us) nil))) = inl refl
first_power_cases (node pow (cons u (cons (node pow us) nil))) = inl refl
first_power_cases (node pow (cons u (cons (node (fun f) us) nil))) = inl refl
first_power_cases (node pow (cons u (cons v (cons w ws)))) =
    let three : (suc (suc (suc (count_atoms ws))) == 2) ≡ false = ground arith in inl (rw three)

abbrev env : ℕ → ℤ
env s = pos s

first_power-IsIdentity :
    IsIdentity integers integer_ring name_of attributes functions integer_ring meaning env
      first_power
unfolding find_binding
first_power-IsIdentity = record {
  never_throws = λ t e h. elim (first_power_cases t) [ inl f ↦ cc (f, h) | inr (u, f) ↦ cc (f, h) ];
  binds = λ t b h g. elim (first_power_cases t) [
    | inl f ↦ cc (f, h)
    | inr (u, f) ↦
        let e : matched u ≡ b = cc (f, h) in
        subst
          (λ c.
            IsBound integers integer_ring name_of c functions integer_ring meaning env
              (node (var 3) nil))
          e tt
  ];
  equal_sides = λ t b h g. elim (first_power_cases t) [
    | inl f ↦ cc (f, h)
    | inr (u, f) ↦
        let e : matched u ≡ b = cc (f, h) in
        let v = value integers integer_ring functions integer_ring meaning env u in
        subst
          (λ c.
            bound_value integers integer_ring name_of c functions integer_ring meaning env
              (node (var 3) nil)
            ≡ bound_value integers integer_ring name_of c functions integer_ring meaning env
                first_power.pattern_atom)
          e (sym (mul_comm v (pos 1) ∙ one-mul v))
  ];
  plain = (tt, ((tt, tt), ((tt, tt), tt)));
  respects = λ h vs ws e p. refl;
}

-- x ^ 1 + 7, and then x + 7.
abbrev start : Atom ℤ
start =
    node add (cons (number 7) (cons (node pow (cons (node (var 0) nil) (cons (number 1) nil))) nil))

abbrev end : Atom ℤ
end = node add (cons (number 7) (cons (node (var 0) nil) nil))

replace_all_multiple_iff_example :
    (replace_all_multiple integers integer_ring name_of attributes first_power 5 start ≡ ok end) ↔ (
      (k : ℕ) × (k < 5)
      × After integers integer_ring name_of attributes first_power k start end
      × IsFixed integers integer_ring name_of attributes first_power end)
replace_all_multiple_iff_example =
    replace_all_multiple_iff integers integer_ring name_of attributes first_power 5 start end

start_rewritten :
    replace_all_multiple integers integer_ring name_of attributes first_power 5 start ≡ ok end
unfolding replace_all_multiple match_impl wildcard_kind find_binding compare_atoms substitute_impl
    canonical
start_rewritten = refl

replace_all_multiple-outcome_example :
    ((r : Atom ℤ) × (replace_all_multiple integers integer_ring name_of attributes first_power 5
          start
        ≡ ok r)
      × (value integers integer_ring functions integer_ring meaning env r
          ≡ value integers integer_ring functions integer_ring meaning env start))
    ⊎ (replace_all_multiple integers integer_ring name_of attributes first_power 5 start
        ≡ err runtime_error)
replace_all_multiple-outcome_example =
    replace_all_multiple-outcome integers integer_ring name_of attributes first_power functions
      integer_ring meaning env 5 start first_power-IsIdentity
