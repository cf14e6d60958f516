-- ===== src/Replace/Value.antt =====
-- pattern_core/rewrite.cc: a pass of a rule whose two sides have the same value keeps the value.
use stocas.Common.{
  ℕ, ◌≡◌, ◌≢◌, refl, ap, ap₂, ◌∙◌, true, List, [], ◌∷◌, Option, none, some, inl, inr, Bool-cases,
}
use stocas.SymbolTable.Attributes.{SymbolAttribute}
use stocas.Algebra.{Ring}
use stocas.Polynomial.{Result, ok, err, Failure}
use stocas.Atom.{Numbers, Kind, add, mul, Atom, node, Atoms, nil, cons}
use stocas.Derivative.{Functions}
use stocas.Derivative.Value.{Meaning, value, values, value_kind, value-sum, value-product}
use stocas.Rewrite.Value.{IsBound, bound_value, value-substitute_impl}
use stocas.Matcher.{MatchBindings}
use stocas.Matcher.Impl.{match_impl}
use stocas.Matcher.Nodes.{RespectsSymmetric}
use stocas.Matcher.Sound.{PlainCalls, match_impl-bound_value}
use stocas.Replace.{
  Rule, rebuilt, apply_match, apply_rule, replace_node, prepend, replace_all_impl, replace_children,
}

module _ {N V : Type 0} (numbers : Numbers N) (scalars : Ring N) (symbol_name : ℕ → List ℕ)
    (attributes : ℕ → List SymbolAttribute) (functions : Functions) (ring : Ring V)
    (meaning : Meaning N V scalars ring) (env : ℕ → V) (rule : Rule N) where
  abbrev means : Atom N → V
  means t = value numbers scalars functions ring meaning env t

  -- Matching does not throw, and where it gives bindings that the guard accepts, these bind the
  -- replacement's wildcards, and the replacement has the value of the pattern.
  pub record IsIdentity : Type 0 where
    pub never_throws :
        (t : Atom N) (e : Failure)
        → match_impl numbers symbol_name attributes rule.pattern_atom t [] ≢ err e
    pub binds :
        (t : Atom N) (b : MatchBindings N)
        → match_impl numbers symbol_name attributes rule.pattern_atom t [] ≡ ok (some b)
        → rule.guard b ≡ true
        → IsBound numbers scalars symbol_name b functions ring meaning env rule.replacement
    pub equal_sides :
        (t : Atom N) (b : MatchBindings N)
        → match_impl numbers symbol_name attributes rule.pattern_atom t [] ≡ ok (some b)
        → rule.guard b ≡ true
        → bound_value numbers scalars symbol_name b functions ring meaning env rule.replacement
          ≡ bound_value numbers scalars symbol_name b functions ring meaning env rule.pattern_atom
    pub plain :
        PlainCalls numbers scalars symbol_name attributes functions ring meaning env
          rule.pattern_atom
    pub respects :
        RespectsSymmetric numbers scalars symbol_name attributes functions ring meaning env

  -- A result that exists and has a value.
  abbrev pub Gives : Result (Atom N) → V → Type 0
  Gives result v = (r : Atom N) × (result ≡ ok r) × (means r ≡ v)

  module _ (identity : IsIdentity) where
    apply_match-Gives :
        (t : Atom N) (m : Result (Option (MatchBindings N)))
        → match_impl numbers symbol_name attributes rule.pattern_atom t [] ≡ m
        → Gives (apply_match numbers scalars symbol_name attributes rule t m) (means t)
    unfolding apply_match
    apply_match-Gives t (err e) known = absurd (identity.never_throws t e known)
    apply_match-Gives t (ok none) known = (t, refl, refl)
    apply_match-Gives t (ok (some b)) known = elim (Bool-cases (rule.guard b)) [
      | inr refused ↦ (t, rw refused, refl)
      | inl accepted ↦
          let (r, made, same) =
            value-substitute_impl numbers scalars symbol_name b functions ring meaning env
              rule.replacement (identity.binds t b known accepted) in
          (
            r,
            rw accepted made,
            same
                ∙ identity.equal_sides t b known accepted
                ∙ match_impl-bound_value numbers scalars symbol_name attributes functions ring
                    meaning env rule.pattern_atom t b identity.respects identity.plain known,
          )
    ]

    value-rebuilt :
        (k : Kind N) (ts : Atoms N)
        → means (rebuilt numbers scalars symbol_name attributes rule k ts)
          ≡ value_kind numbers scalars functions ring meaning env k
              (values numbers scalars functions ring meaning env ts)
    unfolding rebuilt
    value-rebuilt add ts = value-sum numbers scalars functions ring meaning env ts
    value-rebuilt mul ts = value-product numbers scalars functions ring meaning env ts
    value-rebuilt k ts = refl

    mutual
      unfolding replace_all_impl replace_children replace_node apply_rule

      impl-Gives :
          (e : Atom N)
          → Gives (replace_all_impl numbers scalars symbol_name attributes rule e) (means e)
      impl-Gives (node k ts) =
          let (us, made, same) = children-Give ts in
          let (r, replaced, right) =
            apply_match-Gives (rebuilt numbers scalars symbol_name attributes rule k us) _ refl in
          (
            r,
            ap (replace_node numbers scalars symbol_name attributes rule k) made ∙ replaced,
            right
                ∙ value-rebuilt k us
                ∙ ap (value_kind numbers scalars functions ring meaning env k) same,
          )

      children-Give :
          (ts : Atoms N)
          → (us : Atoms N) × (replace_children numbers scalars symbol_name attributes rule ts
              ≡ ok us)
            × (values numbers scalars functions ring meaning env us
                ≡ values numbers scalars functions ring meaning env ts)
      children-Give nil = (nil, refl, refl)
      children-Give (cons t ts) =
          let (r, first, same) = impl-Gives t in
          let (us, rest, all_same) = children-Give ts in
          (
            cons r us,
            ap₂ (prepend numbers scalars symbol_name attributes rule) first rest,
            ap₂ (λ v vs. v ∷ vs) same all_same,
          )

  pub value-replace_all_impl :
      (e : Atom N)
      → IsIdentity
      → (r : Atom N) × (replace_all_impl numbers scalars symbol_name attributes rule e ≡ ok r)
        × (value numbers scalars functions ring meaning env r
            ≡ value numbers scalars functions ring meaning env e)
  value-replace_all_impl e identity = impl-Gives identity e
