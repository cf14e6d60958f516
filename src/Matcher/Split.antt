-- ===== src/Matcher/Split.antt =====
-- pattern_core/matcher.cc: the children of a pattern, split into normal ones and a sequence wildcard,
-- and the values that they have under bindings.
use stocas.Common.{
  ℕ, suc, ◌+◌, ◌≡◌, ◌⊎◌, refl, ap, List, [], ◌∷◌, length, Option, none, some, inl, inr, arith,
}
use stocas.SymbolTable.Attributes.{SymbolAttribute}
use stocas.Algebra.{Ring}
use stocas.Polynomial.{Result, ok}
use stocas.Atom.{Numbers, Atom, Atoms, nil, cons}
use stocas.Derivative.{Functions}
use stocas.Derivative.Value.{Meaning, value, values}
use stocas.Rewrite.{sequence_of}
use stocas.Rewrite.Value.{bound_value, children_values, spliced_values}
use stocas.Matcher.{MatchBindings, SequenceWildcard}
use stocas.Matcher.Sequences.{sequence_wildcard, split_child, split_sequence_wildcard}

module _ {N V : Type 0} (numbers : Numbers N) (scalars : Ring N) (symbol_name : ℕ → List ℕ)
    (attributes : ℕ → List SymbolAttribute) (functions : Functions) (ring : Ring V)
    (meaning : Meaning N V scalars ring) (env : ℕ → V) where
  abbrev pub means : Atom N → V
  means t = value numbers scalars functions ring meaning env t

  abbrev pub means_all : Atoms N → List V
  means_all ts = values numbers scalars functions ring meaning env ts

  abbrev pub bound : MatchBindings N → Atom N → V
  bound f p = bound_value numbers scalars symbol_name f functions ring meaning env p

  abbrev pub children : MatchBindings N → Atoms N → List V
  children f ps = children_values numbers scalars symbol_name f functions ring meaning env ps

  abbrev pub captured_by : MatchBindings N → Atom N → Option (Atoms N)
  captured_by f p = sequence_of numbers scalars symbol_name f p

  abbrev pub wild : Atom N → Option SequenceWildcard
  wild p = sequence_wildcard numbers symbol_name attributes p

  abbrev pub split : Option SequenceWildcard → ℕ → Atoms N → Result (ℕ × Option SequenceWildcard)
  split found n ps = split_sequence_wildcard numbers symbol_name attributes found n ps

  abbrev pub skipped : Option SequenceWildcard → V → List V → List V
  skipped none v vs = v ∷ vs
  skipped (some s) v vs = vs

  -- The values of the normal children.
  abbrev pub normal_values : MatchBindings N → Atoms N → List V
  normal_values f nil = []
  normal_values f (cons p ps) = skipped (wild p) (bound f p) (normal_values f ps)

  abbrev pub ScalarAt : Option SequenceWildcard → Option (Atoms N) → Type 0
  ScalarAt none captured = captured ≡ none
  ScalarAt (some s) captured = Unit

  -- No normal child is bound to a sequence.
  abbrev pub AllScalar : MatchBindings N → Atoms N → Type 0
  AllScalar f nil = Unit
  AllScalar f (cons p ps) = ScalarAt (wild p) (captured_by f p) × AllScalar f ps

  abbrev pub NoSequences : Atoms N → Type 0
  NoSequences nil = Unit
  NoSequences (cons p ps) = (wild p ≡ none) × NoSequences ps

  abbrev pub HasSequence : SequenceWildcard → Atoms N → Type 0
  HasSequence s nil = ⊥
  HasSequence s (cons p ps) =
      ((wild p ≡ some s) × NoSequences ps) ⊎ ((wild p ≡ none) × HasSequence s ps)

  found_step :
      (o : Option SequenceWildcard) (f : SequenceWildcard) (n : ℕ)
      (rest : Option SequenceWildcard → ℕ → Result (ℕ × Option SequenceWildcard))
      (r : ℕ × Option SequenceWildcard)
      → split_child numbers symbol_name attributes o (some f) n rest ≡ ok r
      → (o ≡ none) × (rest (some f) (suc n) ≡ ok r)
  unfolding split_child
  found_step none f n rest r h = (refl, h)
  found_step (some s) f n rest r h = cc

  none_step :
      (o : Option SequenceWildcard) (n : ℕ)
      (rest : Option SequenceWildcard → ℕ → Result (ℕ × Option SequenceWildcard))
      (r : ℕ × Option SequenceWildcard)
      → split_child numbers symbol_name attributes o none n rest ≡ ok r
      → ((o ≡ none) × (rest none (suc n) ≡ ok r))
        ⊎ ((s : SequenceWildcard) × (o ≡ some s) × (rest (some s) n ≡ ok r))
  unfolding split_child
  none_step none n rest r h = inl (refl, h)
  none_step (some s) n rest r h = inr (s, refl, h)

  split_found :
      (ps : Atoms N) (f : SequenceWildcard) (n m : ℕ) (o : Option SequenceWildcard)
      → split (some f) n ps ≡ ok (m, o)
      → (o ≡ some f) × NoSequences ps
  unfolding split_sequence_wildcard
  split_found nil f n m o h = (cc h, tt)
  split_found (cons p ps) f n m o h =
      let (plain, rest) = found_step (wild p) f n _ (m, o) h in
      let (e, all) = split_found ps f (suc n) m o rest in (e, (plain, all))

  pub split_plain : (ps : Atoms N) (n m : ℕ) → split none n ps ≡ ok (m, none) → NoSequences ps
  unfolding split_sequence_wildcard
  split_plain nil n m h = tt
  split_plain (cons p ps) n m h = elim (none_step (wild p) n _ (m, none) h) [
    | inl (plain, rest) ↦ (plain, split_plain ps (suc n) m rest)
    | inr (s, found, rest) ↦ let (e, all) = split_found ps s n m none rest in cc e
  ]

  pub split_sequence :
      (ps : Atoms N) (n m : ℕ) (s : SequenceWildcard)
      → split none n ps ≡ ok (m, some s)
      → HasSequence s ps
  unfolding split_sequence_wildcard
  split_sequence nil n m s h = cc h
  split_sequence (cons p ps) n m s h = elim (none_step (wild p) n _ (m, some s) h) [
    | inl (plain, rest) ↦ inr (plain, split_sequence ps (suc n) m s rest)
    | inr (r, found, rest) ↦
        let (e, all) = split_found ps r n m (some s) rest in
        let same_wildcard : s ≡ r = cc e in inl (cc (found, same_wildcard), all)
  ]

  -- The numbers of normal children where there is no sequence.
  plain_count :
      (f : MatchBindings N) (ps : Atoms N) (n m : ℕ)
      → split none n ps ≡ ok (m, none)
      → n + length (normal_values f ps) ≡ m
  unfolding split_sequence_wildcard
  plain_count f nil n m h = let e : n ≡ m = cc h in omega arith
  plain_count f (cons p ps) n m h = elim (none_step (wild p) n _ (m, none) h) [
    | inl (plain, rest) ↦
        let ih = plain_count f ps (suc n) m rest in
        let e : normal_values f (cons p ps) ≡ bound f p ∷ normal_values f ps =
          ap (λ o. skipped o (bound f p) (normal_values f ps)) plain in
        rw e (omega (arith, ih))
    | inr (s, found, rest) ↦ let (e, all) = split_found ps s n m none rest in cc e
  ]

  pub length-normal_values :
      (f : MatchBindings N) (ps : Atoms N) (m : ℕ)
      → split none 0 ps ≡ ok (m, none)
      → length (normal_values f ps) ≡ m
  length-normal_values f ps m h = omega (arith, plain_count f ps 0 m h)

  plain_step :
      (o : Option SequenceWildcard) (q : Option (Atoms N)) (v : V) (vs ws : List V)
      → o ≡ none
      → ScalarAt o q
      → vs ≡ ws
      → spliced_values numbers scalars symbol_name [] functions ring meaning env q v vs
        ≡ skipped o v ws
  plain_step none none v vs ws e h same_rest = ap (λ us. v ∷ us) same_rest
  plain_step none (some us) v vs ws e h same_rest = cc
  plain_step (some s) q v vs ws e h same_rest = cc

  pub children_plain :
      (f : MatchBindings N) (ps : Atoms N)
      → NoSequences ps
      → AllScalar f ps
      → children f ps ≡ normal_values f ps
  children_plain f nil h k = refl
  children_plain f (cons p ps) (h, hs) (k, ks) =
      plain_step (wild p) (captured_by f p) (bound f p) (children f ps) (normal_values f ps) h k
        (children_plain f ps hs ks)
