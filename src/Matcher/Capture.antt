-- ===== src/Matcher/Capture.antt =====
-- What a sequence wildcard of pattern_core/matcher.cc captures, and the values of the children of a
-- pattern with one.
use stocas.Common.{
  ℕ, ◌≡◌, refl, sym, ap, ap₂, subst, ◌∙◌, true, false, ◌&&◌, List, [], ◌∷◌, ◌++◌, Option, none,
  some, ◌==◌, inl, inr, Bool-cases,
}
use stocas.SymbolTable.Attributes.{SymbolAttribute}
use stocas.Algebra.{Ring}
use stocas.Atom.{Numbers, num, var, add, mul, pow, fun, Atom, node, Atoms, nil, cons, compare_atoms}
use stocas.Atom.Builders.{sort_atoms, insert_atom, is_less}
use stocas.Atom.Builders.Views.{count_atoms}
use stocas.Derivative.{Functions}
use stocas.Derivative.Value.{Meaning}
use stocas.Rewrite.{
  WildcardKind, single, at_least_one, any_count, wildcard_kind, BoundValue, atom, sequence,
  find_binding, elements, sequence_of,
}
use stocas.Rewrite.Value.{spliced_values}
use stocas.Matcher.{MatchBindings, SequenceWildcard}
use stocas.Matcher.Sequences.{
  equal_atoms, equal_lists, same_multiset, sequence_kind, sequence_wildcard, bind_known,
  bind_sequence,
}
use stocas.Matcher.Equality.{equal_atoms-true}
use stocas.Matcher.Permuted.{
  Permuted, same, skip, swap, trans, Permuted_of_eq, Permuted_sym, Permuted_middle,
}
use stocas.Matcher.Bindings.{Sound, Sound_refl, Sound_map, Sound_insert}
use stocas.Matcher.Split.{
  means_all, bound, children, wild, skipped, normal_values, ScalarAt, AllScalar, HasSequence,
  children_plain,
}

module _ {N V : Type 0} (numbers : Numbers N) (scalars : Ring N) (symbol_name : ℕ → List ℕ)
    (attributes : ℕ → List SymbolAttribute) (functions : Functions) (ring : Ring V)
    (meaning : Meaning N V scalars ring) (env : ℕ → V) where
  abbrev all_means : Atoms N → List V
  all_means ts = means_all numbers scalars symbol_name attributes functions ring meaning env ts

  Permuted-insert :
      (t : Atom N) (ts : Atoms N)
      → Permuted (all_means (insert_atom numbers t ts)) (all_means (cons t ts))
  unfolding insert_atom
  Permuted-insert t nil = same
  Permuted-insert t (cons u us) = elim (Bool-cases (is_less (compare_atoms numbers u t))) [
    | inl below ↦ rw below (trans (skip _ (Permuted-insert t us)) (swap _ _))
    | inr above ↦ rw above same
  ]

  Permuted-sort : (ts : Atoms N) → Permuted (all_means (sort_atoms numbers ts)) (all_means ts)
  unfolding sort_atoms
  Permuted-sort nil = same
  Permuted-sort (cons t ts) =
      trans (Permuted-insert t (sort_atoms numbers ts)) (skip _ (Permuted-sort ts))

  equal_lists-true :
      (ts us : Atoms N) → equal_lists numbers symbol_name attributes ts us ≡ true → ts ≡ us
  unfolding equal_lists
  equal_lists-true nil nil h = refl
  equal_lists-true nil (cons u us) h = cc
  equal_lists-true (cons t ts) nil h = cc
  equal_lists-true (cons t ts) (cons u us) h =
      elim (Bool-cases (equal_atoms numbers symbol_name attributes t u)) [
        | inl first ↦ elim (Bool-cases (equal_lists numbers symbol_name attributes ts us)) [
          | inl rest ↦
              ap₂ cons (equal_atoms-true numbers symbol_name attributes t u first)
                (equal_lists-true ts us rest)
          | inr e ↦ let h' = rw (first, e) at h in cc h'
        ]
        | inr e ↦ let h' = rw e at h in cc h'
      ]

  same_multiset_true :
      (ts us : Atoms N)
      → same_multiset numbers symbol_name attributes ts us ≡ true
      → Permuted (all_means ts) (all_means us)
  unfolding same_multiset
  same_multiset_true ts us h =
      trans (Permuted_sym (Permuted-sort ts))
        (trans (Permuted_of_eq (ap all_means (equal_lists-true _ _ h))) (Permuted-sort us))

  -- The symbol of a sequence wildcard is a wildcard, and bound as the child is.
  kind_lem :
      (r : ℕ) (k : Option WildcardKind) (s : SequenceWildcard)
      → sequence_kind numbers symbol_name attributes r k ≡ some s
      → (r ≡ s.symbol) × (w : WildcardKind) × (k ≡ some w)
  unfolding sequence_kind
  kind_lem r none s h = cc
  kind_lem r (some single) s h = cc
  kind_lem r (some at_least_one) s h =
      let e : record { symbol = r; at_least = true } ≡ s = cc h in
      (ap (λ (t : SequenceWildcard). t.symbol) e, at_least_one, refl)
  kind_lem r (some any_count) s h =
      let e : record { symbol = r; at_least = false } ≡ s = cc h in
      (ap (λ (t : SequenceWildcard). t.symbol) e, any_count, refl)

  wild_lem :
      (p : Atom N) (s : SequenceWildcard)
      → sequence_wildcard numbers symbol_name attributes p ≡ some s
      → ((w : WildcardKind) × (wildcard_kind (symbol_name s.symbol) ≡ some w))
        × ((f : MatchBindings N) (ws : Atoms N)
            → find_binding s.symbol f ≡ some (sequence ws)
            → sequence_of numbers scalars symbol_name f p ≡ some ws)
  unfolding sequence_wildcard sequence_of elements
  wild_lem (node (var r) ts) s h =
      let (e, w, known) = kind_lem r (wildcard_kind (symbol_name r)) s h in
      (
        (w, ap (λ t. wildcard_kind (symbol_name t)) (sym e) ∙ known),
        λ f ws found.
            ap (λ t. elements numbers scalars symbol_name f (find_binding t f)) e ∙ rw found,
      )
  wild_lem (node (num c) ts) s h = cc
  wild_lem (node add ts) s h = cc
  wild_lem (node mul ts) s h = cc
  wild_lem (node pow ts) s h = cc
  wild_lem (node (fun g) ts) s h = cc

  pub HasSequence-wild :
      (s : SequenceWildcard) (ps : Atoms N)
      → HasSequence numbers scalars symbol_name attributes functions ring meaning env s ps
      → (w : WildcardKind) × (wildcard_kind (symbol_name s.symbol) ≡ some w)
  HasSequence-wild s nil h = absurd h
  HasSequence-wild s (cons p ps) (inl (e, h)) = (wild_lem p s e).0
  HasSequence-wild s (cons p ps) (inr (e, h)) = HasSequence-wild s ps h

  abbrev values_of : MatchBindings N → Atoms N → List V
  values_of f ps = children numbers scalars symbol_name attributes functions ring meaning env f ps

  abbrev normals_of : MatchBindings N → Atoms N → List V
  normals_of f ps =
      normal_values numbers scalars symbol_name attributes functions ring meaning env f ps

  abbrev bound_of : MatchBindings N → Atom N → V
  bound_of f p = bound numbers scalars symbol_name attributes functions ring meaning env f p

  spliced_here :
      (o : Option SequenceWildcard) (s : SequenceWildcard) (q : Option (Atoms N)) (ws : Atoms N)
      (v : V) (vs us : List V)
      → o ≡ some s
      → q ≡ some ws
      → vs ≡ us
      → spliced_values numbers scalars symbol_name [] functions ring meaning env q v vs
        ≡ all_means ws
          ++ skipped numbers scalars symbol_name attributes functions ring meaning env o v us
  spliced_here none s q ws v vs us e h k = cc
  spliced_here (some r) s none ws v vs us e h k = cc
  spliced_here (some r) s (some xs) ws v vs us e h k =
      let found : xs ≡ ws = cc h in ap₂ ◌++◌ (ap all_means found) k

  spliced_later :
      (o : Option SequenceWildcard) (q : Option (Atoms N)) (ws : Atoms N) (v : V) (vs us : List V)
      → o ≡ none
      → ScalarAt numbers scalars symbol_name attributes functions ring meaning env o q
      → Permuted vs (all_means ws ++ us)
      → Permuted (spliced_values numbers scalars symbol_name [] functions ring meaning env q v vs) (
          all_means ws
          ++ skipped numbers scalars symbol_name attributes functions ring meaning env o v us)
  spliced_later (some r) q ws v vs us e h p = cc
  spliced_later none (some xs) ws v vs us e h p = cc
  spliced_later none none ws v vs us e h p = trans (skip v p) (Permuted_middle v (all_means ws) us)

  pub children_sequence :
      (f : MatchBindings N) (s : SequenceWildcard) (ws ps : Atoms N)
      → HasSequence numbers scalars symbol_name attributes functions ring meaning env s ps
      → AllScalar numbers scalars symbol_name attributes functions ring meaning env f ps
      → find_binding s.symbol f ≡ some (sequence ws)
      → Permuted (values_of f ps) (all_means ws ++ normals_of f ps)
  children_sequence f s ws nil h k found = absurd h
  children_sequence f s ws (cons p ps) (inl (e, plain)) (k, ks) found = Permuted_of_eq (
      spliced_here (wild numbers scalars symbol_name attributes functions ring meaning env p) s
        (sequence_of numbers scalars symbol_name f p) ws (bound_of f p) (values_of f ps)
        (normals_of f ps) e ((wild_lem p s e).1 f ws found)
        (children_plain numbers scalars symbol_name attributes functions ring meaning env f ps plain
          ks))
  children_sequence f s ws (cons p ps) (inr (e, later)) (k, ks) found =
      spliced_later (wild numbers scalars symbol_name attributes functions ring meaning env p)
        (sequence_of numbers scalars symbol_name f p) ws (bound_of f p) (values_of f ps)
        (normals_of f ps) e k (children_sequence f s ws ps later ks found)

  -- The wildcard is bound to what it captures, in some order.
  abbrev pub Captures : SequenceWildcard → Atoms N → MatchBindings N → Type 0
  Captures s captured f =
      (ws : Atoms N) × (find_binding s.symbol f ≡ some (sequence ws))
      × Permuted (all_means ws) (all_means captured)

  bind_known-Sound :
      (s : SequenceWildcard) (captured : Atoms N) (b b' : MatchBindings N) (w : WildcardKind)
      (o : Option (BoundValue N))
      → wildcard_kind (symbol_name s.symbol) ≡ some w
      → find_binding s.symbol b ≡ o
      → bind_known numbers symbol_name attributes s captured b o ≡ some b'
      → Sound symbol_name b b' (Captures s captured)
  unfolding bind_known
  bind_known-Sound s captured b b' w none wildcard known h =
      let e : (s.symbol, sequence captured) ∷ b ≡ b' = cc h in
      subst (λ x. Sound symbol_name b x (Captures s captured)) e
        (Sound_map symbol_name b _ _ _
          (Sound_insert symbol_name s.symbol (sequence captured) b w wildcard known)
          (λ f found. (captured, found, same)))
  bind_known-Sound s captured b b' w (some (atom t)) wildcard known h = cc
  bind_known-Sound s captured b b' w (some (sequence ws)) wildcard known h =
      elim (Bool-cases (same_multiset numbers symbol_name attributes ws captured)) [
        | inl equal ↦
            let e : b ≡ b' = let h' = rw equal at h in cc h' in
            subst (λ x. Sound symbol_name b x (Captures s captured)) e
              (Sound_refl symbol_name b _ (λ f grows only.
                (ws, grows s.symbol (sequence ws) known, same_multiset_true ws captured equal)))
        | inr apart ↦ let h' = rw apart at h in cc h'
      ]

  pub bind_sequence-Sound :
      (s : SequenceWildcard) (captured : Atoms N) (b b' : MatchBindings N) (w : WildcardKind)
      → wildcard_kind (symbol_name s.symbol) ≡ some w
      → bind_sequence numbers symbol_name attributes s captured b ≡ some b'
      → Sound symbol_name b b' (Captures s captured)
  unfolding bind_sequence
  bind_sequence-Sound s captured b b' w wildcard h =
      elim (Bool-cases (s.at_least && (count_atoms captured == 0))) [
        | inl missing ↦ let h' = rw missing at h in cc h'
        | inr enough ↦
            bind_known-Sound s captured b b' w (find_binding s.symbol b) wildcard refl
              (rw enough at h)
      ]
