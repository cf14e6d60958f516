-- ===== src/Matcher/Nodes.antt =====
-- match_impl of pattern_core/matcher.cc at one node: what its cases say of bindings, where the ways to
-- match the children are sound.
use stocas.Common.{
  ℕ, ◌≡◌, ◌⊎◌, refl, sym, ap, subst, ◌∙◌, true, List, ◌∷◌, Option, none, some, ◌==◌, ==_iff, inl,
  inr, Bool-cases,
}
use stocas.SymbolTable.Attributes.{SymbolAttribute}
use stocas.Algebra.{Ring}
use stocas.Polynomial.{Result, ok, err}
use stocas.Atom.{Numbers, Kind, num, var, add, mul, pow, fun, Atom, node, Atoms, nil, cons}
use stocas.Atom.Builders.Views.{count_atoms}
use stocas.Derivative.{Functions}
use stocas.Atom.Builders.Folds.{fold}
use stocas.Derivative.Value.{Meaning, value_kind}
use stocas.Rewrite.{
  WildcardKind, single, at_least_one, any_count, wildcard_kind, BoundValue, atom, sequence,
  find_binding, elements, sequence_of,
}
use stocas.Rewrite.Value.{binding_value, each_value}
use stocas.Matcher.{MatchBindings, Pool, Search, SequenceWildcard, is_symmetric}
use stocas.Matcher.Sequences.{equal_atoms}
use stocas.Matcher.Children.{match_positional}
use stocas.Matcher.Impl.{match_known, match_symbol, match_variable, match_node}
use stocas.Matcher.Permuted.{Permuted, same, skip, swap, trans}
use stocas.Matcher.Bindings.{Sound, Sound_refl, Sound_map, Sound_insert}
use stocas.Matcher.Split.{
  means, means_all, bound, children, split, NoSequences, HasSequence, split_sequence,
}
use stocas.Matcher.Equality.{equal_atoms-true}
use stocas.Matcher.Counted.{AssignSound, match_counted-Sound}

fold-Permuted :
    {V : Type 0} (op : V → V → V) (unit : V) (comm : (a b : V) → op a b ≡ op b a)
    (assoc : (a b c : V) → op (op a b) c ≡ op a (op b c)) {vs ws : List V}
    → Permuted vs ws
    → fold op unit vs ≡ fold op unit ws
fold-Permuted op unit comm assoc same = refl
fold-Permuted op unit comm assoc (skip x p) = ap (op x) (fold-Permuted op unit comm assoc p)
fold-Permuted op unit comm assoc (swap {xs} x y) =
    sym (assoc x y (fold op unit xs))
    ∙ ap (λ t. op t (fold op unit xs)) (comm x y)
    ∙ assoc y x (fold op unit xs)
fold-Permuted op unit comm assoc (trans p q) =
    fold-Permuted op unit comm assoc p ∙ fold-Permuted op unit comm assoc q

module _ {N V : Type 0} (numbers : Numbers N) (scalars : Ring N) (symbol_name : ℕ → List ℕ)
    (attributes : ℕ → List SymbolAttribute) (functions : Functions) (ring : Ring V)
    (meaning : Meaning N V scalars ring) (env : ℕ → V) where
  abbrev value_of : Atom N → V
  value_of t = means numbers scalars symbol_name attributes functions ring meaning env t

  abbrev all_means : Atoms N → List V
  all_means ts = means_all numbers scalars symbol_name attributes functions ring meaning env ts

  abbrev values_of : MatchBindings N → Atoms N → List V
  values_of f ps = children numbers scalars symbol_name attributes functions ring meaning env f ps

  -- The pattern is no sequence, and has the value of the target.
  abbrev pub Fits : Atom N → Atom N → MatchBindings N → Type 0
  Fits p t f =
      (sequence_of numbers scalars symbol_name f p ≡ none)
      × (bound numbers scalars symbol_name attributes functions ring meaning env f p ≡ value_of t)

  -- Functions with the attribute `Symmetric` do not depend on the order of their arguments.
  abbrev pub RespectsSymmetric : Type 0
  RespectsSymmetric =
      (h : ℕ) (vs ws : List V)
      → is_symmetric (attributes h) ≡ true
      → Permuted vs ws
      → meaning.apply h vs ≡ meaning.apply h ws

  abbrev pub NoneIn : Atoms N → Type 0
  NoneIn ps = NoSequences numbers scalars symbol_name attributes functions ring meaning env ps

  -- A call of a function that is not symmetric has no sequence among its arguments.
  abbrev pub PlainKind : Kind N → Atoms N → Type 0
  PlainKind (fun h) ps = (is_symmetric (attributes h) ≡ true) ⊎ NoneIn ps
  PlainKind k ps = Unit

  abbrev pub OrderSound :
      Atoms N → (Atoms N → MatchBindings N → Result (Option (MatchBindings N))) → Type 0
  OrderSound ps rest =
      (ts : Atoms N) (b : MatchBindings N) (b' : MatchBindings N)
      → NoneIn ps
      → rest ts b ≡ ok (some b')
      → Sound symbol_name b b' (λ f. values_of f ps ≡ all_means ts)

  abbrev pub EachSound :
      Atoms N → (Atoms N → MatchBindings N → Result (Option (MatchBindings N))) → Type 0
  EachSound ps rest =
      (ts : Atoms N) (b : MatchBindings N) (b' : MatchBindings N)
      → count_atoms ps ≡ count_atoms ts
      → rest ts b ≡ ok (some b')
      → Sound symbol_name b b' (λ f.
        each_value numbers scalars symbol_name f functions ring meaning env ps ≡ all_means ts)

  known-Sound :
      (s : ℕ) (ps : Atoms N) (t : Atom N) (b b' : MatchBindings N) (o : Option (BoundValue N))
      → wildcard_kind (symbol_name s) ≡ some single
      → find_binding s b ≡ o
      → match_known numbers symbol_name attributes s t b o ≡ some b'
      → Sound symbol_name b b' (λ f. find_binding s f ≡ some (atom t))
  unfolding match_known
  known-Sound s ps t b b' none wildcard known h =
      let e : (s, atom t) ∷ b ≡ b' = cc h in
      subst (λ x. Sound symbol_name b x (λ f. find_binding s f ≡ some (atom t))) e
        (Sound_insert symbol_name s (atom t) b single wildcard known)
  known-Sound s ps t b b' (some (atom u)) wildcard known h =
      elim (Bool-cases (equal_atoms numbers symbol_name attributes u t)) [
        | inl equal ↦
            let e : b ≡ b' = (let h' = rw equal at h in cc h') in
            let found =
              known
              ∙ ap (λ x. some (atom x))
                  (equal_atoms-true numbers symbol_name attributes u t equal) in
            subst (λ x. Sound symbol_name b x (λ f. find_binding s f ≡ some (atom t))) e
              (Sound_refl symbol_name b _ (λ f grows only. grows s (atom t) found))
        | inr apart ↦ let h' = rw apart at h in cc h'
      ]
  known-Sound s ps t b b' (some (sequence us)) wildcard known h = cc

  symbol_inv :
      (s : ℕ) (t : Atom N) (b b' : MatchBindings N)
      → match_symbol numbers symbol_name attributes s t b ≡ some b'
      → (b ≡ b') × (env s ≡ value_of t)
  unfolding match_symbol
  symbol_inv s (node (var r) ts) b b' h = elim (Bool-cases (s == r)) [
    | inl equal ↦ let h' = rw equal at h in (cc h', ap env ((==_iff s r).0 equal))
    | inr apart ↦ let h' = rw apart at h in cc h'
  ]
  symbol_inv s (node (num c) ts) b b' h = cc
  symbol_inv s (node add ts) b b' h = cc
  symbol_inv s (node mul ts) b b' h = cc
  symbol_inv s (node pow ts) b b' h = cc
  symbol_inv s (node (fun g) ts) b b' h = cc

  variable-Sound :
      (s : ℕ) (ps : Atoms N) (t : Atom N) (b b' : MatchBindings N) (k : Option WildcardKind)
      → wildcard_kind (symbol_name s) ≡ k
      → match_variable numbers symbol_name attributes s k t b ≡ ok (some b')
      → Sound symbol_name b b' (Fits (node (var s) ps) t)
  unfolding match_variable sequence_of elements
  variable-Sound s ps t b b' none tame h =
      let (e, value_same) = symbol_inv s t b b' (cc h) in
      subst (λ x. Sound symbol_name b x (Fits (node (var s) ps) t)) e
        (Sound_refl symbol_name b _ (λ f grows only.
          let free = only s tame in
          (
            ap (elements numbers scalars symbol_name f) free,
            ap (binding_value numbers scalars symbol_name f functions ring meaning env s) free
                ∙ value_same,
          )))
  variable-Sound s ps t b b' (some single) wildcard h =
      Sound_map symbol_name b b' _ _
        (known-Sound s ps t b b' (find_binding s b) wildcard refl (cc h))
        (λ f found. (
          ap (elements numbers scalars symbol_name f) found,
          ap (binding_value numbers scalars symbol_name f functions ring meaning env s) found,
        ))
  variable-Sound s ps t b b' (some at_least_one) wildcard h = cc
  variable-Sound s ps t b b' (some any_count) wildcard h = cc

  module _ (respects : RespectsSymmetric) (ps : Atoms N)
      (assign : Pool N → MatchBindings N → ℕ → Search N)
      (in_order each : Atoms N → MatchBindings N → Result (Option (MatchBindings N)))
      (assigns : AssignSound numbers scalars symbol_name attributes functions ring meaning env ps
        assign)
      (orders : OrderSound ps in_order) (fits : EachSound ps each) (ts : Atoms N)
      (b b' : MatchBindings N) where
    positional-Sound :
        (r : Result (ℕ × Option SequenceWildcard))
        → split numbers scalars symbol_name attributes functions ring meaning env none 0 ps ≡ r
        → NoneIn ps
        → match_positional numbers symbol_name attributes in_order r ts b ≡ ok (some b')
        → Sound symbol_name b b' (λ f. values_of f ps ≡ all_means ts)
    unfolding match_positional
    positional-Sound (err e) known plain h = cc
    positional-Sound (ok (n, none)) known plain h = elim (Bool-cases (n == count_atoms ts)) [
      | inl equal ↦ orders ts b b' plain (rw equal at h)
      | inr apart ↦ let h' = rw apart at h in cc h'
    ]
    positional-Sound (ok (n, some s)) known plain h = absurd (
        no_sequence ps plain (
          split_sequence numbers scalars symbol_name attributes functions ring meaning env ps 0 n s
            known))
      where
        no_sequence :
            (qs : Atoms N)
            → NoneIn qs
            → HasSequence numbers scalars symbol_name attributes functions ring meaning env s qs
            → ⊥
        no_sequence nil p q = q
        no_sequence (cons q qs) (p, all) (inl (e, rest)) = cc (p, e)
        no_sequence (cons q qs) (p, all) (inr (e, later)) = no_sequence qs all later

    kind_of :
        (k : Kind N) {vs ws : List V}
        → vs ≡ ws
        → value_kind numbers scalars functions ring meaning env k vs
          ≡ value_kind numbers scalars functions ring meaning env k ws
    kind_of k e = ap (value_kind numbers scalars functions ring meaning env k) e

    pub match_node-Sound :
        (k l : Kind N)
        → PlainKind k ps
        → match_node numbers symbol_name attributes k ps assign in_order each (node l ts) b
          ≡ ok (some b')
        → Sound symbol_name b b' (Fits (node k ps) (node l ts))
    unfolding match_node sequence_of
    match_node-Sound (var s) l plain h =
        variable-Sound s ps (node l ts) b b' (wildcard_kind (symbol_name s)) refl h
    match_node-Sound (num c) (num d) plain h = elim (Bool-cases (numbers.equal_numbers c d)) [
      | inl equal ↦
          let e : b ≡ b' = (let h' = rw equal at h in cc h') in
          subst (λ x. Sound symbol_name b x (Fits (node (num c) ps) (node (num d) ts))) e
            (Sound_refl symbol_name b _
              (λ f grows only. (refl, ap meaning.constant ((numbers.equal_iff c d).0 equal))))
      | inr apart ↦ let h' = rw apart at h in cc h'
    ]
    match_node-Sound add add plain h =
        Sound_map symbol_name b b' _ _
          (match_counted-Sound numbers scalars symbol_name attributes functions ring meaning env ps
            assign assigns ts b b' h)
          (λ f p. (refl, fold-Permuted ring.add ring.zero ring.add_comm ring.add_assoc p))
    match_node-Sound mul mul plain h =
        Sound_map symbol_name b b' _ _
          (match_counted-Sound numbers scalars symbol_name attributes functions ring meaning env ps
            assign assigns ts b b' h)
          (λ f p. (refl, fold-Permuted ring.mul ring.one ring.mul_comm ring.mul_assoc p))
    match_node-Sound pow pow plain h = elim (Bool-cases (count_atoms ps == 2)) [
      | inl two ↦ elim (Bool-cases (count_atoms ts == 2)) [
        | inl two' ↦
            Sound_map symbol_name b b' _ _
              (fits ts b b'
                ((==_iff (count_atoms ps) 2).0 two ∙ sym ((==_iff (count_atoms ts) 2).0 two'))
                (rw (two, two') at h))
              (λ f e. (refl, kind_of pow e))
        | inr other ↦ let h' = rw (two, other) at h in cc h'
      ]
      | inr other ↦ let h' = rw other at h in cc h'
    ]
    match_node-Sound (fun g) (fun i) plain h = elim (Bool-cases (g == i)) [
      | inr apart ↦ let h' = rw apart at h in cc h'
      | inl equal ↦
          let e = (==_iff g i).0 equal in
          let heads = λ (ws : List V). ap (λ j. meaning.apply j ws) e in
          elim (Bool-cases (is_symmetric (attributes g))) [
            | inl symmetric ↦
                Sound_map symbol_name b b' _ _
                  (match_counted-Sound numbers scalars symbol_name attributes functions ring meaning
                    env ps assign assigns ts b b' (rw (equal, symmetric) at h))
                  (λ f p. (
                    refl,
                    respects g (values_of f ps) (all_means ts) symmetric p ∙ heads (all_means ts),
                  ))
            | inr ordered ↦ elim plain [
              | inl symmetric ↦ cc (ordered, symmetric)
              | inr all ↦
                  Sound_map symbol_name b b' _ _
                    (positional-Sound _ refl all (rw (equal, ordered) at h))
                    (λ f p. (refl, kind_of (fun g) p ∙ heads (all_means ts)))
            ]
          ]
    ]
    match_node-Sound k l plain h = cc
