-- ===== src/Matcher/Sound.antt =====
-- pattern_core/matcher.cc is sound: under the bindings found, the pattern has the value of the target.
use stocas.Common.{
  ℕ, ◌≡◌, refl, sym, ap, ap₂, ◌∙◌, List, [], ◌∷◌, ◌++◌, Option, none, some, subst, arith,
}
use stocas.SymbolTable.Attributes.{SymbolAttribute}
use stocas.Algebra.{Ring}
use stocas.Polynomial.{Result, ok, err}
use stocas.Atom.{Numbers, Atom, node, Atoms, nil, cons}
use stocas.Atom.Builders.Views.{count_atoms}
use stocas.Derivative.{Functions}
use stocas.Derivative.Value.{Meaning, value}
use stocas.Rewrite.{find_binding}
use stocas.Rewrite.Value.{bound_value, each_value, spliced_values}
use stocas.Matcher.{MatchBindings, Pool, Search, SequenceWildcard, and_then}
use stocas.Matcher.Impl.{assign_child, match_impl, assign_normals, match_in_order, match_each}
use stocas.Matcher.Children.{match_child}
use stocas.Matcher.Permuted.{Permuted, skip, trans, Permuted_of_eq}
use stocas.Matcher.Bindings.{Sound, Sound_refl, Sound_map, Sound_chain}
use stocas.Matcher.Search.{try_each_lem}
use stocas.Matcher.Split.{
  means, means_all, bound, children, wild, skipped, normal_values, ScalarAt, captured_by,
}
use stocas.Matcher.Counted.{AssignSound, Assigned, Scalars, left}
use stocas.Matcher.Nodes.{
  Fits, RespectsSymmetric, NoneIn, PlainKind, OrderSound, EachSound, match_node-Sound,
}

module _ {N V : Type 0} (numbers : Numbers N) (scalars : Ring N) (symbol_name : ℕ → List ℕ)
    (attributes : ℕ → List SymbolAttribute) (functions : Functions) (ring : Ring V)
    (meaning : Meaning N V scalars ring) (env : ℕ → V) where
  -- Calls of functions that are not symmetric have no sequence wildcard among their arguments.
  abbrev mutual
    pub PlainCalls : Atom N → Type 0
    PlainCalls (node k ps) =
        PlainKind numbers scalars symbol_name attributes functions ring meaning env k ps
        × AllPlain ps

    pub AllPlain : Atoms N → Type 0
    AllPlain nil = Unit
    AllPlain (cons p ps) = PlainCalls p × AllPlain ps

  abbrev FitsAt : Atom N → Atom N → MatchBindings N → Type 0
  FitsAt p t f = Fits numbers scalars symbol_name attributes functions ring meaning env p t f

  abbrev ProbeSound :
      Atom N → (Atom N → MatchBindings N → Result (Option (MatchBindings N))) → Type 0
  ProbeSound p probe =
      (t : Atom N) (b : MatchBindings N) (b' : MatchBindings N)
      → probe t b ≡ ok (some b')
      → Sound symbol_name b b' (FitsAt p t)

  abbrev Assigns : Atoms N → (Pool N → MatchBindings N → ℕ → Search N) → Type 0
  Assigns ps assign =
      AssignSound numbers scalars symbol_name attributes functions ring meaning env ps assign

  abbrev Orders : Atoms N → (Atoms N → MatchBindings N → Result (Option (MatchBindings N))) → Type 0
  Orders ps rest =
      OrderSound numbers scalars symbol_name attributes functions ring meaning env ps rest

  abbrev EachFits :
      Atoms N → (Atoms N → MatchBindings N → Result (Option (MatchBindings N))) → Type 0
  EachFits ps rest =
      EachSound numbers scalars symbol_name attributes functions ring meaning env ps rest

  abbrev value_of : Atom N → V
  value_of t = means numbers scalars symbol_name attributes functions ring meaning env t

  abbrev all_means : Atoms N → List V
  all_means ts = means_all numbers scalars symbol_name attributes functions ring meaning env ts

  abbrev values_of : MatchBindings N → Atoms N → List V
  values_of f ps = children numbers scalars symbol_name attributes functions ring meaning env f ps

  abbrev each_of : MatchBindings N → Atoms N → List V
  each_of f ps = each_value numbers scalars symbol_name f functions ring meaning env ps

  abbrev left_of : Pool N → List V
  left_of pool = left numbers scalars symbol_name attributes functions ring meaning env pool

  abbrev wild_of : Atom N → Option SequenceWildcard
  wild_of p = wild numbers scalars symbol_name attributes functions ring meaning env p

  and_then_ok :
      (first : Result (Option (MatchBindings N)))
      (rest : MatchBindings N → Result (Option (MatchBindings N))) (b' : MatchBindings N)
      → and_then first rest ≡ ok (some b')
      → (c : MatchBindings N) × (first ≡ ok (some c)) × (rest c ≡ ok (some b'))
  and_then_ok (err e) rest b' h = cc
  and_then_ok (ok none) rest b' h = cc
  and_then_ok (ok (some c)) rest b' h = (c, refl, h)

  -- The outcome for a child, where `o` is the child's sequence wildcard, and for the others.
  abbrev AssignedTo :
      Atom N → Atoms N → Option SequenceWildcard → Pool N → Pool N → MatchBindings N → Type 0
  AssignedTo p ps o pool rest f =
      (ScalarAt numbers scalars symbol_name attributes functions ring meaning env o
          (captured_by numbers scalars symbol_name attributes functions ring meaning env f p)
        × Scalars numbers scalars symbol_name attributes functions ring meaning env f ps)
      × Permuted
          (skipped numbers scalars symbol_name attributes functions ring meaning env o
              (bound numbers scalars symbol_name attributes functions ring meaning env f p)
              (normal_values numbers scalars symbol_name attributes functions ring meaning env f ps)
            ++ left_of rest)
          (left_of pool)

  taken :
      (p : Atom N) (ps : Atoms N) (t : Atom N) (pool taken_from rest : Pool N) (f : MatchBindings N)
      → Permuted (value_of t ∷ left_of taken_from) (left_of pool)
      → FitsAt p t f
        × Assigned numbers scalars symbol_name attributes functions ring meaning env ps taken_from
            rest f
      → AssignedTo p ps none pool rest f
  taken p ps t pool taken_from rest f marks ((scalar, same_value), (scalars_too, p_rest)) = (
    (scalar, scalars_too),
    trans
        (Permuted_of_eq (
          ap
            (λ v.
              v
              ∷ (normal_values numbers scalars symbol_name attributes functions ring meaning env f
                    ps
                  ++ left_of rest))
            same_value))
        (trans (skip (value_of t) p_rest) marks),
  )

  assign_child-Sound :
      (p : Atom N) (ps : Atoms N) (o : Option SequenceWildcard)
      (probe : Atom N → MatchBindings N → Result (Option (MatchBindings N)))
      (others : Pool N → MatchBindings N → ℕ → Search N)
      → ProbeSound p probe
      → Assigns ps others
      → (pool : Pool N) (b : MatchBindings N) (a a' : ℕ) (b' : MatchBindings N) (rest : Pool N)
      → assign_child numbers symbol_name attributes o probe others pool b a
        ≡ ok (a', some (b', rest))
      → Sound symbol_name b b' (AssignedTo p ps o pool rest)
  unfolding assign_child
  assign_child-Sound p ps (some s) probe others probes assigns pool b a a' b' rest h =
      Sound_map symbol_name b b' _ _ (assigns pool b a a' b' rest h)
        (λ f
            (q : Assigned numbers scalars symbol_name attributes functions ring meaning env ps pool
              rest f).
          ((tt, q.0), q.1))
  assign_child-Sound p ps none probe others probes assigns pool b a a' b' rest h =
      let (t, c, taken_from, remaining, probed, found, marks) =
        try_each_lem value_of probe others b a' (b', rest) pool a h in
      Sound_map symbol_name b b' _ _
        (Sound_chain symbol_name b c b' _ _ (probes t b c probed)
          (assigns taken_from c remaining a' b' rest found))
        (λ f q. taken p ps t pool taken_from rest f marks q)

  in_order_child-Sound :
      (p : Atom N) (ps : Atoms N) (o : Option SequenceWildcard)
      (probe : Atom N → MatchBindings N → Result (Option (MatchBindings N)))
      (others : Atoms N → MatchBindings N → Result (Option (MatchBindings N)))
      → o ≡ none
      → ProbeSound p probe
      → Orders ps others
      → (n : ℕ) (ts : Atoms N) (b b' : MatchBindings N)
      → NoneIn numbers scalars symbol_name attributes functions ring meaning env ps
      → match_child numbers symbol_name attributes o probe others n ts b ≡ ok (some b')
      → Sound symbol_name b b' (λ f. values_of f (cons p ps) ≡ all_means ts)
  unfolding match_child
  in_order_child-Sound p ps (some s) probe others e probes orders n ts b b' plain h = cc
  in_order_child-Sound p ps none probe others e probes orders n nil b b' plain h = cc
  in_order_child-Sound p ps none probe others e probes orders n (cons t ts) b b' plain h =
      let (c, first, rest) = and_then_ok (probe t b) (others ts) b' h in
      Sound_map symbol_name b b' _ _
        (Sound_chain symbol_name b c b' _ _ (probes t b c first) (orders ts c b' plain rest))
        (λ f (q : FitsAt p t f × (values_of f ps ≡ all_means ts)).
          ap₂
            (λ o' v.
              spliced_values numbers scalars symbol_name f functions ring meaning env o' v
                (values_of f ps))
            q.0.0 q.0.1
          ∙ ap (λ vs. value_of t ∷ vs) q.1)

  mutual
    unfolding match_impl assign_normals match_in_order match_each

    impl-Sound :
        (p : Atom N)
        → RespectsSymmetric numbers scalars symbol_name attributes functions ring meaning env
        → PlainCalls p
        → ProbeSound p (match_impl numbers symbol_name attributes p)
    impl-Sound (node k ps) respects (plain, all) (node l ts) b b' h =
        match_node-Sound numbers scalars symbol_name attributes functions ring meaning env respects
          ps (assign_normals numbers symbol_name attributes ps)
          (match_in_order numbers symbol_name attributes ps)
          (match_each numbers symbol_name attributes ps) (normals-Sound ps respects all)
          (order-Sound ps respects all) (each-Sound ps respects all) ts b b' k l plain h

    normals-Sound :
        (ps : Atoms N)
        → RespectsSymmetric numbers scalars symbol_name attributes functions ring meaning env
        → AllPlain ps
        → Assigns ps (assign_normals numbers symbol_name attributes ps)
    normals-Sound nil respects all pool b a a' b' rest h =
        let e : b ≡ b' = cc h in
        let left_same : pool ≡ rest = cc h in
        subst
          (λ x. Sound symbol_name b x (
            Assigned numbers scalars symbol_name attributes functions ring meaning env nil pool
              rest))
          e
          (Sound_refl symbol_name b
            (Assigned numbers scalars symbol_name attributes functions ring meaning env nil pool
              rest)
            (λ f grows only. (tt, Permuted_of_eq (ap left_of (sym left_same)))))
    normals-Sound (cons p ps) respects (plain, all) pool b a a' b' rest h =
        assign_child-Sound p ps (wild_of p) (match_impl numbers symbol_name attributes p)
          (assign_normals numbers symbol_name attributes ps) (impl-Sound p respects plain)
          (normals-Sound ps respects all) pool b a a' b' rest h

    order-Sound :
        (ps : Atoms N)
        → RespectsSymmetric numbers scalars symbol_name attributes functions ring meaning env
        → AllPlain ps
        → Orders ps (match_in_order numbers symbol_name attributes ps)
    order-Sound nil respects all nil b b' none_in h =
        let e : b ≡ b' = cc h in
        subst (λ x. Sound symbol_name b x (λ f. values_of f nil ≡ all_means nil)) e
          (Sound_refl symbol_name b (λ f. values_of f nil ≡ all_means nil) (λ f grows only. refl))
    order-Sound nil respects all (cons t ts) b b' none_in h = cc
    order-Sound (cons p ps) respects (plain, all) ts b b' (tame, none_in) h =
        in_order_child-Sound p ps (wild_of p) (match_impl numbers symbol_name attributes p)
          (match_in_order numbers symbol_name attributes ps) tame (impl-Sound p respects plain)
          (order-Sound ps respects all) (count_atoms ps) ts b b' none_in h

    each-Sound :
        (ps : Atoms N)
        → RespectsSymmetric numbers scalars symbol_name attributes functions ring meaning env
        → AllPlain ps
        → EachFits ps (match_each numbers symbol_name attributes ps)
    each-Sound nil respects all nil b b' count h =
        let e : b ≡ b' = cc h in
        subst (λ x. Sound symbol_name b x (λ f. each_of f nil ≡ all_means nil)) e
          (Sound_refl symbol_name b (λ f. each_of f nil ≡ all_means nil) (λ f grows only. refl))
    each-Sound nil respects all (cons t ts) b b' count h = absurd (omega arith)
    each-Sound (cons p ps) respects all nil b b' count h = absurd (omega arith)
    each-Sound (cons p ps) respects (plain, all) (cons t ts) b b' count h =
        let (c, first, rest) =
          and_then_ok (match_impl numbers symbol_name attributes p t b)
            (match_each numbers symbol_name attributes ps ts) b' h in
        Sound_map symbol_name b b' _ _
          (Sound_chain symbol_name b c b' _ _ (impl-Sound p respects plain t b c first)
            (each-Sound ps respects all ts c b' (omega arith) rest))
          (λ f
              (q : FitsAt p t f
                × (each_value numbers scalars symbol_name f functions ring meaning env ps
                    ≡ all_means ts)).
            ap₂ (λ v vs. v ∷ vs) q.0.1 q.1)

  -- Where functions with the attribute Symmetric do not depend on the order of their arguments,
  -- and the pattern has no sequence wildcard among the arguments of a function without it: if
  -- match_impl, started without bindings, finds bindings, then the value of the pattern, each
  -- wildcard taken for what it is bound to, is the value of the target.
  pub match_impl-bound_value :
      (p t : Atom N) (b : MatchBindings N)
      → RespectsSymmetric numbers scalars symbol_name attributes functions ring meaning env
      → PlainCalls p
      → match_impl numbers symbol_name attributes p t [] ≡ ok (some b)
      → bound_value numbers scalars symbol_name b functions ring meaning env p
        ≡ value numbers scalars functions ring meaning env t
  unfolding find_binding
  match_impl-bound_value p t b respects plain h =
      let (grows, only, fits) = impl-Sound p respects plain t [] b h in
      (fits b (λ s v e. e) (only (λ s tame. refl))).1
