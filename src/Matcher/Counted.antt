-- ===== src/Matcher/Counted.antt =====
-- match_commutative of pattern_core/matcher.cc, for any sound assignment of the normal children.
use stocas.Common.{
  ℕ, suc, ◌+◌, ◌≡◌, refl, sym, ap, ◌∙◌, true, false, List, [], ◌∷◌, ◌++◌, append-nil, length,
  length-append, Option, none, some, ◌==◌, ==_iff, leb, inl, inr, Bool-cases, arith,
}
use stocas.SymbolTable.Attributes.{SymbolAttribute}
use stocas.Algebra.{Ring}
use stocas.Polynomial.{Result, ok, err}
use stocas.Atom.{Numbers, Atoms, nil, cons}
use stocas.Atom.Builders.Views.{count_atoms}
use stocas.Derivative.{Functions}
use stocas.Derivative.Value.{Meaning}
use stocas.Matcher.{MatchBindings, Pool, Search, SequenceWildcard, max_attempts, unused, leftover}
use stocas.Matcher.Sequences.{bind_sequence}
use stocas.Matcher.Children.{finish_commutative, match_counted}
use stocas.Matcher.Permuted.{
  Permuted, same, skip, swap, trans, Permuted_of_eq, Permuted-append, Permuted_comm,
}
use stocas.Matcher.Bindings.{Sound, Sound_map, Sound_chain}
use stocas.Matcher.Search.{left_values}
use stocas.Matcher.Split.{
  means, means_all, children, split, normal_values, AllScalar, HasSequence, split_plain,
  split_sequence, length-normal_values, children_plain,
}
use stocas.Matcher.Capture.{HasSequence-wild, children_sequence, Captures, bind_sequence-Sound}

length-Permuted : {V : Type 0} {xs ys : List V} → Permuted xs ys → length xs ≡ length ys
length-Permuted same = refl
length-Permuted (skip x p) = ap suc (length-Permuted p)
length-Permuted (swap x y) = refl
length-Permuted (trans p q) = length-Permuted p ∙ length-Permuted q

empty_of_length : {V : Type 0} (xs : List V) → length xs ≡ 0 → xs ≡ []
empty_of_length [] h = refl
empty_of_length (x ∷ xs) h = absurd (omega arith)

module _ {N V : Type 0} (numbers : Numbers N) (scalars : Ring N) (symbol_name : ℕ → List ℕ)
    (attributes : ℕ → List SymbolAttribute) (functions : Functions) (ring : Ring V)
    (meaning : Meaning N V scalars ring) (env : ℕ → V) where
  abbrev all_means : Atoms N → List V
  all_means ts = means_all numbers scalars symbol_name attributes functions ring meaning env ts

  abbrev pub left : Pool N → List V
  left pool =
      left_values (means numbers scalars symbol_name attributes functions ring meaning env) pool

  abbrev pub values_of : MatchBindings N → Atoms N → List V
  values_of f ps = children numbers scalars symbol_name attributes functions ring meaning env f ps

  abbrev pub normals_of : MatchBindings N → Atoms N → List V
  normals_of f ps =
      normal_values numbers scalars symbol_name attributes functions ring meaning env f ps

  abbrev pub Scalars : MatchBindings N → Atoms N → Type 0
  Scalars f ps = AllScalar numbers scalars symbol_name attributes functions ring meaning env f ps

  -- The normal children with what is left of the pool are what the pool held.
  abbrev pub Assigned : Atoms N → Pool N → Pool N → MatchBindings N → Type 0
  Assigned ps pool rest f = Scalars f ps × Permuted (normals_of f ps ++ left rest) (left pool)

  abbrev pub AssignSound : Atoms N → (Pool N → MatchBindings N → ℕ → Search N) → Type 0
  AssignSound ps assign =
      (pool : Pool N) (b : MatchBindings N) (a : ℕ) (a' : ℕ) (b' : MatchBindings N) (rest : Pool N)
      → assign pool b a ≡ ok (a', some (b', rest))
      → Sound symbol_name b b' (Assigned ps pool rest)

  left-unused : (ts : Atoms N) → left (unused ts) ≡ all_means ts
  unfolding unused
  left-unused nil = refl
  left-unused (cons t ts) =
      ap (λ vs. means numbers scalars symbol_name attributes functions ring meaning env t ∷ vs)
        (left-unused ts)

  values-leftover : (pool : Pool N) → all_means (leftover pool) ≡ left pool
  unfolding leftover
  values-leftover [] = refl
  values-leftover ((true, t) ∷ pool) = values-leftover pool
  values-leftover ((false, t) ∷ pool) =
      ap (λ vs. means numbers scalars symbol_name attributes functions ring meaning env t ∷ vs)
        (values-leftover pool)

  count-values : (ts : Atoms N) → length (all_means ts) ≡ count_atoms ts
  count-values nil = refl
  count-values (cons t ts) = ap suc (count-values ts)

  finish_plain :
      (x : Search N) (b' : MatchBindings N)
      → finish_commutative numbers symbol_name attributes none x ≡ ok (some b')
      → (a : ℕ) × (rest : Pool N) × (x ≡ ok (a, some (b', rest)))
  unfolding finish_commutative
  finish_plain (err e) b' h = cc
  finish_plain (ok (a, none)) b' h = cc
  finish_plain (ok (a, some (b, rest))) b' h = (a, rest, cc h)

  finish_sequence :
      (s : SequenceWildcard) (x : Search N) (b' : MatchBindings N)
      → finish_commutative numbers symbol_name attributes (some s) x ≡ ok (some b')
      → (a : ℕ) × (b : MatchBindings N) × (rest : Pool N) × (x ≡ ok (a, some (b, rest)))
        × (bind_sequence numbers symbol_name attributes s (leftover rest) b ≡ some b')
  unfolding finish_commutative
  finish_sequence s (err e) b' h = cc
  finish_sequence s (ok (a, none)) b' h = cc
  finish_sequence s (ok (a, some (b, rest))) b' h = (a, b, rest, refl, cc h)

  -- Without a sequence, nothing is left where the numbers of children agree.
  all_assigned :
      (f : MatchBindings N) (ps ts : Atoms N) (rest : Pool N)
      → split numbers scalars symbol_name attributes functions ring meaning env none 0 ps
        ≡ ok (count_atoms ts, none)
      → Assigned ps (unused ts) rest f
      → Permuted (values_of f ps) (all_means ts)
  all_assigned f ps ts rest h (scalar, p) =
      let plain =
        split_plain numbers scalars symbol_name attributes functions ring meaning env ps 0
          (count_atoms ts) h in
      let count =
        length-normal_values numbers scalars symbol_name attributes functions ring meaning env f ps
          (count_atoms ts) h in
      let total = trans p (Permuted_of_eq (left-unused ts)) in
      let lengths : length (normals_of f ps) + length (left rest) ≡ count_atoms ts =
        sym (length-append (normals_of f ps) (left rest))
        ∙ length-Permuted total
        ∙ count-values ts in
      let empty = empty_of_length (left rest) (omega (arith, lengths, count)) in
      trans
        (Permuted_of_eq (
          children_plain numbers scalars symbol_name attributes functions ring meaning env f ps
            plain scalar
          ∙ sym (append-nil (normals_of f ps))
          ∙ ap (λ vs. normals_of f ps ++ vs) (sym empty)))
        total

  all_captured :
      (f : MatchBindings N) (s : SequenceWildcard) (ps ts : Atoms N) (rest : Pool N)
      → HasSequence numbers scalars symbol_name attributes functions ring meaning env s ps
      → Assigned ps (unused ts) rest f
      → Captures numbers scalars symbol_name attributes functions ring meaning env s
          (leftover rest)
          f
      → Permuted (values_of f ps) (all_means ts)
  all_captured f s ps ts rest has (scalar, p) (ws, found, q) =
      trans
        (children_sequence numbers scalars symbol_name attributes functions ring meaning env f s ws
          ps has scalar found)
        (trans (Permuted-append (normals_of f ps) q) (
          trans (Permuted_comm (all_means (leftover rest)) (normals_of f ps)) (
            trans (Permuted_of_eq (ap (λ vs. normals_of f ps ++ vs) (values-leftover rest)))
              (trans p (Permuted_of_eq (left-unused ts))))))

  module _ (ps : Atoms N) (assign : Pool N → MatchBindings N → ℕ → Search N)
      (assigns : AssignSound ps assign) (ts : Atoms N) (b b' : MatchBindings N) where
    counted :
        (r : Result (ℕ × Option SequenceWildcard))
        → split numbers scalars symbol_name attributes functions ring meaning env none 0 ps ≡ r
        → match_counted numbers symbol_name attributes assign r ts b ≡ ok (some b')
        → Sound symbol_name b b' (λ f. Permuted (values_of f ps) (all_means ts))
    unfolding match_counted
    counted (err e) known h = cc
    counted (ok (n, none)) known h = elim (Bool-cases (n == count_atoms ts)) [
      | inl equal ↦
          let (a, rest, found) = finish_plain _ b' (rw equal at h) in
          let count = (==_iff n (count_atoms ts)).0 equal in
          Sound_map symbol_name b b' _ _ (assigns (unused ts) b max_attempts a b' rest found)
            (λ f p. all_assigned f ps ts rest (known ∙ ap (λ m. ok (m, none)) count) p)
      | inr apart ↦ let h' = rw apart at h in cc h'
    ]
    counted (ok (n, some s)) known h = elim (Bool-cases (leb n (count_atoms ts))) [
      | inl enough ↦
          let (a, c, rest, found, bound_to) = finish_sequence s _ b' (rw enough at h) in
          let has =
            split_sequence numbers scalars symbol_name attributes functions ring meaning env ps 0 n
              s known in
          let (w, wildcard) =
            HasSequence-wild numbers scalars symbol_name attributes functions ring meaning env s ps
              has in
          Sound_map symbol_name b b' _ _
            (Sound_chain symbol_name b c b' _ _ (assigns (unused ts) b max_attempts a c rest found)
              (bind_sequence-Sound numbers scalars symbol_name attributes functions ring meaning env
                s (leftover rest) c b' w wildcard bound_to))
            (λ f
                (p : Assigned ps (unused ts) rest f
                  × Captures numbers scalars symbol_name attributes functions ring meaning env s
                      (leftover rest) f).
              all_captured f s ps ts rest has p.0 p.1)
      | inr short ↦ let h' = rw short at h in cc h'
    ]

    pub match_counted-Sound :
        match_counted numbers symbol_name attributes assign
            (split numbers scalars symbol_name attributes functions ring meaning env none 0 ps)
            ts
            b
          ≡ ok (some b')
        → Sound symbol_name b b' (λ f. Permuted (values_of f ps) (all_means ts))
    match_counted-Sound h = counted _ refl h
