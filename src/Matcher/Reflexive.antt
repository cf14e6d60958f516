-- ===== src/Matcher/Reflexive.antt =====
-- pattern_core/matcher.cc finds a match: a pattern without wildcards matches itself.
use stocas.Common.{
  ℕ, zero, suc, ◌+◌, ◌-◌, ◌≤◌, ◌≡◌, refl, sym, ap, ◌∙◌, true, false, List, [], ◌∷◌, ◌++◌,
  append_assoc, append-nil, Option, none, some, ==_iff, inl, inr, Bool-cases, arith,
}
use stocas.SymbolTable.Attributes.{SymbolAttribute}
use stocas.Polynomial.{Result, ok}
use stocas.Atom.{Numbers, Kind, num, var, add, mul, pow, fun, Atom, node, Atoms, nil, cons}
use stocas.Atom.Builders.Views.{count_atoms}
use stocas.Rewrite.{wildcard_kind}
use stocas.Matcher.{
  MatchBindings, Pool, Search, max_attempts, is_symmetric, unused, after_probe, or_else, try_each,
  and_then,
}
use stocas.Matcher.Sequences.{
  sequence_kind, sequence_wildcard, split_child, split_sequence_wildcard,
}
use stocas.Matcher.Children.{finish_commutative, match_counted, match_child, match_positional}
use stocas.Matcher.Impl.{
  match_symbol, match_variable, match_node, assign_child, match_impl, assign_normals,
  match_in_order, match_each,
}

-- A pool of used elements.
abbrev used : {N : Type 0} → List (Atom N) → Pool N
used [] = []
used (t ∷ ts) = (true, t) ∷ used ts

used-append :
    {N : Type 0} (ts : List (Atom N)) (t : Atom N) (pool : Pool N)
    → used (ts ++ t ∷ []) ++ pool ≡ used ts ++ (true, t) ∷ pool
used-append [] t pool = refl
used-append (u ∷ ts) t pool = ap (λ xs. (true, u) ∷ xs) (used-append ts t pool)

try_each-used :
    {N : Type 0} (probe : Atom N → MatchBindings N → Result (Option (MatchBindings N)))
    (others : Pool N → MatchBindings N → ℕ → Search N) (b : MatchBindings N) (before : Pool N)
    (ts : List (Atom N)) (pool : Pool N) (n : ℕ)
    → try_each probe others b before (used ts ++ pool) n
      ≡ try_each probe others b (before ++ used ts) pool n
unfolding try_each
try_each-used probe others b before [] pool n =
    ap (λ xs. try_each probe others b xs pool n) (sym (append-nil before))
try_each-used probe others b before (t ∷ ts) pool n =
    try_each-used probe others b (before ++ (true, t) ∷ []) ts pool n
    ∙ ap (λ xs. try_each probe others b xs pool n) (append_assoc before ((true, t) ∷ []) (used ts))

module _ {N : Type 0} (numbers : Numbers N) (symbol_name : ℕ → List ℕ)
    (attributes : ℕ → List SymbolAttribute) where
  abbrev pub GroundKind : Kind N → Atoms N → Type 0
  GroundKind (num c) ps = Unit
  GroundKind (var s) ps = wildcard_kind (symbol_name s) ≡ none
  GroundKind pow ps = count_atoms ps ≡ 2
  GroundKind k ps = count_atoms ps ≤ max_attempts

  -- No wildcards, two children of each power, and no more children than attempts.
  abbrev mutual
    pub IsGround : Atom N → Type 0
    IsGround (node k ps) = GroundKind k ps × AllGround ps

    pub AllGround : Atoms N → Type 0
    AllGround nil = Unit
    AllGround (cons p ps) = IsGround p × AllGround ps

  wild_ground :
      (p : Atom N) → IsGround p → sequence_wildcard numbers symbol_name attributes p ≡ none
  unfolding sequence_wildcard sequence_kind
  wild_ground (node (var s) ps) (tame, all) =
      ap (sequence_kind numbers symbol_name attributes s) tame
  wild_ground (node (num c) ps) h = refl
  wild_ground (node add ps) h = refl
  wild_ground (node mul ps) h = refl
  wild_ground (node pow ps) h = refl
  wild_ground (node (fun f) ps) h = refl

  split_ground :
      (ps : Atoms N) (n : ℕ)
      → AllGround ps
      → split_sequence_wildcard numbers symbol_name attributes none n ps
        ≡ ok (n + count_atoms ps, none)
  unfolding split_sequence_wildcard split_child
  split_ground nil n h = ap (λ m. ok (m, none)) (omega arith)
  split_ground (cons p ps) n (h, hs) =
      let counted : suc n + count_atoms ps ≡ n + suc (count_atoms ps) = omega arith in
      ap
        (λ o.
          split_child numbers symbol_name attributes o none n
            (λ f m. split_sequence_wildcard numbers symbol_name attributes f m ps))
        (wild_ground p h)
      ∙ split_ground ps (suc n) hs
      ∙ ap (λ m. ok (m, none)) counted

  abbrev Matches : Atom N → Type 0
  Matches p = (b : MatchBindings N) → match_impl numbers symbol_name attributes p p b ≡ ok (some b)

  -- With an attempt for each child, each takes the first element that is not used.
  abbrev Assigns : Atoms N → Type 0
  Assigns ps =
      (taken : List (Atom N)) (b : MatchBindings N) (a n : ℕ)
      → n ≡ count_atoms ps + a
      → (rest : Pool N) × (assign_normals numbers symbol_name attributes ps
            (used taken ++ unused ps) b n
          ≡ ok (a, some (b, rest)))

  Assigns-cons :
      (p : Atom N) (ps : Atoms N) → IsGround p → Matches p → Assigns ps → Assigns (cons p ps)
  unfolding assign_normals assign_child unused try_each after_probe or_else
  Assigns-cons p ps ground_p first others taken b a zero e = absurd (omega (arith, e))
  Assigns-cons p ps ground_p first others taken b a (suc n) e =
      let (rest, found) = others (taken ++ p ∷ []) b a n (omega (arith, e)) in
      let probe = match_impl numbers symbol_name attributes p in
      let remaining = assign_normals numbers symbol_name attributes ps in
      let found' =
        ap (λ pool. remaining pool b n) (sym (used-append taken p (unused ps))) ∙ found in
      (
        rest,
        ap
              (λ o.
                assign_child numbers symbol_name attributes o probe remaining
                  (used taken ++ (false, p) ∷ unused ps) b (suc n))
              (wild_ground p ground_p)
            ∙ try_each-used probe remaining b [] taken ((false, p) ∷ unused ps) (suc n)
            ∙ ap
                (λ m.
                  after_probe m (λ c. remaining (used taken ++ (true, p) ∷ unused ps) c n)
                    (λ left.
                      try_each probe remaining b (used taken ++ (false, p) ∷ []) (unused ps) left)
                    n)
                (first b)
            ∙ ap
                (λ s. or_else s (λ left.
                  try_each probe remaining b (used taken ++ (false, p) ∷ []) (unused ps) left))
                found',
      )

  counted_self :
      (ps : Atoms N) (b : MatchBindings N)
      → AllGround ps
      → count_atoms ps ≤ max_attempts
      → Assigns ps
      → match_counted numbers symbol_name attributes
          (assign_normals numbers symbol_name attributes ps)
          (split_sequence_wildcard numbers symbol_name attributes none 0 ps)
          ps
          b
        ≡ ok (some b)
  unfolding match_counted finish_commutative
  counted_self ps b ground_ps enough assigns =
      let (rest, found) =
        assigns [] b (max_attempts - count_atoms ps) max_attempts (omega (arith, enough)) in
      let split = split_ground ps 0 ground_ps ∙ ap (λ m. ok (m, none)) same_count in
      rw (split, (==_iff (count_atoms ps) (count_atoms ps)).1 refl, found)
    where
      same_count : 0 + count_atoms ps ≡ count_atoms ps
      same_count = omega arith

  positional_self :
      (ps : Atoms N) (b : MatchBindings N)
      → AllGround ps
      → match_in_order numbers symbol_name attributes ps ps b ≡ ok (some b)
      → match_positional numbers symbol_name attributes
          (match_in_order numbers symbol_name attributes ps)
          (split_sequence_wildcard numbers symbol_name attributes none 0 ps)
          ps
          b
        ≡ ok (some b)
  unfolding match_positional
  positional_self ps b ground_ps found =
      let split = split_ground ps 0 ground_ps ∙ ap (λ m. ok (m, none)) same_count in
      rw (split, (==_iff (count_atoms ps) (count_atoms ps)).1 refl) found
    where
      same_count : 0 + count_atoms ps ≡ count_atoms ps
      same_count = omega arith

  node_self :
      (k : Kind N) (ps : Atoms N) (b : MatchBindings N)
      → GroundKind k ps
      → AllGround ps
      → Assigns ps
      → match_in_order numbers symbol_name attributes ps ps b ≡ ok (some b)
      → match_each numbers symbol_name attributes ps ps b ≡ ok (some b)
      → match_impl numbers symbol_name attributes (node k ps) (node k ps) b ≡ ok (some b)
  unfolding match_impl match_node match_variable match_symbol
  node_self (num c) ps b h all assigns ordered each = rw ((numbers.equal_iff c c).1 refl)
  node_self (var s) ps b h all assigns ordered each = rw (h, (==_iff s s).1 refl)
  node_self add ps b h all assigns ordered each = counted_self ps b all h assigns
  node_self mul ps b h all assigns ordered each = counted_self ps b all h assigns
  node_self pow ps b h all assigns ordered each = rw ((==_iff (count_atoms ps) 2).1 h) each
  node_self (fun f) ps b h all assigns ordered each =
      elim (Bool-cases (is_symmetric (attributes f))) [
        | inl symmetric ↦ rw ((==_iff f f).1 refl, symmetric) (counted_self ps b all h assigns)
        | inr plain ↦ rw ((==_iff f f).1 refl, plain) (positional_self ps b all ordered)
      ]

  mutual
    unfolding assign_normals match_in_order match_each match_child unused

    impl_self : (p : Atom N) → IsGround p → Matches p
    impl_self (node k ps) (h, all) b =
        node_self k ps b h all (assign_self ps all) (order_self ps all b) (each_self ps all b)

    assign_self : (ps : Atoms N) → AllGround ps → Assigns ps
    assign_self nil h taken b a n e = (
      used taken ++ [],
      let e' : n ≡ a = omega (arith, e) in ap (λ m. ok (m, some (b, used taken ++ []))) e',
    )
    assign_self (cons p ps) (h, hs) taken b a n e =
        Assigns-cons p ps h (impl_self p h) (assign_self ps hs) taken b a n e

    order_self :
        (ps : Atoms N)
        → AllGround ps
        → (b : MatchBindings N)
        → match_in_order numbers symbol_name attributes ps ps b ≡ ok (some b)
    order_self nil h b = refl
    order_self (cons p ps) (h, hs) b =
        ap
          (λ o.
            match_child numbers symbol_name attributes o
              (match_impl numbers symbol_name attributes p)
              (match_in_order numbers symbol_name attributes ps) (count_atoms ps) (cons p ps) b)
          (wild_ground p h)
        ∙ ap (λ m. and_then m (match_in_order numbers symbol_name attributes ps ps))
            (impl_self p h b)
        ∙ order_self ps hs b

    each_self :
        (ps : Atoms N)
        → AllGround ps
        → (b : MatchBindings N) → match_each numbers symbol_name attributes ps ps b ≡ ok (some b)
    each_self nil h b = refl
    each_self (cons p ps) (h, hs) b =
        ap (λ m. and_then m (match_each numbers symbol_name attributes ps ps)) (impl_self p h b)
        ∙ each_self ps hs b

  -- A pattern without wildcards, whose powers have two children and whose nodes have at most
  -- max_attempts children, matches itself, from any bindings, which it leaves as they are.
  pub match_impl_self :
      (p : Atom N) (b : MatchBindings N)
      → IsGround p
      → match_impl numbers symbol_name attributes p p b ≡ ok (some b)
  match_impl_self p b h = impl_self p h b
