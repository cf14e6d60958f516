-- ===== src/Matcher/Search.antt =====
-- The search of assign_normals in pattern_core/matcher.cc: a found assignment gives the child an
-- unused element of the pool, and comes from an assignment of the other children.
use stocas.Common.{
  ℕ, zero, suc, ◌≡◌, refl, sym, ap, Bool, true, false, List, [], ◌∷◌, ◌++◌, append_assoc, Option,
  none, some, ◌⊎◌, inl, inr,
}
use stocas.Polynomial.{Result, ok, err}
use stocas.Atom.{Atom}
use stocas.Matcher.{MatchBindings, Pool, Search, or_else, after_probe, try_each}
use stocas.Matcher.Permuted.{Permuted, trans, Permuted_of_eq, Permuted_middle}

or_else_ok :
    {N : Type 0} (first : Search N) (next : ℕ → Search N) (a : ℕ) (r : MatchBindings N × Pool N)
    → or_else first next ≡ ok (a, some r)
    → (first ≡ ok (a, some r)) ⊎ ((left : ℕ) × (next left ≡ ok (a, some r)))
unfolding or_else
or_else_ok (err e) next a r h = cc
or_else_ok (ok (c, some s)) next a r h = inl h
or_else_ok (ok (c, none)) next a r h = inr (c, h)

after_probe_ok :
    {N : Type 0} (probed : Result (Option (MatchBindings N)))
    (continue : MatchBindings N → Search N) (next : ℕ → Search N) (attempts a : ℕ)
    (r : MatchBindings N × Pool N)
    → after_probe probed continue next attempts ≡ ok (a, some r)
    → ((b : MatchBindings N) × (probed ≡ ok (some b)) × (continue b ≡ ok (a, some r)))
      ⊎ ((left : ℕ) × (next left ≡ ok (a, some r)))
unfolding after_probe
after_probe_ok (err e) continue next attempts a r h = cc
after_probe_ok (ok none) continue next attempts a r h = inr (attempts, h)
after_probe_ok (ok (some b)) continue next attempts a r h =
    elim (or_else_ok (continue b) next a r h) [
      | inl found ↦ inl (b, refl, found)
      | inr later ↦ inr later
    ]

module _ {N V : Type 0} (means : Atom N → V) where
  abbrev pub left_values : Pool N → List V
  left_values [] = []
  left_values ((true, t) ∷ pool) = left_values pool
  left_values ((false, t) ∷ pool) = means t ∷ left_values pool

  left_values-append : (xs ys : Pool N) → left_values (xs ++ ys) ≡ left_values xs ++ left_values ys
  left_values-append [] ys = refl
  left_values-append ((true, t) ∷ xs) ys = left_values-append xs ys
  left_values-append ((false, t) ∷ xs) ys = ap (λ vs. means t ∷ vs) (left_values-append xs ys)

  -- Marking an element takes its value out of those left.
  Permuted_mark :
      (before pool : Pool N) (t : Atom N)
      → Permuted
          (means t ∷ left_values (before ++ (true, t) ∷ pool))
          (left_values (before ++ (false, t) ∷ pool))
  Permuted_mark before pool t =
      trans
        (Permuted_of_eq (ap (λ vs. means t ∷ vs) (left_values-append before ((true, t) ∷ pool))))
        (trans (Permuted_middle (means t) (left_values before) (left_values pool))
          (Permuted_of_eq (sym (left_values-append before ((false, t) ∷ pool)))))

  module _ (probe : Atom N → MatchBindings N → Result (Option (MatchBindings N)))
      (others : Pool N → MatchBindings N → ℕ → Search N) (b : MatchBindings N) (a : ℕ)
      (r : MatchBindings N × Pool N) where
    -- An element that the probe accepts, the pool without it, and the rest of the assignment.
    abbrev pub Takes : Pool N → Type 0
    Takes pool =
        (t : Atom N) × (c : MatchBindings N) × (rest : Pool N) × (left : ℕ) × (probe t b
          ≡ ok (some c))
        × (others rest c left ≡ ok (a, some r))
        × Permuted (means t ∷ left_values rest) (left_values pool)

    moved :
        (before : Pool N) (x : Bool × Atom N) (pool : Pool N)
        → Takes ((before ++ x ∷ []) ++ pool)
        → Takes (before ++ x ∷ pool)
    moved before x pool (t, c, rest, left, probed, found, p) = (
      t,
      c,
      rest,
      left,
      probed,
      found,
      trans p (Permuted_of_eq (ap left_values (append_assoc before (x ∷ []) pool))),
    )

    try_each-Takes :
        (before pool : Pool N) (attempts : ℕ)
        → try_each probe others b before pool attempts ≡ ok (a, some r)
        → Takes (before ++ pool)
    unfolding try_each
    try_each-Takes before [] attempts h = cc
    try_each-Takes before ((true, t) ∷ pool) attempts h =
        moved before (true, t) pool (try_each-Takes (before ++ (true, t) ∷ []) pool attempts h)
    try_each-Takes before ((false, t) ∷ pool) zero h = cc
    try_each-Takes before ((false, t) ∷ pool) (suc attempts) h =
        elim (after_probe_ok (probe t b) _ _ attempts a r h) [
          | inl (c, probed, found) ↦ (
            t,
            c,
            before ++ (true, t) ∷ pool,
            attempts,
            probed,
            found,
            Permuted_mark before pool t,
          )
          | inr (left, later) ↦
              moved before (false, t) pool
                (try_each-Takes (before ++ (false, t) ∷ []) pool left later)
        ]

    pub try_each_lem :
        (pool : Pool N) (attempts : ℕ)
        → try_each probe others b [] pool attempts ≡ ok (a, some r)
        → Takes pool
    try_each_lem pool attempts h = try_each-Takes [] pool attempts h
