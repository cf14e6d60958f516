-- ===== src/Matcher/Bindings.antt =====
-- Bindings of pattern_core/matcher.cc: what a match adds to them, and what it says of the bindings
-- that a longer match ends with.
use stocas.Common.{ℕ, ◌≡◌, refl, ap, List, ◌∷◌, none, some, ◌==◌, ==_iff, inl, inr, Bool-cases}
use stocas.Rewrite.{WildcardKind, wildcard_kind, BoundValue, find_binding}
use stocas.Matcher.{MatchBindings}

module _ {N : Type 0} (symbol_name : ℕ → List ℕ) where
  abbrev pub Extends : MatchBindings N → MatchBindings N → Type 0
  Extends b b' = (s : ℕ) (v : BoundValue N) → find_binding s b ≡ some v → find_binding s b' ≡ some v

  abbrev pub OnlyWildcards : MatchBindings N → Type 0
  OnlyWildcards b = (s : ℕ) → wildcard_kind (symbol_name s) ≡ none → find_binding s b ≡ none

  -- From `b` to `b'`, with what holds of all bindings of wildcards that `b'` grows to.
  abbrev pub Sound : MatchBindings N → MatchBindings N → (MatchBindings N → Type 0) → Type 0
  Sound b b' P =
      Extends b b'
      × (OnlyWildcards b → OnlyWildcards b')
      × ((final : MatchBindings N) → Extends b' final → OnlyWildcards final → P final)

  pub Sound_refl :
      (b : MatchBindings N) (P : MatchBindings N → Type 0)
      → ((final : MatchBindings N) → Extends b final → OnlyWildcards final → P final)
      → Sound b b P
  Sound_refl b P h = (λ s v e. e, λ w. w, h)

  pub Sound_chain :
      (b c d : MatchBindings N) (P Q : MatchBindings N → Type 0)
      → Sound b c P
      → Sound c d Q
      → Sound b d (λ final. P final × Q final)
  Sound_chain b c d P Q (e, w, p) (f, v, q) = (
    λ s x h. f s x (e s x h),
    λ h. v (w h),
    λ final g h. (p final (λ s x k. g s x (f s x k)) h, q final g h),
  )

  pub Sound_map :
      (b c : MatchBindings N) (P Q : MatchBindings N → Type 0)
      → Sound b c P
      → ((final : MatchBindings N) → P final → Q final)
      → Sound b c Q
  Sound_map b c P Q (e, w, p) f = (e, w, λ final g h. f final (p final g h))

  find_binding_self :
      (s : ℕ) (v : BoundValue N) (b : MatchBindings N) → find_binding s ((s, v) ∷ b) ≡ some v
  unfolding find_binding
  find_binding_self s v b = rw ((==_iff s s).1 refl)

  -- A new binding of a wildcard.
  pub Sound_insert :
      (s : ℕ) (v : BoundValue N) (b : MatchBindings N) (k : WildcardKind)
      → wildcard_kind (symbol_name s) ≡ some k
      → find_binding s b ≡ none
      → Sound b ((s, v) ∷ b) (λ final. find_binding s final ≡ some v)
  unfolding find_binding
  Sound_insert s v b k wild fresh = (grown, kept, λ final g h. g s v (find_binding_self s v b))
    where
      grown : Extends b ((s, v) ∷ b)
      grown r w h = elim (Bool-cases (s == r)) [
        | inl e ↦ let same = (==_iff s r).0 e in cc (fresh, h, ap (λ t. find_binding t b) same)
        | inr e ↦ rw e h
      ]

      kept : OnlyWildcards b → OnlyWildcards ((s, v) ∷ b)
      kept only r tame = elim (Bool-cases (s == r)) [
        | inl e ↦
            let same = (==_iff s r).0 e in
            cc (wild, tame, ap (λ t. wildcard_kind (symbol_name t)) same)
        | inr e ↦ rw e (only r tame)
      ]
