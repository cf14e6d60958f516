-- ===== src/Rewrite/Value.antt =====
-- pattern_core/rewrite.cc: a substituted expression has the value of the replacement where each
-- wildcard has the value that it is bound to.
use stocas.Common.{
  ℕ, suc, ◌≡◌, refl, sym, ap, ap₂, ◌∙◌, false, List, [], ◌∷◌, ◌++◌, Option, none, some, arith,
}
use stocas.Algebra.{Ring}
use stocas.Algebra.Laws.{add-zero, mul-one}
use stocas.Polynomial.{Result, ok}
use stocas.Atom.{Numbers, Kind, num, var, add, mul, pow, fun, Atom, node, Atoms, nil, cons}
use stocas.Atom.Builders.{append_atoms}
use stocas.Atom.Builders.Views.{count_atoms}
use stocas.Derivative.{Functions}
use stocas.Derivative.Value.{Meaning, value, values, value_kind, value-sum, value-product}
use stocas.Rewrite.{
  BoundValue, atom, sequence, is_wildcard, find_binding, sequence_of, substitute_binding, rebuild,
  substitute_kind, substitute_impl, substitute_each, substitute_children, prepend, splice,
}

module _ {N V : Type 0} (numbers : Numbers N) (scalars : Ring N) (symbol_name : ℕ → List ℕ)
    (bindings : List (ℕ × BoundValue N)) (functions : Functions) (ring : Ring V)
    (meaning : Meaning N V scalars ring) (env : ℕ → V) where
  abbrev means : Atom N → V
  means t = value numbers scalars functions ring meaning env t

  abbrev means_all : Atoms N → List V
  means_all ts = values numbers scalars functions ring meaning env ts

  abbrev kind_value : Kind N → List V → V
  kind_value k vs = value_kind numbers scalars functions ring meaning env k vs

  abbrev pub binding_value : ℕ → Option (BoundValue N) → V
  binding_value s none = env s
  binding_value s (some (atom t)) = means t
  binding_value s (some (sequence ts)) = ring.zero

  abbrev pub spliced_values : Option (Atoms N) → V → List V → List V
  spliced_values none v vs = v ∷ vs
  spliced_values (some us) v vs = means_all us ++ vs

  abbrev pub bound_kind : Kind N → List V → List V → V
  bound_kind (var s) each spliced = binding_value s (find_binding s bindings)
  bound_kind pow each spliced = kind_value pow each
  bound_kind k each spliced = kind_value k spliced

  -- The value of a replacement under the bindings.
  abbrev mutual
    pub bound_value : Atom N → V
    bound_value (node k ts) = bound_kind k (each_value ts) (children_values ts)

    pub each_value : Atoms N → List V
    each_value nil = []
    each_value (cons t ts) = bound_value t ∷ each_value ts

    pub children_values : Atoms N → List V
    children_values nil = []
    children_values (cons t ts) =
        spliced_values (sequence_of numbers scalars symbol_name bindings t) (bound_value t)
          (children_values ts)

  abbrev pub BoundBinding : ℕ → Option (BoundValue N) → Type 0
  BoundBinding s none = is_wildcard (symbol_name s) ≡ false
  BoundBinding s (some (atom t)) = Unit
  BoundBinding s (some (sequence ts)) = ⊥

  abbrev pub BoundChild : Option (Atoms N) → Type 0 → Type 0
  BoundChild none P = P
  BoundChild (some us) P = Unit

  abbrev pub BoundKind : Kind N → Atoms N → Type 0 → Type 0 → Type 0
  BoundKind (num c) ts E C = Unit
  BoundKind (var s) ts E C = BoundBinding s (find_binding s bindings)
  BoundKind pow ts E C = (count_atoms ts ≡ 2) × E
  BoundKind k ts E C = C

  -- Powers have a base and an exponent, no wildcard is unbound, and a sequence is bound only to
  -- children of sums, products and calls.
  abbrev mutual
    pub IsBound : Atom N → Type 0
    IsBound (node k ts) = BoundKind k ts (EachBound ts) (ChildrenBound ts)

    pub EachBound : Atoms N → Type 0
    EachBound nil = Unit
    EachBound (cons t ts) = IsBound t × EachBound ts

    pub ChildrenBound : Atoms N → Type 0
    ChildrenBound nil = Unit
    ChildrenBound (cons t ts) =
        BoundChild (sequence_of numbers scalars symbol_name bindings t) (IsBound t)
        × ChildrenBound ts

  abbrev Gives : Result (Atom N) → V → Type 0
  Gives result v = (r : Atom N) × (result ≡ ok r) × (means r ≡ v)

  abbrev GivesAll : Result (Atoms N) → List V → Type 0
  GivesAll result vs = (rs : Atoms N) × (result ≡ ok rs) × (means_all rs ≡ vs)

  binding-Gives :
      (s : ℕ) (b : Option (BoundValue N))
      → BoundBinding s b
      → Gives (substitute_binding numbers scalars symbol_name bindings s b) (binding_value s b)
  unfolding substitute_binding
  binding-Gives s none h = (node (var s) nil, rw h, refl)
  binding-Gives s (some (atom t)) h = (t, refl, refl)
  binding-Gives s (some (sequence ts)) h = absurd h

  value-rebuild :
      (ts : Atoms N)
      → (means (rebuild numbers scalars symbol_name bindings add scalars.zero ts)
          ≡ kind_value add (means_all ts))
        × (means (rebuild numbers scalars symbol_name bindings mul scalars.one ts)
            ≡ kind_value mul (means_all ts))
  unfolding rebuild
  value-rebuild nil = (meaning.constant_zero, meaning.constant_one)
  value-rebuild (cons t nil) = (sym (add-zero ring (means t)), sym (mul-one ring (means t)))
  value-rebuild (cons t (cons u ts)) = (
    value-sum numbers scalars functions ring meaning env (cons t (cons u ts)),
    value-product numbers scalars functions ring meaning env (cons t (cons u ts)),
  )

  values-append : (ts us : Atoms N) → means_all (append_atoms ts us) ≡ means_all ts ++ means_all us
  unfolding append_atoms
  values-append nil us = refl
  values-append (cons t ts) us = ap (λ vs. means t ∷ vs) (values-append ts us)

  prepend-Gives :
      (t : Result (Atom N)) (ts : Result (Atoms N)) (v : V) (vs : List V)
      → Gives t v
      → GivesAll ts vs
      → GivesAll (prepend numbers scalars symbol_name bindings t ts) (v ∷ vs)
  prepend-Gives t ts v vs (r, e, m) (rs, es, ms) = (
    cons r rs,
    ap₂ (prepend numbers scalars symbol_name bindings) e es,
    ap₂ (λ a as_. a ∷ as_) m ms,
  )

  splice-Gives :
      (b : Option (Atoms N)) (P : Type 0) (t : Result (Atom N)) (ts : Result (Atoms N)) (v : V)
      (vs : List V)
      → BoundChild b P
      → (P → Gives t v)
      → GivesAll ts vs
      → GivesAll (splice numbers scalars symbol_name bindings b t ts) (spliced_values b v vs)
  splice-Gives none P t ts v vs h made rest = prepend-Gives t ts v vs (made h) rest
  splice-Gives (some us) P t ts v vs h made (rs, es, ms) = (
    append_atoms us rs,
    ap (splice numbers scalars symbol_name bindings (some us) t) es,
    values-append us rs ∙ ap (λ ws. means_all us ++ ws) ms,
  )

  -- The pairs and lists that the cases of the kinds need.
  pow-Gives :
      (each spliced : Result (Atoms N)) (vs : List V) (rs : Atoms N)
      → each ≡ ok rs
      → count_atoms rs ≡ 2
      → means_all rs ≡ vs
      → Gives
          (substitute_kind numbers scalars symbol_name bindings pow each spliced)
          (kind_value pow vs)
  unfolding substitute_kind
  pow-Gives each spliced vs nil e two m = absurd (omega arith)
  pow-Gives each spliced vs (cons b nil) e two m = absurd (omega arith)
  pow-Gives each spliced vs (cons b (cons x nil)) e two m =
      (node pow (cons b (cons x nil)), rw e, ap (kind_value pow) m)
  pow-Gives each spliced vs (cons b (cons x (cons y rs))) e two m = absurd (omega arith)

  kind-Gives :
      (k : Kind N) (ts : Atoms N) (E C : Type 0) (each spliced : Result (Atoms N)) (vs ws : List V)
      → BoundKind k ts E C
      → (E
          → (rs : Atoms N) × (each ≡ ok rs)
            × (count_atoms rs ≡ count_atoms ts)
            × (means_all rs ≡ vs))
      → (C → GivesAll spliced ws)
      → Gives
          (substitute_kind numbers scalars symbol_name bindings k each spliced)
          (bound_kind k vs ws)
  unfolding substitute_kind
  kind-Gives (num c) ts E C each spliced vs ws h he hc = (node (num c) nil, refl, refl)
  kind-Gives (var s) ts E C each spliced vs ws h he hc = binding-Gives s (find_binding s bindings) h
  kind-Gives pow ts E C each spliced vs ws (two, h) he hc =
      let (rs, e, count, m) = he h in pow-Gives each spliced vs rs e (count ∙ two) m
  kind-Gives add ts E C each spliced vs ws h he hc =
      let (rs, e, m) = hc h in
      (
        rebuild numbers scalars symbol_name bindings add scalars.zero rs,
        rw e,
        (value-rebuild rs).0 ∙ ap (kind_value add) m,
      )
  kind-Gives mul ts E C each spliced vs ws h he hc =
      let (rs, e, m) = hc h in
      (
        rebuild numbers scalars symbol_name bindings mul scalars.one rs,
        rw e,
        (value-rebuild rs).1 ∙ ap (kind_value mul) m,
      )
  kind-Gives (fun f) ts E C each spliced vs ws h he hc =
      let (rs, e, m) = hc h in (node (fun f) rs, rw e, ap (kind_value (fun f)) m)

  mutual
    unfolding substitute_impl substitute_each substitute_children

    impl-value :
        (e : Atom N)
        → IsBound e
        → (r : Atom N) × (substitute_impl numbers scalars symbol_name bindings e ≡ ok r)
          × (means r ≡ bound_value e)
    impl-value (node k ts) h =
        kind-Gives k ts (EachBound ts) (ChildrenBound ts)
          (substitute_each numbers scalars symbol_name bindings ts)
          (substitute_children numbers scalars symbol_name bindings ts) (each_value ts)
          (children_values ts) h (each-value ts) (children-value ts)

    each-value :
        (ts : Atoms N)
        → EachBound ts
        → (rs : Atoms N) × (substitute_each numbers scalars symbol_name bindings ts ≡ ok rs)
          × (count_atoms rs ≡ count_atoms ts)
          × (means_all rs ≡ each_value ts)
    each-value nil h = (nil, refl, refl, refl)
    each-value (cons t ts) (h, hs) =
        let (r, e, m) = impl-value t h in
        let (rs, es, count, ms) = each-value ts hs in
        (
          cons r rs,
          ap₂ (prepend numbers scalars symbol_name bindings) e es,
          ap suc count,
          ap₂ (λ a as_. a ∷ as_) m ms,
        )

    children-value :
        (ts : Atoms N)
        → ChildrenBound ts
        → GivesAll
            (substitute_children numbers scalars symbol_name bindings ts)
            (children_values ts)
    children-value nil h = (nil, refl, refl)
    children-value (cons t ts) (h, hs) =
        splice-Gives (sequence_of numbers scalars symbol_name bindings t) (IsBound t)
          (substitute_impl numbers scalars symbol_name bindings t)
          (substitute_children numbers scalars symbol_name bindings ts) (bound_value t)
          (children_values ts) h (λ p. impl-value t p) (children-value ts hs)

  -- For a replacement whose powers have a base and an exponent, without unbound wildcards, and
  -- with sequences bound only to children of sums, products and calls, substitute_impl returns
  -- an expression, and its value is that of the replacement where a bound variable has the value
  -- it is bound to and a bound sequence stands for its elements among the children.
  pub value-substitute_impl :
      (e : Atom N)
      → IsBound e
      → (r : Atom N) × (substitute_impl numbers scalars symbol_name bindings e ≡ ok r)
        × (value numbers scalars functions ring meaning env r ≡ bound_value e)
  value-substitute_impl e h = impl-value e h
