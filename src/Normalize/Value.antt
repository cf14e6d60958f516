-- ===== src/Normalize/Value.antt =====
-- atom_core/normalize.cc: the normal form of an expression has the value of the expression.
use stocas.Common.{ℕ, ◌≡◌, refl, ap, ap₂, ◌∙◌, ◌∷◌}
use stocas.Algebra.{Ring}
use stocas.Atom.{Numbers, Kind, num, var, add, mul, pow, fun, Atom, node, Atoms, nil, cons}
use stocas.Derivative.{Functions}
use stocas.Derivative.Value.{Meaning, value, values, value_kind}
use stocas.Normalize.{normalize_kind, normalize, normalize_all}
use stocas.Normalize.Sums.{value-normalize_add}
use stocas.Normalize.Products.{PowerLaws, AllAddExponents, value-normalize_mul, value-normalize_pow}

module _ {N V : Type 0} (numbers : Numbers N) (scalars : Ring N) (functions : Functions)
    (ring : Ring V) (meaning : Meaning N V scalars ring) (env : ℕ → V) where
  abbrev CombinesKind : Kind N → Atoms N → Type 0
  CombinesKind mul ts = AllAddExponents numbers scalars functions ring meaning env ts
  CombinesKind k ts = Unit

  -- In every product, the exponents of the normalized factors' bases add up.
  abbrev mutual
    pub CombinesPowers : Atom N → Type 0
    CombinesPowers (node k ts) =
        CombinesKind k (normalize_all numbers scalars ts) × AllCombinePowers ts

    pub AllCombinePowers : Atoms N → Type 0
    AllCombinePowers nil = Unit
    AllCombinePowers (cons t ts) = CombinesPowers t × AllCombinePowers ts

  module _ (laws : PowerLaws meaning) where
    value-normalize_kind :
        (k : Kind N) (ts : Atoms N)
        → CombinesKind k ts
        → value numbers scalars functions ring meaning env (normalize_kind numbers scalars k ts)
          ≡ value_kind numbers scalars functions ring meaning env k
              (values numbers scalars functions ring meaning env ts)
    unfolding normalize_kind
    value-normalize_kind (num c) ts h = refl
    value-normalize_kind (var s) ts h = refl
    value-normalize_kind add ts h =
        value-normalize_add numbers scalars functions ring meaning env ts
    value-normalize_kind mul ts h =
        value-normalize_mul numbers scalars functions ring meaning env laws ts h
    value-normalize_kind pow ts h =
        value-normalize_pow numbers scalars functions ring meaning env laws ts
    value-normalize_kind (fun f) ts h = refl

    mutual
      unfolding normalize normalize_all

      normalized :
          (e : Atom N)
          → CombinesPowers e
          → value numbers scalars functions ring meaning env (normalize numbers scalars e)
            ≡ value numbers scalars functions ring meaning env e
      normalized (node k ts) (h, hs) =
          value-normalize_kind k (normalize_all numbers scalars ts) h
          ∙ ap (value_kind numbers scalars functions ring meaning env k) (normalized_all ts hs)

      normalized_all :
          (ts : Atoms N)
          → AllCombinePowers ts
          → values numbers scalars functions ring meaning env (normalize_all numbers scalars ts)
            ≡ values numbers scalars functions ring meaning env ts
      normalized_all nil h = refl
      normalized_all (cons t ts) (h, hs) =
          ap₂ (λ v vs. v ∷ vs) (normalized t h) (normalized_all ts hs)

    -- Where every value to the 0 is 1 and to the 1 is itself, and the exponents of the bases of
    -- the normalized factors of each product add up, the normal form of an expression has the
    -- value of the expression.
    pub value-normalize :
        (e : Atom N)
        → CombinesPowers e
        → value numbers scalars functions ring meaning env (normalize numbers scalars e)
          ≡ value numbers scalars functions ring meaning env e
    value-normalize e h = normalized e h
