-- ===== src/Derivative/Value.antt =====
-- What expressions stand for in a ring of values, and the forward-mode derivative of that value.
use stocas.Common.{ℕ, ◌≡◌, refl, sym, true, List, [], ◌∷◌, some, ◌==◌, if◌then◌else◌}
use stocas.Algebra.{Ring}
use stocas.Algebra.Laws.{add-zero, mul-one}
use stocas.Polynomial.{ok}
use stocas.Atom.{
  Numbers, Kind, num, var, add, mul, pow, fun, tag, position, Atom, node, Atoms, nil, cons,
}
use stocas.Atom.Builders.{canonical, append_atoms, single_or}
use stocas.Atom.Builders.Views.{count_atoms}
use stocas.Atom.Builders.Folds.{fold, fold-append, fold-canonical}
use stocas.Derivative.{Functions, DerivativeHook, get_hook}

-- Values: a ring with constants, powers and functions, and the partial derivatives of each.
pub record Meaning (N V : Type 0) (scalars : Ring N) (ring : Ring V) : Type 0 where
  pub constant : N → V
  pub raise : V → V → V
  pub apply : ℕ → List V → V
  pub slopes : ℕ → List V → List V
  pub constant_zero : constant scalars.zero ≡ ring.zero
  pub constant_one : constant scalars.one ≡ ring.one
  pub constant_add : (c d : N) → constant (scalars.add c d) ≡ ring.add (constant c) (constant d)
  pub constant_mul : (c d : N) → constant (scalars.mul c d) ≡ ring.mul (constant c) (constant d)
  pub constant_neg : (c : N) → constant (scalars.neg c) ≡ ring.neg (constant c)

module _ {N V : Type 0} (numbers : Numbers N) (scalars : Ring N) (functions : Functions)
    (ring : Ring V) (meaning : Meaning N V scalars ring) (env : ℕ → V) where
  open meaning use {constant, raise, apply, slopes}

  abbrev pub value_kind : Kind N → List V → V
  value_kind (num c) vs = constant c
  value_kind (var s) vs = env s
  value_kind add vs = fold ring.add ring.zero vs
  value_kind mul vs = fold ring.mul ring.one vs
  value_kind pow (a ∷ b ∷ vs) = raise a b
  value_kind pow vs = ring.zero
  value_kind (fun h) vs = apply h vs

  abbrev mutual
    pub value : Atom N → V
    value (node k ts) = value_kind k (values ts)

    pub values : Atoms N → List V
    values nil = []
    values (cons t ts) = value t ∷ values ts

  -- The product rule and the chain rule on values.
  abbrev pub leibniz : List V → List V → V
  leibniz (v ∷ vs) (d ∷ ds) =
      ring.add (ring.mul d (fold ring.mul ring.one vs)) (ring.mul v (leibniz vs ds))
  leibniz vs ds = ring.zero

  abbrev pub dot : List V → List V → V
  dot (p ∷ ps) (d ∷ ds) = ring.add (ring.mul p d) (dot ps ds)
  dot ps ds = ring.zero

  -- The derivative of `a ^ b`, where `a'` and `b'` are those of `a` and `b`.
  abbrev pub raise_slope : V → V → V → V → V
  raise_slope a b a' b' = ring.mul (raise a b) (
      ring.add (ring.mul b' (apply functions.ln (a ∷ [])))
        (ring.mul b (ring.mul a' (raise a (ring.neg ring.one)))))

  abbrev pub tangent_kind : ℕ → Kind N → List V → List V → V
  tangent_kind variable (num c) vs ds = ring.zero
  tangent_kind variable (var s) vs ds = if s == variable then ring.one else ring.zero
  tangent_kind variable add vs ds = fold ring.add ring.zero ds
  tangent_kind variable mul vs ds = leibniz vs ds
  tangent_kind variable pow (a ∷ b ∷ vs) (a' ∷ b' ∷ ds) = raise_slope a b a' b'
  tangent_kind variable pow vs ds = ring.zero
  tangent_kind variable (fun h) vs ds = dot (slopes h vs) ds

  abbrev mutual
    pub tangent : ℕ → Atom N → V
    tangent variable (node k ts) = tangent_kind variable k (values ts) (tangents variable ts)

    pub tangents : ℕ → Atoms N → List V
    tangents variable nil = []
    tangents variable (cons t ts) = tangent variable t ∷ tangents variable ts

  -- `a ^ (b - 1)` is `a ^ b * a ^ -1`, as where `a` has an inverse.
  abbrev pub LowersPower : V → V → Type 0
  LowersPower a b =
      raise a (ring.sub b ring.one) ≡ ring.mul (raise a b) (raise a (ring.neg ring.one))

  -- Powers have a base and an exponent that may be lowered, and each call's hook gives partial
  -- derivatives that stand for the function's.
  abbrev pub Allowed : List (ℕ × DerivativeHook N) → Kind N → Atoms N → Type 0
  Allowed hooks pow (cons base (cons exponent nil)) = LowersPower (value base) (value exponent)
  Allowed hooks pow ts = ⊥
  Allowed hooks (fun h) ts =
      (hook : DerivativeHook N) × (ps : Atoms N) × (get_hook h hooks ≡ some hook)
      × (hook ts ≡ ok ps)
      × (count_atoms ps ≡ count_atoms ts)
      × (values ps ≡ slopes h (values ts))
  Allowed hooks k ts = Unit

  abbrev mutual
    pub IsDifferentiable : List (ℕ × DerivativeHook N) → Atom N → Type 0
    IsDifferentiable hooks (node k ts) = Allowed hooks k ts × AllDifferentiable hooks ts

    pub AllDifferentiable : List (ℕ × DerivativeHook N) → Atoms N → Type 0
    AllDifferentiable hooks nil = Unit
    AllDifferentiable hooks (cons t ts) = IsDifferentiable hooks t × AllDifferentiable hooks ts

  add_position :
      (l : Kind N) (us : Atoms N)
      → (position (tag l) == 2) ≡ true
      → value (node l us) ≡ fold ring.add ring.zero (values us)
  add_position add us h = refl
  add_position l us h = cc

  mul_position :
      (l : Kind N) (us : Atoms N)
      → (position (tag l) == 3) ≡ true
      → value (node l us) ≡ fold ring.mul ring.one (values us)
  mul_position mul us h = refl
  mul_position l us h = cc

  pub value-sum :
      (ts : Atoms N) → value (canonical numbers add ts) ≡ fold ring.add ring.zero (values ts)
  unfolding canonical
  value-sum =
      fold-canonical numbers value values refl (λ t ts. refl) ring.add ring.zero add ring.add_comm
        ring.add_assoc ring.zero-add add_position

  pub value-product :
      (ts : Atoms N) → value (canonical numbers mul ts) ≡ fold ring.mul ring.one (values ts)
  unfolding canonical
  value-product =
      fold-canonical numbers value values refl (λ t ts. refl) ring.mul ring.one mul ring.mul_comm
        ring.mul_assoc ring.one-mul mul_position

  pub sum-append :
      (ts us : Atoms N)
      → fold ring.add ring.zero (values (append_atoms ts us))
        ≡ ring.add (fold ring.add ring.zero (values ts)) (fold ring.add ring.zero (values us))
  sum-append =
      fold-append numbers value values refl (λ t ts. refl) ring.add ring.zero add ring.add_comm
        ring.add_assoc ring.zero-add add_position

  pub multiply-append :
      (ts us : Atoms N)
      → fold ring.mul ring.one (values (append_atoms ts us))
        ≡ ring.mul (fold ring.mul ring.one (values ts)) (fold ring.mul ring.one (values us))
  multiply-append =
      fold-append numbers value values refl (λ t ts. refl) ring.mul ring.one mul ring.mul_comm
        ring.mul_assoc ring.one-mul mul_position

  pub value-single_or_add :
      (ts : Atoms N) → value (single_or numbers add ts) ≡ fold ring.add ring.zero (values ts)
  unfolding single_or
  value-single_or_add nil = value-sum nil
  value-single_or_add (cons t nil) = sym (add-zero ring (value t))
  value-single_or_add (cons t (cons u ts)) = value-sum (cons t (cons u ts))

  pub value-single_or_mul :
      (ts : Atoms N) → value (single_or numbers mul ts) ≡ fold ring.mul ring.one (values ts)
  unfolding single_or
  value-single_or_mul nil = value-product nil
  value-single_or_mul (cons t nil) = sym (mul-one ring (value t))
  value-single_or_mul (cons t (cons u ts)) = value-product (cons t (cons u ts))
