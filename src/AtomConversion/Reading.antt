-- ===== src/AtomConversion/Reading.antt =====
-- poly_core/atom_conversion.cc: the polynomial of an expression has the value of the expression.
use stocas.Common.{
  ℕ, ◌+◌, ◌*◌, ◌%◌, ◌^◌, ◌≡◌, ◌<◌, refl, sym, ap, ◌∙◌, List, [], ◌∷◌, map, length, replicate, set,
  Option, none, some, max, arith,
}
use stocas.Common.Int.{ℤ, pos, negsuc}
use stocas.Algebra.{Ring}
use stocas.Monomial.{Monomial, exponent_mod}
use stocas.Polynomial.{Polynomial, Result, ok, and_then, zero_polynomial, constant}
use stocas.Polynomial.Value.{pow as power, value as polynomial_value}
use stocas.Atom.{Numbers, Kind, num, var, add, mul, pow, fun, Atom, node, Atoms, nil, cons}
use stocas.Derivative.{Functions}
use stocas.Derivative.Value.{Meaning, value, values}
use stocas.AtomConversion.Lookup.{HasVariable, read_small, read_wide, greatest-le-total, found}
use stocas.AtomConversion.Reader.{
  find_variable, bigint_to_exponent, variable_polynomial, mul_all, mul_times, power_of,
  convert_polynomial, convert_children, atom_to_polynomial,
}
use stocas.AtomConversion.Steps.{
  Reads, IsReading, greatest, total, Reads-weaken, bind-Reads, from_term-Reads, constant-Reads,
}
use stocas.AtomConversion.Loops.{HaveReadings, sums-Reads, products-Reads, powers-Reads}

abbrev pub exponent_of : Option ℤ → ℕ
exponent_of none = 0
exponent_of (some (pos n)) = n
exponent_of (some (negsuc n)) = 0

module _ {N : Type 0} (numbers : Numbers N) (scalars : Ring N) (functions : Functions)
    (meaning : Meaning N N scalars scalars) (env : ℕ → N) (integer_of : N → Option ℤ)
    (variables : List ℕ) where
  abbrev means : Atom N → N
  means t = value numbers scalars functions scalars meaning env t

  abbrev means_all : Atoms N → List N
  means_all ts = values numbers scalars functions scalars meaning env ts

  -- Numbers stand for themselves, and powers with an integer from 0 on are repeated products.
  abbrev pub RaisesIntegers : Type 0
  RaisesIntegers =
      ((c : N) → meaning.constant c ≡ c)
      × ((x c : N) (n : ℕ) → integer_of c ≡ some (pos n) → meaning.raise x c ≡ power scalars x n)

  abbrev pub degree_kind : Kind N → Atoms N → List ℕ → ℕ
  degree_kind (num c) ts ds = 0
  degree_kind (var s) ts ds = 1
  degree_kind add ts ds = greatest ds
  degree_kind mul ts ds = total ds
  degree_kind pow (cons b (cons (node (num c) us) nil)) (d ∷ ds) =
      max d (exponent_of (integer_of c) * d)
  degree_kind k ts ds = 0

  -- The greatest exponent that a conversion can meet.
  abbrev mutual
    pub degree_bound : Atom N → ℕ
    degree_bound (node k ts) = degree_kind k ts (degree_bounds ts)

    pub degree_bounds : Atoms N → List ℕ
    degree_bounds nil = []
    degree_bounds (cons t ts) = degree_bound t ∷ degree_bounds ts

  abbrev pub ReadableKind : Kind N → Atoms N → Type 0
  ReadableKind (var s) ts = HasVariable s variables
  ReadableKind pow (cons b (cons (node (num c) us) nil)) =
      (n : ℕ) × (integer_of c ≡ some (pos n)) × (n < exponent_mod)
  ReadableKind pow ts = ⊥
  ReadableKind (fun h) ts = ⊥
  ReadableKind k ts = Unit

  -- Sums, products and powers of numbers and the given variables, with 32-bit exponents.
  abbrev mutual
    pub IsReadable : Atom N → Type 0
    IsReadable (node k ts) = ReadableKind k ts × AllReadable ts

    pub AllReadable : Atoms N → Type 0
    AllReadable nil = Unit
    AllReadable (cons t ts) = IsReadable t × AllReadable ts

  abbrev point : List N
  point = map env variables

  abbrev Gives : Result (Polynomial N) → ℕ → N → Type 0
  Gives r b v = Reads scalars variables point r b v

  abbrev read : Atom N → Result (Polynomial N)
  read t = convert_polynomial scalars variables integer_of t

  abbrev read_all : Atoms N → List (Result (Polynomial N))
  read_all ts = convert_children scalars variables integer_of ts

  variable-Gives :
      (s : ℕ)
      → HasVariable s variables
      → Gives
          (and_then (find_variable s variables) (variable_polynomial scalars variables))
          1
          (env s)
  unfolding variable_polynomial
  variable-Gives s h =
      let (i, e, bounded, val) = found scalars env s variables h in
      let m : Monomial = set (replicate (length variables) 0) i 1 in
      let (p, made, reading) = from_term-Reads scalars variables point m scalars.one 1 bounded in
      Reads-weaken scalars variables point _ 1 1 (scalars.mul scalars.one _) (env s) (omega arith)
        (scalars.one-mul _ ∙ val)
        (p, ap (λ t. and_then t (variable_polynomial scalars variables)) e ∙ made, reading)

  power-Gives :
      (p : Polynomial N) (o : Option ℤ) (m n d : ℕ) (w : N)
      → o ≡ some (pos m)
      → bigint_to_exponent m ≡ ok n
      → n * d < exponent_mod
      → IsReading scalars variables (map env variables) p d w
      → Gives (power_of scalars variables p o) (n * d) (power scalars w n)
  unfolding power_of
  power-Gives p o m n d w e exponent_read fits h =
      let one : Result (Polynomial N) = constant scalars variables scalars.one in
      let (q, made, reading) =
        bind-Reads scalars variables point one (mul_times scalars p n) 0 (n * d) scalars.one
          (power scalars w n) (constant-Reads scalars variables point scalars.one 0)
          (λ c g.
            Reads-weaken scalars variables point (mul_times scalars p n c) (0 + n * d) (n * d) _ _
              (omega arith) (scalars.one-mul _)
              (powers-Reads scalars variables point p d w n c 0 scalars.one (omega arith) h g)) in
      (
        q,
        ap (power_of scalars variables p) e
            ∙ ap (λ t. and_then t (λ k. and_then one (mul_times scalars p k))) exponent_read
            ∙ made,
        reading,
      )

  mutual
    unfolding convert_polynomial

    read-Gives :
        (t : Atom N)
        → RaisesIntegers
        → IsReadable t
        → degree_bound t < exponent_mod
        → Gives (read t) (degree_bound t) (means t)
    read-Gives (node (num c) ts) raises (h, hs) l =
        Reads-weaken scalars variables point (constant scalars variables c) 0 0 c _ (omega arith)
          (sym (raises.0 c)) (constant-Reads scalars variables point c 0)
    read-Gives (node (var s) ts) raises (h, hs) l = variable-Gives s h
    read-Gives (node add ts) raises (h, hs) l =
        let b : ℕ = greatest (degree_bounds ts) in
        Reads-weaken scalars variables point (read (node add ts)) b b _ _ (omega arith)
          (scalars.zero-add _)
          (sums-Reads scalars variables point (read_all ts) (degree_bounds ts) (means_all ts)
            (zero_polynomial scalars variables) b scalars.zero (omega arith) (refl, tt, refl)
            (all-Give ts raises hs l))
    read-Gives (node mul ts) raises (h, hs) l =
        let b : ℕ = total (degree_bounds ts) in
        let below : greatest (degree_bounds ts) < exponent_mod =
          omega (arith, greatest-le-total (degree_bounds ts)) in
        bind-Reads scalars variables point (constant scalars variables scalars.one)
          (λ result. mul_all scalars result (read_all ts)) 0 b scalars.one (means (node mul ts))
          (constant-Reads scalars variables point scalars.one 0)
          (λ p g.
            Reads-weaken scalars variables point (mul_all scalars p (read_all ts)) (0 + b) b _ _
              (omega arith) (scalars.one-mul _)
              (products-Reads scalars variables point (read_all ts) (degree_bounds ts)
                (means_all ts) p 0 scalars.one (omega arith) g (all-Give ts raises hs below)))
    read-Gives (node pow (cons b (cons (node (num c) us) nil))) raises ((n, e, small), (hb, hs)) l =
        let d : ℕ = degree_bound b in
        let power_degree : exponent_of (integer_of c) * d ≡ n * d = ap (λ o. exponent_of o * d) e in
        Reads-weaken scalars variables point _ (n * d) (max d (exponent_of (integer_of c) * d))
          (power scalars (means b) n) (meaning.raise (means b) (meaning.constant c)) (omega arith)
          (sym (ap (meaning.raise (means b)) (raises.0 c) ∙ raises.1 (means b) c n e))
          (bind-Reads scalars variables point (read b)
            (λ p. power_of scalars variables p (integer_of c)) d (n * d) (means b)
            (power scalars (means b) n) (read-Gives b raises hb (omega arith))
            (λ p g.
              power-Gives p (integer_of c) n n d (means b) e (read_small n small) (omega arith) g))
    read-Gives (node pow nil) raises (h, hs) l = absurd h
    read-Gives (node pow (cons b nil)) raises (h, hs) l = absurd h
    read-Gives (node pow (cons b (cons (node (num c) us) (cons x xs)))) raises (h, hs) l = absurd h
    read-Gives (node pow (cons b (cons (node (var s) us) xs))) raises (h, hs) l = absurd h
    read-Gives (node pow (cons b (cons (node add us) xs))) raises (h, hs) l = absurd h
    read-Gives (node pow (cons b (cons (node mul us) xs))) raises (h, hs) l = absurd h
    read-Gives (node pow (cons b (cons (node pow us) xs))) raises (h, hs) l = absurd h
    read-Gives (node pow (cons b (cons (node (fun f) us) xs))) raises (h, hs) l = absurd h
    read-Gives (node (fun f) ts) raises (h, hs) l = absurd h

    all-Give :
        (ts : Atoms N)
        → RaisesIntegers
        → AllReadable ts
        → greatest (degree_bounds ts) < exponent_mod
        → HaveReadings scalars variables point (read_all ts) (degree_bounds ts) (means_all ts)
    all-Give nil raises hs l = tt
    all-Give (cons t ts) raises (h, hs) l =
        (read-Gives t raises h (omega arith), all-Give ts raises hs (omega arith))

  -- For an expression of sums, products and powers of numbers and listed variables, whose powers
  -- have 32-bit integer exponents, and where no exponent that a conversion can meet overflows,
  -- atom_to_polynomial gives a polynomial over the listed variables, and its value at their
  -- values is the value of the expression. Numbers stand for themselves, and raising to an
  -- integer from 0 on is the repeated product.
  pub value-atom_to_polynomial :
      (t : Atom N)
      → RaisesIntegers
      → IsReadable t
      → degree_bound t < exponent_mod
      → (p : Polynomial N) × (atom_to_polynomial scalars variables integer_of t ≡ ok p)
        × (p.variables ≡ variables)
        × (polynomial_value scalars (map env variables) p.terms
            ≡ value numbers scalars functions scalars meaning env t)
  unfolding atom_to_polynomial
  value-atom_to_polynomial t raises h l =
      let (p, made, (vs, bounded, e)) = read-Gives t raises h l in (p, made, vs, e)

  -- Under the same conditions on the base and on the meaning, a power whose exponent is an
  -- integer n below 2^64 is read as a polynomial with the value of the base to the n modulo
  -- 2^32.
  pub truncated_exponent :
      (b : Atom N) (c : N) (us : Atoms N) (n : ℕ)
      → RaisesIntegers
      → IsReadable b
      → integer_of c ≡ some (pos n)
      → n < 2 ^ 64
      → max (degree_bound b) ((n % exponent_mod) * degree_bound b) < exponent_mod
      → (p : Polynomial N) × (atom_to_polynomial scalars variables integer_of
            (node pow (cons b (cons (node (num c) us) nil)))
          ≡ ok p)
        × (polynomial_value scalars (map env variables) p.terms
            ≡ power scalars
                (value numbers scalars functions scalars meaning env b)
                (n % exponent_mod))
  unfolding atom_to_polynomial convert_polynomial
  truncated_exponent b c us n raises hb e wide l =
      let d : ℕ = degree_bound b in
      let k : ℕ = n % exponent_mod in
      let (p, made, (vs, bounded, val)) =
        bind-Reads scalars variables point (read b)
          (λ q. power_of scalars variables q (integer_of c)) d (k * d) (means b)
          (power scalars (means b) k) (read-Gives b raises hb (omega arith))
          (λ q g.
            power-Gives q (integer_of c) n k d (means b) e (read_wide n wide) (omega arith) g) in
      (p, made, val)
