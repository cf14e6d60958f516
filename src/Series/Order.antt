-- ===== src/Series/Order.antt =====
-- series.hh at two orders: the coefficients of a Taylor series, and what is thrown, do not depend on
-- the order at which it is cut.
use stocas.Common.{
  ℕ, zero, suc, ◌/◌, ◌%◌, ◌≡◌, ◌≤◌, refl, ap, true, List, [], ◌∷◌, Option, none, some, ◌==◌, inl,
  inr, Bool-cases, arith, leb,
}
use stocas.Common.Int.{ℤ, pos, negsuc}
use stocas.Polynomial.{Result, ok, err, and_then}
use stocas.Atom.{Kind, num, var, add, mul, pow, fun, Atom, node, Atoms, nil, cons}
use stocas.Derivative.{Functions}
use stocas.HyperDual
use stocas.HyperDual.{DualScalar, HyperDual, constant, variable}
use stocas.HyperDual.Order.{
  Agree, SameOutcome, constant-Agree, variable-Agree, add-Agree, mul-Agree, exp-Agree, sin-Agree,
  cos-Agree, div-SameOutcome, log-SameOutcome,
}
use stocas.Series.{
  Series, or_domain_error, power_loop, integer_power, accumulate, general_power, number_power,
  power_of, apply_function, evaluate_kind, evaluate_hyper_dual, evaluate_children, taylor_series,
  series_coefficient,
}

module _ {F : Type 0} (scalar : DualScalar F) (m n : ℕ) (shorter : m ≤ n) where
  abbrev Agrees : HyperDual F → HyperDual F → Type 0
  Agrees f g = Agree scalar m n shorter f g

  -- The same is thrown, or series that agree are returned.
  abbrev SameResult : Result (HyperDual F) → Result (HyperDual F) → Type 0
  SameResult (ok f) (ok g) = Agrees f g
  SameResult (err e) (err d) = e ≡ d
  SameResult r s = ⊥

  from_option :
      (r s : Option (HyperDual F))
      → SameOutcome scalar m n shorter r s
      → SameResult (or_domain_error r) (or_domain_error s)
  from_option none none h = refl
  from_option (some f) (some g) h = h
  from_option none (some g) h = absurd h
  from_option (some f) none h = absurd h

  bind :
      (r s : Result (HyperDual F)) (f g : HyperDual F → Result (HyperDual F))
      → SameResult r s
      → ((a b : HyperDual F) → Agrees a b → SameResult (f a) (g b))
      → SameResult (and_then r f) (and_then s g)
  bind (ok a) (ok b) f g h next = next a b h
  bind (err e) (err d) f g h next = h
  bind (ok a) (err d) f g h next = absurd h
  bind (err e) (ok b) f g h next = absurd h

  power_loop-Agrees :
      (rounds : ℕ) (r r' p p' : HyperDual F) (k : ℕ)
      → Agrees r r'
      → Agrees p p'
      → Agrees (power_loop scalar m rounds r p k) (power_loop scalar n rounds r' p' k)
  unfolding power_loop
  power_loop-Agrees zero r r' p p' k h g = h
  power_loop-Agrees (suc rounds) r r' p p' k h g = elim (Bool-cases (k == 0)) [
    | inl e ↦ rw e h
    | inr e ↦
        let square : Agrees (HyperDual.mul scalar m p p) (HyperDual.mul scalar n p' p') =
          mul-Agree scalar m n shorter p p' p p' g g in
        rw e (elim (Bool-cases (k % 2 == 1)) [
          | inl odd ↦ rw odd (
              power_loop-Agrees rounds (HyperDual.mul scalar m r p) (HyperDual.mul scalar n r' p')
                (HyperDual.mul scalar m p p) (HyperDual.mul scalar n p' p') (k / 2)
                (mul-Agree scalar m n shorter r r' p p' h g) square)
          | inr even ↦ rw even (
              power_loop-Agrees rounds r r' (HyperDual.mul scalar m p p)
                (HyperDual.mul scalar n p' p') (k / 2) h square)
        ])
  ]

  one-Agrees : Agrees (constant scalar m (scalar.number 1)) (constant scalar n (scalar.number 1))
  one-Agrees = constant-Agree scalar m n shorter (scalar.number 1)

  integer_power-SameResult :
      (b b' : HyperDual F) (e : ℤ)
      → Agrees b b'
      → SameResult (integer_power scalar m b e) (integer_power scalar n b' e)
  unfolding integer_power
  integer_power-SameResult b b' (pos k) h =
      power_loop-Agrees k (constant scalar m (scalar.number 1))
        (constant scalar n (scalar.number 1)) b b' k one-Agrees h
  integer_power-SameResult b b' (negsuc k) h = from_option _ _ (
      div-SameOutcome scalar m n shorter _ _ _ _ one-Agrees (
        power_loop-Agrees (suc k) (constant scalar m (scalar.number 1))
          (constant scalar n (scalar.number 1)) b b' (suc k) one-Agrees h))

  abbrev SameResults : List (Result (HyperDual F)) → List (Result (HyperDual F)) → Type 0
  SameResults [] [] = Unit
  SameResults (r ∷ rs) (s ∷ ss) = SameResult r s × SameResults rs ss
  SameResults rs ss = ⊥

  accumulate-SameResult :
      (op op' : HyperDual F → HyperDual F → HyperDual F) (total total' : HyperDual F)
      (rs ss : List (Result (HyperDual F)))
      → ((a a' b b' : HyperDual F) → Agrees a a' → Agrees b b' → Agrees (op a b) (op' a' b'))
      → Agrees total total'
      → SameResults rs ss
      → SameResult (accumulate scalar m op total rs) (accumulate scalar n op' total' ss)
  unfolding accumulate
  accumulate-SameResult op op' total total' [] [] both h t = h
  accumulate-SameResult op op' total total' (ok f ∷ rs) (ok g ∷ ss) both h (a, t) =
      accumulate-SameResult op op' (op total f) (op' total' g) rs ss both
        (both total total' f g h a) t
  accumulate-SameResult op op' total total' (err e ∷ rs) (err d ∷ ss) both h (a, t) = a
  accumulate-SameResult op op' total total' (ok f ∷ rs) (err d ∷ ss) both h (a, t) = absurd a
  accumulate-SameResult op op' total total' (err e ∷ rs) (ok g ∷ ss) both h (a, t) = absurd a
  accumulate-SameResult op op' total total' [] (s ∷ ss) both h t = absurd t
  accumulate-SameResult op op' total total' (r ∷ rs) [] both h t = absurd t

  module _ {N : Type 0} (from_number : N → F) (integer_exponent : N → Option ℤ)
      (functions : Functions) where
    general_power-SameResult :
        (b b' : HyperDual F) (e e' : Result (HyperDual F))
        → Agrees b b'
        → SameResult e e'
        → SameResult
            (general_power scalar m from_number integer_exponent functions b e)
            (general_power scalar n from_number integer_exponent functions b' e')
    unfolding general_power
    general_power-SameResult b b' e e' h g = bind e e' _ _ g (λ c c' k.
        bind _ _ _ _ (from_option _ _ (log-SameOutcome scalar m n shorter b b' h))
          (λ l l' j. exp-Agree scalar m n shorter _ _ (mul-Agree scalar m n shorter c c' l l' k j)))

    number_power-SameResult :
        (b b' : HyperDual F) (e e' : Result (HyperDual F)) (o : Option ℤ)
        → Agrees b b'
        → SameResult e e'
        → SameResult
            (number_power scalar m from_number integer_exponent functions b e o)
            (number_power scalar n from_number integer_exponent functions b' e' o)
    unfolding number_power
    number_power-SameResult b b' e e' none h g = general_power-SameResult b b' e e' h g
    number_power-SameResult b b' e e' (some z) h g = integer_power-SameResult b b' z h

    power_of-SameResult :
        (t : Atom N) (e e' : Result (HyperDual F)) (b b' : HyperDual F)
        → SameResult e e'
        → Agrees b b'
        → SameResult
            (power_of scalar m from_number integer_exponent functions t e b)
            (power_of scalar n from_number integer_exponent functions t e' b')
    unfolding power_of
    power_of-SameResult (node (num c) ts) e e' b b' g h =
        number_power-SameResult b b' e e' (integer_exponent c) h g
    power_of-SameResult (node (var s) ts) e e' b b' g h = general_power-SameResult b b' e e' h g
    power_of-SameResult (node add ts) e e' b b' g h = general_power-SameResult b b' e e' h g
    power_of-SameResult (node mul ts) e e' b b' g h = general_power-SameResult b b' e e' h g
    power_of-SameResult (node pow ts) e e' b b' g h = general_power-SameResult b b' e e' h g
    power_of-SameResult (node (fun f) ts) e e' b b' g h = general_power-SameResult b b' e e' h g

    apply_function-SameResult :
        (head : ℕ) (a a' : HyperDual F)
        → Agrees a a'
        → SameResult
            (apply_function scalar m from_number integer_exponent functions head a)
            (apply_function scalar n from_number integer_exponent functions head a')
    unfolding apply_function
    apply_function-SameResult head a a' h = elim (Bool-cases (head == functions.sin)) [
      | inl sine ↦ rw sine (sin-Agree scalar m n shorter a a' h)
      | inr not_sine ↦ rw not_sine (elim (Bool-cases (head == functions.cos)) [
        | inl cosine ↦ rw cosine (cos-Agree scalar m n shorter a a' h)
        | inr not_cosine ↦ rw not_cosine (elim (Bool-cases (head == functions.exp)) [
          | inl exponential ↦ rw exponential (exp-Agree scalar m n shorter a a' h)
          | inr not_exponential ↦ rw not_exponential (elim (Bool-cases (head == functions.ln)) [
            | inl logarithm ↦
                rw logarithm (from_option _ _ (log-SameOutcome scalar m n shorter a a' h))
            | inr unknown ↦ rw unknown refl
          ])
        ])
      ])
    ]

    -- The results of a node at the two orders.
    abbrev at_shorter :
        ℕ → HyperDual F → Kind N → Atoms N → List (Result (HyperDual F)) → Result (HyperDual F)
    at_shorter v x k ts rs =
        evaluate_kind scalar m from_number integer_exponent functions v x k ts rs

    abbrev at_longer :
        ℕ → HyperDual F → Kind N → Atoms N → List (Result (HyperDual F)) → Result (HyperDual F)
    at_longer v x k ts rs =
        evaluate_kind scalar n from_number integer_exponent functions v x k ts rs

    pow-SameResult :
        (v : ℕ) (x x' : HyperDual F) (ts : Atoms N) (rs ss : List (Result (HyperDual F)))
        → SameResults rs ss
        → SameResult (at_shorter v x pow ts rs) (at_longer v x' pow ts ss)
    unfolding evaluate_kind
    pow-SameResult v x x' (cons b (cons e ts)) (r ∷ w ∷ rs) (s ∷ z ∷ ss) (h, (g, t)) =
        bind r s _ _ h (λ a a' k. power_of-SameResult e w z a a' g k)
    pow-SameResult v x x' (cons b (cons e ts)) [] [] t = refl
    pow-SameResult v x x' (cons b (cons e ts)) (r ∷ []) (s ∷ []) t = refl
    pow-SameResult v x x' nil rs ss t = refl
    pow-SameResult v x x' (cons b nil) rs ss t = refl
    pow-SameResult v x x' (cons b (cons e ts)) [] (s ∷ ss) t = absurd t
    pow-SameResult v x x' (cons b (cons e ts)) (r ∷ rs) [] t = absurd t
    pow-SameResult v x x' (cons b (cons e ts)) (r ∷ []) (s ∷ z ∷ ss) t = absurd t.1
    pow-SameResult v x x' (cons b (cons e ts)) (r ∷ w ∷ rs) (s ∷ []) t = absurd t.1

    call-SameResult :
        (v : ℕ) (x x' : HyperDual F) (head : ℕ) (ts : Atoms N) (rs ss : List (Result (HyperDual F)))
        → SameResults rs ss
        → SameResult (at_shorter v x (fun head) ts rs) (at_longer v x' (fun head) ts ss)
    unfolding evaluate_kind
    call-SameResult v x x' head ts (r ∷ []) (s ∷ []) (h, t) =
        bind r s _ _ h (λ a a' k. apply_function-SameResult head a a' k)
    call-SameResult v x x' head ts [] [] t = refl
    call-SameResult v x x' head ts (r ∷ w ∷ rs) (s ∷ z ∷ ss) t = refl
    call-SameResult v x x' head ts [] (s ∷ ss) t = absurd t
    call-SameResult v x x' head ts (r ∷ rs) [] t = absurd t
    call-SameResult v x x' head ts (r ∷ []) (s ∷ z ∷ ss) t = absurd t.1
    call-SameResult v x x' head ts (r ∷ w ∷ rs) (s ∷ []) t = absurd t.1

    kind-SameResult :
        (v : ℕ) (x x' : HyperDual F) (k : Kind N) (ts : Atoms N)
        (rs ss : List (Result (HyperDual F)))
        → Agrees x x'
        → SameResults rs ss
        → SameResult (at_shorter v x k ts rs) (at_longer v x' k ts ss)
    unfolding evaluate_kind
    kind-SameResult v x x' (num c) ts rs ss h t = constant-Agree scalar m n shorter (from_number c)
    kind-SameResult v x x' (var s) ts rs ss h t = elim (Bool-cases (s == v)) [
      | inl here ↦ rw here h
      | inr other ↦ rw other refl
    ]
    kind-SameResult v x x' add ts rs ss h t =
        accumulate-SameResult (HyperDual.add scalar m) (HyperDual.add scalar n) _ _ rs ss
          (λ a a' b b' g k. add-Agree scalar m n shorter a a' b b' g k)
          (constant-Agree scalar m n shorter (scalar.number 0)) t
    kind-SameResult v x x' mul ts rs ss h t =
        accumulate-SameResult (HyperDual.mul scalar m) (HyperDual.mul scalar n) _ _ rs ss
          (λ a a' b b' g k. mul-Agree scalar m n shorter a a' b b' g k) one-Agrees t
    kind-SameResult v x x' pow ts rs ss h t = pow-SameResult v x x' ts rs ss t
    kind-SameResult v x x' (fun head) ts rs ss h t = call-SameResult v x x' head ts rs ss t

    mutual
      unfolding evaluate_hyper_dual

      evaluate-SameResult :
          (v : ℕ) (x x' : HyperDual F) (t : Atom N)
          → Agrees x x'
          → SameResult
              (evaluate_hyper_dual scalar m from_number integer_exponent functions v x t)
              (evaluate_hyper_dual scalar n from_number integer_exponent functions v x' t)
      evaluate-SameResult v x x' (node k ts) h =
          kind-SameResult v x x' k ts _ _ h (children-SameResults v x x' ts h)

      children-SameResults :
          (v : ℕ) (x x' : HyperDual F) (ts : Atoms N)
          → Agrees x x'
          → SameResults
              (evaluate_children scalar m from_number integer_exponent functions v x ts)
              (evaluate_children scalar n from_number integer_exponent functions v x' ts)
      children-SameResults v x x' nil h = tt
      children-SameResults v x x' (cons t ts) h =
          (evaluate-SameResult v x x' t h, children-SameResults v x x' ts h)

    abbrev pub SameSeries : Result (Series F) → Result (Series F) → Type 0
    SameSeries (ok s) (ok t) =
        (s.point ≡ t.point)
        × ((k : ℕ) → k ≤ m → series_coefficient scalar m s k ≡ series_coefficient scalar n t k)
    SameSeries (err e) (err d) = e ≡ d
    SameSeries r s = ⊥

    coefficients_same :
        (s t : HyperDual F) (point : F) (k : ℕ)
        → Agrees s t
        → k ≤ m
        → series_coefficient scalar m (record { point = point; coefficients = s }) k
          ≡ series_coefficient scalar n (record { point = point; coefficients = t }) k
    unfolding series_coefficient
    coefficients_same s t point k h l =
        let inside : leb k m ≡ true = ground arith in
        let inside' : leb k n ≡ true = ground (arith, shorter) in
        rw (inside, inside') (ap ok (h k l))

    made-SameSeries :
        (point : F) (r s : Result (HyperDual F))
        → SameResult r s
        → SameSeries
            (and_then r (λ h. ok (record { point = point; coefficients = h })))
            (and_then s (λ h. ok (record { point = point; coefficients = h })))
    made-SameSeries point (ok f) (ok g) h = (refl, λ k l. coefficients_same f g point k h l)
    made-SameSeries point (err e) (err d) h = h
    made-SameSeries point (ok f) (err d) h = absurd h
    made-SameSeries point (err e) (ok g) h = absurd h

    -- For orders m and n, m at most n, taylor_series throws at both orders, and the same, or it
    -- returns series at both with one point and the same coefficients up to m. Nothing is
    -- assumed of the scalars.
    pub taylor_series-orders :
        (expr : Atom N) (v : ℕ) (point : F)
        → SameSeries
            (taylor_series scalar m from_number integer_exponent functions expr v point)
            (taylor_series scalar n from_number integer_exponent functions expr v point)
    unfolding taylor_series
    taylor_series-orders expr v point =
        made-SameSeries point
          (evaluate_hyper_dual scalar m from_number integer_exponent functions v
            (variable scalar m point) expr)
          (evaluate_hyper_dual scalar n from_number integer_exponent functions v
            (variable scalar n point) expr)
          (evaluate-SameResult v (variable scalar m point) (variable scalar n point) expr
            (variable-Agree scalar m n shorter point))
