-- ===== src/AtomConversion/Loops.antt =====
-- poly_core/atom_conversion.cc: the loops over the children and the power, with what they read.
use stocas.Common.{ℕ, zero, suc, ◌+◌, ◌*◌, ◌≡◌, ◌≤◌, ◌<◌, refl, sym, ◌∙◌, List, [], ◌∷◌, arith}
use stocas.Algebra.{Ring}
use stocas.Algebra.Laws.{add-zero, mul-one}
use stocas.Monomial.{exponent_mod}
use stocas.Polynomial
use stocas.Polynomial.{
  Term, Polynomial, Result, ok, and_then, zero_polynomial, from_term, constant, equal_vectors,
}
use stocas.Polynomial.Value.{pow as power}
use stocas.Atom.Builders.Folds.{fold}
use stocas.AtomConversion.Reader.{add_all, mul_all, mul_times}
use stocas.AtomConversion.Steps.{
  greatest, total, Reads, IsReading, Reads-weaken, IsReading-weaken, bind-Reads, add-Reads,
  mul-Reads,
}

module _ {N : Type 0} (scalars : Ring N) (variables : List ℕ) (point : List N) where
  abbrev pub HaveReadings : List (Result (Polynomial N)) → List ℕ → List N → Type 0
  HaveReadings [] [] [] = Unit
  HaveReadings (r ∷ rs) (b ∷ bs) (v ∷ vs) =
      Reads scalars variables point r b v × HaveReadings rs bs vs
  HaveReadings rs bs vs = ⊥

  pub sums-Reads :
      (rs : List (Result (Polynomial N))) (bs : List ℕ) (vs : List N) (p : Polynomial N) (b : ℕ)
      (v : N)
      → greatest bs ≤ b
      → IsReading scalars variables point p b v
      → HaveReadings rs bs vs
      → Reads scalars variables point
          (add_all scalars p rs)
          b
          (scalars.add v (fold scalars.add scalars.zero vs))
  unfolding add_all
  sums-Reads [] [] [] p b v l (vs, h, e) t = (p, refl, (vs, h, e ∙ sym (add-zero scalars v)))
  sums-Reads (r ∷ rs) (c ∷ cs) (w ∷ ws) p b v l h (made, t) =
      bind-Reads scalars variables point r _ c b w (scalars.add v _) made (λ q g.
        bind-Reads scalars variables point (Polynomial.add scalars p q)
          (λ sum. add_all scalars sum rs) b b (scalars.add v w) (scalars.add v _)
          (add-Reads scalars variables point p q b v w h
            (IsReading-weaken scalars variables point q c b w (omega arith) g))
          (λ s k.
            Reads-weaken scalars variables point (add_all scalars s rs) b b _ _ (omega arith)
              (scalars.add_assoc v w _)
              (sums-Reads rs cs ws s b (scalars.add v w) (omega arith) k t)))
  sums-Reads [] [] (w ∷ ws) p b v l h t = absurd t
  sums-Reads [] (c ∷ cs) ws p b v l h t = absurd t
  sums-Reads (r ∷ rs) [] ws p b v l h t = absurd t
  sums-Reads (r ∷ rs) (c ∷ cs) [] p b v l h t = absurd t

  pub products-Reads :
      (rs : List (Result (Polynomial N))) (bs : List ℕ) (vs : List N) (p : Polynomial N) (b : ℕ)
      (v : N)
      → b + total bs < exponent_mod
      → IsReading scalars variables point p b v
      → HaveReadings rs bs vs
      → Reads scalars variables point
          (mul_all scalars p rs)
          (b + total bs)
          (scalars.mul v (fold scalars.mul scalars.one vs))
  unfolding mul_all
  products-Reads [] [] [] p b v l (vs, h, e) t =
      Reads-weaken scalars variables point (ok p) b (b + 0) v _ (omega arith)
        (sym (mul-one scalars v)) (p, refl, (vs, h, e))
  products-Reads (r ∷ rs) (c ∷ cs) (w ∷ ws) p b v l h (made, t) =
      bind-Reads scalars variables point r _ c (b + total (c ∷ cs)) w (scalars.mul v _) made (λ q g.
        bind-Reads scalars variables point (Polynomial.mul scalars p q)
          (λ product. mul_all scalars product rs) (b + c) (b + total (c ∷ cs)) (scalars.mul v w)
          (scalars.mul v _) (mul-Reads scalars variables point p q b c v w (omega arith) h g)
          (λ s k.
            Reads-weaken scalars variables point (mul_all scalars s rs) (b + c + total cs)
              (b + total (c ∷ cs)) _ _ (omega arith) (scalars.mul_assoc v w _)
              (products-Reads rs cs ws s (b + c) (scalars.mul v w) (omega arith) k t)))
  products-Reads [] [] (w ∷ ws) p b v l h t = absurd t
  products-Reads [] (c ∷ cs) ws p b v l h t = absurd t
  products-Reads (r ∷ rs) [] ws p b v l h t = absurd t
  products-Reads (r ∷ rs) (c ∷ cs) [] p b v l h t = absurd t

  pub powers-Reads :
      (base : Polynomial N) (c : ℕ) (w : N) (n : ℕ) (p : Polynomial N) (b : ℕ) (v : N)
      → b + n * c < exponent_mod
      → IsReading scalars variables point base c w
      → IsReading scalars variables point p b v
      → Reads scalars variables point
          (mul_times scalars base n p)
          (b + n * c)
          (scalars.mul v (power scalars w n))
  unfolding mul_times
  powers-Reads base c w zero p b v l g h =
      Reads-weaken scalars variables point (ok p) b (b + 0 * c) v _ (omega arith)
        (sym (mul-one scalars v)) (p, refl, h)
  powers-Reads base c w (suc n) p b v l g h =
      let step : suc n * c ≡ c + n * c = grind arith in
      bind-Reads scalars variables point (Polynomial.mul scalars p base) (mul_times scalars base n)
        (b + c) (b + suc n * c) (scalars.mul v w) (scalars.mul v (power scalars w (suc n)))
        (mul-Reads scalars variables point p base b c v w (omega arith) h g)
        (λ q k.
          Reads-weaken scalars variables point (mul_times scalars base n q) (b + c + n * c)
            (b + suc n * c) _ _ (omega arith) (scalars.mul_assoc v w (power scalars w n))
            (powers-Reads base c w n q (b + c) (scalars.mul v w) (omega arith) g k))
