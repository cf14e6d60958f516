-- ===== src/HyperDual/Examples.antt =====
-- Runs of hyper_dual.hh at order two.
use stocas.Common.{◌≡◌, refl, [], ◌∷◌, none, some}
use stocas.Common.Int.{ℤ, pos, negsuc, ◌+ℤ◌, ◌-ℤ◌, ◌*ℤ◌, neg_ℤ, tdiv}
use stocas.HyperDual.{HyperDual, variable, derivative, div, exp, log, sin}
use stocas.HyperDual.Whole.{whole}

-- 1 + 2x + 4x^2 and 1 + x.
abbrev f : HyperDual ℤ
f = pos 1 ∷ pos 2 ∷ pos 4 ∷ []

abbrev g : HyperDual ℤ
g = pos 1 ∷ pos 1 ∷ pos 0 ∷ []

-- 1 + x + 3x^2.
quotient_run : div whole 2 f g ≡ some (pos 1 ∷ pos 1 ∷ pos 3 ∷ [])
unfolding div ◌-ℤ◌ ◌*ℤ◌ tdiv
quotient_run = refl

pole_run : div whole 2 f (variable whole 2 (pos 0)) ≡ none
unfolding div variable
pole_run = refl

-- exp of 1 + 2x + 4x^2, where exp 1 is taken as 1.
exp_run : exp whole 2 f ≡ pos 1 ∷ pos 2 ∷ pos 6 ∷ []
unfolding exp ◌+ℤ◌ ◌*ℤ◌ tdiv
exp_run = refl

log_run : log whole 2 (negsuc 0 ∷ f) ≡ none
unfolding log
log_run = refl

sin_run : sin whole 2 f ≡ pos 0 ∷ pos 2 ∷ pos 4 ∷ []
unfolding sin ◌+ℤ◌ ◌*ℤ◌ neg_ℤ tdiv
sin_run = refl

derivative_run : derivative whole f 2 ≡ pos 8
unfolding derivative ◌*ℤ◌
derivative_run = refl
