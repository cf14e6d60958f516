-- ===== src/Derivative/Registry.antt =====
-- The registry of hooks in calculus_core/derivative.cc.
use stocas.Common.{
  ℕ, ◌≡◌, ◌≢◌, refl, false, List, [], ◌∷◌, some, ◌==◌, ==_iff, if◌then◌else◌, inl, inr, Bool-cases,
  arith,
}
use stocas.Algebra.{Ring}
use stocas.Atom.{Numbers}
use stocas.Derivative.{
  Functions, DerivativeHook, HookRegistry, get_hook, set_hook, register_derivative_hook,
  one_argument, register_builtin_hooks, ensure_builtin_hooks_registered, call,
}

get_hook-set_hook :
    {N : Type 0} (head other : ℕ) (hook : DerivativeHook N) (hooks : List (ℕ × DerivativeHook N))
    → get_hook other (set_hook head hook hooks)
      ≡ (if head == other then some hook else get_hook other hooks)
unfolding get_hook set_hook
get_hook-set_hook head other hook [] = refl
get_hook-set_hook head other hook ((h, old) ∷ rest) = elim (Bool-cases (h == head)) [
  | inl same ↦
      let e = (==_iff h head).0 same in
      elim (Bool-cases (head == other)) [
        | inl found ↦ rw (same, e, found)
        | inr other_head ↦ rw (same, e, other_head)
      ]
  | inr differs ↦ elim (Bool-cases (h == other)) [
    | inl here ↦
        let e = (==_iff h other).0 here in
        let apart : (head == other) ≡ false = ground arith in rw (differs, here, apart)
    | inr later ↦ rw (differs, later) (get_hook-set_hook head other hook rest)
  ]
]

apart : (a b : ℕ) → a ≢ b → (a == b) ≡ false
apart a b h = elim (Bool-cases (a == b)) [ inl e ↦ absurd (h ((==_iff a b).0 e)) | inr e ↦ e ]

module _ {N : Type 0} (numbers : Numbers N) (scalars : Ring N) (functions : Functions) where
  -- Before the builtin hooks are registered, and where sin has an id different from those of
  -- cos, exp and ln, a hook registered for sin is not the one that derivative uses: it uses the
  -- builtin one.
  pub early_hook_lost :
      (registry : HookRegistry N) (hook : DerivativeHook N)
      → registry.registered ≡ false
      → functions.cos ≢ functions.sin
      → functions.exp ≢ functions.sin
      → functions.ln ≢ functions.sin
      → get_hook functions.sin
          (ensure_builtin_hooks_registered numbers scalars functions
            (register_derivative_hook registry functions.sin hook)).hooks
        ≡ some (
            one_argument numbers scalars functions
              (λ x. call numbers scalars functions functions.cos x))
  unfolding ensure_builtin_hooks_registered register_derivative_hook register_builtin_hooks
  early_hook_lost registry hook h cos exp ln = rw (
    h,
    get_hook-set_hook functions.ln functions.sin,
    apart _ _ ln,
    get_hook-set_hook functions.exp functions.sin,
    apart _ _ exp,
    get_hook-set_hook functions.cos functions.sin,
    apart _ _ cos,
    get_hook-set_hook functions.sin functions.sin,
    (==_iff functions.sin functions.sin).1 refl,
  )
