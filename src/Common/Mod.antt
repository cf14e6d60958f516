-- ===== src/Common/Mod.antt =====
-- Residues: products and powers modulo a number.
use Prim.Native.Nat.{ℕ, zero, suc, ◌+◌, ◌-◌, ◌<◌, ◌*◌, ◌/◌, ◌%◌, ◌^◌}
use mathlib.Core.Path.{◌≡◌, sym, ap, ◌∙◌, ◌≡⟨◌⟩◌, ◌∎}
use native.Mathlib.Nat.{
  add-mul-mod_self_left, mod-add-div, mul_comm, pow-zero, pow-suc, mul_assoc, one-mul,
  mod-eq-sub-mod, mod-add-mod, add-mod-mod, mod-eq_of_lt,
}
use mathlib.Core.Logic.{◌⊎◌, inl, inr}
use native.Mathlib.Omega.{arith}
use stocas.Common.Tests.{leb, leb→le, Bool-cases, if◌then◌else◌}

pub mod-mul : (a b m : ℕ) → (a % m) * b % m ≡ a * b % m
mod-mul a b m =
    (a % m) * b % m
    ≡⟨ sym (add-mul-mod_self_left ((a % m) * b) m ((a / m) * b)) ⟩
      ((a % m) * b + m * ((a / m) * b)) % m
    ≡⟨ ap (λ t. t % m) (omega (arith, ap (λ (t : ℕ). t * b) (mod-add-div a m))) ⟩ a * b % m ∎

pub mul-mod : (a b m : ℕ) → a * (b % m) % m ≡ a * b % m
mul-mod a b m = rw (mul_comm a (b % m), mul_comm a b) (mod-mul b a m)

pow-one : (b : ℕ) → b ^ 1 ≡ b
pow-one b = pow-suc b 0 ∙ (rw (pow-zero b) (one-mul b))

mod_two : (e : ℕ) → (e % 2 ≡ 0) ⊎ (e % 2 ≡ 1)
mod_two e = ground arith

-- Square and multiply: one round on the exponent's binary digits.
pub pow-even : (b h : ℕ) → b ^ (h + h) ≡ (b * b) ^ h
pow-even b zero = pow-zero b ∙ sym (pow-zero (b * b))
pow-even b (suc h) =
    b ^ (suc h + suc h)
    ≡⟨ ap (λ t. b ^ t) two_more ⟩ b ^ suc (suc (h + h))
    ≡⟨ (rw (pow-suc b (suc (h + h)), pow-suc b (h + h), pow-even b h) (mul_assoc _ b b)) ⟩
      (b * b) ^ h * (b * b)
    ≡⟨ sym (pow-suc (b * b) h) ⟩ (b * b) ^ suc h ∎
  where
    two_more : suc h + suc h ≡ suc (suc (h + h))
    two_more = omega arith

pub pow-halves : (b e : ℕ) → b ^ e ≡ b ^ (e % 2) * (b * b) ^ (e / 2)
pow-halves b e = elim (mod_two e) [
  | inl even ↦ rw (even, pow-zero b, ← pow-even) (ap (λ t. b ^ t) (omega arith) ∙ sym (one-mul _))
  | inr odd ↦
      rw (odd, ← pow-even)
        (ap (λ t. b ^ t) (omega arith)
          ∙ pow-suc b (e / 2 + e / 2)
          ∙ (rw (pow-one b) (mul_comm _ b)))
]

pub pow-mod : (b e m : ℕ) → (b % m) ^ e % m ≡ b ^ e % m
pow-mod b zero m = rw (pow-zero b, pow-zero (b % m))
pow-mod b (suc e) m =
    rw (pow-suc b e, pow-suc (b % m) e)
      (sym (mod-mul ((b % m) ^ e) (b % m) m)
        ∙ (rw (pow-mod b e m) (mod-mul (b ^ e) (b % m) m ∙ mul-mod (b ^ e) b m)))

pub mod-add-mod-mul : (r d h m : ℕ) → (r % m + (d % m) * h) % m ≡ (r + d * h) % m
mod-add-mod-mul r d h m =
    mod-add-mod r m ((d % m) * h)
    ∙ sym (add-mod-mod r ((d % m) * h) m)
    ∙ (rw (mod-mul d h m) (add-mod-mod r (d * h) m))

-- One subtraction reduces a number below twice the modulus.
pub mod_once : (n m : ℕ) → n < m + m → n % m ≡ (if leb m n then n - m else n)
mod_once n m h = elim (Bool-cases (leb m n)) [
  | inl over ↦ rw over (mod-eq-sub-mod (leb→le m n over) ∙ mod-eq_of_lt (omega arith))
  | inr under ↦ rw under (mod-eq_of_lt (ground arith))
]
