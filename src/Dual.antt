-- ===== src/Dual.antt =====
-- src/numerica_core/include/numerica_core/dual.hh: a value with its derivative, over the scalar
-- interface of HyperDual.
use stocas.HyperDual.{DualScalar}

pub record Dual (F : Type 0) : Type 0 where
  pub value : F
  pub derivative : F

module _ {F : Type 0} (scalar : DualScalar F) where
  unfoldable pub variable : F → Dual F
  variable value = record { value = value; derivative = (scalar.number 1) }

  unfoldable pub constant : F → Dual F
  constant value = record { value = value; derivative = (scalar.number 0) }

  unfoldable pub add : Dual F → Dual F → Dual F
  add a b = record {
    value = scalar.add a.value b.value;
    derivative = scalar.add a.derivative b.derivative;
  }

  unfoldable pub sub : Dual F → Dual F → Dual F
  sub a b = record {
    value = scalar.sub a.value b.value;
    derivative = scalar.sub a.derivative b.derivative;
  }

  unfoldable pub mul : Dual F → Dual F → Dual F
  mul a b = record {
    value = scalar.mul a.value b.value;
    derivative = scalar.add (scalar.mul a.derivative b.value) (scalar.mul a.value b.derivative);
  }

  unfoldable pub div : Dual F → Dual F → Dual F
  div a b = record {
    value = scalar.divide a.value b.value;
    derivative =
        scalar.divide
          (scalar.sub (scalar.mul a.derivative b.value) (scalar.mul a.value b.derivative))
          (scalar.mul b.value b.value);
  }

  unfoldable pub neg : Dual F → Dual F
  neg a = record { value = scalar.neg a.value; derivative = scalar.neg a.derivative }

  unfoldable pub exp : Dual F → Dual F
  exp x =
      let exp_value : F = scalar.exp x.value in
      record { value = exp_value; derivative = scalar.mul exp_value x.derivative }

  unfoldable pub log : Dual F → Dual F
  log x = record { value = scalar.log x.value; derivative = scalar.divide x.derivative x.value }
