-- ===== src/HyperDual/Whole.antt =====
-- Scalars for runs of hyper_dual.hh and series.hh: integers, with division towards zero, and exp, log,
-- sin and cos as they are at 0 and 1.
use stocas.Common.Int.{ℤ, pos, ◌+ℤ◌, ◌-ℤ◌, ◌*ℤ◌, neg_ℤ, tdiv, ltb_ℤ, ◌==ℤ◌}
use stocas.HyperDual.{DualScalar}

abbrev pub whole : DualScalar ℤ
whole = record {
  add = ◌+ℤ◌;
  sub = ◌-ℤ◌;
  mul = ◌*ℤ◌;
  divide = tdiv;
  neg = neg_ℤ;
  number = pos;
  eq = ◌==ℤ◌;
  positive = λ z. ltb_ℤ (pos 0) z;
  exp = λ z. pos 1;
  log = λ z. pos 0;
  sin = λ z. pos 0;
  cos = λ z. pos 1;
}
