-- ===== src/Kube/Thousandths.antt =====
-- Numbers in thousandths with the operations of `Float64`, for the examples: texts are read as
-- whole thousandths, and a difference stops at zero.
use faas_share.Common.{ℕ, ◌+◌, ◌-◌, ℤ, pos, Option, none, some, ltb, parse_int}
use faas_share.Common.Int.{negsuc}
use faas_share.Kube.{Float64}

abbrev non_negative : Option ℤ → Option ℕ
non_negative none = none
non_negative (some (pos n)) = some n
non_negative (some (negsuc n)) = none

abbrev pub thousandths : Float64
thousandths = record {
  F = ℕ;
  zero = 0;
  one = 1000;
  add = λ a b. a + b;
  sub = λ a b. a - b;
  gt = λ a b. ltb b a;
  lt = λ a b. ltb a b;
  parse = λ s. non_negative (parse_int s);
  milli = λ a. pos a;
  print = λ a. "0.5";
}
