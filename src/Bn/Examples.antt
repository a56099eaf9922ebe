-- ===== src/Bn/Examples.antt =====
-- Calculations with concrete decimals.
use go_utils.Prelude.Int.{pos, negsuc, ◌+ℤ◌, ◌*ℤ◌}
use go_utils.Prelude.{◌^◌, ◌≡◌}
use go_utils.Bn.Rounding.{max}
use go_utils.Bn.FixedPoint.{DecFixedPointNumber, absolute}
use go_utils.Bn.Encoding.{marshal_binary, unmarshal_binary, ok, unmarshal-marshal}
use go_utils.Bn.FloatPoint
use go_utils.Bn.FloatPoint.{DecFloatPointNumber, adjust_prec}
use go_utils.Bn.FloatPoint.Adjust.{Adjusted, adjust_prec-Adjusted}
use go_utils.Bn.FloatPoint.Exact.{SameValue, IsLowest, float_add_exact}

-- 1.20, 0.5, -1.75 and 2.5
abbrev price : DecFixedPointNumber
price = record { p = 2; x = pos 120 }

abbrev half : DecFixedPointNumber
half = record { p = 1; x = pos 5 }

abbrev loss : DecFloatPointNumber
loss = record { x = record { p = 2; x = negsuc 174 } }

abbrev gain : DecFloatPointNumber
gain = record { x = record { p = 1; x = pos 25 } }

unmarshal-marshal_example : unmarshal_binary (marshal_binary price) ≡ ok (absolute price)
unmarshal-marshal_example = unmarshal-marshal price

adjust_prec-Adjusted_example : Adjusted price (adjust_prec price)
adjust_prec-Adjusted_example = adjust_prec-Adjusted price

float_add_exact_example :
    SameValue
      (FloatPoint.add loss gain).x
      (record { p = 2; x = negsuc 174 *ℤ pos (10 ^ 0) +ℤ pos 25 *ℤ pos (10 ^ 1) })
    × IsLowest (FloatPoint.add loss gain).x
unfolding max
float_add_exact_example = float_add_exact loss gain
