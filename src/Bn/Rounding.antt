-- ===== src/Bn/Rounding.antt =====
-- bigIntDivRound and bigIntSetPrec of bn/decfixedpoint.go, and pow10 and max of bn/bn.go.
pub mod Laws
use go_utils.Prelude.Int.{ℤ, pos, negsuc, sign, quo, rem, ltb_ℤ, eq_ℤ, ◌+ℤ◌, ◌*ℤ◌}
use go_utils.Prelude.{ℕ, ◌-◌, ◌^◌, ◌||◌, ltb, nat_beq, if◌then◌else◌}

abbrev pub pow10 : ℕ → ℕ
pow10 n = 10 ^ n

unfoldable pub max : ℕ → ℕ → ℕ
max x y = if ltb y x then x else y

-- rem.Cmp(y / 2) >= 0 makes the quotient one more.
unfoldable pub div_round : ℤ → ℤ → ℤ
unfolding ◌+ℤ◌
div_round x y =
    let q = quo x y in
    let r = rem x y in
    if eq_ℤ (sign r) (pos 0) then q else if ltb_ℤ r (quo y (pos 2)) then q else q +ℤ pos 1

-- Equal precisions and zero are left alone; a larger precision multiplies, a smaller one rounds.
unfoldable pub set_prec : ℤ → ℕ → ℕ → ℤ
unfolding div_round ◌*ℤ◌
set_prec x curr_prec new_prec =
    if nat_beq curr_prec new_prec || eq_ℤ (sign x) (pos 0)
    then x
    else if ltb curr_prec new_prec
    then x *ℤ pos (pow10 (new_prec - curr_prec))
    else div_round x (pos (pow10 (curr_prec - new_prec)))
