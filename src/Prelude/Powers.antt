-- ===== src/Prelude/Powers.antt =====
-- Powers of the native numbers.
use native.Mathlib.Nat.{add-zero, add-suc, pow-suc, pow-zero}
use go_utils.Prelude.{ℕ, zero, suc, ◌+◌, ◌*◌, ◌^◌, ◌<◌, ◌≤◌, ◌-◌, ◌≡◌, ◌∙◌, ap, arith}

pub pow-add : (b m n : ℕ) → b ^ (m + n) ≡ b ^ m * b ^ n
pow-add b m zero = rw (pow-zero b) (rw (add-zero m) (omega arith))
pow-add b m (suc n) = rw (add-suc m n, pow-suc b n, pow-suc b (m + n), pow-add b m n) (omega arith)

pub pow-pos : (b n : ℕ) → 0 < b → 0 < b ^ n
pow-pos b zero h = rw (pow-zero b) (omega arith)
pow-pos b (suc n) h = rw (pow-suc b n) (grind (arith, pow-pos b n h))

le-mul : (a k : ℕ) → 0 < k → a ≤ a * k
le-mul a zero h = absurd (omega arith)
le-mul a (suc k) h = grind arith

pub pow_mono : (b m n : ℕ) → 0 < b → m ≤ n → b ^ m ≤ b ^ n
pow_mono b m n p l =
    let split : b ^ n ≡ b ^ m * b ^ (n - m) =
      ap (λ (k : ℕ). b ^ k) (omega arith) ∙ pow-add b m (n - m) in
    rw split (le-mul (b ^ m) (b ^ (n - m)) (pow-pos b (n - m) p))
