-- ===== src/Base/Decimal.antt =====
-- Decimal text of a number (`${n}`) and its reading (`Number(s)` on a text of digits).
use Prim.Native.Nat.{ℕ, zero, suc, ◌+◌, ◌-◌, ◌*◌, ◌/◌, ◌%◌, ◌<◌}
use mathlib.Core.Path.{◌≡◌, refl}
use mathlib.Core.List.{[], ◌∷◌}
use native.Mathlib.Omega.{arith}
use convira_sandbox.Base.Tests.{ltb, if◌then◌else◌}
use convira_sandbox.Base.Text.{Text, codes}

-- The digits of `n` in front of `out`, one for each unit of fuel at most.
digits_from : ℕ → ℕ → Text → Text
digits_from zero n out = out
digits_from (suc fuel) n out =
    let rest = digits_from fuel (n / 10) ((b'0' + n % 10) ∷ out) in
    if ltb n 10 then (b'0' + n) ∷ out else rest

-- A number has at most as many digits as its value plus one.
unfoldable pub to_decimal : ℕ → Text
unfolding digits_from
to_decimal n = digits_from (suc n) n []

read_digits : ℕ → Text → ℕ
read_digits n [] = n
read_digits n (c ∷ s) = read_digits (n * 10 + (c - b'0')) s

unfoldable pub of_decimal : Text → ℕ
unfolding read_digits
of_decimal s = read_digits 0 s

to_decimal_test : to_decimal 1048576 ≡ codes "1048576"
unfolding to_decimal
to_decimal_test = refl

read_digits-digits_from :
    (fuel n : ℕ) (out : Text)
    → n < fuel
    → read_digits 0 (digits_from fuel n out) ≡ read_digits n out
unfolding read_digits digits_from
read_digits-digits_from zero n out h = absurd (omega arith)
read_digits-digits_from (suc fuel) n out h =
    ground (arith, read_digits-digits_from fuel (n / 10) ((b'0' + n % 10) ∷ out))
