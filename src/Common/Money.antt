-- ===== src/Common/Money.antt =====
-- `f"{currency} {amount_cents / 100:,.2f}"`: an amount in cents with thousands separators. The source
-- divides as floats, which is exact to the cent for amounts below 2 ^ 53 cents.
use Prim.Native.Nat.{ℕ, zero, suc, ◌/◌, ◌%◌}
use Prim.Native.String.{String, ◌++◌, char_at}
use mathlib.Core.Path.{◌≡◌, refl}
use mathlib.Core.List.{[], ◌∷◌}
use billing_recovery_executi.Common.Tests.{ltb, if◌then◌else◌}
use billing_recovery_executi.Common.Text.{show_ℕ, fstring}
use billing_recovery_executi.Common.Int.{ℤ, pos, negsuc}

digit : ℕ → String
digit n = String.◌∷◌ (char_at "0123456789" (n % 10)) String.[]

abbrev two_digits : ℕ → String
two_digits n = digit (n / 10) ++ digit n

-- `fuel` rounds are enough where `n < fuel`.
grouped_from : ℕ → ℕ → String
unfolding digit
grouped_from zero n = show_ℕ n
grouped_from (suc fuel) n =
    let rest = grouped_from fuel (n / 1000) ++ "," ++ digit (n / 100) ++ two_digits n in
    if ltb n 1000 then show_ℕ n else rest

cents : ℕ → String
unfolding grouped_from
cents n = grouped_from (suc n) (n / 100) ++ "." ++ two_digits n

unfoldable pub format_amount : ℤ → String → String
unfolding cents
format_amount (pos n) currency = fstring (currency ∷ " " ∷ cents n ∷ [])
format_amount (negsuc n) currency = fstring (currency ∷ " -" ∷ cents (suc n) ∷ [])

grouped : format_amount (pos 123456789) "EUR" ≡ "EUR 1,234,567.89"
unfolding format_amount show_ℕ
grouped = refl
