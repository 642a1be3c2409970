-- ===== src/Common/Decimal.antt =====
-- `std::to_string` of a `uint64_t`, and the number that decimal digits stand for.
use Prim.Native.Nat.{ℕ, zero, suc, ◌+◌, ◌-◌, ◌*◌, ◌/◌, ◌%◌, ◌^◌, ◌<◌}
use mathlib.Core.Path.{◌≡◌, refl, ap, sym, ◌∙◌}
use mathlib.Core.Logic.{◌≢◌, inl, inr}
use mathlib.Core.List.{[], ◌∷◌, ◌++◌}
use native.Mathlib.Omega.{arith}
use openevent.Common.Tests.{ltb, if◌then◌else◌, Bool-cases, IsU64}
use openevent.Common.ByteStrings.{Bytes}

-- The decimal digits of a number, at most as many as the fuel.
unfoldable pub decimal_loop : ℕ → ℕ → Bytes
decimal_loop zero n = []
decimal_loop (suc fuel) n =
    let front = decimal_loop fuel (n / 10) in
    if ltb n 10 then (b'0' + n) ∷ [] else front ++ (b'0' + n % 10) ∷ []

-- A `uint64_t` has 20 digits at most.
unfoldable pub to_string : ℕ → Bytes
unfolding decimal_loop
to_string n = decimal_loop 20 n

value_from : ℕ → Bytes → ℕ
value_from acc [] = acc
value_from acc (d ∷ ds) = value_from (acc * 10 + (d - b'0')) ds

value_from-append :
    (acc : ℕ) (ds : Bytes) (d : ℕ)
    → value_from acc (ds ++ d ∷ []) ≡ value_from acc ds * 10 + (d - b'0')
unfolding value_from
value_from-append acc [] d = refl
value_from-append acc (e ∷ ds) d = value_from-append (acc * 10 + (e - b'0')) ds d

value-decimal_loop : (fuel n : ℕ) → n < 10 ^ fuel → value_from 0 (decimal_loop fuel n) ≡ n
unfolding decimal_loop value_from
value-decimal_loop zero n h = omega arith
value-decimal_loop (suc fuel) n h = elim (Bool-cases (ltb n 10)) [
  | inl small ↦ rw small (omega arith)
  | inr large ↦ rw large (
      value_from-append 0 (decimal_loop fuel (n / 10)) (b'0' + n % 10)
      ∙ omega (arith, value-decimal_loop fuel (n / 10) (ground arith)))
]

-- Numbers of 64 bits with one text are one number.
pub to_string-injective : (m n : ℕ) → IsU64 m → IsU64 n → to_string m ≡ to_string n → m ≡ n
unfolding to_string
to_string-injective m n hm hn e =
    sym (value-decimal_loop 20 m (omega arith))
    ∙ ap (value_from 0) e
    ∙ value-decimal_loop 20 n (omega arith)

-- Whether a text starts with a digit.
abbrev StartsWithDigit : Bytes → Type 0
StartsWithDigit [] = ⊥
StartsWithDigit (d ∷ ds) = b'.' < d

front_digit : (xs ys : Bytes) → StartsWithDigit xs → StartsWithDigit (xs ++ ys)
front_digit [] ys h = absurd h
front_digit (x ∷ xs) ys h = h

decimal_loop_digit : (fuel n : ℕ) → StartsWithDigit (decimal_loop (suc fuel) n)
unfolding decimal_loop
decimal_loop_digit zero n = elim (Bool-cases (ltb n 10)) [
  | inl small ↦ rw small (omega arith)
  | inr large ↦ rw large (omega arith)
]
decimal_loop_digit (suc fuel) n = elim (Bool-cases (ltb n 10)) [
  | inl small ↦ rw small (omega arith)
  | inr large ↦ rw large (front_digit _ _ (decimal_loop_digit fuel (n / 10)))
]

differs : (ds rest : Bytes) → StartsWithDigit ds → ds ≢ b'.' ∷ rest
differs [] rest h = absurd h
differs (d ∷ ds) rest h = λ e. ground arith

-- No number's text starts with a full stop.
pub to_string-ne-dot : (n : ℕ) (rest : Bytes) → to_string n ≢ b'.' ∷ rest
unfolding to_string
to_string-ne-dot n rest = differs (decimal_loop 20 n) rest (decimal_loop_digit 19 n)
