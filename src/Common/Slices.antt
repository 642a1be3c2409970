-- ===== src/Common/Slices.antt =====
-- Fronts and rests of lists.
use Prim.Native.Nat.{ℕ, zero, suc, ◌+◌, ◌-◌, ◌≤◌, min}
use mathlib.Core.Path.{◌≡◌, refl, sym, ap, ◌∙◌}
use mathlib.Core.List.{List, [], ◌∷◌, ◌++◌}
use native.Mathlib.Omega.{arith}
use openevent.Common.Lists.{length, take, drop}

module _ {ℓ} {A : Type ℓ} where
  take_nil : (n : ℕ) → take {A = A} n [] ≡ []
  take_nil zero = refl
  take_nil (suc n) = refl

  drop_nil : (n : ℕ) → drop {A = A} n [] ≡ []
  drop_nil zero = refl
  drop_nil (suc n) = refl

  pub take-drop : (n : ℕ) (xs : List A) → take n xs ++ drop n xs ≡ xs
  take-drop zero xs = refl
  take-drop (suc n) [] = refl
  take-drop (suc n) (x ∷ xs) = ap (λ ys. x ∷ ys) (take-drop n xs)

  pub take-take : (n k : ℕ) (xs : List A) → n ≤ length (take k xs) → take n (take k xs) ≡ take n xs
  take-take zero k xs h = refl
  take-take (suc n) zero xs h = absurd (omega arith)
  take-take (suc n) (suc k) [] h = refl
  take-take (suc n) (suc k) (x ∷ xs) h = ap (λ ys. x ∷ ys) (take-take n k xs (omega arith))

  -- A front in two pieces.
  pub take_more :
      (n k : ℕ) (xs : List A) → n ≤ k → take n xs ++ take (k - n) (drop n xs) ≡ take k xs
  take_more zero k xs h = ap (λ m. take m xs) (omega arith)
  take_more (suc n) zero xs h = absurd (omega arith)
  take_more (suc n) (suc k) [] h = take_nil (suc k - suc n)
  take_more (suc n) (suc k) (x ∷ xs) h =
      let e : suc k - suc n ≡ k - n = omega arith in
      ap (λ ys. x ∷ ys) (rw e (take_more n k xs (omega arith)))

  pub drop_more : (m n : ℕ) (xs : List A) → drop (m + n) xs ≡ drop n (drop m xs)
  drop_more zero n xs = ap (λ k. drop k xs) (omega arith)
  drop_more (suc m) n [] = drop_nil (suc m + n) ∙ sym (drop_nil n)
  drop_more (suc m) n (x ∷ xs) =
      let e : suc m + n ≡ suc (m + n) = omega arith in rw e (drop_more m n xs)

  pub length-drop : (n : ℕ) (xs : List A) → length (drop n xs) ≡ length xs - n
  length-drop zero xs = omega arith
  length-drop (suc n) [] = omega arith
  length-drop (suc n) (x ∷ xs) = omega (arith, length-drop n xs)

  pub take_within : (n : ℕ) (xs : List A) → take (min n (length xs)) xs ≡ take n xs
  take_within zero xs = let e : min 0 (length xs) ≡ 0 = omega arith in rw e
  take_within (suc n) [] = take_nil _
  take_within (suc n) (x ∷ xs) =
      let e : min (suc n) (suc (length xs)) ≡ suc (min n (length xs)) = omega arith in
      rw e (ap (λ ys. x ∷ ys) (take_within n xs))
