-- ===== src/Prelude/Slices.antt =====
-- Slices of slices, and slices of a list that was written to.
use Prim.Native.Nat.{ℕ, zero, suc, ◌+◌, ◌≤◌}
use mathlib.Core.Path.{◌≡◌, refl, sym, ap}
use mathlib.Core.List.{List, [], ◌∷◌, ◌++◌}
use native.Mathlib.Omega.{arith}
use expert_sniper.Prelude.Lists.{length, take, drop}

pub drop-drop {ℓ} : {A : Type ℓ} (m n : ℕ) (xs : List A) → drop m (drop n xs) ≡ drop (n + m) xs
drop-drop m zero xs = let e : 0 + m ≡ m = omega arith in rw e refl
drop-drop zero (suc n) [] = let e : suc n + 0 ≡ suc n = omega arith in rw e refl
drop-drop (suc m) (suc n) [] = let e : suc n + suc m ≡ suc (n + suc m) = omega arith in rw e refl
drop-drop m (suc n) (x ∷ xs) =
    let e : suc n + m ≡ suc (n + m) = omega arith in rw e (drop-drop m n xs)

take-nil {ℓ} : {A : Type ℓ} (n : ℕ) → ◌≡◌ {A = List A} (take n []) []
take-nil zero = refl
take-nil (suc n) = refl

pub drop-take {ℓ} :
    {A : Type ℓ} (m n : ℕ) (xs : List A) → drop m (take (m + n) xs) ≡ take n (drop m xs)
drop-take zero n xs = let e : 0 + n ≡ n = omega arith in rw e refl
drop-take (suc m) n [] = let e : suc m + n ≡ suc (m + n) = omega arith in rw e (sym (take-nil n))
drop-take (suc m) n (x ∷ xs) =
    let e : suc m + n ≡ suc (m + n) = omega arith in rw e (drop-take m n xs)

pub slice-append {ℓ} :
    {A : Type ℓ} (m k : ℕ) (xs ys : List A)
    → m + k ≤ length xs
    → take k (drop m (xs ++ ys)) ≡ take k (drop m xs)
slice-append zero zero xs ys h = refl
slice-append zero (suc k) [] ys h = absurd (omega (arith, h))
slice-append zero (suc k) (x ∷ xs) ys h =
    ap (λ rest. x ∷ rest) (slice-append zero k xs ys (omega (arith, h)))
slice-append (suc m) k [] ys h = absurd (omega (arith, h))
slice-append (suc m) k (x ∷ xs) ys h = slice-append m k xs ys (omega (arith, h))

pub slice-take {ℓ} :
    {A : Type ℓ} (m k n : ℕ) (xs : List A)
    → m + k ≤ n
    → take k (drop m (take n xs)) ≡ take k (drop m xs)
slice-take zero zero n xs h = refl
slice-take zero (suc k) zero xs h = absurd (omega (arith, h))
slice-take (suc m) k zero xs h = absurd (omega (arith, h))
slice-take zero (suc k) (suc n) [] h = refl
slice-take zero (suc k) (suc n) (x ∷ xs) h =
    ap (λ rest. x ∷ rest) (slice-take zero k n xs (omega (arith, h)))
slice-take (suc m) k (suc n) [] h = refl
slice-take (suc m) k (suc n) (x ∷ xs) h = slice-take m k n xs (omega (arith, h))
