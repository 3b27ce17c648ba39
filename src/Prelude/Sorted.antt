-- ===== src/Prelude/Sorted.antt =====
-- Python's `sorted` on a list of numbers, and what it keeps.
use Prim.Native.Nat.{ℕ, suc, ◌≤◌, ◌<◌}
use mathlib.Core.Path.{◌≡◌, refl}
use mathlib.Core.Bool.{Bool, false, ◌||◌}
use mathlib.Core.Logic.{inl, inr}
use mathlib.Core.List.{List, [], ◌∷◌}
use native.Mathlib.Omega.{arith}
use expert_sniper.Prelude.Lists.{length}
use expert_sniper.Prelude.Tests.{leb, nat_beq, if◌then◌else◌, Bool-cases, leb→le}

-- `sorted(xs)`
unfoldable pub insert : ℕ → List ℕ → List ℕ
insert x [] = x ∷ []
insert x (y ∷ ys) = let rest = insert x ys in if leb x y then x ∷ y ∷ ys else y ∷ rest

unfoldable pub sorted : List ℕ → List ℕ
sorted [] = []
sorted (x ∷ xs) = insert x (sorted xs)

-- `x in xs`
abbrev pub is_in : ℕ → List ℕ → Bool
is_in x [] = false
is_in x (y ∷ ys) = nat_beq y x || is_in x ys

abbrev pub AllFrom : ℕ → List ℕ → Type 0
AllFrom x [] = Unit
AllFrom x (y ∷ ys) = (x ≤ y) × AllFrom x ys

abbrev pub AllBelow : ℕ → List ℕ → Type 0
AllBelow n [] = Unit
AllBelow n (y ∷ ys) = (y < n) × AllBelow n ys

abbrev pub Ascending : List ℕ → Type 0
Ascending [] = Unit
Ascending (x ∷ xs) = AllFrom x xs × Ascending xs

insert_first : (x : ℕ) (ys : List ℕ) → AllFrom x ys → insert x ys ≡ x ∷ ys
unfolding insert
insert_first x [] h = refl
insert_first x (y ∷ ys) h = ground arith

pub sorted-Ascending : (xs : List ℕ) → Ascending xs → sorted xs ≡ xs
unfolding sorted
sorted-Ascending [] h = refl
sorted-Ascending (x ∷ xs) h = rw (sorted-Ascending xs h.1) (insert_first x xs h.0)

pub AllFrom-le : (x y : ℕ) (ys : List ℕ) → x ≤ y → AllFrom y ys → AllFrom x ys
AllFrom-le x y [] p h = tt
AllFrom-le x y (z ∷ ys) p h = (omega (arith, h.0), AllFrom-le x y ys p h.1)

insert-AllFrom : (z x : ℕ) (ys : List ℕ) → z ≤ x → AllFrom z ys → AllFrom z (insert x ys)
unfolding insert
insert-AllFrom z x [] p h = (p, tt)
insert-AllFrom z x (y ∷ ys) p h = elim (Bool-cases (leb x y)) [
  | inl le ↦ rw le (p, (h.0, h.1))
  | inr gt ↦ rw gt (h.0, insert-AllFrom z x ys p h.1)
]

insert-Ascending : (x : ℕ) (ys : List ℕ) → Ascending ys → Ascending (insert x ys)
unfolding insert
insert-Ascending x [] h = (tt, tt)
insert-Ascending x (y ∷ ys) h = elim (Bool-cases (leb x y)) [
  | inl le ↦ let p : x ≤ y = leb→le x y le in rw le ((p, AllFrom-le x y ys p h.0), h)
  | inr gt ↦ rw gt (insert-AllFrom y x ys (ground arith) h.0, insert-Ascending x ys h.1)
]

pub sorted_lem : (xs : List ℕ) → Ascending (sorted xs)
unfolding sorted
sorted_lem [] = tt
sorted_lem (x ∷ xs) = insert-Ascending x (sorted xs) (sorted_lem xs)

insert-AllBelow : (n x : ℕ) (ys : List ℕ) → x < n → AllBelow n ys → AllBelow n (insert x ys)
unfolding insert
insert-AllBelow n x [] p h = (p, tt)
insert-AllBelow n x (y ∷ ys) p h = elim (Bool-cases (leb x y)) [
  | inl le ↦ rw le (p, h)
  | inr gt ↦ rw gt (h.0, insert-AllBelow n x ys p h.1)
]

pub sorted-AllBelow : (n : ℕ) (xs : List ℕ) → AllBelow n xs → AllBelow n (sorted xs)
unfolding sorted
sorted-AllBelow n [] h = tt
sorted-AllBelow n (x ∷ xs) h = insert-AllBelow n x (sorted xs) h.0 (sorted-AllBelow n xs h.1)

is_in-insert : (z x : ℕ) (ys : List ℕ) → is_in z (insert x ys) ≡ (nat_beq x z || is_in z ys)
unfolding insert
is_in-insert z x [] = refl
is_in-insert z x (y ∷ ys) = ground (arith, is_in-insert z x ys)

pub is_in-sorted : (z : ℕ) (xs : List ℕ) → is_in z (sorted xs) ≡ is_in z xs
unfolding sorted
is_in-sorted z [] = refl
is_in-sorted z (x ∷ xs) = ground (arith, is_in-insert z x (sorted xs), is_in-sorted z xs)

length-insert : (x : ℕ) (ys : List ℕ) → length (insert x ys) ≡ suc (length ys)
unfolding insert
length-insert x [] = refl
length-insert x (y ∷ ys) = ground (arith, length-insert x ys)

pub length-sorted : (xs : List ℕ) → length (sorted xs) ≡ length xs
unfolding sorted
length-sorted [] = refl
length-sorted (x ∷ xs) = omega (arith, length-insert x (sorted xs), length-sorted xs)
