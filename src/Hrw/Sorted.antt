-- ===== src/Hrw/Sorted.antt =====
-- `sorted` over a part of `range(n)` changes nothing, and what such a part holds.
use mathlib.Core.List.{append-nil}
use expert_sniper.Prelude.{
  ℕ, zero, suc, ◌≤◌, ◌≡◌, refl, ap, Bool, ◌||◌, ◌&&◌, List, [], ◌∷◌, ◌++◌, Eq, nat_eq, ltb, arith,
  Bool-cases, inl, inr, nat_beq, nat_beq_iff,
}
use expert_sniper.Prelude.Sorted.{AllFrom, AllBelow, Ascending, sorted, sorted-Ascending}
use expert_sniper.Hrw.{mem, range, filter}

AllFrom-append_last : (x n : ℕ) (xs : List ℕ) → AllFrom x xs → x ≤ n → AllFrom x (xs ++ n ∷ [])
AllFrom-append_last x n [] h p = (p, tt)
AllFrom-append_last x n (y ∷ xs) h p = (h.0, AllFrom-append_last x n xs h.1 p)

Ascending-append_last :
    (n : ℕ) (xs : List ℕ) → Ascending xs → AllBelow n xs → Ascending (xs ++ n ∷ [])
Ascending-append_last n [] h b = (tt, tt)
Ascending-append_last n (x ∷ xs) h b =
    (AllFrom-append_last x n xs h.0 (omega arith), Ascending-append_last n xs h.1 b.1)

AllBelow-suc : (n : ℕ) (xs : List ℕ) → AllBelow n xs → AllBelow (suc n) xs
AllBelow-suc n [] h = h
AllBelow-suc n (x ∷ xs) h = (omega arith, AllBelow-suc n xs h.1)

AllBelow-append_last : (n : ℕ) (xs : List ℕ) → AllBelow n xs → AllBelow (suc n) (xs ++ n ∷ [])
AllBelow-append_last n [] h = (omega arith, tt)
AllBelow-append_last n (x ∷ xs) h = (omega arith, AllBelow-append_last n xs h.1)

pub filter-append {ℓ} :
    {A : Type ℓ} (p : A → Bool) (xs ys : List A) → filter p (xs ++ ys) ≡ filter p xs ++ filter p ys
unfolding filter
filter-append p [] ys = refl
filter-append p (x ∷ xs) ys = elim (Bool-cases (p x)) [
  | inl h ↦ rw h (ap (◌∷◌ x) (filter-append p xs ys))
  | inr h ↦ rw h (filter-append p xs ys)
]

pub filter-range_shape :
    (p : ℕ → Bool) (n : ℕ) → Ascending (filter p (range n)) × AllBelow n (filter p (range n))
unfolding filter
filter-range_shape p zero = (tt, tt)
filter-range_shape p (suc n) =
    let (up, below) = filter-range_shape p n in
    rw (filter-append p (range n) (n ∷ [])) (elim (Bool-cases (p n)) [
      | inl h ↦ rw h (Ascending-append_last n _ up below, AllBelow-append_last n _ below)
      | inr h ↦ rw (h, append-nil) (up, AllBelow-suc n _ below)
    ])

pub sorted-filter-range : (p : ℕ → Bool) (n : ℕ) → sorted (filter p (range n)) ≡ filter p (range n)
sorted-filter-range p n = sorted-Ascending _ (filter-range_shape p n).0

pub mem-append {ℓ} :
    {A : Type ℓ} ⦃e : Eq A⦄ (x : A) (xs ys : List A) → mem x (xs ++ ys) ≡ (mem x xs || mem x ys)
unfolding mem
mem-append x [] ys = refl
mem-append x (y ∷ xs) ys = ground (arith, mem-append x xs ys)

pub mem-filter-range : (p : ℕ → Bool) (n x : ℕ) → mem x (filter p (range n)) ≡ (ltb x n && p x)
unfolding filter mem
mem-filter-range p zero x = ground arith
mem-filter-range p (suc n) x =
    rw
      (
        filter-append p (range n) (n ∷ []),
        mem-append x (filter p (range n)) (filter p (n ∷ [])),
        mem-filter-range p n x,
      )
      (elim (Bool-cases (nat_beq n x)) [
        | inl h ↦ rw (← (nat_beq_iff n x).0 h) (ground (arith, (nat_beq_iff n n).1 refl))
        | inr h ↦ ground arith
      ])
