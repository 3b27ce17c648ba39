-- ===== src/Speculative/Lookup.antt =====
-- `prompt_lookup_draft` of src/mlx_expert_sniper/speculative.py: the tokens that followed the newest
-- earlier occurrence of the longest suffix n-gram.
pub mod Best
use expert_sniper.Prelude.{
  ℕ, zero, suc, ◌+◌, ◌-◌, Bool, true, false, ◌&&◌, Option, none, some, List, [], ◌∷◌, length, take,
  drop, nat_beq, leb, if◌then◌else◌,
}
use expert_sniper.Dict.Order.{last_n}

-- `a == b` of two lists
unfoldable pub list_eq : List ℕ → List ℕ → Bool
list_eq [] [] = true
list_eq [] (y ∷ ys) = false
list_eq (x ∷ xs) [] = false
list_eq (x ∷ xs) (y ∷ ys) = nat_beq x y && list_eq xs ys

-- `xs[start:start + n]`
abbrev pub slice : ℕ → ℕ → List ℕ → List ℕ
slice start n xs = take n (drop start xs)

module _ (context : List ℕ) (k : ℕ) where
  -- The inner loop, with `count` starts left: they are count - 1, …, 0.
  unfoldable pub search_from : ℕ → ℕ → Option (List ℕ)
  search_from n zero = none
  search_from n (suc start) =
      let older = search_from n start in
      let found : Option (List ℕ) = elim (slice (start + n) k context) [
        | [] ↦ older
        | c ∷ cont ↦ some (c ∷ cont)
      ] in
      if list_eq (slice start n context) (last_n n context) then found else older

  -- The outer loop, `for n in range(max_ngram, 0, -1)`.
  unfoldable pub prompt_lookup_draft : ℕ → List ℕ
  prompt_lookup_draft zero = []
  prompt_lookup_draft (suc n) =
      let shorter = prompt_lookup_draft n in
      if leb (length context) (suc n)
      then shorter
      else elim (search_from (suc n) (length context - suc n)) [ none ↦ shorter | some cont ↦ cont ]
