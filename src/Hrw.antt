-- ===== src/Hrw.antt =====
-- Rendezvous placement over a roster: src/expert_network/hrw.py. The digest is `sha256` of the text
-- `node:expert`; bytes of one length compare as the number that they write in base 256.
pub mod Sorted
pub mod Owner
pub mod Shares
mod Tests
use expert_sniper.Prelude.{
  ℕ, zero, suc, ◌+◌, Bool, true, false, ◌||◌, Option, none, some, List, [], ◌∷◌, ◌++◌, Eq, ◌==◌,
  if◌then◌else◌, ltb, leb, nat_eq,
}
use expert_sniper.Prelude.Sorted.{sorted}
use expert_sniper.Dict.{Dict, get?, set}

module _ {ℓ} {A : Type ℓ} ⦃e : Eq A⦄ where
  -- `x in xs`
  unfoldable pub mem : A → List A → Bool
  mem x [] = false
  mem x (y ∷ xs) = y == x || mem x xs

module _ {ℓ} {N : Type ℓ} ⦃e : Eq N⦄ where
  -- `{n: [] for n in roster}`
  unfoldable pub empty_plan : List N → Dict N (List ℕ) → Dict N (List ℕ)
  empty_plan [] out = out
  empty_plan (n ∷ ns) out = empty_plan ns (set n [] out)

-- `range(n)`
abbrev pub range : ℕ → List ℕ
range zero = []
range (suc n) = range n ++ n ∷ []

unfoldable pub filter {ℓ} : {A : Type ℓ} → (A → Bool) → List A → List A
filter p [] = []
filter p (x ∷ xs) = let rest = filter p xs in if p x then x ∷ rest else rest

module _ {ℓ} {N : Type ℓ} (digest : N → ℕ → ℕ) where
  -- The loop of `max(roster, key=score)`: a later node replaces `best` only if it scores higher.
  unfoldable pub max_by : ℕ → N → List N → N
  max_by expert best [] = best
  max_by expert best (n ∷ ns) =
      max_by expert (if ltb (digest best expert) (digest n expert) then n else best) ns

  -- `max` of an empty roster raises a ValueError (`none`).
  unfoldable pub owner : List N → ℕ → Option N
  owner [] expert = none
  owner (n ∷ ns) expert = some (max_by expert n ns)

module _ {ℓ} {N : Type ℓ} ⦃e : Eq N⦄ (digest : N → ℕ → ℕ) where
  -- `owner(roster, e) == me`
  unfoldable pub is_owner : List N → N → ℕ → Bool
  is_owner roster me expert = elim (owner digest roster expert) [ none ↦ false | some n ↦ n == me ]

  -- `none` is the ValueError for a node that is not in the roster.
  unfoldable pub partition : List N → N → ℕ → Option (List ℕ)
  partition roster me num_experts =
      if mem me roster
      then some (sorted (filter (is_owner roster me) (range num_experts)))
      else none

  -- `out[owner(roster, e)].append(e)`; `none` is the error of `owner`, or a KeyError.
  unfoldable pub assign : List N → ℕ → Dict N (List ℕ) → Option (Dict N (List ℕ))
  assign roster expert out = elim (owner digest roster expert) [
    | none ↦ none
    | some n ↦ elim (get? n out) [ none ↦ none | some ids ↦ some (set n (ids ++ expert ∷ []) out) ]
  ]

  -- The loop of `plan` over a list of expert ids.
  unfoldable pub assign_all : List N → List ℕ → Dict N (List ℕ) → Option (Dict N (List ℕ))
  assign_all roster [] out = some out
  assign_all roster (expert ∷ ids) out = elim (assign roster expert out) [
    | none ↦ none
    | some out' ↦ assign_all roster ids out'
  ]

  unfoldable pub plan : List N → ℕ → Option (Dict N (List ℕ))
  plan roster num_experts = assign_all roster (range num_experts) (empty_plan roster [])
