-- ===== src/Hrw/Tests.antt =====
-- Runs of hrw.py on a small roster with a made-up digest, and instances of its theorems.
use expert_sniper.Prelude.{
  arith, ℕ, ◌+◌, ◌*◌, ◌%◌, ◌≡◌, refl, ◌⊎◌, String, string_eq, nat_eq, ◌==◌, none, some, List, [],
  ◌∷◌, if◌then◌else◌, true, ltb, ◌&&◌,
}
use expert_sniper.Dict.{Dict, get?, set}
use expert_sniper.Prelude.Sorted.{insert, sorted}
use expert_sniper.Hrw.{
  mem, filter, max_by, owner, is_owner, partition, empty_plan, assign, assign_all, plan,
}
use expert_sniper.Hrw.Owner.{owner_same_members, owner_insert}
use expert_sniper.Hrw.Shares.{holds, partition_covers, plan-partition}

program : Unit {0}
unfolding mem insert sorted filter max_by owner is_owner partition empty_plan assign assign_all plan
    get? set
program = tt

abbrev digest : String → ℕ → ℕ
digest n e =
    if n == "mini-a"
    then (e * 7 + 3) % 5
    else if n == "mini-b"
    then (e * 3 + 1) % 5
    else (e * 2) % 5

abbrev roster : List String
roster = "mini-a" ∷ "mini-b" ∷ []

two_shares :
    (partition digest roster "mini-a" 6 ≡ some (0 ∷ 2 ∷ 3 ∷ 5 ∷ []))
    × (partition digest roster "mini-b" 6 ≡ some (1 ∷ 4 ∷ []))
    × (partition digest roster "mini-c" 6 ≡ none)
unfolding program
two_shares = (refl, refl, refl)

empty_roster : plan {N = String} digest [] 1 ≡ none
unfolding program
empty_roster = refl

in_roster : mem "mini-a" roster ≡ true
unfolding program
in_roster = refl

owner_insert_example :
    (owner digest ("mini-a" ∷ "mini-c" ∷ "mini-b" ∷ []) 4 ≡ some "mini-c")
    ⊎ (owner digest ("mini-a" ∷ "mini-c" ∷ "mini-b" ∷ []) 4 ≡ owner digest roster 4)
owner_insert_example = owner_insert digest 4 ("mini-a" ∷ []) ("mini-b" ∷ []) "mini-c"

partition_covers_example :
    (o : String) × (mem o roster ≡ true)
    × ((n : String) → holds 4 (partition digest roster n 6) ≡ (mem n roster && (ltb 4 6 && o == n)))
partition_covers_example = partition_covers digest roster "mini-a" 6 4 in_roster

plan-partition_example :
    (out : Dict String (List ℕ)) × (plan digest roster 6 ≡ some out)
    × ((n : String) → get? n out ≡ partition digest roster n 6)
plan-partition_example = plan-partition digest roster "mini-a" 6 in_roster

abbrev scores : ℕ → ℕ → ℕ
scores n e = n * 4 + e

swapped : (n : ℕ) → mem n (1 ∷ 2 ∷ []) ≡ mem n (2 ∷ 1 ∷ [])
unfolding mem
swapped n = ground arith

owner_same_members_example : owner scores (1 ∷ 2 ∷ []) 7 ≡ owner scores (2 ∷ 1 ∷ []) 7
owner_same_members_example =
    owner_same_members scores 7 (1 ∷ 2 ∷ []) (2 ∷ 1 ∷ []) swapped (λ m n p q d. omega arith)
