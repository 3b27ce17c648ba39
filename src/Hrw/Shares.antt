-- ===== src/Hrw/Shares.antt =====
-- The shares of a roster: `partition` and `plan` agree, and every expert is in exactly one share.
use mathlib.Core.List.{append_assoc, append-nil}
use expert_sniper.Prelude.{
  ◌∙◌, sym, ℕ, ◌≡◌, refl, ap, true, ◌&&◌, List, [], ◌∷◌, ◌++◌, Eq, ◌==◌, nat_eq, if◌then◌else◌, ltb,
  arith, Bool-cases, some, inl, inr, Option-cases,
}
use expert_sniper.Dict.{Dict, get?, set}
use expert_sniper.Dict.Laws.{get?-set}
use expert_sniper.Hrw.{
  false, Bool, none, Option, mem, range, filter, owner, is_owner, partition, empty_plan, assign,
  assign_all, plan,
}
use expert_sniper.Hrw.Sorted.{sorted-filter-range, mem-filter-range}
use expert_sniper.Hrw.Owner.{owner-IsBest, owner-eq-none}

-- `x in partition(...)`, and `False` where the partition is an error.
abbrev pub holds : ℕ → Option (List ℕ) → Bool
holds x none = false
holds x (some ids) = mem x ids

module _ {ℓ} {N : Type ℓ} ⦃e : Eq N⦄ (digest : N → ℕ → ℕ) (roster : List N) where
  -- The share of a node, without the sort.
  abbrev pub share : N → ℕ → List ℕ
  share me num = filter (is_owner digest roster me) (range num)

  pub partition-share :
      (me : N) (num : ℕ)
      → mem me roster ≡ true
      → partition digest roster me num ≡ some (share me num)
  unfolding partition
  partition-share me num here = rw (here, sorted-filter-range) refl

  owner-eq-some :
      (me : N) (x : ℕ) → mem me roster ≡ true → (o : N) × (owner digest roster x ≡ some o)
  owner-eq-some me x here = elim (Option-cases (owner digest roster x)) [
    | inl p ↦ absurd (cc (owner-eq-none digest x roster p me))
    | inr found ↦ found
  ]

  -- Every expert below `num` is in the partition of exactly one node: there is a node of the roster
  -- such that a node's partition holds the expert exactly if the node is that one and the expert
  -- lies below `num`.
  pub partition_covers :
      (me : N) (num x : ℕ)
      → mem me roster ≡ true
      → (o : N) × (mem o roster ≡ true)
        × ((n : N)
            → holds x (partition digest roster n num) ≡ (mem n roster && (ltb x num && o == n)))
  partition_covers me num x here =
      let (o, owns) = owner-eq-some me x here in
      (
        o,
        (owner-IsBest digest x roster o owns).0,
        λ n. elim (Bool-cases (mem n roster)) [
          | inl there ↦
              rw (partition-share n num there, there, mem-filter-range)
                (unfold is_owner in rw (is_owner, owns))
          | inr away ↦ unfold partition in rw (partition, away)
        ],
      )

  -- The dictionary that `plan` fills has an entry for each node of the roster.
  abbrev HasAll : Dict N (List ℕ) → Type ℓ
  HasAll out = (n : N) → mem n roster ≡ true → (ids : List ℕ) × (get? n out ≡ some ids)

  get?-empty_plan :
      (m : N) (ns : List N) (out : Dict N (List ℕ))
      → get? m (empty_plan ns out) ≡ (if mem m ns then some [] else get? m out)
  unfolding empty_plan mem
  get?-empty_plan m [] out = refl
  get?-empty_plan m (n ∷ ns) out =
      ground (arith, get?-empty_plan m ns (set n [] out), get?-set n m [] out)

  -- An entry with more ids at its end; what has no entry gets none.
  abbrev extend : Option (List ℕ) → List ℕ → Option (List ℕ)
  extend none ids = none
  extend (some was) ids = some (was ++ ids)

  extend-nil : (o : Option (List ℕ)) → extend o [] ≡ o
  extend-nil none = refl
  extend-nil (some was) = ap some (append-nil was)

  -- One expert goes to the list of its owner, and no other list changes.
  assign_lem :
      (x : ℕ) (out : Dict N (List ℕ)) (o : N)
      → owner digest roster x ≡ some o
      → HasAll out
      → (out' : Dict N (List ℕ)) × (assign digest roster x out ≡ some out')
        × ((m : N)
            → get? m out' ≡ extend (get? m out) (if is_owner digest roster m x then x ∷ [] else []))
  unfolding assign is_owner
  assign_lem x out o owns all =
      let (ids, old) = all o (owner-IsBest digest x roster o owns).0 in
      (
        set o (ids ++ x ∷ []) out,
        rw (assign, owns, old),
        λ m.
            rw (is_owner, owns)
              (rw (get?-set o m (ids ++ x ∷ []) out) (elim (Bool-cases (o == m)) [
                | inl same ↦
                    let q : o ≡ m = (e.same_iff o m).0 same in
                    let r : get? m out ≡ some ids = rw (← q) old in rw (same, r)
                | inr other ↦ rw (other, extend-nil)
              ])),
      )

  split_share :
      (m : N) (x : ℕ) (was : Option (List ℕ)) (ids : List ℕ)
      → extend
          (extend was (if is_owner digest roster m x then x ∷ [] else []))
          (filter (is_owner digest roster m) ids)
        ≡ extend was (filter (is_owner digest roster m) (x ∷ ids))
  unfolding filter
  split_share m x none ids = refl
  split_share m x (some was) ids = elim (Bool-cases (is_owner digest roster m x)) [
    | inl h ↦ rw h (ap some (append_assoc was (x ∷ []) _))
    | inr h ↦ rw (h, append-nil)
  ]

  HasAll-extend :
      (out out' : Dict N (List ℕ)) (more : N → List ℕ)
      → ((m : N) → get? m out' ≡ extend (get? m out) (more m))
      → HasAll out
      → HasAll out'
  HasAll-extend out out' more h all =
      λ n there. let (was, old) = all n there in (was ++ more n, rw (h n, old))

  assign_all_lem :
      (ids : List ℕ) (out : Dict N (List ℕ)) (me : N)
      → mem me roster ≡ true
      → HasAll out
      → (out' : Dict N (List ℕ)) × (assign_all digest roster ids out ≡ some out')
        × ((m : N) → get? m out' ≡ extend (get? m out) (filter (is_owner digest roster m) ids))
  unfolding assign_all filter
  assign_all_lem [] out me here all = (out, refl, λ m. sym (extend-nil (get? m out)))
  assign_all_lem (x ∷ ids) out me here all =
      let (o, owns) = owner-eq-some me x here in
      let (out1, done1, first) = assign_lem x out o owns all in
      let (out', done, rest) =
        assign_all_lem ids out1 me here (HasAll-extend out out1 _ first all) in
      (
        out',
        rw (assign_all, done1) done,
        λ m.
            rest m
            ∙ ap (λ o. extend o (filter (is_owner digest roster m) ids)) (first m)
            ∙ split_share m x (get? m out) ids,
      )

  -- `plan` succeeds on a roster that is not empty, and it assigns to each node exactly the list
  -- that `partition` computes for that node alone, and nothing to what is no node of the roster.
  pub plan-partition :
      (me : N) (num : ℕ)
      → mem me roster ≡ true
      → (out : Dict N (List ℕ)) × (plan digest roster num ≡ some out)
        × ((n : N) → get? n out ≡ partition digest roster n num)
  unfolding plan
  plan-partition me num here =
      let starts : (n : N)
          → get? n (empty_plan roster []) ≡ (if mem n roster then some [] else none) =
        λ n. unfold get? in get?-empty_plan n roster [] in
      let (out, done, lists) =
        assign_all_lem (range num) (empty_plan roster []) me here
          (λ n there. ([], rw (starts n, there))) in
      (
        out,
        done,
        λ n. elim (Bool-cases (mem n roster)) [
          | inl there ↦ lists n ∙ rw (starts n, there) (sym (partition-share n num there))
          | inr away ↦ lists n ∙ rw (starts n, away) (unfold partition in rw (partition, away))
        ],
      )
