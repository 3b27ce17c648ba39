-- ===== src/Hrw/Owner.antt =====
-- Which node owns an expert: the node of the highest digest, whatever the order of the roster, and
-- a new node takes experts over without moving any other.
use native.Mathlib.Nat.{le_trans}
use mathlib.Core.Path.{subst}
use expert_sniper.Prelude.{
  Bool, true, false, ==_refl, ◌==◌, ap, ltb→lt, ℕ, ◌≤◌, ◌≡◌, refl, ◌⊎◌, inl, inr, some, List, [],
  ◌∷◌, ◌++◌, if◌then◌else◌, ltb, arith, Bool-cases,
}
use expert_sniper.Hrw.{false, Option, none, true, mem, Eq, max_by, owner}

module _ {ℓ} {N : Type ℓ} (digest : N → ℕ → ℕ) (x : ℕ) where
  -- A rival that scores no less than `best` either wins or changes nothing.
  max_by_rival :
      (best n : N) (ns : List N)
      → digest best x ≤ digest n x
      → (max_by digest x n ns ≡ n) ⊎ (max_by digest x n ns ≡ max_by digest x best ns)
  unfolding max_by
  max_by_rival best n [] h = inl refl
  max_by_rival best n (m ∷ ns) h = elim (Bool-cases (ltb (digest n x) (digest m x))) [
    | inl lt ↦ inr (ground arith)
    | inr ge ↦
        ground (arith, max_by_rival (if ltb (digest best x) (digest m x) then m else best) n ns)
  ]

  max_by_insert :
      (best n : N) (ms ns : List N)
      → (max_by digest x best (ms ++ n ∷ ns) ≡ n)
        ⊎ (max_by digest x best (ms ++ n ∷ ns) ≡ max_by digest x best (ms ++ ns))
  unfolding max_by
  max_by_insert best n [] ns = elim (Bool-cases (ltb (digest best x) (digest n x))) [
    | inl lt ↦ rw (max_by, lt) (max_by_rival best n ns (omega (arith, ltb→lt _ _ lt)))
    | inr ge ↦ rw (max_by, ge) (inr refl)
  ]
  max_by_insert best n (m ∷ ms) ns =
      max_by_insert (if ltb (digest best x) (digest m x) then m else best) n ms ns

  some_either : {a b c : N} → (a ≡ b) ⊎ (a ≡ c) → (some a ≡ some b) ⊎ (some a ≡ some c)
  some_either (inl p) = inl (ap some p)
  some_either (inr p) = inr (ap some p)

  -- A node that joins, wherever the roster lists it, takes over some experts and moves no other:
  -- each expert is owned by the new node or by its owner in the old roster.
  pub owner_insert :
      (ms ns : List N) (n : N)
      → (owner digest (ms ++ n ∷ ns) x ≡ some n)
        ⊎ (owner digest (ms ++ n ∷ ns) x ≡ owner digest (ms ++ ns) x)
  unfolding owner max_by
  owner_insert [] [] n = inl refl
  owner_insert [] (m ∷ ns) n = elim (Bool-cases (ltb (digest n x) (digest m x))) [
    | inl lt ↦ rw lt (inr refl)
    | inr ge ↦ rw ge (some_either (max_by_rival m n ns (ground arith)))
  ]
  owner_insert (m ∷ ms) ns n = some_either (max_by_insert m n ms ns)

  max_by-le : (best : N) (ns : List N) → digest best x ≤ digest (max_by digest x best ns) x
  unfolding max_by
  max_by-le best [] = omega arith
  max_by-le best (n ∷ ns) = elim (Bool-cases (ltb (digest best x) (digest n x))) [
    | inl lt ↦ rw lt (omega (arith, ltb→lt _ _ lt, max_by-le n ns))
    | inr ge ↦ rw ge (max_by-le best ns)
  ]

module _ {ℓ} {N : Type ℓ} ⦃e : Eq N⦄ (digest : N → ℕ → ℕ) (x : ℕ) where
  max_by-ge :
      (best m : N) (ns : List N) → mem m ns ≡ true → digest m x ≤ digest (max_by digest x best ns) x
  unfolding max_by mem
  max_by-ge best m [] h = cc
  max_by-ge best m (n ∷ ns) h = elim (Bool-cases (n == m)) [
    | inl here ↦
        let p : n ≡ m = (e.same_iff n m).0 here in
        rw (← p) (
          le_trans
            (elim (Bool-cases (ltb (digest best x) (digest n x))) [
              | inl lt ↦ rw lt (omega arith)
              | inr ge ↦ rw ge (ground arith)
            ])
            (max_by-le digest x _ ns))
    | inr other ↦
        max_by-ge (if ltb (digest best x) (digest n x) then n else best) m ns (ground arith)
  ]

  pick_mem :
      (t : Bool) (best n r : N) (ns : List N)
      → mem r ((if t then n else best) ∷ ns) ≡ true
      → mem r (best ∷ n ∷ ns) ≡ true
  unfolding mem
  pick_mem true best n r ns h = ground arith
  pick_mem false best n r ns h = ground arith

  max_by-mem : (best : N) (ns : List N) → mem (max_by digest x best ns) (best ∷ ns) ≡ true
  unfolding max_by
  max_by-mem best [] = unfold mem in rw ==_refl
  max_by-mem best (n ∷ ns) =
      let t = ltb (digest best x) (digest n x) in
      pick_mem t best n _ ns (max_by-mem (if t then n else best) ns)

  -- What a winner is: it stands in the roster, and no node of the roster scores higher.
  abbrev pub IsBest : List N → N → Type ℓ
  IsBest roster n =
      (mem n roster ≡ true) × ((m : N) → mem m roster ≡ true → digest m x ≤ digest n x)

  max_by-IsBest : (k : N) (ns : List N) → IsBest (k ∷ ns) (max_by digest x k ns)
  max_by-IsBest k ns = (
    max_by-mem k ns,
    λ m here. elim (Bool-cases (k == m)) [
      | inl first ↦ rw (← (e.same_iff k m).0 first) (max_by-le digest x k ns)
      | inr later ↦ max_by-ge k m ns (unfold mem in ground arith)
    ],
  )

  pub owner-IsBest : (roster : List N) (n : N) → owner digest roster x ≡ some n → IsBest roster n
  unfolding owner
  owner-IsBest [] n h = cc
  owner-IsBest (k ∷ ns) n h =
      let p : max_by digest x k ns ≡ n = cc in subst (IsBest (k ∷ ns)) p (max_by-IsBest k ns)

  pub owner-eq-none :
      (roster : List N) → owner digest roster x ≡ none → (n : N) → mem n roster ≡ false
  unfolding owner mem
  owner-eq-none [] h n = refl
  owner-eq-none (k ∷ ns) h n = cc

  -- Two rosters that list the same nodes, in any order and as often as they like, give every expert
  -- to the same node, if no two of the nodes have one digest.
  pub owner_same_members :
      (r s : List N)
      → ((n : N) → mem n r ≡ mem n s)
      → ((m n : N) → mem m r ≡ true → mem n r ≡ true → digest m x ≡ digest n x → m ≡ n)
      → owner digest r x ≡ owner digest s x
  unfolding mem
  owner_same_members r s same distinct = agree (owner digest r x) (owner digest s x) refl refl
    where
      agree : (a b : Option N) → owner digest r x ≡ a → owner digest s x ≡ b → a ≡ b
      agree none none p q = refl
      agree none (some n) p q = cc (owner-eq-none r p n, same n, (owner-IsBest s n q).0)
      agree (some m) none p q = cc (owner-eq-none s q m, same m, (owner-IsBest r m p).0)
      agree (some m) (some n) p q =
          let (m_in, m_best) = owner-IsBest r m p in
          let (n_in, n_best) = owner-IsBest s n q in
          let n_in_r : mem n r ≡ true = cc (same n) in
          ap some
            (distinct m n m_in n_in_r (omega (arith, m_best n n_in_r, n_best m (cc (same m)))))
