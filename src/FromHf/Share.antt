-- ===== src/FromHf/Share.antt =====
-- The share of a machine: `fetch_from_hf` computes it, whether the roster lists the machine or not.
use expert_sniper.Prelude.{
  ℕ, true, some, List, [], ◌∷◌, ◌++◌, Eq, ◌≡◌, refl, inl, inr, arith, Bool-cases, ==_refl,
  if◌then◌else◌,
}
use expert_sniper.Prelude.Sorted.{AllBelow}
use expert_sniper.Hrw.{mem, is_owner}
use expert_sniper.Hrw.Sorted.{mem-append, filter-range_shape}
use expert_sniper.Hrw.Shares.{share, partition-share}
use expert_sniper.FromHf.{my_share}

module _ {ℓ} {N : Type ℓ} ⦃e : Eq N⦄ (digest : N → ℕ → ℕ) where
  abbrev pub joined : List N → N → List N
  joined roster me = if mem me roster then roster else roster ++ me ∷ []

  mem-joined : (roster : List N) (me : N) → mem me (joined roster me) ≡ true
  mem-joined roster me = elim (Bool-cases (mem me roster)) [
    | inl here ↦ rw (here, here) refl
    | inr away ↦
        rw (away, mem-append me roster (me ∷ []), away) (unfold mem in ground (arith, ==_refl me))
  ]

  pub my_share-some :
      (roster : List N) (me : N) (num : ℕ)
      → (mine : List ℕ) × (my_share digest roster me num ≡ some mine) × AllBelow num mine
  unfolding my_share
  my_share-some roster me num = (
    share digest (joined roster me) me num,
    partition-share digest (joined roster me) me num (mem-joined roster me),
    (filter-range_shape (is_owner digest (joined roster me) me) num).1,
  )
