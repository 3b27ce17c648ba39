-- ===== src/Speculative/Accept.antt =====
-- The accepted drafts and the correction are the tokens that greedy decoding gives.

use expert_sniper.Prelude.{
  take-length-append, ℕ, suc, ◌+◌, ◌-◌, ◌≤◌, some, List, [], ◌∷◌, ◌++◌, nat_eq, ◌==◌, nat_beq_iff,
  length, length-append, take, get_elem?, ◌≡◌, refl, inl, inr, Bool-cases, arith,
}
use expert_sniper.Generate.Model.{predictions}
use expert_sniper.Speculative.{matching}

-- Each token is the one that the model puts first after all before it.
abbrev pub IsGreedy : (List ℕ → ℕ) → List ℕ → List ℕ → Type 0
IsGreedy next ctx [] = Unit
IsGreedy next ctx (t ∷ ts) = (t ≡ next ctx) × IsGreedy next (ctx ++ t ∷ []) ts

pub matching-le : (drafts preds : List ℕ) → matching drafts preds ≤ length drafts
unfolding matching
matching-le [] preds = omega arith
matching-le (d ∷ drafts) [] = omega arith
matching-le (d ∷ drafts) (p ∷ preds) = ground (arith, matching-le drafts preds)

-- The predictions over the drafts have an entry at the count of matches, and the matched drafts
-- with it are greedy.
pub accept_lem :
    (next : List ℕ → ℕ) (ctx : List ℕ) (cur : ℕ) (drafts : List ℕ)
    → (p : ℕ) × (get_elem?
          (predictions next ctx (cur ∷ drafts))
          (matching drafts (predictions next ctx (cur ∷ drafts)))
        ≡ some p)
      × IsGreedy next
          (ctx ++ cur ∷ [])
          (take (matching drafts (predictions next ctx (cur ∷ drafts))) drafts ++ p ∷ [])
unfolding matching
accept_lem next ctx cur [] = (next (ctx ++ cur ∷ []), refl, (refl, tt))
accept_lem next ctx cur (d ∷ drafts) =
    let (p, found, run) = accept_lem next (ctx ++ cur ∷ []) d drafts in
    elim (Bool-cases (d == next (ctx ++ cur ∷ []))) [
      | inl same ↦ (p, rw same found, rw same ((nat_beq_iff _ _).0 same, run))
      | inr other ↦ (next (ctx ++ cur ∷ []), rw other refl, rw other (refl, tt))
    ]

-- What the KV cache holds after the rollback: all of the context but the correction.
pub take-rolled :
    (h drafts : List ℕ) (cur m : ℕ)
    → m ≤ length drafts
    → take (length (h ++ cur ∷ drafts) - (length drafts - m)) (h ++ cur ∷ drafts)
      ≡ h ++ cur ∷ take m drafts
take-rolled h drafts cur m le =
    let e : length (h ++ cur ∷ drafts) - (length drafts - m) ≡ length h + suc m =
      omega (arith, length-append h (cur ∷ drafts)) in
    rw e (take-length-append h (cur ∷ drafts) (suc m))
