-- ===== src/Driver/TakenHot.antt =====
-- What `_local_partial` takes from the hot cache.
use mathlib.Core.Path.{subst}
use expert_sniper.Prelude.{
  ℕ, true, false, some, List, [], ◌∷◌, ◌≡◌, refl, sym, ap, ◌∙◌, inl, inr, arith, Option-cases,
  Bool-cases, nat_beq_iff, nat_eq, pair_eq, string_eq,
}
use expert_sniper.Prelude.Keys.{same_pair}
use expert_sniper.Prelude.Sorted.{is_in}
use expert_sniper.Dict.{get?, set}
use expert_sniper.Dict.Laws.{get?-set}
use expert_sniper.Lru.{Cache, get}
use expert_sniper.Lru.Entries.{Entries, get-Entries, get-Fits}
use expert_sniper.Node.{Expert, Experts}
use expert_sniper.Driver.Compute.{take_hot}
use expert_sniper.Driver.Knows.{Nodes, IsRight}

module _ {ℓ} {A : Type ℓ} (nodes : Nodes A) where
  -- What the loop over `mine` has gathered.
  pub record TakenHot (l : ℕ) (mine : List ℕ) (experts experts' : Experts A) : Type ℓ where
    pub others : (x : ℕ) → is_in x mine ≡ false → get? (l, x) experts' ≡ get? (l, x) experts
    pub found :
        (x : ℕ)
        → is_in x mine ≡ true
        → (v : Expert A) × (get? (l, x) experts' ≡ some v) × IsRight nodes (l, x) v

  pub take_hot-TakenHot :
      (l : ℕ) (mine : List ℕ) (experts experts' : Experts A) (hot : Cache (Expert A))
      → Entries (IsRight nodes) hot.cache
      → (take_hot l mine experts hot).1 ≡ some experts'
      → TakenHot l mine experts experts'
  unfolding take_hot
  take_hot-TakenHot l [] experts experts' hot right h =
      let same : experts ≡ experts' = cc in
      record { others = λ x m. ap (get? (l, x)) (sym same); found = λ x m. absurd cc }
  take_hot-TakenHot l (e ∷ mine) experts experts' hot right h =
      elim (Option-cases (get l e hot).1) [
        | inl p ↦ absurd (let never = rw (take_hot, p) at h in cc)
        | inr (v, p) ↦
            let v_right = get-Fits (IsRight nodes) l e v hot right p in
            let rest =
              take_hot-TakenHot l mine (set (l, e) v experts) experts' (get l e hot).0
                (get-Entries (IsRight nodes) l e hot right) (rw (take_hot, p) at h) in
            record {
              others = λ x m.
                  rest.others x (ground (arith, m))
                  ∙ get?-set (l, e) (l, x) v experts
                  ∙ (let differs : same_pair (l, e) (l, x) ≡ false = ground (arith, m) in
                      rw differs refl);
              found = λ x m. elim (Bool-cases (is_in x mine)) [
                | inl later ↦ rest.found x later
                | inr not_later ↦
                    let q : e ≡ x = (nat_beq_iff e x).0 (ground (arith, m, not_later)) in
                    (
                      v,
                      rest.others x not_later
                          ∙ get?-set (l, e) (l, x) v experts
                          ∙ (let same : same_pair (l, e) (l, x) ≡ true =
                                ground (arith, m, not_later) in
                              rw same refl),
                      subst (λ y. IsRight nodes (l, y) v) q v_right,
                    )
              ];
            }
      ]

  pub take_hot-Entries :
      (l : ℕ) (mine : List ℕ) (experts : Experts A) (hot : Cache (Expert A))
      → Entries (IsRight nodes) hot.cache
      → Entries (IsRight nodes) (take_hot l mine experts hot).0.cache
  unfolding take_hot
  take_hot-Entries l [] experts hot right = right
  take_hot-Entries l (e ∷ mine) experts hot right =
      let right' = get-Entries (IsRight nodes) l e hot right in
      elim (Option-cases (get l e hot).1) [
        | inl p ↦ rw (take_hot, p) right'
        | inr (v, p) ↦
            rw (take_hot, p) (take_hot-Entries l mine (set (l, e) v experts) (get l e hot).0 right')
      ]
