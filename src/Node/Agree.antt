-- ===== src/Node/Agree.antt =====
-- When two machines compute the same part of a layer.

use expert_sniper.Prelude.{
  ℕ, Bool, true, ◌&&◌, some, List, [], ◌∷◌, length, map, ◌≡◌, refl, sym, ap, ◌∙◌, inl, inr, arith,
  Option-cases, Bool-cases, List-cases, nat_beq, nat_beq_iff, nat_eq, pair_eq,
}
use expert_sniper.Prelude.Sorted.{is_in, sorted, is_in-sorted}
use expert_sniper.Dict.{Dict, get?}
use expert_sniper.Hrw.{filter}
use expert_sniper.Node.{lut, in_range, mask_weights, owns, my_ids, gather, compute_partial}

pub filter_same :
    (p q : ℕ → Bool) (xs : List ℕ)
    → ((x : ℕ) → is_in x xs ≡ true → p x ≡ q x)
    → filter p xs ≡ filter q xs
unfolding filter
filter_same p q [] h = refl
filter_same p q (x ∷ xs) h =
    let here : p x ≡ q x = h x (ground (arith, (nat_beq_iff x x).1 refl)) in
    let rest = filter_same p q xs (λ y m. h y (ground (arith, m))) in rw (here, rest) refl

pub is_in-filter :
    (p : ℕ → Bool) (x : ℕ) (xs : List ℕ) → is_in x (filter p xs) ≡ (is_in x xs && p x)
unfolding filter
is_in-filter p x [] = ground arith
is_in-filter p x (y ∷ xs) = elim (Bool-cases (nat_beq y x)) [
  | inl same ↦
      let q : y ≡ x = (nat_beq_iff y x).0 same in
      let here : p y ≡ p x = ap p q in ground (arith, is_in-filter p x xs, here, same)
  | inr other ↦ ground (arith, is_in-filter p x xs, other)
]

mask_weights_same {κ} :
    {W : Type κ} (masked : Bool → W → W) (m n : ℕ → Bool) (inds : List ℕ) (weights : List W)
    → ((x : ℕ) → is_in x inds ≡ true → m x ≡ n x)
    → mask_weights masked m inds weights ≡ mask_weights masked n inds weights
unfolding mask_weights
mask_weights_same masked m n [] weights h = refl
mask_weights_same masked m n (x ∷ inds) [] h = refl
mask_weights_same masked m n (x ∷ inds) (w ∷ weights) h =
    let here : m x ≡ n x = h x (ground (arith, (nat_beq_iff x x).1 refl)) in
    let rest = mask_weights_same masked m n inds weights (λ y i. h y (ground (arith, i))) in
    rw (here, rest) refl

module _ {ℓ} {X : Type ℓ} (experts experts' : Dict (ℕ × ℕ) X) (layer : ℕ) where
  gather_same :
      (ids : List ℕ)
      → ((x : ℕ) → is_in x ids ≡ true → get? (layer, x) experts ≡ get? (layer, x) experts')
      → gather experts layer ids ≡ gather experts' layer ids
  unfolding gather
  gather_same [] h = refl
  gather_same (e ∷ ids) h =
      let here : get? (layer, e) experts ≡ get? (layer, e) experts' =
        h e (ground (arith, (nat_beq_iff e e).1 refl)) in
      let rest = gather_same ids (λ y i. h y (ground (arith, i))) in
      elim (Option-cases (get? (layer, e) experts)) [
        | inl p ↦ rw (gather, p, sym here ∙ p) refl
        | inr (x, p) ↦ rw (gather, p, sym here ∙ p, rest) refl
      ]

  module _ (partition partition' req_ids : List ℕ)
      (same : (x : ℕ)
        → is_in x req_ids ≡ true
        → owns experts partition layer x ≡ owns experts' partition' layer x) where
    my_ids_same : my_ids experts partition layer req_ids ≡ my_ids experts' partition' layer req_ids
    unfolding my_ids
    my_ids_same =
        ap sorted
          (filter_same (owns experts partition layer) (owns experts' partition' layer) req_ids same)

    is_in-my_ids :
        (x : ℕ)
        → is_in x (my_ids experts partition layer req_ids) ≡ true
        → (is_in x req_ids ≡ true) × (owns experts partition layer x ≡ true)
    unfolding my_ids
    is_in-my_ids x h =
        let both : (is_in x req_ids && owns experts partition layer x) ≡ true =
          sym (is_in-filter (owns experts partition layer) x req_ids)
          ∙ sym (is_in-sorted x (filter (owns experts partition layer) req_ids))
          ∙ h in
        (ground (arith, both), ground (arith, both))

    -- The same part, where the second machine knows enough indices.
    pub compute_partial_same {κ μ} :
        {W : Type κ} {P : Type μ} (masked : Bool → W → W) (ffn : List (ℕ × X) → List ℕ → List W → P)
        (zeros : P) (num num' : ℕ) (inds : List ℕ) (weights : List W) (r : ℕ × P)
        → ((x : ℕ)
            → is_in x req_ids ≡ true
            → owns experts partition layer x ≡ true
            → get? (layer, x) experts ≡ get? (layer, x) experts')
        → ((x : ℕ) → is_in x inds ≡ true → is_in x partition ≡ is_in x partition')
        → in_range num' partition' ≡ true
        → in_range num' inds ≡ true
        → compute_partial masked ffn zeros experts partition num layer req_ids inds weights ≡ some r
        → compute_partial masked ffn zeros experts' partition' num' layer req_ids inds weights
          ≡ some r
    unfolding compute_partial
    compute_partial_same masked ffn zeros num num' inds weights r same_data mask in_p in_i h =
        let ids = my_ids experts partition layer req_ids in
        elim (List-cases ids) [
          | inl p ↦
              let p' = sym my_ids_same ∙ p in
              rw (compute_partial, p') (rw (compute_partial, p) at h)
          | inr ((e, rest), p) ↦
              let p' = sym my_ids_same ∙ p in
              let known : (x : ℕ)
                  → is_in x (e ∷ rest) ≡ true
                  → get? (layer, x) experts ≡ get? (layer, x) experts' =
                λ x m.
                  (let both = is_in-my_ids x (ap (is_in x) p ∙ m) in same_data x both.0 both.1) in
              let gathered = gather_same (e ∷ rest) known in
              let masks =
                mask_weights_same masked (λ x. is_in x partition) (λ x. is_in x partition') inds
                  weights mask in
              elim (Bool-cases (in_range num partition && in_range num inds)) [
                | inr q ↦ absurd (let never = rw (compute_partial, p, q) at h in cc)
                | inl q ↦ elim (Option-cases (gather experts layer (e ∷ rest))) [
                  | inl u ↦ absurd (let never = rw (compute_partial, p, q, u) at h in cc)
                  | inr (found, u) ↦
                      rw (compute_partial, p', in_p, in_i, sym gathered ∙ u)
                        (ap
                            (λ ms.
                              some
                                (length (e ∷ rest), ffn found (map (lut (e ∷ rest) 0 0) inds) ms))
                            (sym masks)
                          ∙ rw (compute_partial, p, q, u) at h)
                ]
              ]
        ]
