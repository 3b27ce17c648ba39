-- ===== src/Driver/Owners.antt =====
-- An expert whose owner the driver knows stays one while fetches end.

use expert_sniper.Prelude.{
  ℕ, true, Option, none, some, List, [], ◌∷◌, String, ◌≡◌, refl, inl, inr, Option-cases, Bool-cases,
  List-cases, nat_beq, nat_eq, pair_eq, string_eq,
}
use expert_sniper.Lru.{put}
use expert_sniper.Node.{Expert}
use expert_sniper.Driver.{
  is_known, Driver, World, owner_of, ask_nodes, served, not_served, candidates, fetch_block, land,
  land_all,
}
use expert_sniper.Driver.Knows.{owner_of-set, owner_of-here, owner_of-nobody}
use expert_sniper.Driver.Warmed.{Owner-cases}

-- An expert of known owner stays one.
abbrev pub KnownOwner {ℓ} : {A : Type ℓ} → ℕ → Driver A → Type 0
KnownOwner j d = is_known (owner_of j d.owner) ≡ true

module _ {ℓ} {A : Type ℓ} (parse : List ℕ → Option (Expert A)) (world : World) (block_size : ℕ)
    (j : ℕ) where
  served-KnownOwner :
      (url : String) (e : ℕ) (d : Driver A) → KnownOwner j d → KnownOwner j (served url e d)
  unfolding served
  served-KnownOwner url e d h = elim (Bool-cases (nat_beq e j)) [
    | inl same ↦ rw (owner_of-set e j (some url) d.owner, same, owner_of-here j url) refl
    | inr other ↦ rw (owner_of-set e j (some url) d.owner, other) h
  ]

  not_served-KnownOwner : (e : ℕ) (d : Driver A) → KnownOwner j d → KnownOwner j (not_served e d)
  unfolding not_served
  not_served-KnownOwner e d h = elim (Owner-cases (owner_of e d.owner)) [
    | inr (inl q) ↦ rw (not_served, q) h
    | inr (inr (url, q)) ↦ rw (not_served, q) h
    | inl q ↦ elim (List-cases d.node_urls) [
      | inl r ↦ rw (not_served, q, r) h
      | inr ((u, us), r) ↦ elim (Bool-cases (nat_beq e j)) [
        | inl same ↦
            rw (not_served, q, r, owner_of-set e j none d.owner, same, owner_of-nobody j) refl
        | inr other ↦ rw (not_served, q, r, owner_of-set e j none d.owner, other) h
      ]
    ]
  ]

  fetch_block-KnownOwner :
      (l e : ℕ) (d : Driver A)
      → KnownOwner j d
      → KnownOwner j (fetch_block parse world block_size l e d)
  unfolding fetch_block
  fetch_block-KnownOwner l e d h =
      elim (Option-cases (ask_nodes world block_size l e (candidates e d))) [
        | inl p ↦ rw (fetch_block, p) (not_served-KnownOwner e d h)
        | inr ((u, raw), p) ↦
            let s = served-KnownOwner u e d h in
            elim (Option-cases (parse raw)) [
              | inl q ↦ rw (fetch_block, p, q) s
              | inr (expert, q) ↦ elim (Option-cases (put l e expert d.hot)) [
                | inl r ↦ rw (fetch_block, p, q, r) s
                | inr (hot, r) ↦ rw (fetch_block, p, q, r) s
              ]
            ]
      ]

  pub land_all-KnownOwner :
      (keys : List (ℕ × ℕ)) (d : Driver A)
      → KnownOwner j d
      → KnownOwner j (land_all parse world block_size keys d)
  unfolding land_all land
  land_all-KnownOwner [] d h = h
  land_all-KnownOwner ((l, e) ∷ keys) d h =
      land_all-KnownOwner keys (land parse world block_size (l, e) d)
        (fetch_block-KnownOwner l e d h)
