-- ===== src/Driver/Tests.antt =====
-- A driver of two nodes, and an instance of the theorem.
use mathlib.Core.Path.{subst}
use expert_sniper.Prelude.{
  sym, ℕ, true, some, List, [], ◌∷◌, String, ◌≡◌, refl, nat_beq, nat_eq, pair_eq, string_eq, inl,
  inr, Bool-cases, ◌==◌, if◌then◌else◌, arith, map, ◌++◌,
}
use expert_sniper.Prelude.Sorted.{is_in, sorted, insert}
use expert_sniper.Dict.{get?}
use expert_sniper.Hrw.{filter}
use expert_sniper.Node.{lut, mask_weights, my_ids, gather, compute_partial}
use expert_sniper.Driver.{Driver, owner_of, land_all}
use expert_sniper.Driver.Compute.{partial, Request, compute_distributed, broadcast}
use expert_sniper.Driver.Knows.{OwnerIsRight, Knows, InModel}
use expert_sniper.Driver.Parts.{Computes}
use expert_sniper.Driver.Exact.{compute_distributed-eq-broadcast}
use expert_sniper.Driver.Sample.{
  partition_of, weights_of, experts_of, two_nodes, parse, world, part_of, who, apart, right_block,
  honest,
}

-- Expert 1 of node "b" is cached and that of node "a" is not; a fetch of it is in flight.
abbrev driver : Driver ℕ
driver = record {
  node_urls = "a" ∷ "b" ∷ [];
  owner = (0, some "a") ∷ (1, some "b") ∷ [];
  partition = ("a", 0 ∷ []) ∷ ("b", 1 ∷ []) ∷ [];
  hot = record {
    max_experts = 4;
    cache = ((0, 1), weights_of 1) ∷ [];
    hits = 0;
    misses = 0;
    by_layer = (0, 1 ∷ []) ∷ [];
  };
  inflight = ((0, 0), tt) ∷ [];
  hot_hits = 0;
  hot_misses = 0;
  hot_skipped = 0;
  hot_fetch_errors = 0;
  requests_sent = 0;
}

owners : (e : ℕ) → OwnerIsRight two_nodes driver.partition e (owner_of e driver.owner)
unfolding owner_of get?
owners e = elim (Bool-cases (nat_beq 0 e)) [
  | inl zero_is ↦
      rw (OwnerIsRight, zero_is) (0 ∷ [], refl, ground (arith, zero_is), ground (arith, zero_is))
  | inr not_zero ↦ elim (Bool-cases (nat_beq 1 e)) [
    | inl one_is ↦
        rw (OwnerIsRight, not_zero, one_is)
          (1 ∷ [], refl, ground (arith, one_is), ground (arith, one_is))
    | inr not_one ↦ rw (OwnerIsRight, not_zero, not_one) tt
  ]
]

known_parts :
    (u : String) (known : List ℕ)
    → get? u driver.partition ≡ some known
    → (x : ℕ) → is_in x known ≡ true
    → is_in x (partition_of u) ≡ true
unfolding get?
known_parts u known h x m = elim (Bool-cases ("a" == u)) [
  | inl p ↦
      let ids : 0 ∷ [] ≡ known = (let some_ids = rw p at h in cc) in
      subst (λ w. is_in x (partition_of w) ≡ true) ((string_eq.same_iff "a" u).0 p)
        (subst (λ k. is_in x k ≡ true) (sym ids) m)
  | inr p ↦ elim (Bool-cases ("b" == u)) [
    | inl q ↦
        let ids : 1 ∷ [] ≡ known = (let some_ids = rw (p, q) at h in cc) in
        subst (λ w. is_in x (partition_of w) ≡ true) ((string_eq.same_iff "b" u).0 q)
          (subst (λ k. is_in x k ≡ true) (sym ids) m)
    | inr q ↦ absurd (let never = rw (p, q) at h in cc)
  ]
]

knows : Knows two_nodes ("a" ∷ "b" ∷ []) driver
knows = record {
  same_urls = refl;
  owners = owners;
  parts = known_parts;
  hot = (λ u has. (let r = right_block u 1 has in sym r), tt);
}

-- A toy kernel: the weights of the experts that the machine has, each once for each index.
abbrev request : Request ℕ ℕ (List ℕ)
request = record {
  layer = 0;
  active = 0 ∷ 1 ∷ [];
  inds = 1 ∷ 0 ∷ [];
  weights = 5 ∷ 7 ∷ [];
  masked = λ m w. if m then w else 0;
  ffn = λ experts local_indices weights. map (λ x. x.0) experts ++ local_indices ++ weights;
  zeros = [];
}

asked : (x : ℕ) → is_in x request.inds ≡ true → is_in x request.active ≡ true
asked x h = ground (arith, h)

answers :
    (u : String)
    → (out : List ℕ) × Computes two_nodes request asked apart ("a" ∷ "b" ∷ []) u out
      × (some (part_of u) ≡ some out)
unfolding my_ids filter sorted insert get? gather lut mask_weights compute_partial
answers u = elim (who u) [
  | inl p ↦ (
    part_of u,
    (
      1,
      subst (λ w. partial request (experts_of w) (partition_of w) 2 ≡ some (1, part_of w)) (sym p)
          refl,
    ),
    refl,
  )
  | inr (inl p) ↦ (
    part_of u,
    (
      1,
      subst (λ w. partial request (experts_of w) (partition_of w) 2 ≡ some (1, part_of w)) (sym p)
          refl,
    ),
    refl,
  )
  | inr (inr (p, q, r)) ↦ (
    part_of u,
    (
      0,
      subst (λ out. partial request (experts_of u) (partition_of u) 2 ≡ some (0, out)) (sym r)
          (subst (λ ids. partial request (experts_of u) ids 2 ≡ some (0, [])) (sym p) refl),
    ),
    refl,
  )
]

-- The fetch of expert 0 ends before the turn of node "b".
abbrev lands : String → List (ℕ × ℕ)
lands u = if u == "b" then (0, 0) ∷ [] else []

in_model : (u : String) → InModel two_nodes (lands u)
in_model u = elim (Bool-cases (u == "b")) [ inl p ↦ rw p (refl, tt) | inr p ↦ rw p tt ]

compute_distributed-eq-broadcast_example :
    (parts : List (List ℕ)) × (d' : Driver ℕ) × (compute_distributed request
        (λ u. land_all parse world 1 (lands u))
        (λ u. some (part_of u))
        driver
      ≡ some (parts, d'))
    × (broadcast request (λ u. some (part_of u)) ("a" ∷ "b" ∷ []) ≡ some parts)
    × Knows two_nodes ("a" ∷ "b" ∷ []) d'
compute_distributed-eq-broadcast_example =
    compute_distributed-eq-broadcast two_nodes request asked parse 1 world driver honest
      (λ u. some (part_of u)) answers lands in_model knows
