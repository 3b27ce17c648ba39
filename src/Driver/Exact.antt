-- ===== src/Driver/Exact.antt =====
-- The hot cache changes no result.

use expert_sniper.Prelude.{
  map, ℕ, ◌+◌, true, Option, some, List, [], ◌∷◌, String, length, ◌≡◌, refl, ap, inl, inr,
  Option-cases, nat_eq, pair_eq, string_eq,
}
use expert_sniper.Prelude.Sorted.{is_in}
use expert_sniper.Dict.{Dict, get?}
use expert_sniper.Node.{Expert}
use expert_sniper.Driver.{Driver, World, land_all}
use expert_sniper.Driver.Compute.{
  all_known, Request, Parts, plan, collect, account, missing, compute_distributed, broadcast,
}
use expert_sniper.Driver.Knows.{InModel, Nodes, IsHonest, Knows}
use expert_sniper.Driver.Warmed.{land_all-Knows, warm_all-Knows}
use expert_sniper.Driver.Owners.{land_all-KnownOwner}
use expert_sniper.Driver.Local.{all_known-is_known}
use expert_sniper.Driver.Parts.{
  Computes, LocalParts, PartsAreRight, run_plan-right, plan-Planned, known-all_known,
}

module _ {ℓ κ μ} {A : Type ℓ} {W : Type κ} {P : Type μ} (nodes : Nodes A) (q : Request A W P)
    (asked : (x : ℕ) → is_in x q.inds ≡ true → is_in x q.active ≡ true)
    (parse : List ℕ → Option (Expert A)) (block_size : ℕ) (world : World) (d : Driver A)
    (honest : IsHonest nodes parse d.node_urls block_size world) where
  module _ (post : String → Option P)
      (answers : (u : String)
        → (out : P) × Computes nodes q asked honest.disjoint d.node_urls u out
          × (post u ≡ some out)) where
    collect-right :
        (local : Dict String P) (us : List String)
        → LocalParts nodes q asked honest.disjoint d.node_urls local
        → collect q local post us ≡ some (map (λ u. (answers u).0) us)
    unfolding collect
    collect-right local [] right = refl
    collect-right local (u ∷ us) right =
        let (out, computes, posted) = answers u in
        let rest = collect-right local us right in
        elim (Option-cases (get? u local)) [
          | inl absent ↦ rw (collect, absent, posted, rest) refl
          | inr (p, found) ↦
              let same = right u p found out computes in
              rw (collect, found, rest) (ap (λ x. some (x ∷ map (λ v. (answers v).0) us)) same)
        ]

    nothing_local : LocalParts nodes q asked honest.disjoint d.node_urls []
    unfolding get?
    nothing_local u p h out c = absurd cc

    lands_known :
        (keys : List (ℕ × ℕ)) (d' : Driver A)
        → all_known d'.owner q.active ≡ true
        → all_known (land_all parse world block_size keys d').owner q.active ≡ true
    lands_known keys d' h =
        known-all_known (land_all parse world block_size keys d').owner q.active (λ x m.
          land_all-KnownOwner parse world block_size x keys d'
            (all_known-is_known d'.owner x q.active h m))

    account-Knows :
        (s : Parts q) → Knows nodes d.node_urls s.driver → Knows nodes d.node_urls (account q s)
    unfolding account
    account-Knows s k =
        let absent = missing s.cached q.active in
        let counted : Driver A = record s.driver {
          hot_hits = s.driver.hot_hits + length s.cached;
          hot_misses = s.driver.hot_misses + length absent;
          hot_skipped = s.driver.hot_skipped + length s.local;
          requests_sent = s.driver.requests_sent + length s.remote;
        } in
        warm_all-Knows nodes d.node_urls q.layer absent counted
          (record { same_urls = k.same_urls; owners = k.owners; parts = k.parts; hot = k.hot })

    -- The request routes to its active experts only; no two nodes have the same expert, they name their
    -- partitions and serve their blocks as they are, and a probe that finds no node for an expert is right;
    -- what the driver knows of them so far is right; and every node computes its part and answers with it.
    -- Then whatever the hot cache holds, and whichever fetches of layers of the model end in the meantime, evictions included: the
    -- parts that the driver sums are, node by node, those that it sums when it asks every node, and what it
    -- knows afterwards is right again.
    pub compute_distributed-eq-broadcast :
        (lands : String → List (ℕ × ℕ))
        → ((u : String) → InModel nodes (lands u))
        → Knows nodes d.node_urls d
        → (parts : List P) × (d' : Driver A) × (compute_distributed q
              (λ u. land_all parse world block_size (lands u))
              post
              d
            ≡ some (parts, d'))
          × (broadcast q post d.node_urls ≡ some parts)
          × Knows nodes d.node_urls d'
    unfolding compute_distributed broadcast
    compute_distributed-eq-broadcast lands in_model k =
        let planned = plan d q.layer q.active d.node_urls [] [] in
        let start : Parts q = record { driver = d; local = []; remote = planned.1; cached = [] } in
        let right : PartsAreRight nodes q asked honest.disjoint d.node_urls start = record {
          knows = k;
          local_right = nothing_local;
        } in
        let (s, ran, ends) =
          run_plan-right nodes q asked honest.disjoint d.node_urls
            (λ u. land_all parse world block_size (lands u))
            (λ u d' k'.
              land_all-Knows nodes d.node_urls parse block_size world honest (lands u) d'
                (in_model u) k')
            (λ u d' h. lands_known (lands u) d' h) (λ u. ((answers u).0, (answers u).1)) d k
            planned.0 start
            (plan-Planned nodes q asked honest.disjoint d.node_urls d d.node_urls [] [] tt) right
            (λ h. h) in
        let collected = collect-right s.local d.node_urls ends.local_right in
        (
          map (λ u. (answers u).0) d.node_urls,
          account q s,
          rw (compute_distributed, ran, collected) refl,
          collect-right [] d.node_urls nothing_local,
          account-Knows s ends.knows,
        )
