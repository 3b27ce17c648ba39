-- ===== src/Driver/Local.antt =====
-- A part that the driver computes from its hot cache is the part of the node.
use mathlib.Core.Path.{subst}
use expert_sniper.Prelude.{
  ℕ, ◌+◌, true, false, ◌&&◌, Option, some, List, [], ◌∷◌, String, ◌≡◌, refl, sym, ap, ◌∙◌, inl, inr,
  arith, Bool-cases, nat_beq, nat_beq_iff, nat_eq, pair_eq, string_eq, ◌==◌, max, ◌≤◌, ltb,
  some-pair,
}
use expert_sniper.Prelude.Sorted.{is_in, sorted}
use expert_sniper.Dict.{Dict, get?, contains}
use expert_sniper.Hrw.{filter}
use expert_sniper.Node.{Experts, owns, my_ids, in_range, compute_partial}
use expert_sniper.Node.Agree.{filter_same, is_in-filter, compute_partial_same}
use expert_sniper.Driver.{Driver, Owner, unknown, nobody, node, owner_of, is_known, owned_by}
use expert_sniper.Driver.Compute.{all_known, owned, maximum, Request, partial}
use expert_sniper.Driver.TakenHot.{TakenHot}
use expert_sniper.Driver.Knows.{Nodes, Has, OwnerIsRight, Knows}

in_range-maximum : (n : ℕ) (xs : List ℕ) → maximum xs ≤ n → in_range (n + 1) xs ≡ true
in_range-maximum n [] h = refl
in_range-maximum n (x ∷ xs) h =
    let rest = in_range-maximum n xs (omega (arith, h)) in
    let here : ltb x (n + 1) ≡ true = ground (arith, h) in ground (arith, here, rest)

pub all_known-is_known :
    (owner : Dict ℕ (Option String)) (x : ℕ) (ids : List ℕ)
    → all_known owner ids ≡ true
    → is_in x ids ≡ true
    → is_known (owner_of x owner) ≡ true
all_known-is_known owner x [] h m = absurd cc
all_known-is_known owner x (e ∷ ids) h m = elim (Bool-cases (nat_beq e x)) [
  | inl same ↦
      let q : e ≡ x = (nat_beq_iff e x).0 same in
      subst (λ y. is_known (owner_of y owner) ≡ true) q (ground (arith, h))
  | inr other ↦ all_known-is_known owner x ids (ground (arith, h)) (ground (arith, m, other))
]

filter-none : (xs : List ℕ) → filter (λ x. false) xs ≡ []
unfolding filter
filter-none [] = refl
filter-none (x ∷ xs) = filter-none xs

module _ {ℓ} {A : Type ℓ} (nodes : Nodes A) where
  module _ (disjoint : (e : ℕ) (u v : String) → Has nodes e u → Has nodes e v → u ≡ v)
      (urls : List String) (d : Driver A) (k : Knows nodes urls d) (url : String) (x : ℕ)
      (known : is_known (owner_of x d.owner) ≡ true) where
    -- Once its owner is known, a node has an expert exactly if it is the owner.
    owner_exact-at :
        (o : Owner)
        → is_known o ≡ true
        → OwnerIsRight nodes d.partition x o
        → is_in x (nodes.partition url) ≡ owned_by url o
    owner_exact-at unknown h right = absurd cc
    owner_exact-at nobody h right = right url
    owner_exact-at (node other) h (ids, p, q, has) = elim (Bool-cases (other == url)) [
      | inl same ↦
          let at_url : other ≡ url = (string_eq.same_iff other url).0 same in
          subst (Has nodes x) at_url has ∙ sym same
      | inr differs ↦ elim (Bool-cases (is_in x (nodes.partition url))) [
        | inr absent ↦ absent ∙ sym differs
        | inl there ↦
            let q' = (string_eq.same_iff other url).1 (disjoint x other url has there) in
            absurd (let never : true ≡ false = sym q' ∙ differs in cc)
      ]
    ]

    pub owner_exact : is_in x (nodes.partition url) ≡ owned_by url (owner_of x d.owner)
    owner_exact = owner_exact-at (owner_of x d.owner) known (k.owners x)

    -- The owner's experts are known to be its.
    owned_by-known-at :
        (o : Owner)
        → OwnerIsRight nodes d.partition x o
        → owned_by url o ≡ true
        → (ids : List ℕ) × (get? url d.partition ≡ some ids) × (is_in x ids ≡ true)
    owned_by-known-at unknown right h = absurd cc
    owned_by-known-at nobody right h = absurd cc
    owned_by-known-at (node other) (ids, p, q, has) h =
        let at_url : other ≡ url = (string_eq.same_iff other url).0 h in
        (ids, ap (λ u. get? u d.partition) (sym at_url) ∙ p, q)

    pub owned_by-known :
        owned_by url (owner_of x d.owner) ≡ true
        → (ids : List ℕ) × (get? url d.partition ≡ some ids) × (is_in x ids ≡ true)
    owned_by-known = owned_by-known-at (owner_of x d.owner) (k.owners x)

    -- What is known of the partition agrees with it on such experts.
    known_exact :
        (ids : List ℕ)
        → get? url d.partition ≡ some ids
        → is_in x (nodes.partition url) ≡ is_in x ids
    known_exact ids p = elim (Bool-cases (is_in x ids)) [
      | inl there ↦ k.parts url ids p x there ∙ sym there
      | inr absent ↦ elim (Bool-cases (is_in x (nodes.partition url))) [
        | inr away ↦ away ∙ sym absent
        | inl has ↦
            let (ids', p', m) = owned_by-known (sym owner_exact ∙ has) in
            let same : ids' ≡ ids = let s = sym p' ∙ p in cc in
            absurd (let never : true ≡ false = sym m ∙ ap (is_in x) same ∙ absent in cc)
      ]
    ]

  module _ {κ μ} {W : Type κ} {P : Type μ} (q : Request A W P)
      (asked : (x : ℕ) → is_in x q.inds ≡ true → is_in x q.active ≡ true)
      (disjoint : (e : ℕ) (u v : String) → Has nodes e u → Has nodes e v → u ≡ v)
      (urls : List String) (d : Driver A) (k : Knows nodes urls d)
      (known : all_known d.owner q.active ≡ true) (url : String) where
    -- What the node itself would answer.
    abbrev pub node_partial : Option (ℕ × P)
    node_partial = partial q (nodes.experts url) (nodes.partition url) (nodes.num_experts url)

    exact :
        (x : ℕ)
        → is_in x q.active ≡ true
        → is_in x (nodes.partition url) ≡ owned_by url (owner_of x d.owner)
    exact x m = owner_exact disjoint urls d k url x (all_known-is_known d.owner x q.active known m)

    pub is_in-owned :
        (x : ℕ)
        → is_in x q.active ≡ true
        → is_in x (owned d.owner url q.active) ≡ owned_by url (owner_of x d.owner)
    is_in-owned x m =
        is_in-filter (λ e. owned_by url (owner_of e d.owner)) x q.active
        ∙ ap (λ b. b && owned_by url (owner_of x d.owner)) m

    pub no_part-zeros :
        (n : ℕ) (out : P)
        → owned d.owner url q.active ≡ []
        → node_partial ≡ some (n, out)
        → out ≡ q.zeros
    unfolding compute_partial
    no_part-zeros n out none_mine h =
        let not_owned : (x : ℕ)
            → is_in x q.active ≡ true
            → owns (nodes.experts url) (nodes.partition url) q.layer x ≡ false =
          λ x m.
            (let away : is_in x (nodes.partition url) ≡ false =
                exact x m ∙ sym (is_in-owned x m) ∙ ap (is_in x) none_mine in
              rw away refl) in
        let none_here : my_ids (nodes.experts url) (nodes.partition url) q.layer q.active ≡ [] =
          unfold my_ids in
          (ap sorted (
              filter_same (owns (nodes.experts url) (nodes.partition url) q.layer) (λ x. false)
                q.active not_owned
              ∙ filter-none q.active)
            ∙ unfold sorted in refl) in
        let r = rw (compute_partial, none_here) at h in sym (some-pair r).1

    agree_at :
        (e : ℕ) (mine : List ℕ) (experts : Experts A) (ids : List ℕ) (x : ℕ)
        → owned d.owner url q.active ≡ e ∷ mine
        → TakenHot nodes q.layer (e ∷ mine) [] experts
        → get? url d.partition ≡ some ids
        → is_in x q.active ≡ true
        → (owns (nodes.experts url) (nodes.partition url) q.layer x ≡ owns experts ids q.layer x)
          × (owns (nodes.experts url) (nodes.partition url) q.layer x ≡ true
              → get? (q.layer, x) (nodes.experts url) ≡ get? (q.layer, x) experts)
    agree_at e mine experts ids x mine_is taken p m =
        let in_mine : is_in x (e ∷ mine) ≡ owned_by url (owner_of x d.owner) =
          ap (is_in x) (sym mine_is) ∙ is_in-owned x m in
        let known_here =
          known_exact disjoint urls d k url x (all_known-is_known d.owner x q.active known m) ids
            p in
        elim (Bool-cases (owned_by url (owner_of x d.owner))) [
          | inl yes_owned ↦
              let (v, got, right) = taken.found x (in_mine ∙ yes_owned) in
              let has = exact x m ∙ yes_owned in
              let real = right url has in
              let has_known = sym known_here ∙ has in
              (rw (has, has_known, contains, real, got) refl, λ o. real ∙ sym got)
          | inr not_owned ↦
              let away = exact x m ∙ not_owned in
              let away_known = sym known_here ∙ away in
              (rw (away, away_known) refl, λ o. absurd (let never = rw away at o in cc))
        ]

    pub some_part :
        (e : ℕ) (mine : List ℕ) (experts : Experts A) (ids : List ℕ) (n : ℕ) (out : P)
        → owned d.owner url q.active ≡ e ∷ mine
        → TakenHot nodes q.layer (e ∷ mine) [] experts
        → get? url d.partition ≡ some ids
        → node_partial ≡ some (n, out)
        → partial q experts ids (max (max (maximum q.inds) (maximum q.active)) (maximum ids) + 1)
          ≡ some (n, out)
    some_part e mine experts ids n out mine_is taken p h =
        let most = max (max (maximum q.inds) (maximum q.active)) (maximum ids) in
        compute_partial_same (nodes.experts url) experts q.layer (nodes.partition url) ids q.active
          (λ x m. (agree_at e mine experts ids x mine_is taken p m).0) q.masked q.ffn q.zeros
          (nodes.num_experts url) (most + 1) q.inds q.weights (n, out)
          (λ x m o. (agree_at e mine experts ids x mine_is taken p m).1 o)
          (λ x m.
            known_exact disjoint urls d k url x
              (all_known-is_known d.owner x q.active known (asked x m)) ids p)
          (in_range-maximum most ids (omega arith)) (in_range-maximum most q.inds (omega arith)) h
