-- ===== src/Driver/Warmed.antt =====
-- Fetches of blocks and answers to `/partition` leave what the driver knows right.
use mathlib.Core.Path.{subst}
use expert_sniper.Prelude.{
  ltb, some-pair, ℕ, true, false, ◌||◌, Option, none, some, List, [], ◌∷◌, String, length, ◌≡◌,
  refl, sym, ap, ◌∙◌, inl, inr, ◌⊎◌, Option-cases, Bool-cases, List-cases, nat_beq, nat_beq_iff,
  nat_eq, pair_eq, string_eq, ◌==◌, ==_refl,
}
use expert_sniper.Prelude.Sorted.{is_in}
use expert_sniper.Dict.{Dict, get?, contains}
use expert_sniper.Lru.{put, has}
use expert_sniper.Lru.Entries.{put-Entries}
use expert_sniper.Node.{Expert}
use expert_sniper.Driver.{
  Driver, World, Owner, unknown, nobody, node, owner_of, add_to, ask_nodes, served, not_served,
  candidates, fetch_block, land, land_all, warm, warm_all,
}
use expert_sniper.Driver.Knows.{
  InModel, Nodes, Has, IsHonest, IsRight, OwnerIsRight, Knows, owner_of-set, owner_of-here,
  owner_of-nobody, get?-add_to, with_added, is_in-with_added, with_added_self, with_added_keeps,
}

pub Owner-cases : (o : Owner) → (o ≡ unknown) ⊎ ((o ≡ nobody) ⊎ ((url : String) × (o ≡ node url)))
Owner-cases unknown = inl refl
Owner-cases nobody = inr (inl refl)
Owner-cases (node url) = inr (inr (url, refl))

module _ {ℓ} {A : Type ℓ} (nodes : Nodes A) (urls : List String) where
  -- More is known of one partition, and nothing is forgotten.
  grown-OwnerIsRight :
      (partition partition' : Dict String (List ℕ)) (e : ℕ) (o : Owner)
      → ((u : String) (known : List ℕ)
          → get? u partition ≡ some known
          → is_in e known ≡ true
          → (known' : List ℕ) × (get? u partition' ≡ some known') × (is_in e known' ≡ true))
      → OwnerIsRight nodes partition e o
      → OwnerIsRight nodes partition' e o
  grown-OwnerIsRight partition partition' e unknown grows h = tt
  grown-OwnerIsRight partition partition' e nobody grows h = h
  grown-OwnerIsRight partition partition' e (node url) grows (known, p, q, r) =
      let (known', p', q') = grows url known p q in (known', p', q', r)

  add_to-grows :
      (url : String) (x : ℕ) (partition : Dict String (List ℕ)) (e : ℕ) (u : String)
      (known : List ℕ)
      → get? u partition ≡ some known
      → is_in e known ≡ true
      → (known' : List ℕ) × (get? u (add_to url x partition) ≡ some known')
        × (is_in e known' ≡ true)
  add_to-grows url x partition e u known p q = elim (Bool-cases (url == u)) [
    | inl same ↦
        let at_u : url ≡ u = (string_eq.same_iff url u).0 same in
        (
          with_added x (get? url partition),
          rw (get?-add_to url u x partition, same) refl,
          (let there : get? url partition ≡ some known = ap (λ v. get? v partition) at_u ∙ p in
              rw there (with_added_keeps e x known q)),
        )
    | inr other ↦ (known, rw (get?-add_to url u x partition, other) p, q)
  ]

  served-Knows :
      (url : String) (e : ℕ) (d : Driver A)
      → Has nodes e url
      → Knows nodes urls d
      → Knows nodes urls (served url e d)
  unfolding served
  served-Knows url e d has k = record {
    same_urls = k.same_urls;
    owners = λ j. elim (Bool-cases (nat_beq e j)) [
      | inl same ↦
          let q : e ≡ j = (nat_beq_iff e j).0 same in
          rw (owner_of-set e j (some url) d.owner, same, owner_of-here j url)
            (
              with_added e (get? url d.partition),
              rw (get?-add_to url url e d.partition, ==_refl url) refl,
              with_added_self j e (get? url d.partition) q,
              subst (λ x. Has nodes x url) q has,
            )
      | inr other ↦
          rw (owner_of-set e j (some url) d.owner, other)
            (grown-OwnerIsRight d.partition (add_to url e d.partition) j (owner_of j d.owner)
              (add_to-grows url e d.partition j) (k.owners j))
    ];
    parts = λ u known p x m. elim (Bool-cases (url == u)) [
      | inl same ↦
          let at_u : url ≡ u = (string_eq.same_iff url u).0 same in
          let p' : some (with_added e (get? url d.partition)) ≡ some known =
            rw (get?-add_to url u e d.partition, same) at p in
          let m' : is_in x (with_added e (get? url d.partition)) ≡ true =
            subst (λ ids. is_in x ids ≡ true)
              (let r : known ≡ with_added e (get? url d.partition) = cc in r) m in
          subst (Has nodes x) at_u (elim (is_in-with_added x e (get? url d.partition) m') [
            | inl q ↦ subst (λ y. Has nodes y url) q has
            | inr (ids, there, here) ↦ k.parts url ids there x here
          ])
      | inr other ↦ k.parts u known (rw (get?-add_to url u e d.partition, other) at p) x m
    ];
    hot = k.hot;
  }

  -- The expert of unknown owner that no node serves.
  not_served-Knows :
      (parse : List ℕ → Option (Expert A)) (block_size : ℕ) (world : World) (l e : ℕ) (d : Driver A)
      → IsHonest nodes parse urls block_size world
      → ltb l nodes.num_layers ≡ true
      → ask_nodes world block_size l e (candidates e d) ≡ none
      → Knows nodes urls d
      → Knows nodes urls (not_served e d)
  unfolding not_served candidates
  not_served-Knows parse block_size world l e d honest in_model p k =
      elim (Owner-cases (owner_of e d.owner)) [
        | inr (inl q) ↦
            rw (not_served, q)
              (record { same_urls = k.same_urls; owners = k.owners; parts = k.parts; hot = k.hot })
        | inr (inr (url, q)) ↦
            rw (not_served, q)
              (record { same_urls = k.same_urls; owners = k.owners; parts = k.parts; hot = k.hot })
        | inl q ↦
            let none_has = honest.reachable l e in_model (
              subst (λ us. ask_nodes world block_size l e us ≡ none) k.same_urls
                (rw (candidates, q) at p)) in
            elim (List-cases d.node_urls) [
              | inl r ↦
                  rw (not_served, q, r)
                    (record {
                      same_urls = k.same_urls;
                      owners = k.owners;
                      parts = k.parts;
                      hot = k.hot;
                    })
              | inr ((u, us), r) ↦
                  rw (not_served, q, r)
                    (record {
                      same_urls = k.same_urls;
                      owners = λ j. elim (Bool-cases (nat_beq e j)) [
                        | inl same ↦
                            rw (owner_of-set e j none d.owner, same, owner_of-nobody j)
                              (subst (λ x. (v : String) → is_in x (nodes.partition v) ≡ false)
                                ((nat_beq_iff e j).0 same) none_has)
                        | inr other ↦ rw (owner_of-set e j none d.owner, other) (k.owners j)
                      ];
                      parts = k.parts;
                      hot = k.hot;
                    })
            ]
      ]

  ask_nodes-some :
      (world : World) (block_size l e : ℕ) (us : List String) (u : String) (raw : List ℕ)
      → ask_nodes world block_size l e us ≡ some (u, raw)
      → world.block_of u l e ≡ some raw
  unfolding ask_nodes
  ask_nodes-some world block_size l e [] u raw h = absurd cc
  ask_nodes-some world block_size l e (v ∷ us) u raw h =
      elim (Option-cases (world.block_of v l e)) [
        | inl p ↦ ask_nodes-some world block_size l e us u raw (rw (ask_nodes, p) at h)
        | inr (bytes, p) ↦ elim (Bool-cases (nat_beq (length bytes) block_size)) [
          | inr q ↦ ask_nodes-some world block_size l e us u raw (rw (ask_nodes, p, q) at h)
          | inl q ↦
              let same = some-pair (rw (ask_nodes, p, q) at h) in
              ap (λ w. world.block_of w l e) (sym same.0) ∙ p ∙ ap some same.1
        ]
      ]

  module _ (parse : List ℕ → Option (Expert A)) (block_size : ℕ) (world : World)
      (honest : IsHonest nodes parse urls block_size world) where
    fetch_block-Knows :
        (l e : ℕ) (d : Driver A)
        → ltb l nodes.num_layers ≡ true
        → Knows nodes urls d
        → Knows nodes urls (fetch_block parse world block_size l e d)
    unfolding fetch_block
    fetch_block-Knows l e d in_model k =
        elim (Option-cases (ask_nodes world block_size l e (candidates e d))) [
          | inl p ↦
              rw (fetch_block, p)
                (not_served-Knows parse block_size world l e d honest in_model p k)
          | inr ((u, raw), p) ↦
              let asked = ask_nodes-some world block_size l e (candidates e d) u raw p in
              let (has, same) = honest.serves u l e raw asked in
              let s = served-Knows u e d has k in
              elim (Option-cases (parse raw)) [
                | inl q ↦ rw (fetch_block, p, q) s
                | inr (expert, q) ↦ elim (Option-cases (put l e expert d.hot)) [
                  | inl r ↦ rw (fetch_block, p, q, r) s
                  | inr (hot, r) ↦
                      let right : IsRight nodes (l, e) expert = λ v has_v.
                        (let at_v = honest.disjoint e u v has has_v in
                          ap (λ w. get? (l, e) (nodes.experts w)) (sym at_v) ∙ sym same ∙ q) in
                      rw (fetch_block, p, q, r)
                        (record {
                          same_urls = s.same_urls;
                          owners = s.owners;
                          parts = s.parts;
                          hot = put-Entries (IsRight nodes) l e expert d.hot hot r right k.hot;
                        })
                ]
              ]
        ]

    land-Knows :
        (l e : ℕ) (d : Driver A)
        → ltb l nodes.num_layers ≡ true
        → Knows nodes urls d
        → Knows nodes urls (land parse world block_size (l, e) d)
    unfolding land
    land-Knows l e d in_model k =
        let k' = fetch_block-Knows l e d in_model k in
        record { same_urls = k'.same_urls; owners = k'.owners; parts = k'.parts; hot = k'.hot }

    pub land_all-Knows :
        (keys : List (ℕ × ℕ)) (d : Driver A)
        → InModel nodes keys
        → Knows nodes urls d
        → Knows nodes urls (land_all parse world block_size keys d)
    unfolding land_all
    land_all-Knows [] d h k = k
    land_all-Knows ((l, e) ∷ keys) d (in_model, h) k =
        land_all-Knows keys (land parse world block_size (l, e) d) h (land-Knows l e d in_model k)

  warm-Knows : (l e : ℕ) (d : Driver A) → Knows nodes urls d → Knows nodes urls (warm l e d)
  unfolding warm
  warm-Knows l e d k = elim (Bool-cases (contains (l, e) d.inflight || has l e d.hot)) [
    | inl there ↦ rw there k
    | inr absent ↦ elim (Owner-cases (owner_of e d.owner)) [
      | inl q ↦
          rw (absent, q)
            (record { same_urls = k.same_urls; owners = k.owners; parts = k.parts; hot = k.hot })
      | inr (inl q) ↦ rw (absent, q) k
      | inr (inr (url, q)) ↦
          rw (absent, q)
            (record { same_urls = k.same_urls; owners = k.owners; parts = k.parts; hot = k.hot })
    ]
  ]

  pub warm_all-Knows :
      (l : ℕ) (ids : List ℕ) (d : Driver A)
      → Knows nodes urls d
      → Knows nodes urls (warm_all l ids d)
  unfolding warm_all
  warm_all-Knows l [] d k = k
  warm_all-Knows l (e ∷ ids) d k = warm_all-Knows l ids (warm l e d) (warm-Knows l e d k)
