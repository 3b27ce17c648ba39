-- ===== src/Node/Served.antt =====
-- What a node serves of its partition is what it computes with.
use expert_sniper.Prelude.{
  zero, suc, ◌++◌, ◌⊎◌, ℕ, true, false, ◌&&◌, ◌||◌, Option, none, some, List, [], ◌∷◌, ◌≡◌, refl,
  sym, ap, ◌∙◌, inl, inr, arith, Option-cases, Bool-cases, nat_beq, nat_beq_iff, ltb, nat_eq,
  pair_eq, if◌then◌else◌,
}
use expert_sniper.Prelude.Sorted.{is_in}
use expert_sniper.Dict.{get?, set}
use expert_sniper.Dict.Laws.{get?-set}
use expert_sniper.Hrw.{range}
use expert_sniper.Node.{
  LayerLayout, Disk, Expert, Experts, block_bytes, parse_expert_block, load_expert_from_bin,
  load_layer, load_layers, load_partition, block,
}

module _ {ℓ} {A : Type ℓ} (disk : Disk A) where
  -- The expert of a layer file, if its header can be read.
  abbrev pub expert_on_disk : ℕ → ℕ → Option (Expert A)
  expert_on_disk l x = elim (disk.layout l) [
    | none ↦ none
    | some layout ↦ load_expert_from_bin disk l x layout
  ]

  on_disk_at :
      (l k x : ℕ) (layout : LayerLayout)
      → disk.layout l ≡ some layout
      → l ≡ k
      → expert_on_disk k x ≡ load_expert_from_bin disk l x layout
  on_disk_at l k x layout p q = ap (λ j. expert_on_disk j x) (sym q) ∙ rw (expert_on_disk, p) refl

  load_layer-get? :
      (l : ℕ) (layout : LayerLayout) (ids : List ℕ) (experts experts' : Experts A) (k x : ℕ)
      → load_layer disk l layout ids experts ≡ some experts'
      → get? (k, x) experts' ≡ (
          if nat_beq l k && is_in x ids
          then load_expert_from_bin disk l x layout
          else get? (k, x) experts)
  unfolding load_layer
  load_layer-get? l layout [] experts experts' k x h =
      let same : experts ≡ experts' = cc in
      elim (Bool-cases (nat_beq l k)) [
        | inl p ↦ rw p (ap (λ m. get? (k, x) m) (sym same))
        | inr p ↦ rw p (ap (λ m. get? (k, x) m) (sym same))
      ]
  load_layer-get? l layout (e ∷ ids) experts experts' k x h =
      elim (Option-cases (load_expert_from_bin disk l e layout)) [
        | inl p ↦ absurd (let never = rw (load_layer, p) at h in cc)
        | inr (expert, p) ↦
            let rest =
              load_layer-get? l layout ids (set (l, e) expert experts) experts' k x
                (rw (load_layer, p) at h) in
            let found = get?-set (l, e) (k, x) expert experts in
            elim (Bool-cases (nat_beq l k)) [
              | inr other ↦
                  let rest' = rw (other) at rest in
                  let found' = rw (other) at found in rw other (rest' ∙ found')
              | inl here ↦ elim (Bool-cases (nat_beq e x)) [
                | inl same ↦
                    let q : e ≡ x = (nat_beq_iff e x).0 same in
                    let at_x = ap (λ y. load_expert_from_bin disk l y layout) (sym q) ∙ p in
                    elim (Bool-cases (is_in x ids)) [
                      | inl later ↦ rw (here, same) (rw (here, later) at rest)
                      | inr once ↦
                          rw (here, same)
                            ((rw (here, once) at rest) ∙ (rw (here, same) at found) ∙ sym at_x)
                    ]
                | inr other ↦ elim (Bool-cases (is_in x ids)) [
                  | inl later ↦ rw (here, other, later) (rw (here, later) at rest)
                  | inr once ↦
                      rw (here, other, once)
                        ((rw (here, once) at rest) ∙ (rw (here, other) at found))
                ]
              ]
            ]
      ]

  load_layer-loads :
      (l : ℕ) (layout : LayerLayout) (ids : List ℕ) (experts experts' : Experts A) (x : ℕ)
      → load_layer disk l layout ids experts ≡ some experts'
      → is_in x ids ≡ true
      → (expert : Expert A) × (load_expert_from_bin disk l x layout ≡ some expert)
  unfolding load_layer
  load_layer-loads l layout [] experts experts' x h m = absurd cc
  load_layer-loads l layout (e ∷ ids) experts experts' x h m =
      elim (Option-cases (load_expert_from_bin disk l e layout)) [
        | inl p ↦ absurd (let never = rw (load_layer, p) at h in cc)
        | inr (expert, p) ↦ elim (Bool-cases (nat_beq e x)) [
          | inl same ↦
              let q : e ≡ x = (nat_beq_iff e x).0 same in
              (expert, ap (λ y. load_expert_from_bin disk l y layout) (sym q) ∙ p)
          | inr other ↦
              load_layer-loads l layout ids (set (l, e) expert experts) experts' x
                (rw (load_layer, p) at h) (ground (arith, m, other))
        ]
      ]

  -- What `load_layers` leaves: the experts of the layers, read from their files.
  LayersLoaded : List ℕ → List ℕ → Experts A → Experts A → ℕ → ℕ → Type ℓ
  LayersLoaded ids ls experts experts' k x =
      (((is_in k ls && is_in x ids) ≡ false) × (get? (k, x) experts' ≡ get? (k, x) experts))
      ⊎ (((is_in k ls && is_in x ids) ≡ true)
          × (expert : Expert A) × (expert_on_disk k x ≡ some expert)
          × (get? (k, x) experts' ≡ some expert))

  load_layers-LayersLoaded :
      (ids ls : List ℕ) (experts experts' : Experts A) (k x : ℕ)
      → load_layers disk ids ls experts ≡ some experts'
      → LayersLoaded ids ls experts experts' k x
  unfolding load_layers LayersLoaded
  load_layers-LayersLoaded ids [] experts experts' k x h =
      let same : experts ≡ experts' = cc in inl (refl, ap (λ m. get? (k, x) m) (sym same))
  load_layers-LayersLoaded ids (l ∷ ls) experts experts' k x h =
      elim (Option-cases (disk.layout l)) [
        | inl p ↦ absurd (let never = rw (load_layers, p) at h in cc)
        | inr (layout, p) ↦ elim (Option-cases (load_layer disk l layout ids experts)) [
          | inl q ↦ absurd (let never = rw (load_layers, p, q) at h in cc)
          | inr (middle, q) ↦
              let here = load_layer-get? l layout ids experts middle k x q in
              elim (load_layers-LayersLoaded ids ls middle experts' k x
                (rw (load_layers, p, q) at h)) [
                  | inr (member, expert, loaded, found) ↦
                      inr (ground (arith, member), expert, loaded, found)
                  | inl (other, kept) ↦ elim (Bool-cases (nat_beq l k && is_in x ids)) [
                    | inr away ↦ inl (ground (arith, other, away), kept ∙ rw away at here)
                    | inl at_l ↦
                        let (expert, loaded) =
                          load_layer-loads l layout ids experts middle x q (ground (arith, at_l)) in
                        let q' : l ≡ k = (nat_beq_iff l k).0 (ground (arith, at_l)) in
                        inr (
                          ground (arith, at_l),
                          expert,
                          on_disk_at l k x layout p q' ∙ loaded,
                          kept ∙ (rw at_l at here) ∙ loaded,
                        )
                  ]
                ]
        ]
      ]

  is_in-snoc : (xs : List ℕ) (y x : ℕ) → is_in x (xs ++ y ∷ []) ≡ (is_in x xs || nat_beq y x)
  is_in-snoc [] y x = ground arith
  is_in-snoc (z ∷ xs) y x = ground (arith, is_in-snoc xs y x)

  is_in-range : (n x : ℕ) → is_in x (range n) ≡ ltb x n
  is_in-range zero x = ground arith
  is_in-range (suc n) x = ground (arith, is_in-snoc (range n) n x, is_in-range n x)

  -- If the partition loads, then the node has an expert of a layer if and only if it is in the partition and
  -- the layer is one of the model, and then it serves its block too: the block that the handler answers with
  -- parses to the expert that the node computes with. For all others the handler answers with an error.
  pub block-load_partition :
      (ids : List ℕ) (num_layers : ℕ) (experts : Experts A) (l e : ℕ)
      → load_partition disk ids num_layers ≡ some experts
      → (((is_in e ids && ltb l num_layers) ≡ false)
          × (block disk ids num_layers l e ≡ none)
          × (get? (l, e) experts ≡ none))
        ⊎ (((is_in e ids && ltb l num_layers) ≡ true)
            × (layout : LayerLayout) × (disk.layout l ≡ some layout)
            × (raw : List ℕ) × (block disk ids num_layers l e ≡ some raw)
            × (expert : Expert A) × (parse_expert_block disk.view raw layout.tensors ≡ some expert)
            × (get? (l, e) experts ≡ some expert))
  unfolding load_partition block get? LayersLoaded
  block-load_partition ids num_layers experts l e h =
      let member = is_in-range num_layers l in
      let loaded = load_layers-LayersLoaded ids (range num_layers) [] experts l e h in
      elim loaded [
        | inl (other, absent) ↦
            let out : (is_in e ids && ltb l num_layers) ≡ false = ground (arith, other, member) in
            inl (out, rw (block, out) refl, absent)
        | inr (held, expert, on_disk, found) ↦
            let here : (is_in e ids && ltb l num_layers) ≡ true = ground (arith, held, member) in
            elim (Option-cases (disk.layout l)) [
              | inl p ↦ absurd (let never = rw (expert_on_disk, p) at on_disk in cc)
              | inr (layout, p) ↦ inr (
                here,
                layout,
                p,
                block_bytes (disk.file l) e layout,
                rw (block, here, p) refl,
                expert,
                rw (expert_on_disk, p) at on_disk,
                found,
              )
            ]
      ]
