-- ===== src/HfReader/Fetched.antt =====
-- A fetched block is of the model, and a fetch leaves the reader right.
use mathlib.Core.Path.{subst}
use expert_sniper.Prelude.{
  ℕ, Option, none, some, List, [], ◌∷◌, String, ◌≡◌, refl, sym, ap, ◌∙◌, inl, inr, Option-cases,
  Bool-cases, nat_beq, nat_beq_iff, nat_eq, pair_eq, string_eq,
}
use expert_sniper.Dict.{Dict, get?, set}
use expert_sniper.Dict.Laws.{get?-set}
use expert_sniper.Lru.{Cache, put}
use expert_sniper.Lru.Entries.{Entries, put-Entries}
use expert_sniper.Lru.Invariant.{IsValid, put-IsValid}
use expert_sniper.Fetch.{Bytes}
use expert_sniper.Reader.Format.{Info}
use expert_sniper.HfSource.Layout.{Layout}
use expert_sniper.Node.{LayerLayout, Expert, parse_expert_block}
use expert_sniper.HfReader.{
  Sources, Fetched, HfReader, layer_of, local_block, read_local, hf_layout, tensors_of,
  fetch_remote, fetch,
}
use expert_sniper.HfReader.Faithful.{Truth, IsFaithful, true_expert, IsTrue, AllTrue, Right}

pub some_inj {ℓ} : {X : Type ℓ} {x y : X} → ◌≡◌ {A = Option X} (some x) (some y) → x ≡ y
some_inj h = cc

module _ {ℓ} {A : Type ℓ} (listed : List (ℕ × ℕ)) (view : Info → Bytes → Option A)
    (truth : Truth) where
  -- A result is nothing, or the block of its expert.
  abbrev pub TrueBlock : ℕ → ℕ → Fetched → Type 0
  TrueBlock l e got = AllTrue listed view truth l ((e, got) ∷ [])

  pub set-AllTrue :
      (l e : ℕ) (got : Fetched) (futs : Dict ℕ Fetched)
      → TrueBlock l e got
      → AllTrue listed view truth l futs
      → AllTrue listed view truth l (set e got futs)
  unfolding set
  set-AllTrue l e got [] here all = here
  set-AllTrue l e none ((j, none) ∷ futs) here all = elim (Bool-cases (nat_beq j e)) [
    | inl same ↦ rw (set, same) all
    | inr other ↦ rw (set, other) (set-AllTrue l e none futs here all)
  ]
  set-AllTrue l e none ((j, some (b, raw)) ∷ futs) here (first, all) =
      elim (Bool-cases (nat_beq j e)) [
        | inl same ↦ rw (set, same) all
        | inr other ↦ rw (set, other) (first, set-AllTrue l e none futs here all)
      ]
  set-AllTrue l e (some (b, raw)) ((j, none) ∷ futs) (here, _) all =
      elim (Bool-cases (nat_beq j e)) [
        | inl same ↦
            rw (set, same) (here ∙ ap (λ i. truth.block l i) (sym ((nat_beq_iff j e).0 same)), all)
        | inr other ↦ rw (set, other) (set-AllTrue l e (some (b, raw)) futs (here, tt) all)
      ]
  set-AllTrue l e (some (b, raw)) ((j, some (b', raw')) ∷ futs) (here, _) (first, all) =
      elim (Bool-cases (nat_beq j e)) [
        | inl same ↦
            rw (set, same) (here ∙ ap (λ i. truth.block l i) (sym ((nat_beq_iff j e).0 same)), all)
        | inr other ↦ rw (set, other) (first, set-AllTrue l e (some (b, raw)) futs (here, tt) all)
      ]

  pub get?-AllTrue :
      (l e : ℕ) (got : Fetched) (futs : Dict ℕ Fetched)
      → AllTrue listed view truth l futs
      → get? e futs ≡ some got
      → TrueBlock l e got
  unfolding get?
  get?-AllTrue l e got [] all h = absurd cc
  get?-AllTrue l e got ((j, none) ∷ futs) all h = elim (Bool-cases (nat_beq j e)) [
    | inl same ↦
        let q = rw (get?, same) at h in let q' : none ≡ got = cc in subst (TrueBlock l e) q' tt
    | inr other ↦ get?-AllTrue l e got futs all (rw (get?, other) at h)
  ]
  get?-AllTrue l e got ((j, some (b, raw)) ∷ futs) (first, all) h =
      elim (Bool-cases (nat_beq j e)) [
        | inl same ↦
            let q = rw (get?, same) at h in
            let q' : some (b, raw) ≡ got = cc in
            subst (TrueBlock l e) q'
              (first ∙ ap (λ i. truth.block l i) ((nat_beq_iff j e).0 same), tt)
        | inr other ↦ get?-AllTrue l e got futs all (rw (get?, other) at h)
      ]

  -- What is parsed from a block of the model is the expert of the model.
  pub parsed-true :
      (l e : ℕ) (raw : Bytes) (tensors : Dict String Info)
      → tensors ≡ (truth.layout l).tensors
      → raw ≡ truth.block l e
      → parse_expert_block view raw tensors ≡ true_expert listed view truth l e
  parsed-true l e raw tensors t b =
      ap (λ x. parse_expert_block view x tensors) b
      ∙ ap (λ x. parse_expert_block view (truth.block l e) x) t

  -- An expert of the model is stored.
  pub put-Right :
      (l e : ℕ) (expert : Expert A) (r : HfReader A)
      → Right listed view truth r
      → true_expert listed view truth l e ≡ some expert
      → (lru : Cache (Expert A)) × (put l e expert r.lru ≡ some lru)
        × Entries (IsTrue listed view truth) lru.cache
        × IsValid lru
  put-Right l e expert r k is_true =
      let (lru, stored, valid) = put-IsValid l e expert r.lru k.valid in
      (
        lru,
        stored,
        put-Entries (IsTrue listed view truth) l e expert r.lru lru stored is_true k.cached,
        valid,
      )

  module _ (src : Sources) (faithful : IsFaithful listed view truth src) where
    pub layer_of-Right :
        (l : ℕ) (r : HfReader A)
        → Right listed view truth r
        → Right listed view truth (layer_of listed view src l r).0
    unfolding layer_of
    layer_of-Right l r k = elim (Option-cases (get? l r.headers)) [
      | inr (header, p) ↦ rw (layer_of, p) k
      | inl p ↦ elim (Option-cases (src.layer_header l)) [
        | inl q ↦ rw (layer_of, p, q) k
        | inr (header, q) ↦
            rw (layer_of, p, q)
              (record {
                cached = k.cached;
                valid = k.valid;
                layouts = k.layouts;
                futures = k.futures;
                headers = λ j other h. elim (Bool-cases (nat_beq l j)) [
                  | inl here ↦
                      let same : some header ≡ some (some other) =
                        rw (get?-set l j header r.headers, here) at h in
                      let at_j : l ≡ j = (nat_beq_iff l j).0 here in
                      let at_header : header ≡ some other = cc in
                      faithful.headers l other (q ∙ ap some at_header)
                      ∙ ap (λ i. truth.header i) at_j
                  | inr away ↦ k.headers j other (rw (get?-set l j header r.headers, away) at h)
                ];
              })
      ]
    ]

    layer_of-true :
        (l : ℕ) (r : HfReader A) (header : LayerLayout)
        → Right listed view truth r
        → (layer_of listed view src l r).1 ≡ some (some header)
        → header ≡ truth.header l
    unfolding layer_of
    layer_of-true l r header k h = elim (Option-cases (get? l r.headers)) [
      | inr (found, p) ↦ k.headers l header (p ∙ rw (layer_of, p) at h)
      | inl p ↦ elim (Option-cases (src.layer_header l)) [
        | inl q ↦ absurd (let never = rw (layer_of, p, q) at h in cc)
        | inr (found, q) ↦ faithful.headers l header (q ∙ rw (layer_of, p, q) at h)
      ]
    ]

    hf_layout-Right :
        (l : ℕ) (r : HfReader A)
        → Right listed view truth r
        → Right listed view truth (hf_layout listed view src l r).0
    unfolding hf_layout
    hf_layout-Right l r k = elim (Option-cases (get? l r.layouts)) [
      | inr (lay, p) ↦ rw (hf_layout, p) k
      | inl p ↦ elim (Option-cases (src.expert_layout l)) [
        | inl q ↦ rw (hf_layout, p, q) k
        | inr (lay, q) ↦
            rw (hf_layout, p, q)
              (record {
                cached = k.cached;
                valid = k.valid;
                headers = k.headers;
                futures = k.futures;
                layouts = λ j other h. elim (Bool-cases (nat_beq l j)) [
                  | inl here ↦
                      let same : some lay ≡ some other =
                        rw (get?-set l j lay r.layouts, here) at h in
                      let at_j : l ≡ j = (nat_beq_iff l j).0 here in
                      let at_lay : other ≡ lay = cc in
                      at_lay ∙ faithful.layouts l lay q ∙ ap (λ i. truth.layout i) at_j
                  | inr away ↦ k.layouts j other (rw (get?-set l j lay r.layouts, away) at h)
                ];
              })
      ]
    ]

    hf_layout-true :
        (l : ℕ) (r : HfReader A) (lay : Layout)
        → Right listed view truth r
        → (hf_layout listed view src l r).1 ≡ some lay
        → lay ≡ truth.layout l
    unfolding hf_layout
    hf_layout-true l r lay k h = elim (Option-cases (get? l r.layouts)) [
      | inr (found, p) ↦ k.layouts l lay (p ∙ rw (hf_layout, p) at h)
      | inl p ↦ elim (Option-cases (src.expert_layout l)) [
        | inl q ↦ absurd (let never = rw (hf_layout, p, q) at h in cc)
        | inr (found, q) ↦ faithful.layouts l lay (q ∙ rw (hf_layout, p, q) at h)
      ]
    ]

    pub hf_layout-finds :
        (l : ℕ) (r : HfReader A)
        → Right listed view truth r
        → src.expert_layout l ≡ some (truth.layout l)
        → (hf_layout listed view src l r).1 ≡ some (truth.layout l)
    unfolding hf_layout
    hf_layout-finds l r k h = elim (Option-cases (get? l r.layouts)) [
      | inr (lay, p) ↦ rw (hf_layout, p) (ap some (k.layouts l lay p))
      | inl p ↦ rw (hf_layout, p, h) refl
    ]

    -- The tensors of a layer are those of the model.
    pub record TensorsTrue (l : ℕ) (out : HfReader A × Option (Dict String Info)) : Type ℓ where
      pub right : Right listed view truth out.0
      pub same :
          (tensors : Dict String Info) → out.1 ≡ some tensors → tensors ≡ (truth.layout l).tensors

    pub tensors_of-TensorsTrue :
        (l : ℕ) (r : HfReader A)
        → Right listed view truth r
        → TensorsTrue l (tensors_of listed view src l r)
    unfolding tensors_of
    tensors_of-TensorsTrue l r k =
        let r' = (layer_of listed view src l r).0 in
        let k' = layer_of-Right l r k in
        elim (Option-cases (layer_of listed view src l r).1) [
          | inl p ↦ rw (tensors_of, p) (record { right = k'; same = λ tensors h. absurd cc })
          | inr (some header, p) ↦
              rw (tensors_of, p)
                (record {
                  right = k';
                  same = λ tensors h.
                      let same : header.tensors ≡ tensors = cc in
                      sym same
                      ∙ ap (λ (x : LayerLayout). x.tensors) (layer_of-true l r header k p)
                      ∙ faithful.same_tensors l;
                })
          | inr (none, p) ↦
              let k'' = hf_layout-Right l r' k' in
              elim (Option-cases (hf_layout listed view src l r').1) [
                | inl q ↦
                    rw (tensors_of, p, q) (record { right = k''; same = λ tensors h. absurd cc })
                | inr (lay, q) ↦
                    rw (tensors_of, p, q)
                      (record {
                        right = k'';
                        same = λ tensors h.
                            let same : lay.tensors ≡ tensors = cc in
                            sym same
                            ∙ ap (λ (x : Layout). x.tensors) (hf_layout-true l r' lay k' q);
                      })
              ]
        ]

    -- A fetch leaves the reader right, and fails or has the block of its expert.
    pub record FetchTrue (l e : ℕ) (out : HfReader A × Fetched) : Type ℓ where
      pub right : Right listed view truth out.0
      pub is_true : TrueBlock l e out.1

    fetch_remote-FetchTrue :
        (l e : ℕ) (r : HfReader A)
        → Right listed view truth r
        → FetchTrue l e (fetch_remote listed view src l e r)
    unfolding fetch_remote
    fetch_remote-FetchTrue l e r k =
        let k' = hf_layout-Right l r k in
        elim (Option-cases (hf_layout listed view src l r).1) [
          | inl q ↦ rw (fetch_remote, q) (record { right = k'; is_true = tt })
          | inr (lay, q) ↦ elim (Option-cases (src.fetch_expert_block l e lay)) [
            | inl s ↦ rw (fetch_remote, q, s) (record { right = k'; is_true = tt })
            | inr (raw, s) ↦
                let at_truth =
                  ap (λ x. src.fetch_expert_block l e x) (sym (hf_layout-true l r lay k q)) ∙ s in
                rw (fetch_remote, q, s)
                  (record { right = k'; is_true = (faithful.blocks l e raw at_truth, tt) })
          ]
        ]

    local-true :
        (l e : ℕ) (r : HfReader A) (header : Option LayerLayout) (raw : Bytes)
        → Right listed view truth r
        → (layer_of listed view src l r).1 ≡ some header
        → local_block listed view src header l e ≡ some raw
        → raw ≡ truth.block l e
    unfolding local_block
    local-true l e r none raw k p h = absurd cc
    local-true l e r (some header) raw k p h = faithful.local_blocks l e raw (
        subst (λ (x : LayerLayout). local_block listed view src (some x) l e ≡ some raw)
          (layer_of-true l r header k p) h)

    pub record ReadTrue (l e : ℕ) (out : HfReader A × Option (Option Bytes)) : Type ℓ where
      pub right : Right listed view truth out.0
      pub same : (raw : Bytes) → out.1 ≡ some (some raw) → raw ≡ truth.block l e

    pub read_local-ReadTrue :
        (l e : ℕ) (r : HfReader A)
        → Right listed view truth r
        → ReadTrue l e (read_local listed view src l e r)
    unfolding read_local
    read_local-ReadTrue l e r k =
        let k' = layer_of-Right l r k in
        elim (Option-cases (layer_of listed view src l r).1) [
          | inl p ↦ rw (read_local, p) (record { right = k'; same = λ raw h. absurd cc })
          | inr (header, p) ↦
              rw (read_local, p)
                (record {
                  right = k';
                  same = λ raw h. local-true l e r header raw k p (some_inj h);
                })
        ]

    pub fetch-FetchTrue :
        (l e : ℕ) (r : HfReader A)
        → Right listed view truth r
        → FetchTrue l e (fetch listed view src l e r)
    unfolding fetch
    fetch-FetchTrue l e r k =
        let r' = (read_local listed view src l e r).0 in
        let read = read_local-ReadTrue l e r k in
        elim (Option-cases (read_local listed view src l e r).1) [
          | inl p ↦ rw (fetch, p) (record { right = read.right; is_true = tt })
          | inr (some raw, p) ↦
              rw (fetch, p) (record { right = read.right; is_true = (read.same raw p, tt) })
          | inr (none, p) ↦ rw (fetch, p) (fetch_remote-FetchTrue l e r' read.right)
        ]
