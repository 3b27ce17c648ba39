-- ===== src/HfReader/Ready.antt =====
-- A block that can be had now is fetched, and what is found of a layer file stays known.

use expert_sniper.Prelude.{
  ℕ, Bool, true, false, Option, none, some, List, ◌≡◌, ◌≢◌, refl, ap, ◌∙◌, inl, inr, Option-cases,
  nat_beq_iff, nat_eq, pair_eq, string_eq,
}
use expert_sniper.Dict.{Dict, get?}
use expert_sniper.Dict.Laws.{get?-set}
use expert_sniper.Fetch.{Bytes}
use expert_sniper.Reader.Format.{Info}
use expert_sniper.Node.{LayerLayout}
use expert_sniper.HfReader.{
  Sources, Fetched, HfReader, local_block, layer_of, read_local, hf_layout, fetch_remote, fetch,
  future_for,
}
use expert_sniper.HfReader.Faithful.{Truth, IsFaithful, Right, Finds, IsAvailable}
use expert_sniper.HfReader.Fetched.{hf_layout-finds, read_local-ReadTrue}

module _ {ℓ} {A : Type ℓ} (listed : List (ℕ × ℕ)) (view : Info → Bytes → Option A) (truth : Truth)
    (l : ℕ) where
  module _ (src : Sources) (faithful : IsFaithful listed view truth src)
      (header : Option LayerLayout) where
    pub layer_of-Finds :
        (r : HfReader A)
        → Finds listed view truth src r l header
        → ((layer_of listed view src l r).1 ≡ some header)
          × (get? l (layer_of listed view src l r).0.headers ≡ some header)
    unfolding layer_of
    layer_of-Finds r (inl p) = (rw (layer_of, p) refl, rw (layer_of, p) p)
    layer_of-Finds r (inr (p, q)) = (
      rw (layer_of, p, q) refl,
      rw (layer_of, p, q) (get?-set l l header r.headers ∙ rw ((nat_beq_iff l l).1 refl) refl),
    )

    hf_layout-headers : (r : HfReader A) → (hf_layout listed view src l r).0.headers ≡ r.headers
    unfolding hf_layout
    hf_layout-headers r = elim (Option-cases (get? l r.layouts)) [
      | inr (lay, p) ↦ rw (hf_layout, p) refl
      | inl p ↦ elim (Option-cases (src.expert_layout l)) [
        | inl q ↦ rw (hf_layout, p, q) refl
        | inr (lay, q) ↦ rw (hf_layout, p, q) refl
      ]
    ]

    -- The fetch had a block, and the file of the layer is known from now on.
    record Answers (out : HfReader A × Fetched) : Type ℓ where
      got : Bool × Bytes
      answered : out.1 ≡ some got
      finds : get? l out.0.headers ≡ some header

    fetch_remote-Answers :
        (e : ℕ) (r : HfReader A) (raw : Bytes)
        → Right listed view truth r
        → get? l r.headers ≡ some header
        → src.expert_layout l ≡ some (truth.layout l)
        → src.fetch_expert_block l e (truth.layout l) ≡ some raw
        → Answers (fetch_remote listed view src l e r)
    unfolding fetch_remote
    fetch_remote-Answers e r raw k known layout block =
        let found = hf_layout-finds listed view truth src faithful l r k layout in
        rw (fetch_remote, found, block)
          (record {
            got = (false, raw);
            answered = refl;
            finds = ap (λ d. get? l d) (hf_layout-headers r) ∙ known;
          })

    read_local-Finds :
        (e : ℕ) (r : HfReader A)
        → Finds listed view truth src r l header
        → ((read_local listed view src l e r).1 ≡ some (local_block listed view src header l e))
          × (get? l (read_local listed view src l e r).0.headers ≡ some header)
    unfolding read_local
    read_local-Finds e r finds =
        let (p, known) = layer_of-Finds r finds in
        (rw (read_local, p) refl, rw (read_local, p) known)

    fetch-Answers :
        (e : ℕ) (r : HfReader A)
        → Right listed view truth r
        → Finds listed view truth src r l header
        → IsAvailable listed view truth src header l e
        → Answers (fetch listed view src l e r)
    unfolding fetch
    fetch-Answers e r k finds available =
        let (p, known) = read_local-Finds e r finds in
        let r' = (read_local listed view src l e r).0 in
        let k' = (read_local-ReadTrue listed view truth src faithful l e r k).right in
        elim (Option-cases (local_block listed view src header l e)) [
          | inr (raw, q) ↦
              let here = p ∙ ap some q in
              rw (fetch, here) (record { got = (true, raw); answered = refl; finds = known })
          | inl q ↦ elim available [
            | inl (raw, here) ↦ absurd cc
            | inr (layout, raw, block) ↦
                let absent = p ∙ ap some q in
                rw (fetch, absent) (fetch_remote-Answers e r' raw k' known layout block)
          ]
        ]

    -- A future that is held is as it is, and has not failed; else the block is fetched now.
    pub record Ready (out : HfReader A × Fetched) : Type ℓ where
      pub got : Bool × Bytes
      pub answered : out.1 ≡ some got
      pub finds : Finds listed view truth src out.0 l header

    pub future_for-Ready :
        (futs : Dict ℕ Fetched) (e : ℕ) (r : HfReader A)
        → Right listed view truth r
        → Finds listed view truth src r l header
        → IsAvailable listed view truth src header l e
        → get? e futs ≢ some none
        → Ready (future_for listed view src l futs e r)
    unfolding future_for
    future_for-Ready futs e r k finds available held = elim (Option-cases (get? e futs)) [
      | inl p ↦
          let f = fetch-Answers e r k finds available in
          rw (future_for, p) (record { got = f.got; answered = f.answered; finds = inl f.finds })
      | inr (none, p) ↦ absurd (held p)
      | inr (some got, p) ↦
          rw (future_for, p) (record { got = got; answered = refl; finds = finds })
    ]
