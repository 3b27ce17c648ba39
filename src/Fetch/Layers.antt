-- ===== src/Fetch/Layers.antt =====
-- `fetch_partition` over all layers: what is on disk, and what was counted, when it returns.

use expert_sniper.Prelude.{
  ℕ, ◌+◌, ◌-◌, ◌*◌, ◌≤◌, Bool, true, false, ◌&&◌, Option, some, List, [], ◌∷◌, ◌++◌, String, length,
  take, nat_beq, length-append, length-take, ◌≡◌, refl, ◌∙◌, inl, inr, ◌⊎◌, arith, Bool-cases,
  Option-cases,
}
use expert_sniper.Prelude.Sorted.{is_in}
use expert_sniper.Fetch.{
  length-zeros, Bytes, zeros, Stats, Pull, Outcome, ok, raised, has_slot, open_layer, LayerInput,
  Run, opened, pulled, fetch_layers, fetch_partition,
}
use expert_sniper.Fetch.Slots.{length-pwrite}
use expert_sniper.Fetch.Verified.{Published}
use expert_sniper.Fetch.Layer.{pull_layer-verified}
use expert_sniper.Fetch.Credit.{delivered_sum, pull_layer-counted}

Outcome-cases : (o : Outcome) → ((p : Pull) × (o ≡ ok p)) ⊎ ((p : Pull) × (o ≡ raised p))
Outcome-cases (ok p) = inl (p, refl)
Outcome-cases (raised p) = inr (p, refl)

module _ (sha256 : Bytes → String) (page n num : ℕ) (mine : List ℕ) where
  -- All blocks of this machine verify.
  abbrev pub holds_all : List ℕ → (ℕ → Option String) → Bytes → Bool
  holds_all [] blocks file = true
  holds_all (e ∷ ids) blocks file =
      has_slot sha256 page n blocks e file && holds_all ids blocks file

  -- There is a file for each layer, and all blocks of this machine verify in it.
  abbrev pub all_verified : List LayerInput → List Bytes → Bool
  all_verified [] [] = true
  all_verified [] (f ∷ files) = false
  all_verified (layer ∷ layers) [] = false
  all_verified (layer ∷ layers) (f ∷ files) =
      holds_all mine layer.blocks f && all_verified layers files

  -- The header fits, the published hashes are of blocks of the right size, and all experts of this
  -- machine are published.
  pub record IsSound (layer : LayerInput) : Type 0 where
    pub fits : length layer.header ≤ page
    pub sized : (e : ℕ) (block : Bytes) → layer.blocks e ≡ some (sha256 block) → length block ≡ n
    pub wanted : Published layer.blocks num mine

  abbrev pub AllSound : List LayerInput → Type 0
  AllSound [] = Unit
  AllSound (layer ∷ layers) = IsSound layer × AllSound layers

  pub length-open_layer :
      (layer : LayerInput)
      → length layer.header ≤ page
      → length (open_layer sha256 page n layer.blocks num layer.header layer.old) ≡ page + num * n
  unfolding open_layer
  length-open_layer layer fits =
      let size = page + num * n in
      let padded = layer.header ++ zeros (page - length layer.header) in
      let page_long : length padded ≡ page =
        length-append layer.header (zeros (page - length layer.header))
        ∙ omega (arith, fits, length-zeros (page - length layer.header)) in
      let sparse : length (take size (padded ++ zeros size)) ≡ size =
        length-take size (padded ++ zeros size)
          (omega (arith, length-append padded (zeros size), length-zeros size)) in
      elim (Option-cases layer.old) [
        | inl p ↦ rw (open_layer, p) sparse
        | inr (bytes, p) ↦ elim (Bool-cases (nat_beq (length bytes) size)) [
          | inr other ↦ rw (open_layer, p, other) sparse
          | inl same ↦
              let long : length bytes ≡ size = ground (arith, same) in
              rw (open_layer, p, same)
                (length-pwrite padded 0 bytes (omega (arith, page_long, long)) ∙ long)
        ]
      ]

  holds_each :
      (ids : List ℕ) (blocks : ℕ → Option String) (file : Bytes)
      → ((x : ℕ) → is_in x ids ≡ true → has_slot sha256 page n blocks x file ≡ true)
      → holds_all ids blocks file ≡ true
  holds_each [] blocks file h = refl
  holds_each (e ∷ ids) blocks file h =
      let first = h e (ground arith) in
      let rest = holds_each ids blocks file (λ x p. h x (ground (arith, p))) in
      ground (arith, first, rest)

  record Fetched (layers : List LayerInput) (s : Stats) (run : Run) : Type 0 where
    verified : all_verified layers run.files ≡ true
    counts :
        run.stats.fetched + run.stats.skipped ≡ s.fetched + s.skipped + length layers * length mine
    balanced :
        delivered_sum s.delivered ≡ s.bytes → delivered_sum run.stats.delivered ≡ run.stats.bytes

  fetch_layers-Fetched :
      (layers : List LayerInput) (s : Stats) (probed : Bool)
      → AllSound layers
      → delivered_sum s.delivered ≡ s.bytes
      → (fetch_layers sha256 page n num mine layers s probed).complete ≡ true
      → Fetched layers s (fetch_layers sha256 page n num mine layers s probed)
  unfolding fetch_layers
  fetch_layers-Fetched [] s probed sound b h = record {
    verified = refl;
    counts = omega arith;
    balanced = λ b'. b';
  }
  fetch_layers-Fetched (layer ∷ layers) s probed (good, sound) b h =
      elim (Outcome-cases (pulled sha256 page n num mine layer s probed)) [
        | inr (p, q) ↦ absurd (let never = rw (fetch_layers, q) at h in cc)
        | inl (p, q) ↦
            let start = opened sha256 page n num mine layer s probed in
            let len = length-open_layer layer good.fits in
            let (counts, arrived, paid, b') =
              pull_layer-counted sha256 page n layer.blocks layer.replies layer.order layer.reply
                mine start p "" q b in
            let here = holds_each mine layer.blocks p.file (λ x m.
              pull_layer-verified sha256 page n layer.blocks num good.sized layer.replies
                layer.order layer.reply mine start p x len good.wanted q m) in
            let rest =
              fetch_layers-Fetched layers p.stats p.probed sound b' (rw (fetch_layers, q) at h) in
            rw (fetch_layers, q)
              (record {
                verified = ground (arith, here, rest.verified);
                counts = grind (arith, rest.counts, counts);
                balanced = λ _. rest.balanced b';
              })
      ]

  -- When every header fits its page, every published hash is of blocks of the model's size, and
  -- every expert of this machine is published in every layer: a run that ends without an exception
  -- leaves one file for each layer in which all of this machine's blocks match their published
  -- hashes, has counted each of them exactly once as fetched or as already there, and has credited
  -- to the peers together exactly the bytes it counts as received.
  pub fetch_partition-verified :
      (layers : List LayerInput)
      → AllSound layers
      → (fetch_partition sha256 page n num mine layers).complete ≡ true
      → (all_verified layers (fetch_partition sha256 page n num mine layers).files ≡ true)
        × ((fetch_partition sha256 page n num mine layers).stats.fetched
              + (fetch_partition sha256 page n num mine layers).stats.skipped
            ≡ length layers * length mine)
        × (delivered_sum (fetch_partition sha256 page n num mine layers).stats.delivered
            ≡ (fetch_partition sha256 page n num mine layers).stats.bytes)
  unfolding fetch_partition
  fetch_partition-verified layers sound h =
      let start : Stats = record { fetched = 0; skipped = 0; bytes = 0; delivered = [] } in
      let f = fetch_layers-Fetched layers start false sound refl h in
      (f.verified, f.counts ∙ omega arith, f.balanced refl)
