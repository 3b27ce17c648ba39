-- ===== src/HfSource/Blocks.antt =====
-- The block of an expert, put together from its nine slices, and the hashes of all blocks:
-- src/expert_network/hf_source.py.
use expert_sniper.Hrw.{range}
use expert_sniper.Prelude.{
  pair_eq, ℕ, ◌+◌, ◌-◌, ◌*◌, Option, none, some, List, [], ◌∷◌, ◌++◌, String, length, string_eq,
}
use expert_sniper.Dict.{Dict, get?, set}
use expert_sniper.Fetch.{Bytes, zeros}
use expert_sniper.HfSource.Layout.{Source, Layout, Shards, Header, expert_layout, tensor_order}

module _ (read : String → ℕ → ℕ → Option Bytes) where
  -- The pieces of `fetch_expert_block`, in the order of the tensors. `none` is the error of a range, or
  -- a KeyError.
  unfoldable pub fetch_slices : ℕ → List String → Dict String Source → Option Bytes
  fetch_slices e [] sources = some []
  fetch_slices e (t ∷ ts) sources = elim (get? t sources) [
    | none ↦ none
    | some (shard, (s, per)) ↦ elim (read shard (s + e * per) (s + e * per + per - 1)) [
      | none ↦ none
      | some piece ↦ elim (fetch_slices e ts sources) [
        | none ↦ none
        | some out ↦ some (piece ++ out)
      ]
    ]
  ]

  unfoldable pub fetch_expert_block : ℕ → Layout → Option Bytes
  fetch_expert_block e lay = elim (fetch_slices e tensor_order lay.sources) [
    | none ↦ none
    | some out ↦ some (out ++ zeros (lay.expert_block_size - length out))
  ]

  -- The loops of `hash_all_blocks`: the hash of each block under its layer and expert.
  module _ (sha256 : Bytes → String) where
    unfoldable pub hash_layer :
        ℕ → List ℕ → Layout → Dict (ℕ × ℕ) String → Option (Dict (ℕ × ℕ) String)
    hash_layer layer [] lay blocks = some blocks
    hash_layer layer (e ∷ ids) lay blocks = elim (fetch_expert_block e lay) [
      | none ↦ none
      | some block ↦ hash_layer layer ids lay (set (layer, e) (sha256 block) blocks)
    ]

    module _ (parse_json : Bytes → Option Header) (weight_map : Dict String String)
        (num_experts : ℕ) (tensor_name : ℕ → String → String) where
      unfoldable pub hash_all_blocks :
          List ℕ → Shards → Dict (ℕ × ℕ) String → Option (Dict (ℕ × ℕ) String)
      hash_all_blocks [] known blocks = some blocks
      hash_all_blocks (layer ∷ layers) known blocks =
          elim (expert_layout read parse_json weight_map num_experts tensor_name layer known) [
            | none ↦ none
            | some (lay, known') ↦ elim (hash_layer layer (range num_experts) lay blocks) [
              | none ↦ none
              | some blocks' ↦ hash_all_blocks layers known' blocks'
            ]
          ]
