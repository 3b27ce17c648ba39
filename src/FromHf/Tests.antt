-- ===== src/FromHf/Tests.antt =====
-- A machine takes its share of a checkpoint of two experts, and an instance of the theorem.
use expert_sniper.Prelude.{
  ℕ, zero, suc, ◌-◌, Option, none, some, [], ◌∷◌, String, ◌≡◌, refl, nat_eq, pair_eq, string_eq,
}
use expert_sniper.Dict.{get?, set}
use expert_sniper.Hrw.{mem, filter, max_by, owner, is_owner, partition}
use expert_sniper.Prelude.Sorted.{insert, sorted}
use expert_sniper.HfSource.Layout.{
  Layout, expert_layout, little_endian, header_of, locate, place_tensor, place_all, nbytes_of,
  dtype_size, dtype_mlx, tensor_order,
}
use expert_sniper.HfSource.Blocks.{fetch_slices, fetch_expert_block}
use expert_sniper.HfSource.Sample.{
  parse_json, all_in, read_sample, known_shards, sample_answer, layout_in,
}
use expert_sniper.Fetch.{Bytes}
use expert_sniper.FromHf.{
  Run, Take, my_share, sort_out, write_block, write_all, take_layer, take_layers, fetch_from_hf,
}

program : Unit {0}
unfolding get? set header_of locate place_tensor place_all expert_layout little_endian nbytes_of
    dtype_size dtype_mlx mem filter max_by owner is_owner partition insert sorted fetch_slices
    fetch_expert_block my_share sort_out write_block write_all take_layer take_layers fetch_from_hf
program = tt

-- A toy digest, and a manifest that has the hash of one block.
abbrev digest_of : Bytes → String
digest_of block = "digest"

abbrev manifest : ℕ × ℕ → Option String
manifest (zero, zero) = some "digest"
manifest k = none

-- Node 7 joins a roster that does not list it, and wins the second expert.
abbrev score : ℕ → ℕ → ℕ
score node zero = 20 - node
score node (suc e) = node

abbrev layer_header : ℕ → Layout → Bytes
layer_header layer lay = 123 ∷ []

abbrev no_files : ℕ → Option Bytes
no_files layer = none

abbrev at_zero : Take
at_zero = record { file = []; hashes = []; fetched = 0; skipped = 0; bytes = 0 }

abbrev run : Run
run =
    take_layers digest_of manifest read_sample parse_json (all_in tensor_order) 2 (λ layer t. t)
      layer_header no_files (layout_in sample_answer).expert_block_size 1 0 (1 ∷ []) known_shards
      at_zero

noted : run.last.hashes ≡ ((0, 1), "digest") ∷ []
unfolding program
noted = refl
