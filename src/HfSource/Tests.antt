-- ===== src/HfSource/Tests.antt =====
-- A run of a range read with a stale URL, and instances of the theorems.

use expert_sniper.Prelude.{
  ℕ, ◌+◌, ◌-◌, Option, none, some, [], ◌∷◌, String, length, take, drop, ◌≡◌, refl, arith, string_eq,
  ◌==◌, if◌then◌else◌, pair_eq,
}
use expert_sniper.Dict.{get?, set, remove}
use expert_sniper.Fetch.{Bytes}
use expert_sniper.HfSource.{Net, Cdn, cached_url, shard_url, accept, attempt, read_from, read_range}
use expert_sniper.HfSource.Retry.{Answers, read_range-recovers}
use expert_sniper.HfSource.Layout.{
  header_of, locate, place_tensor, place_all, expert_layout, little_endian, nbytes_of, dtype_size,
  dtype_mlx, tensor_order,
}
use expert_sniper.HfSource.Blocks.{fetch_slices, fetch_expert_block}
use expert_sniper.HfSource.Sample.{
  parse_json, all_in, sample_shard, sample-IsSafetensors, read_sample, no_shards, known_shards,
  sample_answer, layout_in, found,
}
use expert_sniper.HfSource.Safetensors.{IsKnown}
use expert_sniper.HfSource.Rows.{RowsOf, fetch_expert_block-RowsOf}

program : Unit {0}
unfolding get? set remove cached_url shard_url accept attempt read_from read_range header_of locate
    place_tensor place_all expert_layout little_endian nbytes_of dtype_size dtype_mlx fetch_slices
    fetch_expert_block
program = tt

-- The cached URL is dead, and the one that the shard redirects to now is good.
abbrev three_bytes : Bytes
three_bytes = 7 ∷ 8 ∷ 9 ∷ []

abbrev reply : String → ℕ → ℕ → Option (ℕ × Bytes)
reply url s e = if url == "good" then some (206, take (e + 1 - s) (drop s three_bytes)) else none

abbrev moved : Net
moved = record {
  now = λ i. 100;
  then_now = λ i. 101;
  redirect = λ i shard. some ("good", none);
  get = λ i url s e. reply url s e;
}

abbrev stale : Cdn
stale = ("shard", ("dead", 5000)) ∷ []

recovers : read_range moved "shard" 1 2 stale ≡ (some (8 ∷ 9 ∷ []), ("shard", ("good", 701)) ∷ [])
unfolding program
recovers = refl

reply-slice :
    (url : String) (status : ℕ) (body : Bytes)
    → reply url 1 2 ≡ some (status, body)
    → body ≡ 8 ∷ 9 ∷ []
reply-slice url status body h = ground (arith, string_eq.same_iff url "good")

second : Answers moved "shard" 1 2 1
second = record {
  url = "good";
  expires = none;
  redirects = refl;
  status = 206;
  good = refl;
  body = 8 ∷ 9 ∷ [];
  replies = refl;
  whole = refl;
}

read_range-recovers_example : (read_range moved "shard" 1 2 stale).0 ≡ some (8 ∷ 9 ∷ [])
read_range-recovers_example =
    read_range-recovers moved "shard" 1 2 three_bytes
      (λ i url status body h size. reply-slice url status body h) 1 stale (omega arith)
      (omega arith) second

nothing-IsKnown : IsKnown parse_json (λ shard. sample_shard) no_shards
unfolding get?
nothing-IsKnown = record { right = λ shard header h. absurd cc }

fetch_expert_block-RowsOf_example :
    (block : Bytes) × (fetch_expert_block read_sample 1 (layout_in sample_answer) ≡ some block)
    × (length block ≡ (layout_in sample_answer).expert_block_size)
    × RowsOf parse_json
        (λ shard. sample_shard)
        (all_in tensor_order)
        2
        (λ layer t. t)
        0
        1
        block
        (layout_in sample_answer).tensors
        tensor_order
    × IsKnown parse_json (λ shard. sample_shard) known_shards
fetch_expert_block-RowsOf_example =
    fetch_expert_block-RowsOf parse_json (λ shard. sample_shard) (all_in tensor_order) 2
      (λ layer t. t) 0 (λ name shard h. sample-IsSafetensors) read_sample (λ shard s e p q. refl) 1
      no_shards known_shards (layout_in sample_answer) nothing-IsKnown found (omega arith)
