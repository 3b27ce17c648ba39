-- ===== src/HfSource/Sample.antt =====
-- A small checkpoint for the tests.
use mathlib.Core.Path.{subst}
use expert_sniper.Prelude.{
  ℕ, ◌+◌, ◌-◌, ◌*◌, ◌<◌, ◌≤◌, Option, none, some, List, [], ◌∷◌, String, length, take, drop, ◌≡◌,
  refl, inl, inr, arith, Bool-cases, string_eq, ◌==◌, pair_eq,
}
use expert_sniper.Dict.{Dict, get?, set}
use expert_sniper.Fetch.{Bytes}
use expert_sniper.HfSource.Safetensors.{Shard, IsTensor, IsSafetensors}
use expert_sniper.HfSource.Layout.{
  Tensor, Header, Shards, Layout, Source, header_of, locate, place_tensor, place_all, expert_layout,
  little_endian, nbytes_of, dtype_size, dtype_mlx, tensor_order,
}

-- Two experts, of one byte in each of the nine tensors; the header takes one byte.
abbrev pub tensor_at : ℕ → Tensor
tensor_at a = record { dtype = "U8"; shape = 2 ∷ 1 ∷ []; from = a; to = a + 2 }

abbrev pub header_from : ℕ → List String → Header
header_from a [] = []
header_from a (t ∷ ts) = (t, tensor_at a) ∷ header_from (a + 2) ts

abbrev pub parse_json : Bytes → Option Header
parse_json text = some (header_from 0 tensor_order)

abbrev pub all_in : List String → Dict String String
all_in [] = []
all_in (t ∷ ts) = (t, "shard") ∷ all_in ts

abbrev pub sample_file : String → Bytes
sample_file shard =
    1 ∷ 0 ∷ 0 ∷ 0 ∷ 0 ∷ 0 ∷ 0 ∷ 0 ∷ 123 ∷ 10 ∷ 11 ∷ 20 ∷ 21 ∷ 30 ∷ 31 ∷ 40 ∷ 41 ∷ 50 ∷ 51 ∷ 60 ∷ 61
    ∷ 70 ∷ 71 ∷ 80 ∷ 81 ∷ 90 ∷ 91 ∷ []

-- The same bytes, in the parts of the format.
abbrev pub sample_shard : Shard
sample_shard = record {
  prefix = 1 ∷ 0 ∷ 0 ∷ 0 ∷ 0 ∷ 0 ∷ 0 ∷ 0 ∷ [];
  text = 123 ∷ [];
  numbers =
      10 ∷ 11 ∷ 20 ∷ 21 ∷ 30 ∷ 31 ∷ 40 ∷ 41 ∷ 50 ∷ 51 ∷ 60 ∷ 61 ∷ 70 ∷ 71 ∷ 80 ∷ 81 ∷ 90 ∷ 91 ∷ [];
  header = header_from 0 tensor_order;
}

abbrev AllTensors : Header → Type 0
AllTensors [] = Unit
AllTensors ((t, tensor) ∷ header) = IsTensor sample_shard.numbers tensor × AllTensors header

tensors_all :
    (header : Header) (name : String) (tensor : Tensor)
    → AllTensors header
    → get? name header ≡ some tensor
    → IsTensor sample_shard.numbers tensor
unfolding get?
tensors_all [] name tensor all h = absurd cc
tensors_all ((u, tensor') ∷ header) name tensor (first, all) h = elim (Bool-cases (u == name)) [
  | inl same ↦
      let here : tensor' ≡ tensor = let h' = rw same at h in cc in
      subst (λ x. IsTensor sample_shard.numbers x) here first
  | inr other ↦ tensors_all header name tensor all (rw other at h)
]

in_place : (a : ℕ) → a + 2 ≤ 18 → IsTensor sample_shard.numbers (tensor_at a)
in_place a h = record { fills = omega arith; not_empty = omega arith; inside = omega (arith, h) }

all_tensors : (a : ℕ) (ts : List String) → a + 2 * length ts ≤ 18 → AllTensors (header_from a ts)
all_tensors a [] h = tt
all_tensors a (t ∷ ts) h =
    (in_place a (omega (arith, h)), all_tensors (a + 2) ts (omega (arith, h)))

pub sample-IsSafetensors : IsSafetensors parse_json sample_shard
sample-IsSafetensors = record {
  eight_bytes = refl;
  text_size = refl;
  some_text = omega arith;
  parses = refl;
  tensors = λ name tensor h.
      tensors_all sample_shard.header name tensor (all_tensors 0 tensor_order (omega arith)) h;
}

abbrev pub read_sample : String → ℕ → ℕ → Option Bytes
read_sample shard s e = some (take (e + 1 - s) (drop s (sample_file shard)))

abbrev pub no_shards : Shards
no_shards = record { headers = []; data_start = [] }

abbrev pub known_shards : Shards
known_shards = record {
  headers = ("shard", header_from 0 tensor_order) ∷ [];
  data_start = ("shard", 9) ∷ [];
}

abbrev pub sample_answer : Option (Layout × Shards)
sample_answer =
    expert_layout read_sample parse_json (all_in tensor_order) 2 (λ layer t. t) 0 no_shards

abbrev pub layout_in : Option (Layout × Shards) → Layout
layout_in none = record {
  expert_block_size = 0;
  data_start = 0;
  tensors = [];
  sources = [];
  payload = 0;
}
layout_in (some (lay, known)) = lay

payload_is_nine : (layout_in sample_answer).payload ≡ 9
unfolding get? set header_of locate place_tensor place_all expert_layout little_endian nbytes_of
    dtype_size dtype_mlx
payload_is_nine = refl

pub found :
    expert_layout read_sample parse_json (all_in tensor_order) 2 (λ layer t. t) 0 no_shards
    ≡ some (layout_in sample_answer, known_shards)
unfolding get? set header_of locate place_tensor place_all expert_layout little_endian nbytes_of
    dtype_size dtype_mlx
found = refl

abbrev pub AllInside : Dict String Source → Type 0
AllInside [] = Unit
AllInside ((t, src) ∷ d) =
    ((0 < src.1.1) × (src.1.0 + 2 * src.1.1 ≤ length (sample_file src.0))) × AllInside d

pub inside_all :
    (d : Dict String Source)
    → AllInside d
    → (t : String) (src : Source) → get? t d ≡ some src
    → (0 < src.1.1) × (src.1.0 + 2 * src.1.1 ≤ length (sample_file src.0))
unfolding get?
inside_all [] all t src h = absurd cc
inside_all ((u, src') ∷ d) (first, all) t src h = elim (Bool-cases (u == t)) [
  | inl same ↦
      let here : src' ≡ src = let h' = rw same at h in cc in
      subst (λ (r : Source). (0 < r.1.1) × (r.1.0 + 2 * r.1.1 ≤ length (sample_file r.0))) here
        first
  | inr other ↦ inside_all d all t src (rw other at h)
]

pub inside_sample : AllInside (layout_in sample_answer).sources
unfolding get? set header_of locate place_tensor place_all expert_layout little_endian nbytes_of
    dtype_size dtype_mlx
inside_sample = omega arith
