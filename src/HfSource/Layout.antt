-- ===== src/HfSource/Layout.antt =====
-- The safetensors layout of src/expert_network/hf_source.py: the place of a tensor in its shard, and the
-- block of an expert put together from its nine slices. The JSON of a header and the text of a tensor's
-- name are parameters.

use expert_sniper.Prelude.{
  pair_eq, ℕ, ◌+◌, ◌-◌, ◌*◌, ◌/◌, true, false, Option, none, some, List, [], ◌∷◌, String, nat_beq,
  string_eq,
}
use expert_sniper.Dict.{Dict, get?, set}
use expert_sniper.Fetch.{Bytes}
use expert_sniper.Reader.Format.{Info}

-- An entry of a safetensors header.
pub record Tensor : Type 0 where
  pub dtype : String
  pub shape : List ℕ
  pub from : ℕ
  pub to : ℕ

abbrev pub Header : Type 0
Header = Dict String Tensor

-- `self._headers` and `self._data_start`
pub record Shards : Type 0 where
  pub headers : Dict String Header
  pub data_start : Dict String ℕ

-- `struct.unpack("<Q", bytes)`
unfoldable pub little_endian : Bytes → ℕ
little_endian [] = 0
little_endian (b ∷ bytes) = b + 256 * little_endian bytes

-- The answer of `locate`.
pub record Place : Type 0 where
  pub shard : String
  pub dtype : String
  pub shape : List ℕ
  pub start : ℕ
  pub end : ℕ

unfoldable pub dtype_size : Dict String ℕ
dtype_size =
    ("BF16", 2)
    ∷ ("F16", 2)
    ∷ ("F32", 4)
    ∷ ("U32", 4)
    ∷ ("I32", 4)
    ∷ ("I64", 8)
    ∷ ("U8", 1)
    ∷ ("I8", 1)
    ∷ ("BOOL", 1)
    ∷ []

unfoldable pub dtype_mlx : Dict String String
dtype_mlx =
    ("BF16", "mlx.core.bfloat16")
    ∷ ("F16", "mlx.core.float16")
    ∷ ("F32", "mlx.core.float32")
    ∷ ("U32", "mlx.core.uint32")
    ∷ ("I32", "mlx.core.int32")
    ∷ ("I64", "mlx.core.int64")
    ∷ ("U8", "mlx.core.uint8")
    ∷ ("I8", "mlx.core.int8")
    ∷ []

abbrev pub product : List ℕ → ℕ
product [] = 1
product (d ∷ shape) = d * product shape

-- `_nbytes`; `none` is the KeyError of an unknown dtype.
unfoldable pub nbytes_of : List ℕ → String → Option ℕ
nbytes_of shape dtype = elim (get? dtype dtype_size) [
  | none ↦ none
  | some size ↦ some (product shape * size)
]

abbrev pub tensor_order : List String
tensor_order =
    "switch_mlp.gate_proj.weight" ∷ "switch_mlp.gate_proj.scales" ∷ "switch_mlp.gate_proj.biases"
    ∷ "switch_mlp.up_proj.weight" ∷ "switch_mlp.up_proj.scales" ∷ "switch_mlp.up_proj.biases"
    ∷ "switch_mlp.down_proj.weight" ∷ "switch_mlp.down_proj.scales" ∷ "switch_mlp.down_proj.biases"
    ∷ []

abbrev pub page_size : ℕ
page_size = 16384

-- Where the slices of one tensor lie: its shard, the byte where it starts, and the bytes per expert.
abbrev pub Source : Type 0
Source = String × (ℕ × ℕ)

pub record Layout : Type 0 where
  pub expert_block_size : ℕ
  pub data_start : ℕ
  pub tensors : Dict String Info
  pub sources : Dict String Source
  pub payload : ℕ

-- The tables that `expert_layout` fills, and its offset.
pub record Tables : Type 0 where
  pub tensors : Dict String Info
  pub sources : Dict String Source
  pub offset : ℕ

-- The body of the loop over `TENSOR_ORDER`. `none` is also the failed assertion on the number of
-- experts.
unfoldable pub place_tensor : ℕ → String → Place → Tables → Option Tables
place_tensor num_experts t place tables = elim place.shape [
  | [] ↦ none
  | d ∷ per_shape ↦ elim (nat_beq d num_experts) [
    | false ↦ none
    | true ↦ elim (nbytes_of per_shape place.dtype) [
      | none ↦ none
      | some per ↦ elim (get? place.dtype dtype_mlx) [
        | none ↦ none
        | some dtype ↦ some (record {
          tensors =
              set t
                (record {
                  inner_offset = tables.offset;
                  nbytes = per;
                  shape_per_expert = per_shape;
                  dtype = dtype;
                })
                tables.tensors;
          sources = set t (place.shard, (place.start, per)) tables.sources;
          offset = tables.offset + per;
        })
      ]
    ]
  ]
]

-- `read` is `self.read_range`, as far as one call of it goes.
module _ (read : String → ℕ → ℕ → Option Bytes) (parse_json : Bytes → Option Header) where
  unfoldable pub header_of : String → Shards → Option (Header × Shards)
  header_of shard known = elim (get? shard known.headers) [
    | some hdr ↦ some (hdr, known)
    | none ↦ elim (read shard 0 7) [
      | none ↦ none
      | some first ↦
          let n = little_endian first in
          elim (read shard 8 (8 + n - 1)) [
            | none ↦ none
            | some text ↦ elim (parse_json text) [
              | none ↦ none
              | some hdr ↦ some (
                hdr,
                record {
                  headers = set shard hdr known.headers;
                  data_start = set shard (8 + n) known.data_start;
                },
              )
            ]
          ]
    ]
  ]

  module _ (weight_map : Dict String String) where
    -- `none` is an exception of the header, or a KeyError.
    unfoldable pub locate : String → Shards → Option (Place × Shards)
    locate name known = elim (get? name weight_map) [
      | none ↦ none
      | some shard ↦ elim (header_of shard known) [
        | none ↦ none
        | some (hdr, known') ↦ elim (get? name hdr) [
          | none ↦ none
          | some info ↦ elim (get? shard known'.data_start) [
            | none ↦ none
            | some ds ↦ some (
              record {
                shard = shard;
                dtype = info.dtype;
                shape = info.shape;
                start = ds + info.from;
                end = ds + info.to;
              },
              known',
            )
          ]
        ]
      ]
    ]

    unfoldable pub download_tensor : String → Shards → Option ((String × (List ℕ × Bytes)) × Shards)
    download_tensor name known = elim (locate name known) [
      | none ↦ none
      | some (place, known') ↦ elim (read place.shard place.start (place.end - 1)) [
        | none ↦ none
        | some bytes ↦ some ((place.dtype, (place.shape, bytes)), known')
      ]
    ]

    module _ (num_experts : ℕ) (tensor_name : ℕ → String → String) where
      unfoldable pub place_all : ℕ → List String → Tables → Shards → Option (Tables × Shards)
      place_all layer [] tables known = some (tables, known)
      place_all layer (t ∷ ts) tables known = elim (locate (tensor_name layer t) known) [
        | none ↦ none
        | some (place, known') ↦ elim (place_tensor num_experts t place tables) [
          | none ↦ none
          | some tables' ↦ place_all layer ts tables' known'
        ]
      ]

      unfoldable pub expert_layout : ℕ → Shards → Option (Layout × Shards)
      expert_layout layer known =
          elim (place_all layer tensor_order (record { tensors = []; sources = []; offset = 0 })
            known) [
              | none ↦ none
              | some (tables, known') ↦ some (
                record {
                  expert_block_size = (tables.offset + page_size - 1) / page_size * page_size;
                  data_start = page_size;
                  tensors = tables.tensors;
                  sources = tables.sources;
                  payload = tables.offset;
                },
                known',
              )
            ]
