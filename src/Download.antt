-- ===== src/Download.antt =====
-- `_write_layer` of src/mlx_expert_sniper/download.py: the layer file of the streaming format is written
-- from the stacked tensors of a checkpoint, and two blocks of it are read again and compared. The JSON of
-- the header, MLX's arrays and the choice of the two experts are parameters. `TENSOR_ORDER` and
-- `PAGE_SIZE` have the values that hf_source.py gives them.
pub mod Laid
pub mod Blocks
pub mod RoundTrip
mod Tests
use expert_sniper.Prelude.{
  ◌&&◌, ℕ, ◌+◌, ◌-◌, ◌*◌, ◌/◌, Bool, true, false, Option, none, some, List, [], ◌∷◌, ◌++◌, String,
  length, take, drop, get_elem?, nat_beq, string_eq,
}
use expert_sniper.Dict.{Dict, get?, set}
use expert_sniper.Hrw.{range}
use expert_sniper.Speculative.Lookup.{list_eq}
use expert_sniper.Fetch.{Bytes, zeros}
use expert_sniper.Reader.Format.{Info, pread}
use expert_sniper.HfSource.Layout.{tensor_order, page_size, product}

-- A tensor with the tensors of all experts: the shape of one, its dtype with the bytes of an item, and the
-- bytes of each expert (`_tensor_bytes`).
pub record Stacked : Type 0 where
  pub shape_per_expert : List ℕ
  pub dtype : String
  pub item_size : ℕ
  pub experts : List Bytes

abbrev pub LayerTensors : Type 0
LayerTensors = Dict String Stacked

abbrev pub per_expert_bytes : Stacked → ℕ
per_expert_bytes t = product t.shape_per_expert * t.item_size

-- The first loop over `TENSOR_ORDER`: `tensor_info` and the offset. `none` is a KeyError.
unfoldable pub lay_out :
    LayerTensors → List String → Dict String Info → ℕ → Option (Dict String Info × ℕ)
lay_out lt [] tensor_info offset = some (tensor_info, offset)
lay_out lt (tname ∷ names) tensor_info offset = elim (get? tname lt) [
  | none ↦ none
  | some t ↦
      lay_out lt names
        (set tname
          (record {
            inner_offset = offset;
            nbytes = per_expert_bytes t;
            shape_per_expert = t.shape_per_expert;
            dtype = t.dtype;
          })
          tensor_info)
        (offset + per_expert_bytes t)
]

abbrev pub round_up : ℕ → ℕ
round_up offset = (offset + page_size - 1) / page_size * page_size

-- `expert_data` before its padding. `none` is a KeyError or an IndexError.
unfoldable pub expert_data : LayerTensors → List String → ℕ → Option Bytes
expert_data lt [] e = some []
expert_data lt (tname ∷ names) e = elim (get? tname lt) [
  | none ↦ none
  | some t ↦ elim (get_elem? t.experts e) [
    | none ↦ none
    | some bytes ↦ elim (expert_data lt names e) [ none ↦ none | some rest ↦ some (bytes ++ rest) ]
  ]
]

-- The loop over the experts, after the header.
unfoldable pub write_blocks : LayerTensors → ℕ → List ℕ → Bytes → Option Bytes
write_blocks lt block_size [] file = some file
write_blocks lt block_size (e ∷ ids) file = elim (expert_data lt tensor_order e) [
  | none ↦ none
  | some bytes ↦
      write_blocks lt block_size ids (file ++ (bytes ++ zeros (block_size - length bytes)))
]

-- The blocks that are read again; false is the RuntimeError, and `none` another exception.
unfoldable pub verify : LayerTensors → ℕ → Bytes → List ℕ → Option Bool
verify lt block_size file [] = some true
verify lt block_size file (e ∷ sample) = elim (expert_data lt tensor_order e) [
  | none ↦ none
  | some expected ↦
      let on_disk = pread block_size (page_size + e * block_size) file in
      elim (list_eq (take (length expected) on_disk) expected) [
        | false ↦ some false
        | true ↦ verify lt block_size file sample
      ]
]

-- The file afterwards, the bytes that were written, and whether the call returned.
pub record Written : Type 0 where
  pub file : Bytes
  pub layer_bytes : ℕ
  pub verified : Bool

module _ (header_json : Dict String Info → ℕ → Bytes) (lt : LayerTensors) (num_experts : ℕ) where
  -- The part that writes the file, and verifies it if `check` says so.
  unfoldable pub write_fresh : Dict String Info → ℕ → Bool → List ℕ → Option Written
  write_fresh tensor_info block_size check sample =
      let header = header_json tensor_info block_size in
      let written = page_size + num_experts * block_size in
      elim (write_blocks lt block_size (range num_experts)
        (header ++ zeros (page_size - length header))) [
          | none ↦ none
          | some file ↦ elim check [
            | false ↦ some (record { file = file; layer_bytes = written; verified = true })
            | true ↦ elim (verify lt block_size file sample) [
              | none ↦ none
              | some ok ↦ some (record { file = file; layer_bytes = written; verified = ok })
            ]
          ]
        ]

  -- A file of the right size that is there already is kept as it is.
  unfoldable pub write_layer : Option Bytes → Bool → List ℕ → Option Written
  write_layer old check sample = elim (lay_out lt tensor_order [] 0) [
    | none ↦ none
    | some (tensor_info, offset) ↦
        let block_size = round_up offset in
        let fresh = write_fresh tensor_info block_size check sample in
        elim old [
          | none ↦ fresh
          | some bytes ↦ elim (nat_beq (length bytes) (page_size + num_experts * block_size)) [
            | true ↦ some (record { file = bytes; layer_bytes = 0; verified = true })
            | false ↦ fresh
          ]
        ]
  ]
