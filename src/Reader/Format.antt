-- ===== src/Reader/Format.antt =====
-- The streaming format of src/mlx_expert_sniper/expert_io.py: how `MoEExpertReader` reads and parses
-- the block of one expert. The layer files and MLX's `view` and `reshape` are parameters.
use Prim.Native.String.{String}
use Prim.Native.Nat.{◌*◌, ◌+◌, ℕ}
use text.Mathlib.Text.{find?}
use expert_sniper.Prelude.{
  ℕ, ◌+◌, ◌*◌, Bool, true, false, ◌||◌, Option, none, some, List, [], ◌∷◌, String, ltb, length,
  take, drop, nat_eq, pair_eq, string_eq,
}
use expert_sniper.Dict.{Dict, get?, set}
use expert_sniper.Generate.{is_some}

-- An entry of `tensor_layout`.
pub record Info : Type 0 where
  pub inner_offset : ℕ
  pub nbytes : ℕ
  pub shape_per_expert : List ℕ
  pub dtype : String

-- What the reader knows of its files. `file` has the bytes of each `layer_{i:02d}.bin`, or `none`
-- where it cannot be opened; `view` makes the array of an entry from its bytes, or fails. `fallback`
-- is `get_down_proj_f16` where there is a fallback buffer.
pub record Files {ℓ} (A : Type ℓ) : Type ℓ where
  pub file : ℕ → Option (List ℕ)
  pub view : Info → List ℕ → Option A
  pub data_start : ℕ
  pub expert_block_size : ℕ
  pub tensor_layout : Dict String Info
  pub fallback : Option (ℕ → ℕ → A)

-- `os.pread(fd, size, offset)`: fewer bytes at the end of the file
abbrev pub pread : ℕ → ℕ → List ℕ → List ℕ
pread size offset bytes = take size (drop offset bytes)

abbrev pub down_name : String
down_name = "switch_mlp.down_proj.weight"

module _ {ℓ} {A : Type ℓ} (f : Files A) where
  abbrev pub Expert : Type ℓ
  Expert = Dict String A

  abbrev pub expert_offset : ℕ → ℕ
  expert_offset e = f.data_start + e * f.expert_block_size

  unfoldable pub read_expert : ℕ → ℕ → Option (List ℕ)
  read_expert l e = elim (f.file l) [
    | none ↦ none
    | some bytes ↦ some (pread f.expert_block_size (expert_offset e) bytes)
  ]

  -- `flat.view(mlx_dtype).reshape(shape)` of `raw_data[inner_offset:inner_offset + nbytes]`
  abbrev pub tensor : Info → List ℕ → Option A
  tensor info raw = f.view info (take info.nbytes (drop info.inner_offset raw))

  -- The loop over `tensor_layout.items()`.
  unfoldable pub parse_all : List ℕ → Dict String Info → Expert → Option Expert
  parse_all raw [] result = some result
  parse_all raw ((name, info) ∷ layout) result = elim (tensor info raw) [
    | none ↦ none
    | some arr ↦ parse_all raw layout (set name arr result)
  ]

  unfoldable pub parse_expert_data : List ℕ → Option Expert
  parse_expert_data raw = parse_all raw f.tensor_layout []

  -- Gate and up only: the bytes before `down_proj`. `none` is also the KeyError of the layout.
  unfoldable pub read_expert_partial : ℕ → ℕ → Option (List ℕ)
  read_expert_partial l e = elim (f.file l) [
    | none ↦ none
    | some bytes ↦ elim (get? down_name f.tensor_layout) [
      | none ↦ none
      | some down ↦ some (pread down.inner_offset (expert_offset e) bytes)
    ]
  ]

  -- `"down_proj" in name`, or the tensor ends beyond the bytes: both are skipped.
  abbrev pub skipped : List ℕ → String → Info → Bool
  skipped raw name info =
      is_some (find? name "down_proj") || ltb (length raw) (info.inner_offset + info.nbytes)

  unfoldable pub parse_some : List ℕ → Dict String Info → Expert → Option Expert
  parse_some raw [] result = some result
  parse_some raw ((name, info) ∷ layout) result =
      let without = parse_some raw layout result in
      elim (skipped raw name info) [
        | true ↦ without
        | false ↦ elim (tensor info raw) [
          | none ↦ none
          | some arr ↦ parse_some raw layout (set name arr result)
        ]
      ]

  unfoldable pub parse_expert_partial : List ℕ → Option Expert
  parse_expert_partial raw = parse_some raw f.tensor_layout []

  -- The whole expert as its block on the disk has it.
  unfoldable pub load : ℕ → ℕ → Option Expert
  load l e = elim (read_expert l e) [ none ↦ none | some raw ↦ parse_expert_data raw ]
