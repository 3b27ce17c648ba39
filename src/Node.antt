-- ===== src/Node.antt =====
-- src/expert_network/node.py: a node loads its partition, serves raw blocks, and computes its part of a
-- layer. The layer files, MLX's arrays and the numeric `compute_expert_ffn` are parameters.
pub mod Served
pub mod Agree
mod Tests
use expert_sniper.Prelude.{
  ℕ, zero, suc, ◌+◌, ◌*◌, Bool, true, false, ◌&&◌, Option, none, some, List, [], ◌∷◌, String,
  length, take, drop, map, nat_beq, ltb, nat_eq, pair_eq, string_eq, if◌then◌else◌,
}
use expert_sniper.Prelude.Sorted.{is_in, sorted}
use expert_sniper.Dict.{Dict, get?, set, contains}
use expert_sniper.Hrw.{filter, range}
use expert_sniper.Reader.Format.{Info, pread}

-- `header["layout"]` of a layer file.
pub record LayerLayout : Type 0 where
  pub data_start : ℕ
  pub expert_block_size : ℕ
  pub tensors : Dict String Info

-- What is on the node's disk: the layout in the header of each layer file, and the bytes of the file;
-- `none` where the file cannot be opened or its header cannot be read. `view` makes an array of bytes.
pub record Disk {ℓ} (A : Type ℓ) : Type ℓ where
  pub layout : ℕ → Option LayerLayout
  pub file : ℕ → List ℕ
  pub view : Info → List ℕ → Option A

abbrev pub Expert {ℓ} : Type ℓ → Type ℓ
Expert A = Dict String A

abbrev pub Experts {ℓ} : Type ℓ → Type ℓ
Experts A = Dict (ℕ × ℕ) (Expert A)

-- The bytes of one block, as `load_expert_from_bin` and the handler `block` read them.
abbrev pub block_bytes : List ℕ → ℕ → LayerLayout → List ℕ
block_bytes bytes e layout =
    pread layout.expert_block_size (layout.data_start + e * layout.expert_block_size) bytes

module _ {ℓ} {A : Type ℓ} where
  -- The loop of `parse_expert_block`.
  unfoldable pub parse_tensors :
      (Info → List ℕ → Option A) → List ℕ → Dict String Info → Expert A → Option (Expert A)
  parse_tensors view raw [] result = some result
  parse_tensors view raw ((name, info) ∷ tensors) result =
      elim (view info (take info.nbytes (drop info.inner_offset raw))) [
        | none ↦ none
        | some arr ↦ parse_tensors view raw tensors (set name arr result)
      ]

  abbrev pub parse_expert_block :
      (Info → List ℕ → Option A) → List ℕ → Dict String Info → Option (Expert A)
  parse_expert_block view raw tensors = parse_tensors view raw tensors []

  abbrev pub load_expert_from_bin : Disk A → ℕ → ℕ → LayerLayout → Option (Expert A)
  load_expert_from_bin disk l e layout =
      parse_expert_block disk.view (block_bytes (disk.file l) e layout) layout.tensors

  -- The loops of `load_partition`. `none` is an exception.
  unfoldable pub load_layer : Disk A → ℕ → LayerLayout → List ℕ → Experts A → Option (Experts A)
  load_layer disk l layout [] experts = some experts
  load_layer disk l layout (e ∷ ids) experts = elim (load_expert_from_bin disk l e layout) [
    | none ↦ none
    | some expert ↦ load_layer disk l layout ids (set (l, e) expert experts)
  ]

  unfoldable pub load_layers : Disk A → List ℕ → List ℕ → Experts A → Option (Experts A)
  load_layers disk ids [] experts = some experts
  load_layers disk ids (l ∷ layers) experts = elim (disk.layout l) [
    | none ↦ none
    | some layout ↦ elim (load_layer disk l layout ids experts) [
      | none ↦ none
      | some experts' ↦ load_layers disk ids layers experts'
    ]
  ]

  unfoldable pub load_partition : Disk A → List ℕ → ℕ → Option (Experts A)
  load_partition disk ids num_layers = load_layers disk ids (range num_layers) []

  -- The handler of `/block/{layer}/{expert}`: the bytes, or no answer with status 200.
  unfoldable pub block : Disk A → List ℕ → ℕ → ℕ → ℕ → Option (List ℕ)
  block disk partition num_layers l e =
      if is_in e partition && ltb l num_layers
      then elim (disk.layout l) [
        | none ↦ none
        | some layout ↦ some (block_bytes (disk.file l) e layout)
      ]
      else none

-- The handler of `/partition`.
unfoldable pub partition_ids : List ℕ → List ℕ
partition_ids partition = sorted partition

-- The position of an id in `my_ids`, the last one where it stands twice, and 0 for all others:
-- `lut[my_ids] = arange(len(my_ids))`.
unfoldable pub lut : List ℕ → ℕ → ℕ → ℕ → ℕ
lut [] i old x = old
lut (e ∷ my_ids) i old x = lut my_ids (i + 1) (if nat_beq e x then i else old) x

-- All are indices of an array of `n` items; NumPy raises an IndexError for any other.
abbrev pub in_range : ℕ → List ℕ → Bool
in_range n [] = true
in_range n (x ∷ xs) = ltb x n && in_range n xs

-- `weights * mask`, place by place.
unfoldable pub mask_weights {κ} :
    {W : Type κ} → (Bool → W → W) → (ℕ → Bool) → List ℕ → List W → List W
mask_weights masked mask [] weights = []
mask_weights masked mask (x ∷ inds) [] = []
mask_weights masked mask (x ∷ inds) (w ∷ weights) =
    masked (mask x) w ∷ mask_weights masked mask inds weights

module _ {ℓ} {X : Type ℓ} where
  abbrev pub owns : Dict (ℕ × ℕ) X → List ℕ → ℕ → ℕ → Bool
  owns experts partition layer e = is_in e partition && contains (layer, e) experts

  unfoldable pub my_ids : Dict (ℕ × ℕ) X → List ℕ → ℕ → List ℕ → List ℕ
  my_ids experts partition layer req_ids = sorted (filter (owns experts partition layer) req_ids)

  -- `[(eid, experts[(layer_idx, eid)]) for eid in my_ids]`; `none` is a KeyError.
  unfoldable pub gather : Dict (ℕ × ℕ) X → ℕ → List ℕ → Option (List (ℕ × X))
  gather experts layer [] = some []
  gather experts layer (e ∷ ids) = elim (get? (layer, e) experts) [
    | none ↦ none
    | some x ↦ elim (gather experts layer ids) [ none ↦ none | some rest ↦ some ((e, x) ∷ rest) ]
  ]

  -- `ffn` is `compute_expert_ffn` on the hidden state of the request, rounded to float16, and
  -- `zeros` the array of zeros in its shape. `none` is an exception.
  unfoldable pub compute_partial {κ μ} :
      {W : Type κ} {P : Type μ}
      → (Bool → W → W)
      → (List (ℕ × X) → List ℕ → List W → P)
      → P
      → Dict (ℕ × ℕ) X
      → List ℕ
      → ℕ
      → ℕ
      → List ℕ
      → List ℕ
      → List W
      → Option (ℕ × P)
  compute_partial masked ffn zeros experts partition num_experts layer req_ids inds weights =
      elim (my_ids experts partition layer req_ids) [
        | [] ↦ some (0, zeros)
        | e ∷ ids ↦
            if in_range num_experts partition && in_range num_experts inds
            then elim (gather experts layer (e ∷ ids)) [
              | none ↦ none
              | some expert_data ↦ some (
                length (e ∷ ids),
                ffn expert_data (map (lut (e ∷ ids) 0 0) inds)
                    (mask_weights masked (λ x. is_in x partition) inds weights),
              )
            ]
            else none
      ]
