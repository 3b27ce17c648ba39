-- ===== src/Node/Tests.antt =====
-- A node with two of three experts in one layer, and an instance of the theorem.
use expert_sniper.Prelude.{
  ℕ, true, false, ◌&&◌, none, some, List, [], ◌∷◌, ◌≡◌, refl, ltb, ◌⊎◌, nat_eq, pair_eq, string_eq,
  if◌then◌else◌,
}
use expert_sniper.Prelude.Sorted.{is_in, sorted, insert}
use expert_sniper.Dict.{get?, set}
use expert_sniper.Hrw.{filter}
use expert_sniper.Node.{
  Option, LayerLayout, Disk, Expert, Experts, parse_expert_block, load_layer, load_layers,
  load_partition, block, parse_tensors, partition_ids, lut, mask_weights, my_ids, gather,
  compute_partial,
}
use expert_sniper.Node.Served.{block-load_partition}

program : Unit {0}
unfolding get? set parse_tensors load_layer load_layers load_partition block sorted insert
    partition_ids
program = tt

-- Blocks of three bytes behind a header of two, each with one tensor.
abbrev layout : LayerLayout
layout = record {
  data_start = 2;
  expert_block_size = 3;
  tensors =
      ("w", record { inner_offset = 1; nbytes = 2; shape_per_expert = 1 ∷ []; dtype = "float16" })
      ∷ [];
}

abbrev disk : Disk (List ℕ)
disk = record {
  layout = λ l. some layout;
  file = λ l. 9 ∷ 9 ∷ 0 ∷ 1 ∷ 2 ∷ 0 ∷ 3 ∷ 4 ∷ 0 ∷ 5 ∷ 6 ∷ [];
  view = λ info bytes. some bytes;
}

abbrev held : Experts (List ℕ)
held = ((0, 2), ("w", 5 ∷ 6 ∷ []) ∷ []) ∷ ((0, 0), ("w", 1 ∷ 2 ∷ []) ∷ []) ∷ []

loads : load_partition disk (2 ∷ 0 ∷ []) 1 ≡ some held
unfolding program
loads = refl

serves_two : block disk (2 ∷ 0 ∷ []) 1 0 2 ≡ some (0 ∷ 5 ∷ 6 ∷ [])
unfolding program
serves_two = refl

names_both : partition_ids (2 ∷ 0 ∷ []) ≡ 0 ∷ 2 ∷ []
unfolding program
names_both = refl

-- Index 1 is of an expert that the node does not have, and its weight is masked.
computes :
    compute_partial {W = ℕ} {P = Option (List (ℕ × Expert (List ℕ)) × List ℕ × List ℕ)}
      (λ m w. if m then w else 0)
      (λ experts local weights. some (experts, local, weights))
      none
      held
      (2 ∷ 0 ∷ [])
      3
      0
      (2 ∷ 1 ∷ 0 ∷ [])
      (2 ∷ 1 ∷ [])
      (7 ∷ 8 ∷ [])
    ≡ some (
      2,
      some ((0, ("w", 1 ∷ 2 ∷ []) ∷ []) ∷ (2, ("w", 5 ∷ 6 ∷ []) ∷ []) ∷ [], 1 ∷ 0 ∷ [], 7 ∷ 0 ∷ []),
    )
unfolding get? filter my_ids sorted insert gather lut mask_weights compute_partial
computes = refl

block-load_partition_example :
    (((is_in 2 (2 ∷ 0 ∷ []) && ltb 0 1) ≡ false)
      × (block disk (2 ∷ 0 ∷ []) 1 0 2 ≡ none)
      × (get? (0, 2) held ≡ none))
    ⊎ (((is_in 2 (2 ∷ 0 ∷ []) && ltb 0 1) ≡ true)
        × (lay : LayerLayout) × (disk.layout 0 ≡ some lay)
        × (raw : List ℕ) × (block disk (2 ∷ 0 ∷ []) 1 0 2 ≡ some raw)
        × (expert : Expert (List ℕ)) × (parse_expert_block disk.view raw lay.tensors ≡ some expert)
        × (get? (0, 2) held ≡ some expert))
block-load_partition_example = block-load_partition disk (2 ∷ 0 ∷ []) 1 held 0 2 loads
