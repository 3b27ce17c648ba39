-- ===== src/Download/Tests.antt =====
-- A layer of two experts with tensors of one or two bytes, and an instance of the theorem.
use expert_sniper.Prelude.{
  ℕ, suc, ◌+◌, true, none, some, List, [], ◌∷◌, String, length, ◌≡◌, refl, arith, string_eq,
}
use expert_sniper.Dict.{Dict, get?}
use expert_sniper.Fetch.{Bytes}
use expert_sniper.Reader.Format.{Info, read_expert}
use expert_sniper.HfSource.Layout.{tensor_order}
use expert_sniper.Download.{
  Stacked, LayerTensors, lay_out, round_up, expert_data, Written, write_layer,
}
use expert_sniper.Download.Laid.{AllRows, HoldsExpert}
use expert_sniper.Download.RoundTrip.{files_of, write_layer-HoldsExpert}

abbrev stacked : ℕ → Stacked
stacked n = record {
  shape_per_expert = 2 ∷ [];
  dtype = "mlx.core.uint8";
  item_size = 1;
  experts = (n ∷ suc n ∷ []) ∷ (suc (suc n) ∷ suc (suc (suc n)) ∷ []) ∷ [];
}

abbrev tensors_from : ℕ → List String → LayerTensors
tensors_from n [] = []
tensors_from n (tname ∷ names) = (tname, stacked n) ∷ tensors_from (n + 4) names

abbrev layer : LayerTensors
layer = tensors_from 0 tensor_order

all_rows : AllRows layer 2 tensor_order
unfolding get?
all_rows = (
  stacked 0,
  refl,
  refl,
  (refl, (refl, tt)),
  (
    stacked 4,
    refl,
    refl,
    (refl, (refl, tt)),
    (
      stacked 8,
      refl,
      refl,
      (refl, (refl, tt)),
      (
        stacked 12,
        refl,
        refl,
        (refl, (refl, tt)),
        (
          stacked 16,
          refl,
          refl,
          (refl, (refl, tt)),
          (
            stacked 20,
            refl,
            refl,
            (refl, (refl, tt)),
            (
              stacked 24,
              refl,
              refl,
              (refl, (refl, tt)),
              (
                stacked 28,
                refl,
                refl,
                (refl, (refl, tt)),
                (stacked 32, refl, refl, (refl, (refl, tt)), tt),
              ),
            ),
          ),
        ),
      ),
    ),
  ),
)

second_expert :
    expert_data layer tensor_order 1
    ≡ some
        (2 ∷ 3 ∷ 6 ∷ 7 ∷ 10 ∷ 11 ∷ 14 ∷ 15 ∷ 18 ∷ 19 ∷ 22 ∷ 23 ∷ 26 ∷ 27 ∷ 30 ∷ 31 ∷ 34 ∷ 35 ∷ [])
unfolding expert_data get?
second_expert = refl

missing_tensor : lay_out [] tensor_order [] 0 ≡ none
unfolding lay_out get?
missing_tensor = refl

abbrev header_json : Dict String Info → ℕ → Bytes
header_json tensor_info block_size = 123 ∷ 125 ∷ []

write_layer-HoldsExpert_example :
    (tensor_info : Dict String Info) × (offset : ℕ) × (lay_out layer tensor_order [] 0
      ≡ some (tensor_info, offset))
    × (w : Written) × (write_layer header_json layer 2 none true (0 ∷ 1 ∷ []) ≡ some w)
    × (w.verified ≡ true)
    × (w.layer_bytes ≡ length w.file)
    × (block : Bytes) × (read_expert
          (files_of (λ info bytes. some bytes) w.file tensor_info (round_up offset))
          0
          1
        ≡ some block)
    × HoldsExpert layer tensor_info 1 block tensor_order
write_layer-HoldsExpert_example =
    write_layer-HoldsExpert (λ info bytes. some bytes) header_json layer 2 true (0 ∷ 1 ∷ []) 0 1
      all_rows (λ tensor_info block_size. omega arith) (omega arith, (omega arith, tt))
      (omega arith)
