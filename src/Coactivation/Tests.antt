-- ===== src/Coactivation/Tests.antt =====
-- Three tokens on two layers, and instances of the theorems.
use expert_sniper.Prelude.{ℕ, ◌≤◌, true, false, List, [], ◌∷◌, length, ◌≡◌, refl, nat_eq, pair_eq}
use expert_sniper.Dict.{get?, set, remove}
use expert_sniper.Lru.{add, member}
use expert_sniper.Coactivation.{
  Tracker, new_tracker, set_of, bump, bump_all, bump_pairs, count_layer, record_layer, end_token,
  update, gather, drop_ids, insert_common, most_common, predict_next_layer,
}
use expert_sniper.Coactivation.Cells.{cell}
use expert_sniper.Coactivation.Counts.{
  run_layers, run_token, run_tokens, co_fires, co_fired, cell-co_fired,
}
use expert_sniper.Coactivation.Predict.{seen_with, predict_next_layer-seen_with}

program : Unit {0}
unfolding get? set remove add new_tracker set_of bump bump_all bump_pairs count_layer record_layer
    end_token update gather drop_ids insert_common most_common predict_next_layer run_layers
    run_token run_tokens co_fires co_fired
program = tt

abbrev tokens : List (List (List ℕ))
tokens =
    ((1 ∷ 2 ∷ 1 ∷ []) ∷ (5 ∷ 6 ∷ []) ∷ [])
    ∷ ((1 ∷ []) ∷ (5 ∷ 1 ∷ []) ∷ [])
    ∷ ((2 ∷ []) ∷ (6 ∷ []) ∷ [])
    ∷ []

abbrev tracked : Tracker
tracked = run_tokens tokens (new_tracker 2 3)

twice : cell 0 1 5 tracked.cross_layer ≡ 2
unfolding program
twice = refl

-- Expert 1 is active, so it is not predicted.
best : (predict_next_layer 0 (1 ∷ []) 2 tracked).1 ≡ 5 ∷ 6 ∷ []
unfolding program
best = refl

is_predicted : member 6 (predict_next_layer 0 (1 ∷ []) 2 tracked).1 ≡ true
unfolding program
is_predicted = refl

cell-co_fired_example :
    cell 0 1 5 (run_tokens tokens (new_tracker 2 3)).cross_layer ≡ co_fired 0 1 5 tokens
cell-co_fired_example = cell-co_fired 2 3 tokens 0 1 5

predict_next_layer-seen_with_example :
    (member 6 (1 ∷ []) ≡ false)
    × (seen_with 0 (1 ∷ []) 6 tracked.cross_layer ≡ true)
    × (length (predict_next_layer 0 (1 ∷ []) 2 tracked).1 ≤ 2)
predict_next_layer-seen_with_example =
    predict_next_layer-seen_with 0 (1 ∷ []) 2 tracked 6 is_predicted
