-- ===== src/Coactivation/Counts.antt =====
-- The co-activation counts after any number of tokens.

use expert_sniper.Prelude.{
  ℕ, zero, suc, ◌+◌, ◌-◌, Bool, false, ◌&&◌, some, List, [], ◌∷◌, ◌≡◌, ap, ◌∙◌, inl, inr, arith,
  Bool-cases, nat_beq, leb, nat_eq, pair_eq,
}
use expert_sniper.Dict.{get?}
use expert_sniper.Dict.Laws.{get?-set}
use expert_sniper.Lru.{member}
use expert_sniper.Coactivation.{
  Tracker, new_tracker, bump_pairs, set_of, count_layer, record_layer, end_token,
}
use expert_sniper.Coactivation.Cells.{cell, bit, cell-bump_pairs, NoRepeat-set_of, member-set_of}

-- The active experts of the layers from `l` on, as the forward pass records them.
unfoldable pub run_layers : ℕ → List (List ℕ) → Tracker → Tracker
run_layers l [] t = t
run_layers l (active ∷ layers) t = run_layers (suc l) layers (record_layer l active t)

unfoldable pub run_token : List (List ℕ) → Tracker → Tracker
run_token layers t = end_token (run_layers 0 layers t)

unfoldable pub run_tokens : List (List (List ℕ)) → Tracker → Tracker
run_tokens [] t = t
run_tokens (layers ∷ tokens) t = run_tokens tokens (run_token layers t)

-- In this token expert `q` is active at layer `m` and expert `x` at the layer after it.
unfoldable pub co_fires : ℕ → ℕ → ℕ → List (List ℕ) → Bool
co_fires m q x [] = false
co_fires m q x (a ∷ []) = false
co_fires zero q x (a ∷ b ∷ layers) = member q a && member x b
co_fires (suc m) q x (a ∷ b ∷ layers) = co_fires m q x (b ∷ layers)

unfoldable pub co_fired : ℕ → ℕ → ℕ → List (List (List ℕ)) → ℕ
co_fired m q x [] = 0
co_fired m q x (layers ∷ tokens) = bit (co_fires m q x layers) + co_fired m q x tokens

co_fires-shift :
    (l m q x : ℕ) (a b : List ℕ) (layers : List (List ℕ))
    → bit (leb l m && co_fires (m - l) q x (a ∷ b ∷ layers))
      ≡ bit (nat_beq l m && (member q a && member x b))
        + bit (leb (suc l) m && co_fires (m - suc l) q x (b ∷ layers))
unfolding co_fires
co_fires-shift l m q x a b layers = elim (Bool-cases (leb (suc l) m)) [
  | inl above ↦ let k = m - suc l in let p : m - l ≡ suc k = ground arith in rw p (ground arith)
  | inr under ↦ elim (Bool-cases (nat_beq l m)) [
    | inl same ↦ let p : m - l ≡ 0 = ground arith in rw p (ground arith)
    | inr other ↦ ground arith
  ]
]

cell-run_layers :
    (l : ℕ) (a : List ℕ) (layers : List (List ℕ)) (t : Tracker) (m q x : ℕ)
    → get? l t.prev_layer_experts ≡ some (set_of a [])
    → cell m q x (run_layers (suc l) layers t).cross_layer
      ≡ cell m q x t.cross_layer + bit (leb l m && co_fires (m - l) q x (a ∷ layers))
unfolding run_layers co_fires
cell-run_layers l a [] t m q x h = ground arith
cell-run_layers l a (b ∷ layers) t m q x h =
    let next = record_layer (suc l) b t in
    let stored : get? (suc l) next.prev_layer_experts ≡ some (set_of b []) =
      unfold record_layer in
      ground (arith, get?-set (suc l) (suc l) (set_of b []) t.prev_layer_experts) in
    let counted : next.cross_layer ≡ bump_pairs l (set_of a []) (set_of b []) t.cross_layer =
      unfold record_layer count_layer in ground arith in
    let added =
      cell-bump_pairs l (set_of a []) (set_of b []) m q x t.cross_layer (NoRepeat-set_of a [] tt)
        (NoRepeat-set_of b [] tt) in
    let both : (member q (set_of a []) && member x (set_of b [])) ≡ (member q a && member x b) =
      ground (arith, member-set_of q a [], member-set_of x b []) in
    let here : cell m q x next.cross_layer
        ≡ cell m q x t.cross_layer + bit (nat_beq l m && (member q a && member x b)) =
      ap (cell m q x) counted
      ∙ added
      ∙ ap (λ z. cell m q x t.cross_layer + bit (nat_beq l m && z)) both in
    let rest = cell-run_layers (suc l) b layers next m q x stored in
    let shift = co_fires-shift l m q x a b layers in omega (arith, rest, here, shift)

cell-run_token :
    (layers : List (List ℕ)) (t : Tracker) (m q x : ℕ)
    → cell m q x (run_token layers t).cross_layer
      ≡ cell m q x t.cross_layer + bit (co_fires m q x layers)
unfolding run_token end_token
cell-run_token [] t m q x = unfold run_layers co_fires in ground arith
cell-run_token (a ∷ layers) t m q x =
    let first = record_layer 0 a t in
    let stored : get? 0 first.prev_layer_experts ≡ some (set_of a []) =
      unfold record_layer in ground (arith, get?-set 0 0 (set_of a []) t.prev_layer_experts) in
    let rest = cell-run_layers 0 a layers first m q x stored in
    unfold run_layers record_layer count_layer in ground (arith, rest)

cell-run_tokens :
    (tokens : List (List (List ℕ))) (t : Tracker) (m q x : ℕ)
    → cell m q x (run_tokens tokens t).cross_layer
      ≡ cell m q x t.cross_layer + co_fired m q x tokens
unfolding run_tokens co_fired
cell-run_tokens [] t m q x = omega arith
cell-run_tokens (layers ∷ tokens) t m q x =
    omega (arith, cell-run_tokens tokens (run_token layers t) m q x, cell-run_token layers t m q x)

-- After any tokens on a new tracker, the count at a layer `m`, an expert `q` of it and an expert `x` of
-- the next layer is the number of tokens in which both were active, however often the forward pass
-- lists an active expert.
pub cell-co_fired :
    (num_layers warmup : ℕ) (tokens : List (List (List ℕ))) (m q x : ℕ)
    → cell m q x (run_tokens tokens (new_tracker num_layers warmup)).cross_layer
      ≡ co_fired m q x tokens
cell-co_fired num_layers warmup tokens m q x =
    cell-run_tokens tokens (new_tracker num_layers warmup) m q x
    ∙ unfold new_tracker get? in omega arith
