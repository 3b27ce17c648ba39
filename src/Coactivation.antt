-- ===== src/Coactivation.antt =====
-- `CoActivationTracker` of src/mlx_expert_sniper/coactivation.py: which experts of one layer fire
-- together with which experts of the next.
pub mod Cells
pub mod Counts
pub mod Predict
mod Tests
use expert_sniper.Prelude.{
  length, ℕ, zero, suc, ◌+◌, ◌-◌, Bool, true, false, not, ◌&&◌, ◌||◌, Option, none, some, List, [],
  ◌∷◌, ◌++◌, map, take, ltb, leb, if◌then◌else◌, nat_eq, pair_eq,
}
use expert_sniper.Dict.{Dict, get?, set, remove}
use expert_sniper.Lru.{add, member}

-- A `Counter` of expert ids.
abbrev pub Counter : Type 0
Counter = Dict ℕ ℕ

abbrev pub count : ℕ → Counter → ℕ
count x c = elim (get? x c) [ none ↦ 0 | some n ↦ n ]

abbrev pub CrossLayer : Type 0
CrossLayer = Dict (ℕ × ℕ) Counter

-- `cross_layer[key]` of a defaultdict
abbrev pub counter_of : ℕ × ℕ → CrossLayer → Counter
counter_of k cross = elim (get? k cross) [ none ↦ [] | some c ↦ c ]

pub record Tracker : Type 0 where
  pub num_layers : ℕ
  pub warmup_tokens : ℕ
  pub token_count : ℕ
  pub cross_layer : CrossLayer
  pub prev_layer_experts : Dict ℕ (List ℕ)
  pub ready : Bool
  pub predictions_made : ℕ
  pub predictions_correct : ℕ

unfoldable pub new_tracker : ℕ → ℕ → Tracker
new_tracker num_layers warmup_tokens = record {
  num_layers = num_layers;
  warmup_tokens = warmup_tokens;
  token_count = 0;
  cross_layer = [];
  prev_layer_experts = [];
  ready = false;
  predictions_made = 0;
  predictions_correct = 0;
}

-- `set(ids)`, in the order of the list
unfoldable pub set_of : List ℕ → List ℕ → List ℕ
set_of [] s = s
set_of (x ∷ ids) s = set_of ids (add x s)

-- `cross_layer[key][cur_eid] += 1`
unfoldable pub bump : ℕ × ℕ → ℕ → CrossLayer → CrossLayer
bump k x cross = set k (set x (count x (counter_of k cross) + 1) (counter_of k cross)) cross

unfoldable pub bump_all : ℕ × ℕ → List ℕ → CrossLayer → CrossLayer
bump_all k [] cross = cross
bump_all k (x ∷ active) cross = bump_all k active (bump k x cross)

unfoldable pub bump_pairs : ℕ → List ℕ → List ℕ → CrossLayer → CrossLayer
bump_pairs l [] active cross = cross
bump_pairs l (p ∷ prev) active cross = bump_pairs l prev active (bump_all (l, p) active cross)

unfoldable pub count_layer : ℕ → List ℕ → Tracker → CrossLayer
count_layer zero active t = t.cross_layer
count_layer (suc l) active t = elim (get? l t.prev_layer_experts) [
  | none ↦ t.cross_layer
  | some prev ↦ bump_pairs l prev active t.cross_layer
]

unfoldable pub record_layer : ℕ → List ℕ → Tracker → Tracker
record_layer l ids t = record t {
  cross_layer = count_layer l (set_of ids []) t;
  prev_layer_experts = set l (set_of ids []) t.prev_layer_experts;
}

unfoldable pub end_token : Tracker → Tracker
end_token t = record t {
  prev_layer_experts = [];
  token_count = t.token_count + 1;
  ready = leb t.warmup_tokens (t.token_count + 1) || t.ready;
}

-- `candidates.update(counter)`
unfoldable pub update : Counter → Counter → Counter
update candidates [] = candidates
update candidates ((x, n) ∷ c) = update (set x (n + count x candidates) candidates) c

-- The first loop of `predict_next_layer`. Reading an absent counter stores an empty one.
unfoldable pub gather : ℕ → List ℕ → CrossLayer → Counter → CrossLayer × Counter
gather l [] cross candidates = (cross, candidates)
gather l (e ∷ ids) cross candidates =
    gather l ids (set (l, e) (counter_of (l, e) cross) cross)
      (update candidates (counter_of (l, e) cross))

-- `candidates.pop(eid, None)` for the ids
unfoldable pub drop_ids : List ℕ → Counter → Counter
drop_ids [] candidates = candidates
drop_ids (e ∷ ids) candidates = drop_ids ids (remove e candidates)

-- `most_common`: by count, the highest first, and in the order of insertion where counts are equal
unfoldable pub insert_common : ℕ × ℕ → Counter → Counter
insert_common e [] = e ∷ []
insert_common e (x ∷ c) =
    let rest = insert_common e c in if leb x.1 e.1 then e ∷ x ∷ c else x ∷ rest

unfoldable pub most_common : Counter → Counter
most_common [] = []
most_common (e ∷ c) = insert_common e (most_common c)

unfoldable pub predict_next_layer : ℕ → List ℕ → ℕ → Tracker → Tracker × List ℕ
predict_next_layer l ids top_k t =
    let gathered = gather l ids t.cross_layer [] in
    if not t.ready || leb t.num_layers (l + 1) then (t, []) else (
      record t { cross_layer = gathered.0 },
      map (λ e. e.0) (take top_k (most_common (drop_ids ids gathered.1))),
    )

-- `len(pred_set & actual_set)`
unfoldable pub hits : List ℕ → List ℕ → ℕ
hits [] actual = 0
hits (x ∷ predicted) actual =
    let rest = hits predicted actual in if member x actual then rest + 1 else rest

unfoldable pub score_prediction : List ℕ → List ℕ → Tracker → Tracker
score_prediction [] actual t = t
score_prediction (x ∷ predicted) actual t = record t {
  predictions_made = t.predictions_made + length (x ∷ predicted);
  predictions_correct = t.predictions_correct + hits (set_of (x ∷ predicted) []) actual;
}
