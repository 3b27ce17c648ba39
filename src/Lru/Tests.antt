-- ===== src/Lru/Tests.antt =====
-- Runs of the expert cache, and instances of its theorems.
use mathlib.Core.List.{foldl}
use expert_sniper.Prelude.{
  ℕ, ◌+◌, ◌≡◌, refl, none, some, List, [], ◌∷◌, arith, pair_eq, nat_eq, true,
}
use expert_sniper.Dict.{pop_first, get?, set, remove, move_to_end}
use expert_sniper.Dict.Order.{last_n}
use expert_sniper.Lru.{
  Cache, add, discard, layer_ids, init, get, evict, make_room, store_new, put, has, peek,
  cached_ids, member,
}
use expert_sniper.Lru.Invariant.{IsValid, put-IsValid, init-IsValid}
use expert_sniper.Lru.Recency.{
  Call, get_call, put_call, step, run, gets, note, run-last_n, cached_ids_exact,
}

program : Unit {0}
unfolding pop_first get? set remove move_to_end add discard layer_ids init get evict make_room
    store_new put has peek cached_ids step run gets note
program = tt

abbrev calls : List (Call ℕ)
calls = put_call 0 1 10 ∷ put_call 0 2 20 ∷ get_call 0 1 ∷ put_call 1 3 30 ∷ get_call 0 2 ∷ []

abbrev final : Cache ℕ
final = record {
  max_experts = 2;
  cache = ((0, 1), 10) ∷ ((1, 3), 30) ∷ [];
  hits = 1;
  misses = 1;
  by_layer = (0, 1 ∷ []) ∷ (1, 3 ∷ []) ∷ [];
}

-- Expert (0, 2) is the least recently used when (1, 3) arrives.
run-calls : run calls (init 2) ≡ some final
unfolding program
run-calls = refl

-- On a cache of size 0 `popitem` raises.
no_place : put 0 1 10 (init {V = ℕ} 0) ≡ none
unfolding program
no_place = refl

run-last_n_example :
    (c : Cache ℕ) × (run calls (init 2) ≡ some c)
    × IsValid c
    × (c.cache ≡ last_n 2 (foldl (note 2) [] calls))
    × (c.hits + c.misses ≡ gets calls)
run-last_n_example = run-last_n 2 calls (omega arith)

cached_ids_exact_example : (member 3 (cached_ids 1 final) ≡ has 1 3 final) × (has 1 3 final ≡ true)
unfolding program
cached_ids_exact_example = cached_ids_exact 2 calls final 1 3 (omega arith) run-calls

put-IsValid_example : (c : Cache ℕ) × (put 0 7 70 (init 1) ≡ some c) × IsValid c
put-IsValid_example = put-IsValid 0 7 70 (init 1) (init-IsValid 1 (omega arith))
