-- ===== src/Reader/Tests.antt =====
-- Runs of the expert reader on two tiny layers, and instances of its theorems.
use expert_sniper.Prelude.{
  if◌then◌else◌, nat_beq, ℕ, zero, suc, true, Option, none, some, List, [], ◌∷◌, length, ◌≡◌, refl,
  nat_eq, string_eq, pair_eq, ◌≤◌,
}
use expert_sniper.Dict.{pop_first, get?, set, remove, move_to_end}
use expert_sniper.Generate.{elem}
use expert_sniper.Lru.{
  Cache, add, discard, layer_ids, init, get, put, has, peek, evict, make_room, store_new,
}
use expert_sniper.Reader.{
  new_reader, put_lru, do_backfill, run_backfill, futures_of, in_lru, submit_all, prefetch_experts,
  reset_prefetch,
}
use expert_sniper.Reader.Demand.{
  shrink, turn, keep, mix, read_now, prefetched, promote, not_cached, demand, demand_all, park,
  leftovers, close_call, get_experts,
}
use expert_sniper.Reader.Format.{
  Files, Info, Expert, read_expert, parse_all, parse_expert_data, read_expert_partial, parse_some,
  parse_expert_partial, load,
}
use expert_sniper.Reader.Blocks.{read_expert-block}
use expert_sniper.Reader.Transparent.{load_all}
use expert_sniper.Reader.History.{
  Call, prefetch, serve, background, step, run, get_experts-transparent, peek-eq-load,
}

program : Unit {0}
unfolding pop_first get? set remove move_to_end elem add discard layer_ids init get put has peek
    evict make_room store_new new_reader put_lru do_backfill run_backfill futures_of in_lru
    submit_all prefetch_experts reset_prefetch shrink turn keep mix read_now prefetched promote
    not_cached demand demand_all park leftovers close_call get_experts read_expert parse_all
    parse_expert_data read_expert_partial parse_some parse_expert_partial load load_all step run
program = tt

abbrev info : ℕ → ℕ → Info
info offset n = record {
  inner_offset = offset;
  nbytes = n;
  shape_per_expert = n ∷ [];
  dtype = "float16";
}

abbrev whole : Info → List ℕ → Option (List ℕ)
whole i bytes = if nat_beq (length bytes) i.nbytes then some bytes else none

-- Layer 0 has three experts of three bytes after a header of two; the other files do not exist.
abbrev layers : ℕ → Option (List ℕ)
layers zero = some (9 ∷ 9 ∷ 1 ∷ 2 ∷ 3 ∷ 4 ∷ 5 ∷ 6 ∷ 7 ∷ 8 ∷ 9 ∷ [])
layers (suc _) = none

abbrev tiny : Files (List ℕ)
tiny = record {
  file = layers;
  view = whole;
  data_start = 2;
  expert_block_size = 3;
  tensor_layout = ("gate", info 0 1) ∷ ("switch_mlp.down_proj.weight", info 1 2) ∷ [];
  fallback = none;
}

abbrev mixed : Files (List ℕ)
mixed = record tiny { fallback = some (λ l e. 0 ∷ 0 ∷ []) }

-- Two guesses, of which one is used; the other one waits in the victim buffer.
abbrev history : List Call
history = prefetch 0 (0 ∷ 1 ∷ []) ∷ serve (λ n. 1) (λ e. true) 0 (1 ∷ []) ∷ prefetch 0 (2 ∷ []) ∷ []

abbrev expert : ℕ → ℕ → ℕ → Expert tiny
expert a b c = ("gate", a ∷ []) ∷ ("switch_mlp.down_proj.weight", b ∷ c ∷ []) ∷ []

victim_holds : (run tiny history (new_reader tiny 1)).victim ≡ ((0, 0), expert 1 2 3) ∷ []
unfolding program
victim_holds = refl

serves_all :
    (get_experts tiny (λ n. 1) (λ e. true) 0 (0 ∷ 2 ∷ []) (run tiny history (new_reader tiny 1))).1
    ≡ some ((0, expert 1 2 3) ∷ (2, expert 7 8 9) ∷ [])
unfolding program
serves_all = refl

-- With the fallback buffer the miss is answered from it, and the backfill caches the whole expert.
answers_mixed :
    (get_experts mixed (λ n. 0) (λ e. true) 0 (2 ∷ []) (new_reader mixed 1)).1
    ≡ some ((2, expert 7 0 0) ∷ [])
unfolding program
answers_mixed = refl

get_experts-transparent_example :
    ((get_experts tiny (λ n. 1) (λ e. true) 0 (0 ∷ 2 ∷ []) (run tiny history (new_reader tiny 1))).1
      ≡ load_all tiny 0 (0 ∷ 2 ∷ []) [])
    × (length (run tiny history (new_reader tiny 1)).victim
        ≤ (run tiny history (new_reader tiny 1)).victim_cap)
get_experts-transparent_example =
    get_experts-transparent tiny 1 history (λ n. 1) (λ e. true) 0 (0 ∷ 2 ∷ []) refl

abbrev backfilled : List Call
backfilled = serve (λ n. 0) (λ e. true) 0 (2 ∷ []) ∷ background 1 ∷ []

abbrev full : Cache (Expert mixed)
full = record {
  max_experts = 1;
  cache = ((0, 2), expert 7 8 9) ∷ [];
  hits = 0;
  misses = 1;
  by_layer = (0, 2 ∷ []) ∷ [];
}

peek-eq-load_example : load mixed 0 2 ≡ some (expert 7 8 9)
unfolding program
peek-eq-load_example = peek-eq-load mixed 1 backfilled full 0 2 (expert 7 8 9) refl refl

read_expert-block_example : read_expert tiny 0 1 ≡ some (4 ∷ 5 ∷ 6 ∷ [])
read_expert-block_example =
    read_expert-block tiny 0 1 (9 ∷ 9 ∷ [])
      ((1 ∷ 2 ∷ 3 ∷ []) ∷ (4 ∷ 5 ∷ 6 ∷ []) ∷ (7 ∷ 8 ∷ 9 ∷ []) ∷ []) (4 ∷ 5 ∷ 6 ∷ []) refl refl
      (refl, (refl, (refl, tt))) refl
