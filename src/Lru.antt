-- ===== src/Lru.antt =====
-- `LRUExpertCache` of src/mlx_expert_sniper/expert_io.py. Each method runs under the cache's lock,
-- so the calls of several threads are one sequence of the operations below.
pub mod Invariant
pub mod Window
pub mod Recency
pub mod Entries
mod Tests
use expert_sniper.Prelude.{
  ℕ, ◌+◌, Bool, false, ◌||◌, Option, none, some, List, [], ◌∷◌, ◌++◌, length, nat_beq, leb,
  if◌then◌else◌, pair_eq, nat_eq,
}
use expert_sniper.Dict.{Dict, pop_first, get?, contains, set, move_to_end}

-- (layer_idx, expert_id)
abbrev pub Key : Type 0
Key = ℕ × ℕ

-- A Python set of expert ids, as a list without repetitions. Its iteration order is not Python's.
abbrev pub member : ℕ → List ℕ → Bool
member e [] = false
member e (x ∷ s) = nat_beq x e || member e s

unfoldable pub add : ℕ → List ℕ → List ℕ
add e s = if member e s then s else s ++ e ∷ []

unfoldable pub discard : ℕ → List ℕ → List ℕ
discard e [] = []
discard e (x ∷ s) = let rest = discard e s in if nat_beq x e then rest else x ∷ rest

pub record Cache {ℓ} (V : Type ℓ) : Type ℓ where
  pub max_experts : ℕ
  pub cache : Dict Key V
  pub hits : ℕ
  pub misses : ℕ
  pub by_layer : Dict ℕ (List ℕ)

-- `self._by_layer.get(layer, ())`, and `self._by_layer[layer]` of a defaultdict
unfoldable pub layer_ids : ℕ → Dict ℕ (List ℕ) → List ℕ
layer_ids l index = elim (get? l index) [ none ↦ [] | some ids ↦ ids ]

module _ {ℓ} {V : Type ℓ} where
  unfoldable pub init : ℕ → Cache V
  init max_experts = record {
    max_experts = max_experts;
    cache = [];
    hits = 0;
    misses = 0;
    by_layer = [];
  }

  unfoldable pub get : ℕ → ℕ → Cache V → Cache V × Option V
  get l e c = elim (get? (l, e) c.cache) [
    | some _ ↦ (
      record c { cache = move_to_end (l, e) c.cache; hits = c.hits + 1 },
      get? (l, e) (move_to_end (l, e) c.cache),
    )
    | none ↦ (record c { misses = c.misses + 1 }, none)
  ]

  -- The oldest entry has left the dictionary, and its id leaves the index.
  unfoldable pub evict : Cache V → Key → Dict Key V → Cache V
  evict c (l, e) rest = record c {
    cache = rest;
    by_layer = set l (discard e (layer_ids l c.by_layer)) c.by_layer;
  }

  -- The eviction of `put`: `popitem` on a full cache, which fails (`none`) on an empty one.
  unfoldable pub make_room : Cache V → Option (Cache V)
  make_room c =
      if leb c.max_experts (length c.cache)
      then elim (pop_first c.cache) [ none ↦ none | some ((k, _), rest) ↦ some (evict c k rest) ]
      else some c

  -- The two stores of `put` for a key that the cache does not hold.
  unfoldable pub store_new : ℕ → ℕ → V → Cache V → Cache V
  store_new l e v c = record c {
    cache = set (l, e) v c.cache;
    by_layer = set l (add e (layer_ids l c.by_layer)) c.by_layer;
  }

  -- The cache after a `put`, or the KeyError (`none`) of `popitem` on an empty cache.
  unfoldable pub put : ℕ → ℕ → V → Cache V → Option (Cache V)
  put l e v c = elim (get? (l, e) c.cache) [
    | some _ ↦ some (record c { cache = set (l, e) v (move_to_end (l, e) c.cache) })
    | none ↦ elim (make_room c) [ none ↦ none | some c' ↦ some (store_new l e v c') ]
  ]

  unfoldable pub has : ℕ → ℕ → Cache V → Bool
  has l e c = contains (l, e) c.cache

  unfoldable pub peek : ℕ → ℕ → Cache V → Option V
  peek l e c = get? (l, e) c.cache

  unfoldable pub cached_ids : ℕ → Cache V → List ℕ
  cached_ids l c = layer_ids l c.by_layer
