-- ===== src/Reader.antt =====
-- `MoEExpertReader` of src/mlx_expert_sniper/expert_io.py: its state, the prefetches and the backfill.
-- Reader.Format reads single experts, and Reader.Demand is `get_experts`. A future is the expert whose
-- block it reads.
pub mod Format
pub mod Demand
pub mod Blocks
pub mod Loaded
pub mod Pending
pub mod Coherent
pub mod Serves
pub mod Transparent
pub mod History
mod Tests
use expert_sniper.Prelude.{
  ℕ, zero, suc, ◌+◌, ◌*◌, ◌/◌, max, Bool, true, false, not, ◌&&◌, ◌||◌, Option, none, some, List,
  [], ◌∷◌, ◌++◌, String, ltb, nat_beq, length, take, drop, map, if◌then◌else◌, nat_eq, pair_eq,
  string_eq,
}
use expert_sniper.Dict.{Dict, get?, contains, set, remove, move_to_end}
use expert_sniper.Lru.{Cache, Key, init, get, put, has}
use expert_sniper.Reader.Format.{
  Files, Expert, down_name, read_expert, parse_expert_data, read_expert_partial,
  parse_expert_partial,
}

-- What a piece of code leaves: it goes on, or it raises.
pub data Outcome {ℓ} (S : Type ℓ) : Type ℓ where
  ok : S → Outcome S
  raised : S → Outcome S

-- The futures of a layer, by expert id.
abbrev pub Futures : Type 0
Futures = Dict ℕ Key

module _ {ℓ} {A : Type ℓ} (f : Files A) where
  pub record Reader : Type ℓ where
    pub lru : Option (Cache (Expert f))
    pub prefetch_futures : Dict ℕ Futures
    pub victim : Dict Key (Expert f)
    pub victim_cap : ℕ
    pub backfill : List Key
    pub clock : ℕ
    pub victim_hits : ℕ
    pub reads : ℕ
    pub bytes_read : ℕ
    pub cache_hits : ℕ
    pub prefetch_hits : ℕ
    pub backfill_errors : ℕ

  -- `__init__`
  unfoldable pub new_reader : ℕ → Reader
  new_reader cache_size = record {
    lru = if ltb 0 cache_size then some (init cache_size) else none;
    prefetch_futures = [];
    victim = [];
    victim_cap = if nat_beq cache_size 0 then 16 else max 16 (cache_size / 16);
    backfill = [];
    clock = 0;
    victim_hits = 0;
    reads = 0;
    bytes_read = 0;
    cache_hits = 0;
    prefetch_hits = 0;
    backfill_errors = 0;
  }

  -- `if self.lru: self.lru.put(...)`
  unfoldable pub put_lru : ℕ → ℕ → Expert f → Reader → Outcome Reader
  put_lru l e v r = elim r.lru [
    | none ↦ ok r
    | some c ↦ elim (put l e v c) [ none ↦ raised r | some c' ↦ ok (record r { lru = some c' }) ]
  ]

  abbrev pub failed : Outcome Reader → Reader
  failed (ok r) = r
  failed (raised r) = record r { backfill_errors = r.backfill_errors + 1 }

  -- One turn of the loop in `_do_backfill`.
  unfoldable pub do_backfill : Key → Reader → Reader
  do_backfill (l, e) r = elim (read_expert f l e) [
    | none ↦ failed (raised r)
    | some raw ↦ elim (parse_expert_data f raw) [
      | none ↦ failed (raised r)
      | some v ↦ failed (put_lru l e v (record r { bytes_read = r.bytes_read + length raw }))
    ]
  ]

  -- The worker runs the first entries of its queue.
  unfoldable pub run_backfill : ℕ → Reader → Reader
  run_backfill zero r = r
  run_backfill (suc n) r = elim r.backfill [
    | [] ↦ r
    | key ∷ keys ↦ run_backfill n (do_backfill key (record r { backfill = keys }))
  ]

  -- `prefetch_futures.setdefault(layer, {})`, or `pop(layer, {})`
  unfoldable pub futures_of : ℕ → Reader → Futures
  futures_of l r = elim (get? l r.prefetch_futures) [ none ↦ [] | some pending ↦ pending ]

  -- `self.lru and self.lru.contains(layer, eid)`
  unfoldable pub in_lru : ℕ → ℕ → Reader → Bool
  in_lru l e r = elim r.lru [ none ↦ false | some c ↦ has l e c ]

  unfoldable pub submit_all : ℕ → List ℕ → Reader → Futures → Futures
  submit_all l [] r pending = pending
  submit_all l (e ∷ ids) r pending =
      submit_all l ids r
        (if contains e pending || in_lru l e r then pending else set e (l, e) pending)

  unfoldable pub prefetch_experts : ℕ → List ℕ → Reader → Reader
  prefetch_experts l ids r = record r {
    prefetch_futures = set l (submit_all l ids r (futures_of l r)) r.prefetch_futures;
  }

  unfoldable pub reset_prefetch : Reader → Reader
  reset_prefetch r = record r { prefetch_futures = [] }
