-- ===== src/Reader/Demand.antt =====
-- `get_experts` of `MoEExpertReader` in src/mlx_expert_sniper/expert_io.py, with a function for each branch
-- of its loop. `done` says which futures are complete, and `pace` how many entries of its queue the
-- backfill worker runs before each use of the cache.
use expert_sniper.Prelude.{
  ℕ, ◌+◌, Bool, not, ◌&&◌, Option, none, some, List, [], ◌∷◌, ◌++◌, ltb, length, map, if◌then◌else◌,
  nat_eq, pair_eq, string_eq,
}
use expert_sniper.Dict.{Dict, get?, contains, set, remove, move_to_end}
use expert_sniper.Lru.{Key, get}
use expert_sniper.Reader.Format.{
  Files, Expert, down_name, read_expert, parse_expert_data, read_expert_partial,
  parse_expert_partial,
}
use expert_sniper.Reader.{Outcome, ok, raised, Futures, Reader, put_lru, run_backfill, futures_of}

module _ {ℓ} {A : Type ℓ} (f : Files A) where
  -- The local variables of `get_experts`, and the reader.
  pub record Work : Type ℓ where
    pub self : Reader f
    pub experts : Dict ℕ (Expert f)
    pub backfill_futures : Futures
    pub bytes_read : ℕ
    pub cache_hits : ℕ
    pub prefetch_hits : ℕ

  -- `while len(self.victim) > self.victim_cap: self.victim.popitem(last=False)`
  unfoldable pub shrink : ℕ → Dict Key (Expert f) → Dict Key (Expert f)
  shrink cap [] = []
  shrink cap (x ∷ d) = let rest = shrink cap d in if ltb cap (length (x ∷ d)) then rest else x ∷ d

  module _ (pace : ℕ → ℕ) where
    -- The worker has its turn.
    unfoldable pub turn : Reader f → Reader f
    turn r = run_backfill f (pace r.clock) (record r { clock = r.clock + 1 })

    -- `experts[eid] = parsed`, and the expert goes to the cache.
    unfoldable pub keep : ℕ → ℕ → Expert f → Work → Outcome Work
    keep l e v w = elim (put_lru f l e v (turn w.self)) [
      | ok r ↦ ok (record w { self = r; experts = set e v w.experts })
      | raised r ↦ raised (record w { self = r; experts = set e v w.experts })
    ]

    -- 3. Cache miss, with a fallback buffer: gate and up from the disk, down from the buffer, and
    -- the whole expert is read for the backfill.
    unfoldable pub mix : (ℕ → ℕ → A) → ℕ → ℕ → Work → Outcome Work
    mix down l e w = elim (read_expert_partial f l e) [
      | none ↦ raised w
      | some raw ↦ elim (parse_expert_partial f raw) [
        | none ↦ raised w
        | some v ↦ ok (record w {
          experts = set e (set down_name (down l e) v) w.experts;
          bytes_read = w.bytes_read + length raw;
          backfill_futures = set e (l, e) w.backfill_futures;
        })
      ]
    ]

    -- 3. Cache miss, without a fallback buffer.
    unfoldable pub read_now : ℕ → ℕ → Work → Outcome Work
    read_now l e w = elim (read_expert f l e) [
      | none ↦ raised w
      | some raw ↦ elim (parse_expert_data f raw) [
        | none ↦ raised w
        | some v ↦ keep l e v (record w { bytes_read = w.bytes_read + length raw })
      ]
    ]

    -- 2. The read that was prefetched.
    unfoldable pub prefetched : ℕ → ℕ → Key → Work → Outcome Work
    prefetched l e (fl, fe) w = elim (read_expert f fl fe) [
      | none ↦ raised w
      | some raw ↦ elim (parse_expert_data f raw) [
        | none ↦ raised w
        | some v ↦ keep l e v (record w {
          bytes_read = w.bytes_read + length raw;
          prefetch_hits = w.prefetch_hits + 1;
        })
      ]
    ]

    -- 1.5 A correct speculation.
    unfoldable pub promote : ℕ → ℕ → Expert f → Work → Outcome Work
    promote l e v w = keep l e v (record w {
      self = record w.self {
        victim = remove (l, e) w.self.victim;
        victim_hits = w.self.victim_hits + 1;
      };
    })

    unfoldable pub not_cached : ℕ → Futures → ℕ → Work → Outcome Work
    not_cached l futures e w = elim (get? (l, e) w.self.victim) [
      | some v ↦ promote l e v w
      | none ↦ elim (get? e futures) [
        | some future ↦ prefetched l e future w
        | none ↦ elim f.fallback [ some down ↦ mix down l e w | none ↦ read_now l e w ]
      ]
    ]

    -- One turn of the loop over `expert_ids`.
    unfoldable pub demand : ℕ → Futures → ℕ → Work → Outcome Work
    demand l futures e w =
        let r = turn w.self in
        elim r.lru [
          | none ↦ not_cached l futures e (record w { self = r })
          | some c ↦
              let w' : Work = record w { self = record r { lru = some (get l e c).0 } } in
              elim (get l e c).1 [
                | some v ↦
                    ok (record w' { experts = set e v w'.experts; cache_hits = w'.cache_hits + 1 })
                | none ↦ not_cached l futures e w'
              ]
        ]

    unfoldable pub demand_all : ℕ → Futures → List ℕ → Work → Outcome Work
    demand_all l futures [] w = ok w
    demand_all l futures (e ∷ ids) w = elim (demand l futures e w) [
      | raised w' ↦ raised w'
      | ok w' ↦ demand_all l futures ids w'
    ]

  -- A completed read that nobody asked for goes to the victim buffer; its errors are logged.
  unfoldable pub park : ℕ → ℕ → Key → Work → Work
  park l e (fl, fe) w = elim (read_expert f fl fe) [
    | none ↦ w
    | some raw ↦ elim (parse_expert_data f raw) [
      | none ↦ w
      | some v ↦ record w {
        self = record w.self {
          victim = shrink w.self.victim_cap (move_to_end (l, e) (set (l, e) v w.self.victim));
        };
        bytes_read = w.bytes_read + length raw;
      }
    ]
  ]

  -- The loop over `futures.items()`: what is neither used nor complete is cancelled.
  unfoldable pub leftovers : (ℕ → Bool) → ℕ → Futures → Work → Work
  leftovers done l [] w = w
  leftovers done l ((e, future) ∷ futures) w =
      leftovers done l futures
        (if not (contains e w.experts) && done e then park l e future w else w)

  -- `_schedule_backfill`, and the counters.
  unfoldable pub close_call : ℕ → Work → Reader f
  close_call asked w = record w.self {
    backfill = w.self.backfill ++ map (λ x. x.1) w.backfill_futures;
    reads = w.self.reads + asked;
    bytes_read = w.self.bytes_read + w.bytes_read;
    cache_hits = w.self.cache_hits + w.cache_hits;
    prefetch_hits = w.self.prefetch_hits + w.prefetch_hits;
  }

  abbrev pub open_call : ℕ → Reader f → Work
  open_call l r = record {
    self = record r { prefetch_futures = remove l r.prefetch_futures };
    experts = [];
    backfill_futures = [];
    bytes_read = 0;
    cache_hits = 0;
    prefetch_hits = 0;
  }

  -- The reader after the call, and the experts; `none` is an exception of a read or a parse.
  unfoldable pub get_experts :
      (ℕ → ℕ) → (ℕ → Bool) → ℕ → List ℕ → Reader f → Reader f × Option (Dict ℕ (Expert f))
  get_experts pace done l ids r = elim (demand_all pace l (futures_of f l r) ids (open_call l r)) [
    | raised w ↦ (w.self, none)
    | ok w ↦
        let w' = leftovers done l (futures_of f l r) w in
        (close_call (length ids) w', some w'.experts)
  ]
