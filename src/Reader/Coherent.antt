-- ===== src/Reader/Coherent.antt =====
-- The invariant of `MoEExpertReader`: whatever it keeps in memory is what the disk has, and the
-- victim buffer keeps to its bound. Every step of the reader preserves it.
use mathlib.Core.Path.{subst}
use expert_sniper.Prelude.{
  ℕ, zero, suc, ◌+◌, ◌≤◌, Option, none, some, List, ltb, length, ◌≡◌, inl, inr, Option-cases,
  List-cases, Bool-cases, pair_eq, nat_eq, arith,
}
use expert_sniper.Dict.{set, move_to_end}
use expert_sniper.Lru.{Cache, Key, init, get}
use expert_sniper.Lru.Invariant.{IsValid, init-IsValid, get-IsValid, put-IsValid}
use expert_sniper.Reader.{Reader, ok, put_lru, do_backfill, run_backfill, new_reader}
use expert_sniper.Reader.Demand.{Work, turn, park}
use expert_sniper.Reader.Format.{Files, Expert, read_expert, parse_expert_data, load}
use expert_sniper.Reader.Pending.{Pending}
use expert_sniper.Reader.Loaded.{Loaded, shrink-Loaded, length-shrink, IsLoad}
use expert_sniper.Lru.Entries.{set-Entries, move_to_end-Entries, put-Entries, get-Entries}

module _ {ℓ} {A : Type ℓ} (f : Files A) where
  abbrev pub CacheIsCoherent : Option (Cache (Expert f)) → Type ℓ
  CacheIsCoherent none = Unit
  CacheIsCoherent (some c) = IsValid c × Loaded f c.cache

  pub record IsCoherent (r : Reader f) : Type ℓ where
    pub cached : CacheIsCoherent r.lru
    pub parked : Loaded f r.victim
    pub bounded : length r.victim ≤ r.victim_cap
    pub pending : Pending r.prefetch_futures

  pub load_def :
      (l e : ℕ) (raw : List ℕ) (v : Expert f)
      → read_expert f l e ≡ some raw
      → parse_expert_data f raw ≡ some v
      → load f l e ≡ some v
  unfolding load
  load_def l e raw v p q = ground arith

  -- Storing what the disk has never raises, and changes nothing but the cache.
  pub put_lru-ok :
      (l e : ℕ) (v : Expert f) (r : Reader f)
      → load f l e ≡ some v
      → CacheIsCoherent r.lru
      → (o : Option (Cache (Expert f))) × (put_lru f l e v r ≡ ok (record r { lru = o }))
        × CacheIsCoherent o
  unfolding put_lru
  put_lru-ok l e v r h i = elim (Option-cases r.lru) [
    | inl p ↦ (none, ground arith, tt)
    | inr (c, p) ↦
        let (valid, all) = subst CacheIsCoherent p i in
        let (c', made, valid') = put-IsValid l e v c valid in
        (some c', ground arith, (valid', put-Entries (IsLoad f) l e v c c' made h all))
  ]

  do_backfill-IsCoherent : (k : Key) (r : Reader f) → IsCoherent r → IsCoherent (do_backfill f k r)
  unfolding do_backfill
  do_backfill-IsCoherent (l, e) r i = elim (Option-cases (read_expert f l e)) [
    | inl p ↦
        rw (do_backfill, p)
          (record {
            cached = i.cached;
            parked = i.parked;
            bounded = i.bounded;
            pending = i.pending;
          })
    | inr (raw, p) ↦ elim (Option-cases (parse_expert_data f raw)) [
      | inl q ↦
          rw (do_backfill, p, q)
            (record {
              cached = i.cached;
              parked = i.parked;
              bounded = i.bounded;
              pending = i.pending;
            })
      | inr (v, q) ↦
          let r1 : Reader f = record r { bytes_read = r.bytes_read + length raw } in
          let (o, done, good) = put_lru-ok l e v r1 (load_def l e raw v p q) i.cached in
          rw (do_backfill, p, q, done)
            (record { cached = good; parked = i.parked; bounded = i.bounded; pending = i.pending })
    ]
  ]

  pub run_backfill-IsCoherent :
      (n : ℕ) (r : Reader f) → IsCoherent r → IsCoherent (run_backfill f n r)
  unfolding run_backfill
  run_backfill-IsCoherent zero r i = i
  run_backfill-IsCoherent (suc n) r i = elim (List-cases r.backfill) [
    | inl p ↦ rw (run_backfill, p) i
    | inr ((k, ks), p) ↦
        let r1 : Reader f = record r { backfill = ks } in
        let i1 : IsCoherent r1 = record {
          cached = i.cached;
          parked = i.parked;
          bounded = i.bounded;
          pending = i.pending;
        } in
        rw (run_backfill, p)
          (run_backfill-IsCoherent n (do_backfill f k r1) (do_backfill-IsCoherent k r1 i1))
  ]

  pub turn-IsCoherent : (pace : ℕ → ℕ) (r : Reader f) → IsCoherent r → IsCoherent (turn f pace r)
  unfolding turn
  turn-IsCoherent pace r i =
      run_backfill-IsCoherent (pace r.clock) (record r { clock = r.clock + 1 })
        (record { cached = i.cached; parked = i.parked; bounded = i.bounded; pending = i.pending })

  pub get-CacheIsCoherent :
      (l e : ℕ) (c : Cache (Expert f))
      → CacheIsCoherent (some c)
      → CacheIsCoherent (some (get l e c).0)
  get-CacheIsCoherent l e c (valid, all) =
      (get-IsValid l e c valid, get-Entries (IsLoad f) l e c all)

  pub park-IsCoherent :
      (l e : ℕ) (w : Work f) → IsCoherent w.self → IsCoherent (park f l e (l, e) w).self
  unfolding park
  park-IsCoherent l e w i = elim (Option-cases (read_expert f l e)) [
    | inl p ↦ rw (park, p) i
    | inr (raw, p) ↦ elim (Option-cases (parse_expert_data f raw)) [
      | inl q ↦ rw (park, p, q) i
      | inr (v, q) ↦
          let d = set (l, e) v w.self.victim in
          rw (park, p, q)
            (record {
              cached = i.cached;
              parked = shrink-Loaded f w.self.victim_cap (move_to_end (l, e) d) (
                  move_to_end-Entries (IsLoad f) l e d
                    (set-Entries (IsLoad f) l e v w.self.victim i.parked (load_def l e raw v p q)));
              bounded = length-shrink f w.self.victim_cap (move_to_end (l, e) d);
              pending = i.pending;
            })
    ]
  ]

  pub new_reader-IsCoherent : (n : ℕ) → IsCoherent (new_reader f n)
  unfolding new_reader init
  new_reader-IsCoherent n = elim (Bool-cases (ltb 0 n)) [
    | inl p ↦
        rw (new_reader, p)
          (record {
            cached = (init-IsValid n (ground arith), tt);
            parked = tt;
            bounded = ground arith;
            pending = tt;
          })
    | inr p ↦
        rw (new_reader, p)
          (record { cached = tt; parked = tt; bounded = ground arith; pending = tt })
  ]
