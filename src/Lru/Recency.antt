-- ===== src/Lru/Recency.antt =====
-- What any sequence of calls of `LRUExpertCache` leaves in it: the most recently used entries of an
-- unbounded history, in order.
use expert_sniper.Dict.{contains}
use expert_sniper.Prelude.{
  ap, Bool, leb, leb→le, Bool-cases, true, false, ◌∙◌, Option, Option-cases, inl, inr, ◌+◌, pair_eq,
  ℕ, ◌<◌, ◌≡◌, refl, sym, none, some, [], ◌∷◌, length, arith, pair_eq,
}
use expert_sniper.Dict.{Dict, get?, set}
use expert_sniper.Dict.Order.{set-move_to_end, move_to_end-touch, last_n, touch}
use expert_sniper.Lru.Invariant.{IsValid, init-IsValid, get-IsValid, put-IsValid}
use mathlib.Core.List.{foldl}
use expert_sniper.Dict.{pop_first}
use expert_sniper.Lru.Window.{Splits, Splits-last_n, Splits-hit, Splits-free, Splits-evict}
use expert_sniper.Lru.{
  cached_ids, has, peek, member, layer_ids, make_room, evict, store_new, init, List, Cache, get,
  put, Key,
}

-- The calls that change the cache, in the order in which they hold its lock.
pub data Call {ℓ} (V : Type ℓ) : Type ℓ where
  get_call : ℕ → ℕ → Call V
  put_call : ℕ → ℕ → V → Call V

abbrev is_some {ℓ} : {A : Type ℓ} → Option A → Bool
is_some none = false
is_some (some a) = true

module _ {ℓ} {V : Type ℓ} where
  unfoldable pub step : Call V → Cache V → Option (Cache V)
  step (get_call l e) c = some (get l e c).0
  step (put_call l e v) c = put l e v c

  unfoldable pub run : List (Call V) → Cache V → Option (Cache V)
  run [] c = some c
  run (x ∷ calls) c = elim (step x c) [ none ↦ none | some c' ↦ run calls c' ]

  unfoldable pub gets : List (Call V) → ℕ
  gets [] = 0
  gets (get_call _ _ ∷ calls) = gets calls + 1
  gets (put_call _ _ _ ∷ calls) = gets calls

  -- The history holds every entry that was ever stored, the most recently used last. A `get` is a
  -- use if the key is among the last `n` entries.
  unfoldable pub note : ℕ → Dict Key V → Call V → Dict Key V
  note n h (get_call l e) = elim (get? (l, e) (last_n n h)) [ none ↦ h | some v ↦ touch (l, e) v h ]
  note n h (put_call l e v) = touch (l, e) v h

  record Follows (n : ℕ) (c : Cache V) (h : Dict Key V) : Type ℓ where
    valid : IsValid c
    capacity : c.max_experts ≡ n
    entries : Splits n c.cache h

  get-Follows :
      (n l e : ℕ) (c : Cache V) (h : Dict Key V)
      → Follows n c h
      → Follows n (get l e c).0 (note n h (get_call l e))
  unfolding note get
  get-Follows n l e c h f = record {
    valid = get-IsValid l e c f.valid;
    capacity = ground (arith, f.capacity);
    entries =
        rw (note, Splits-last_n n c.cache h f.entries)
          (elim (Option-cases (get? (l, e) c.cache)) [
            | inl p ↦ rw (p, get) f.entries
            | inr (v, p) ↦
                rw (p, get)
                  (rw (move_to_end-touch (l, e) v c.cache p)
                    (Splits-hit n (l, e) v v c.cache h p f.entries))
          ]);
  }

  -- The entries and the counters after a `put`: the key is cached, there is room, or the oldest
  -- entry leaves.
  abbrev AfterPut : ℕ → ℕ → V → Cache V → Cache V → Dict Key V → Type ℓ
  AfterPut l e v c c' d =
      (c'.cache ≡ d)
      × (c'.max_experts ≡ c.max_experts)
      × (c'.hits ≡ c.hits)
      × (c'.misses ≡ c.misses)

  put_hit :
      (l e : ℕ) (v w : V) (c c' : Cache V)
      → get? (l, e) c.cache ≡ some w
      → put l e v c ≡ some c'
      → AfterPut l e v c c' (touch (l, e) v c.cache)
  unfolding put
  put_hit l e v w c c' found done = ground (arith, set-move_to_end (l, e) v w c.cache found)

  put_free :
      (l e : ℕ) (v : V) (c c' : Cache V)
      → get? (l, e) c.cache ≡ none
      → leb c.max_experts (length c.cache) ≡ false
      → put l e v c ≡ some c'
      → AfterPut l e v c c' (set (l, e) v c.cache)
  unfolding put make_room store_new
  put_free l e v c c' absent free done = ground arith

  put_full :
      (l e : ℕ) (v : V) (c c' : Cache V) (x : Key × V) (d : Dict Key V)
      → c.cache ≡ x ∷ d
      → get? (l, e) (x ∷ d) ≡ none
      → leb c.max_experts (length (x ∷ d)) ≡ true
      → put l e v c ≡ some c'
      → AfterPut l e v c c' (set (l, e) v d)
  unfolding put make_room store_new evict pop_first
  put_full l e v c c' (k, w) d p absent full done = ground arith

  put_full-Splits :
      (l e : ℕ) (v : V) (c c' : Cache V) (h d : Dict Key V)
      → c.cache ≡ d
      → 0 < c.max_experts
      → get? (l, e) d ≡ none
      → leb c.max_experts (length d) ≡ true
      → Splits c.max_experts d h
      → put l e v c ≡ some c'
      → Splits c.max_experts c'.cache (touch (l, e) v h)
        × (c'.max_experts ≡ c.max_experts)
        × (c'.hits ≡ c.hits)
        × (c'.misses ≡ c.misses)
  put_full-Splits l e v c c' h [] p pos absent full s done = absurd (omega (arith, leb→le _ _ full))
  put_full-Splits l e v c c' h (x ∷ d) p pos absent full s done =
      let (q, room, hits, misses) = put_full l e v c c' x d p absent full done in
      (
        rw q (Splits-evict c.max_experts (l, e) v x d h absent (leb→le _ _ full) s),
        room,
        hits,
        misses,
      )

  put-Splits :
      (l e : ℕ) (v : V) (c c' : Cache V) (h : Dict Key V)
      → 0 < c.max_experts
      → Splits c.max_experts c.cache h
      → put l e v c ≡ some c'
      → Splits c.max_experts c'.cache (touch (l, e) v h)
        × (c'.max_experts ≡ c.max_experts)
        × (c'.hits ≡ c.hits)
        × (c'.misses ≡ c.misses)
  put-Splits l e v c c' h pos s done = elim (Option-cases (get? (l, e) c.cache)) [
    | inr (w, found) ↦
        let (q, room, hits, misses) = put_hit l e v w c c' found done in
        (rw q (Splits-hit c.max_experts (l, e) v w c.cache h found s), room, hits, misses)
    | inl absent ↦ elim (Bool-cases (leb c.max_experts (length c.cache))) [
      | inl full ↦ put_full-Splits l e v c c' h c.cache refl pos absent full s done
      | inr free ↦
          let (q, room, hits, misses) = put_free l e v c c' absent free done in
          (
            rw q (Splits-free c.max_experts (l, e) v c.cache h absent (ground arith) s),
            room,
            hits,
            misses,
          )
    ]
  ]

  put-Follows :
      (n l e : ℕ) (v : V) (c : Cache V) (h : Dict Key V)
      → Follows n c h
      → (c' : Cache V) × (put l e v c ≡ some c')
        × Follows n c' (touch (l, e) v h)
        × (c'.hits + c'.misses ≡ c.hits + c.misses)
  put-Follows n l e v c h f =
      let (c', done, valid) = put-IsValid l e v c f.valid in
      let s : Splits c.max_experts c.cache h = rw f.capacity f.entries in
      let (entries, room, hits, misses) = put-Splits l e v c c' h f.valid.positive s done in
      let s' : Splits n c'.cache (touch (l, e) v h) = rw (← f.capacity) entries in
      (
        c',
        done,
        record { valid = valid; capacity = room ∙ f.capacity; entries = s' },
        omega (arith, hits, misses),
      )

  get_counters :
      (l e : ℕ) (c : Cache V) → (get l e c).0.hits + (get l e c).0.misses ≡ c.hits + c.misses + 1
  unfolding get
  get_counters l e c = ground arith

  run-Follows :
      (n : ℕ) (calls : List (Call V)) (c : Cache V) (h : Dict Key V)
      → Follows n c h
      → (c' : Cache V) × (run calls c ≡ some c')
        × Follows n c' (foldl (note n) h calls)
        × (c'.hits + c'.misses ≡ c.hits + c.misses + gets calls)
  unfolding run step gets note
  run-Follows n [] c h f = (c, refl, f, omega arith)
  run-Follows n (get_call l e ∷ calls) c h f =
      let (c', done, f', count) = run-Follows n calls (get l e c).0 _ (get-Follows n l e c h f) in
      (c', done, f', omega (arith, count, get_counters l e c))
  run-Follows n (put_call l e v ∷ calls) c h f =
      let (c1, done1, f1, count1) = put-Follows n l e v c h f in
      let (c', done, f', count) = run-Follows n calls c1 _ f1 in
      (c', rw (run, done1) done, f', omega (arith, count, count1))

  init-Follows : (n : ℕ) → 0 < n → Follows n (init n) []
  init-Follows n pos = record {
    valid = init-IsValid n pos;
    capacity = unfold init in refl;
    entries =
        unfold init in
        record { distinct = tt; bounded = omega arith; older = []; split = refl; full = λ h. refl };
  }

  -- Whatever the calls of `get` and `put`, in whatever order the threads make them, no call fails
  -- on a cache of positive size. In the end the cache is valid, it holds exactly the `n` most
  -- recently used entries of the history in the order of their last use, and its hits and misses
  -- add up to the number of `get` calls.
  pub run-last_n :
      (n : ℕ) (calls : List (Call V))
      → 0 < n
      → (c : Cache V) × (run calls (init n) ≡ some c)
        × IsValid c
        × (c.cache ≡ last_n n (foldl (note n) [] calls))
        × (c.hits + c.misses ≡ gets calls)
  run-last_n n calls pos =
      let (c, done, f, count) = run-Follows n calls (init n) [] (init-Follows n pos) in
      (
        c,
        done,
        f.valid,
        sym (Splits-last_n n c.cache _ f.entries),
        unfold init in omega (arith, count),
      )

  -- After any calls on a new cache of positive size, the ids that `cached_ids` reports for a layer
  -- are exactly those of the experts that the cache holds for it, and `peek` finds just these.
  pub cached_ids_exact :
      (n : ℕ) (calls : List (Call V)) (c : Cache V) (l e : ℕ)
      → 0 < n
      → run calls (init n) ≡ some c
      → (member e (cached_ids l c) ≡ has l e c) × (has l e c ≡ is_some (peek l e c))
  unfolding cached_ids has peek
  cached_ids_exact n calls c l e pos done =
      let (c', done', f, count) = run-Follows n calls (init n) [] (init-Follows n pos) in
      let q : c' ≡ c = cc in
      (
        ap (λ (x : Cache V). member e (layer_ids l x.by_layer)) (sym q)
            ∙ f.valid.indexed l e
            ∙ ap (λ (x : Cache V). contains (l, e) x.cache) q,
        ground arith,
      )
