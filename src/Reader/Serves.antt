-- ===== src/Reader/Serves.antt =====
-- One turn of the loop of `get_experts`: the reader stays coherent, and what it answers is what the
-- disk has.
use mathlib.Core.Path.{subst}
use expert_sniper.Prelude.{
  ℕ, ◌+◌, Option, none, some, length, ◌≡◌, refl, sym, inl, inr, Option-cases, pair_eq, nat_eq,
  arith,
}
use expert_sniper.Dict.{Dict, get?, set, remove}
use expert_sniper.Dict.Laws.{length-remove-le}
use expert_sniper.Lru.{Key, get}
use expert_sniper.Reader.{Reader, Outcome, ok, raised, Futures}
use expert_sniper.Reader.Demand.{
  Work, turn, keep, mix, read_now, prefetched, promote, not_cached, demand,
}
use expert_sniper.Reader.Format.{
  Files, Expert, read_expert, parse_expert_data, read_expert_partial, parse_expert_partial, load,
}
use expert_sniper.Reader.Loaded.{IsLoad}
use expert_sniper.Lru.Entries.{get?-Entries, remove-Entries, get-Fits}
use expert_sniper.Reader.Pending.{PendingIn, get?-PendingIn}
use expert_sniper.Reader.Coherent.{
  IsCoherent, CacheIsCoherent, load_def, put_lru-ok, turn-IsCoherent, get-CacheIsCoherent,
}

module _ {ℓ} {A : Type ℓ} (f : Files A) (pace : ℕ → ℕ) where
  abbrev pub after : Outcome (Work f) → Work f
  after (ok w) = w
  after (raised w) = w

  abbrev pub answer : Outcome (Work f) → Option (Dict ℕ (Expert f))
  answer (ok w) = some w.experts
  answer (raised w) = none

  abbrev pub store_loaded : Option (Expert f) → ℕ → Dict ℕ (Expert f) → Option (Dict ℕ (Expert f))
  store_loaded none e experts = none
  store_loaded (some v) e experts = some (set e v experts)

  pub record Serves (l e : ℕ) (before : Dict ℕ (Expert f)) (o : Outcome (Work f)) : Type ℓ where
    pub coherent : IsCoherent f (after o).self
    pub answered : f.fallback ≡ none → answer o ≡ store_loaded (load f l e) e before

  keep-Serves :
      (l e : ℕ) (v : Expert f) (w : Work f)
      → load f l e ≡ some v
      → IsCoherent f w.self
      → Serves l e w.experts (keep f pace l e v w)
  unfolding keep
  keep-Serves l e v w h i =
      let i1 = turn-IsCoherent f pace w.self i in
      let (o, done, good) = put_lru-ok f l e v (turn f pace w.self) h i1.cached in
      rw (keep, done)
        (record {
          coherent = record {
            cached = good;
            parked = i1.parked;
            bounded = i1.bounded;
            pending = i1.pending;
          };
          answered = λ _. rw h refl;
        })

  read_now-Serves :
      (l e : ℕ) (w : Work f) → IsCoherent f w.self → Serves l e w.experts (read_now f pace l e w)
  unfolding read_now load
  read_now-Serves l e w i = elim (Option-cases (read_expert f l e)) [
    | inl p ↦ rw (read_now, p) (record { coherent = i; answered = λ _. ground arith })
    | inr (raw, p) ↦ elim (Option-cases (parse_expert_data f raw)) [
      | inl q ↦ rw (read_now, p, q) (record { coherent = i; answered = λ _. ground arith })
      | inr (v, q) ↦
          rw (read_now, p, q)
            (keep-Serves l e v (record w { bytes_read = w.bytes_read + length raw })
              (load_def f l e raw v p q) i)
    ]
  ]

  prefetched-Serves :
      (l e : ℕ) (k : Key) (w : Work f)
      → k ≡ (l, e)
      → IsCoherent f w.self
      → Serves l e w.experts (prefetched f pace l e k w)
  unfolding prefetched load
  prefetched-Serves l e k w same i =
      subst (λ (j : Key). Serves l e w.experts (prefetched f pace l e j w)) (sym same)
        (elim (Option-cases (read_expert f l e)) [
          | inl p ↦ rw (prefetched, p) (record { coherent = i; answered = λ _. ground arith })
          | inr (raw, p) ↦ elim (Option-cases (parse_expert_data f raw)) [
            | inl q ↦ rw (prefetched, p, q) (record { coherent = i; answered = λ _. ground arith })
            | inr (v, q) ↦
                rw (prefetched, p, q)
                  (keep-Serves l e v
                    (record w {
                      bytes_read = w.bytes_read + length raw;
                      prefetch_hits = w.prefetch_hits + 1;
                    })
                    (load_def f l e raw v p q) i)
          ]
        ])

  mix-IsCoherent :
      (down : ℕ → ℕ → A) (l e : ℕ) (w : Work f)
      → IsCoherent f w.self
      → IsCoherent f (after (mix f pace down l e w)).self
  unfolding mix
  mix-IsCoherent down l e w i = elim (Option-cases (read_expert_partial f l e)) [
    | inl p ↦ rw (mix, p) i
    | inr (raw, p) ↦ elim (Option-cases (parse_expert_partial f raw)) [
      | inl q ↦ rw (mix, p, q) i
      | inr (v, q) ↦ rw (mix, p, q) i
    ]
  ]

  miss-Serves :
      (l e : ℕ) (w : Work f)
      → IsCoherent f w.self
      → Serves l e w.experts
          (elim f.fallback [ some down ↦ mix f pace down l e w | none ↦ read_now f pace l e w ])
  miss-Serves l e w i = elim (Option-cases f.fallback) [
    | inl p ↦ rw p (read_now-Serves l e w i)
    | inr (down, p) ↦
        rw p (record { coherent = mix-IsCoherent down l e w i; answered = λ q. absurd cc })
  ]

  not_cached-Serves :
      (l : ℕ) (futures : Futures) (e : ℕ) (w : Work f)
      → PendingIn l futures
      → IsCoherent f w.self
      → Serves l e w.experts (not_cached f pace l futures e w)
  unfolding not_cached promote
  not_cached-Serves l futures e w pend i = elim (Option-cases (get? (l, e) w.self.victim)) [
    | inr (v, p) ↦
        let w1 : Work f = record w {
          self = record w.self {
            victim = remove (l, e) w.self.victim;
            victim_hits = w.self.victim_hits + 1;
          };
        } in
        rw (not_cached, p)
          (keep-Serves l e v w1 (get?-Entries (IsLoad f) l e v w.self.victim i.parked p) (record {
            cached = i.cached;
            parked = remove-Entries (IsLoad f) (l, e) w.self.victim i.parked;
            bounded =
                omega (arith, i.bounded, length-remove-le {V = Expert f} (l, e) w.self.victim);
            pending = i.pending;
          }))
    | inl p ↦ elim (Option-cases (get? e futures)) [
      | inr (k, q) ↦
          rw (not_cached, p, q) (prefetched-Serves l e k w (get?-PendingIn l e k futures pend q) i)
      | inl q ↦ rw (not_cached, p, q) (miss-Serves l e w i)
    ]
  ]

  pub demand-Serves :
      (l : ℕ) (futures : Futures) (e : ℕ) (w : Work f)
      → PendingIn l futures
      → IsCoherent f w.self
      → Serves l e w.experts (demand f pace l futures e w)
  unfolding demand
  demand-Serves l futures e w pend i =
      let r = turn f pace w.self in
      let i1 = turn-IsCoherent f pace w.self i in
      elim (Option-cases r.lru) [
        | inl p ↦ rw (demand, p) (not_cached-Serves l futures e (record w { self = r }) pend i1)
        | inr (c, p) ↦
            let (valid, all) = subst (CacheIsCoherent f) p i1.cached in
            let r2 : Reader f = record r { lru = some (get l e c).0 } in
            let i2 : IsCoherent f r2 = record {
              cached = get-CacheIsCoherent f l e c (valid, all);
              parked = i1.parked;
              bounded = i1.bounded;
              pending = i1.pending;
            } in
            elim (Option-cases (get l e c).1) [
              | inl q ↦
                  rw (demand, p, q) (not_cached-Serves l futures e (record w { self = r2 }) pend i2)
              | inr (v, q) ↦
                  let h : load f l e ≡ some v = get-Fits (IsLoad f) l e v c all q in
                  rw (demand, p, q) (record { coherent = i2; answered = λ _. rw h refl })
            ]
      ]
