-- ===== src/Reader/Transparent.antt =====
-- `get_experts` as a whole: cache, prefetching, victim buffer and backfill change nothing of what it
-- answers.
use mathlib.Core.Path.{subst}
use expert_sniper.Prelude.{
  ℕ, Bool, not, ◌&&◌, Option, none, some, List, [], ◌∷◌, ◌≡◌, refl, sym, ap, ◌∙◌, inl, inr, ◌⊎◌,
  Option-cases, Bool-cases, pair_eq, nat_eq, arith,
}
use expert_sniper.Dict.{Dict, get?, set, contains}
use expert_sniper.Lru.{Key}
use expert_sniper.Reader.{Reader, Outcome, ok, raised, Futures, futures_of}
use expert_sniper.Reader.Demand.{
  Work, demand, demand_all, park, leftovers, open_call, close_call, get_experts,
}
use expert_sniper.Reader.Format.{Files, Expert, read_expert, parse_expert_data, load}
use expert_sniper.Reader.Pending.{PendingIn, get?-Pending, remove-Pending}
use expert_sniper.Reader.Coherent.{IsCoherent, park-IsCoherent}
use expert_sniper.Reader.Serves.{after, answer, store_loaded, demand-Serves}

Outcome-cases {ℓ} :
    {S : Type ℓ} (o : Outcome S) → ((s : S) × (o ≡ ok s)) ⊎ ((s : S) × (o ≡ raised s))
Outcome-cases (ok s) = inl (s, refl)
Outcome-cases (raised s) = inr (s, refl)

module _ {ℓ} {A : Type ℓ} (f : Files A) where
  -- The experts as the disk has them, one by one; `none` if one of them cannot be read or parsed.
  unfoldable pub load_all : ℕ → List ℕ → Dict ℕ (Expert f) → Option (Dict ℕ (Expert f))
  load_all l [] experts = some experts
  load_all l (e ∷ ids) experts = elim (load f l e) [
    | none ↦ none
    | some v ↦ load_all l ids (set e v experts)
  ]

  pub futures_of-PendingIn :
      (l : ℕ) (r : Reader f) → IsCoherent f r → PendingIn l (futures_of f l r)
  unfolding futures_of
  futures_of-PendingIn l r i = elim (Option-cases (get? l r.prefetch_futures)) [
    | inl p ↦ rw (futures_of, p) tt
    | inr (futures, p) ↦ rw (futures_of, p) (get?-Pending l futures r.prefetch_futures i.pending p)
  ]

module _ {ℓ} {A : Type ℓ} (f : Files A) (pace : ℕ → ℕ) where
  record ServesAll (l : ℕ) (ids : List ℕ) (before : Dict ℕ (Expert f)) (o : Outcome (Work f))
      : Type ℓ where
    coherent : IsCoherent f (after f pace o).self
    answered : f.fallback ≡ none → answer f pace o ≡ load_all f l ids before

  load_all-next :
      (l e : ℕ) (ids : List ℕ) (before got : Dict ℕ (Expert f))
      → some got ≡ store_loaded f pace (load f l e) e before
      → load_all f l ids got ≡ load_all f l (e ∷ ids) before
  unfolding load_all
  load_all-next l e ids before got h = elim (Option-cases (load f l e)) [
    | inl p ↦ ground arith
    | inr (v, p) ↦
        let q : got ≡ set e v before = ground arith in
        let first : load_all f l (e ∷ ids) before ≡ load_all f l ids (set e v before) =
          ground arith in
        ap (load_all f l ids) q ∙ sym first
  ]

  load_all-stop :
      (l e : ℕ) (ids : List ℕ) (before : Dict ℕ (Expert f))
      → none ≡ store_loaded f pace (load f l e) e before
      → none ≡ load_all f l (e ∷ ids) before
  unfolding load_all
  load_all-stop l e ids before h = elim (Option-cases (load f l e)) [
    | inl p ↦ ground arith
    | inr (v, p) ↦ ground arith
  ]

  demand_all-ServesAll :
      (l : ℕ) (futures : Futures) (ids : List ℕ) (w : Work f)
      → PendingIn l futures
      → IsCoherent f w.self
      → ServesAll l ids w.experts (demand_all f pace l futures ids w)
  unfolding demand_all load_all
  demand_all-ServesAll l futures [] w pend i = record { coherent = i; answered = λ _. refl }
  demand_all-ServesAll l futures (e ∷ ids) w pend i =
      let s = demand-Serves f pace l futures e w pend i in
      elim (Outcome-cases (demand f pace l futures e w)) [
        | inl (w1, p) ↦
            let i1 = subst (λ o. IsCoherent f (after f pace o).self) p s.coherent in
            let rest = demand_all-ServesAll l futures ids w1 pend i1 in
            rw (demand_all, p)
              (record {
                coherent = rest.coherent;
                answered = λ off.
                    rest.answered off
                    ∙ load_all-next l e ids w.experts w1.experts
                        (ap (answer f pace) (sym p) ∙ s.answered off);
              })
        | inr (w1, p) ↦
            rw (demand_all, p)
              (record {
                coherent = subst (λ o. IsCoherent f (after f pace o).self) p s.coherent;
                answered = λ off.
                    load_all-stop l e ids w.experts (ap (answer f pace) (sym p) ∙ s.answered off);
              })
      ]

  park-experts : (l e : ℕ) (k : Key) (w : Work f) → (park f l e k w).experts ≡ w.experts
  unfolding park
  park-experts l e k w = elim (Option-cases (read_expert f k.0 k.1)) [
    | inl p ↦ rw (park, p) refl
    | inr (raw, p) ↦ elim (Option-cases (parse_expert_data f raw)) [
      | inl q ↦ rw (park, p, q) refl
      | inr (v, q) ↦ rw (park, p, q) refl
    ]
  ]

  leftovers-IsCoherent :
      (done : ℕ → Bool) (l : ℕ) (futures : Futures) (w : Work f)
      → PendingIn l futures
      → IsCoherent f w.self
      → IsCoherent f (leftovers f done l futures w).self
        × ((leftovers f done l futures w).experts ≡ w.experts)
  unfolding leftovers
  leftovers-IsCoherent done l [] w pend i = (i, refl)
  leftovers-IsCoherent done l ((e, k) ∷ futures) w pend i =
      elim (Bool-cases (not (contains e w.experts) && done e)) [
        | inr skip ↦ rw (leftovers, skip) (leftovers-IsCoherent done l futures w pend.1 i)
        | inl use_it ↦
            let i1 : IsCoherent f (park f l e k w).self =
              subst (λ (j : Key). IsCoherent f (park f l e j w).self) (sym pend.0)
                (park-IsCoherent f l e w i) in
            let (i2, same) = leftovers-IsCoherent done l futures (park f l e k w) pend.1 i1 in
            rw (leftovers, use_it) (i2, same ∙ park-experts l e k w)
      ]

  pub get_experts-load_all :
      (done : ℕ → Bool) (l : ℕ) (ids : List ℕ) (r : Reader f)
      → IsCoherent f r
      → IsCoherent f (get_experts f pace done l ids r).0
        × (f.fallback ≡ none → (get_experts f pace done l ids r).1 ≡ load_all f l ids [])
  unfolding get_experts close_call
  get_experts-load_all done l ids r i =
      let futures = futures_of f l r in
      let pend = futures_of-PendingIn f l r i in
      let i0 : IsCoherent f (open_call f l r).self = record {
        cached = i.cached;
        parked = i.parked;
        bounded = i.bounded;
        pending = remove-Pending l r.prefetch_futures i.pending;
      } in
      let s = demand_all-ServesAll l futures ids (open_call f l r) pend i0 in
      elim (Outcome-cases (demand_all f pace l futures ids (open_call f l r))) [
        | inr (w, p) ↦
            let i1 = subst (λ o. IsCoherent f (after f pace o).self) p s.coherent in
            rw (get_experts, p) (i1, λ off. ap (answer f pace) (sym p) ∙ s.answered off)
        | inl (w, p) ↦
            let i1 = subst (λ o. IsCoherent f (after f pace o).self) p s.coherent in
            let (i2, same) = leftovers-IsCoherent done l futures w pend i1 in
            rw (get_experts, p)
              (
                record {
                  cached = i2.cached;
                  parked = i2.parked;
                  bounded = i2.bounded;
                  pending = i2.pending;
                },
                λ off. ap some same ∙ ap (answer f pace) (sym p) ∙ s.answered off,
              )
      ]
