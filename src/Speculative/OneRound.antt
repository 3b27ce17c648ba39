-- ===== src/Speculative/OneRound.antt =====
-- One round of the loop of `spec_generate_stream`: what it yields, and what it leaves in step.
use mathlib.Core.List.{append_assoc}
use mathlib.Core.Path.{ap₂, subst}
use expert_sniper.Prelude.{
  take_of_length-le, length-take-le, ap, sym, ◌∙◌, get_elem?, length-append, ℕ, ◌+◌, ◌-◌, ◌≤◌, ◌<◌,
  false, some, List, [], ◌∷◌, ◌++◌, String, length, take, ◌≡◌, refl, inl, inr, Bool-cases, arith,
  if◌then◌else◌, ltb,
}
use expert_sniper.Generate.{Tokenizer}
use expert_sniper.Generate.Model.{Target}
use expert_sniper.Generate.Greedy.{greedy}
use expert_sniper.Speculative.{
  Draft, matching, emit, Loop, Round, finish, drafts, preds, roll_back, round,
}
use expert_sniper.Speculative.Accept.{IsGreedy, matching-le, accept_lem, take-rolled}
use expert_sniper.Speculative.Emit.{Emits, emit-Emits}

module _ (model : Target) (tok : Tokenizer) (draft : Draft) (k max_tokens : ℕ) where
  open model use {
    next, held, forward, trim, held-forward, forward-predictions, held-trim, fresh, held-fresh,
  }

  abbrev pub State : Type 0
  State = Loop model draft

  abbrev pub Step : Type 0
  Step = Round model draft

  -- The KV cache holds all of the context but its last token, which is `cur`.
  abbrev pub InStep : State → Type 0
  InStep s = s.context ≡ held s.kv ++ s.cur ∷ []

  -- The greedy continuation that is still to come.
  abbrev pub ahead : State → List String
  ahead s = greedy next tok (max_tokens - s.emitted) s.context

  -- The count of accepted drafts.
  abbrev hits : State → ℕ
  hits s = matching (drafts model draft k s) (preds model draft k s)

  held-roll_back :
      (s : State)
      → held (roll_back model draft k s).kv
        ≡ held s.kv ++ s.cur ∷ take (hits s) (drafts model draft k s)
  unfolding roll_back
  held-roll_back s =
      let ds = drafts model draft k s in
      let fed = held-forward (s.cur ∷ ds) s.kv in
      let le = matching-le ds (preds model draft k s) in
      elim (Bool-cases (ltb 0 (length ds - hits s))) [
        | inl some_rejected ↦
            rw (roll_back, some_rejected, held-trim, fed)
              (take-rolled (held s.kv) ds s.cur (hits s) le)
        | inr none_rejected ↦
            let same : take (hits s) ds ≡ ds = take_of_length-le ds (hits s) (ground arith) in
            rw (roll_back, none_rejected, fed, same)
      ]

  pub record Advances (s : State) (r : Step) : Type 0 where
    pub output : ahead s ≡ r.chunks ++ (if r.stop then [] else ahead r.loop)
    pub in_step : r.stop ≡ false → InStep r.loop
    pub below : r.stop ≡ false → r.loop.emitted < max_tokens
    pub grows : r.stop ≡ false → s.emitted < r.loop.emitted
    pub drafted : s.stats.drafted + r.loop.stats.accepted ≤ r.loop.stats.drafted + s.stats.accepted
    pub gained : r.loop.emitted + s.stats.accepted ≤ s.emitted + r.loop.stats.accepted + 1
    pub counted : r.loop.emitted ≡ s.emitted + length r.chunks
    pub kept : s.emitted ≤ r.loop.emitted
    pub one : r.loop.stats.forwards ≡ s.stats.forwards + 1

  finish-Advances :
      (s : State) (p : ℕ)
      → s.emitted < max_tokens
      → InStep s
      → IsGreedy next s.context (take (hits s) (drafts model draft k s) ++ p ∷ [])
      → Advances s (
          finish model tok draft k max_tokens
            (roll_back model draft k s)
            (take (hits s) (drafts model draft k s) ++ p ∷ [])
            p)
  unfolding finish roll_back
  finish-Advances s p lt i g =
      let m = hits s in
      let ds = drafts model draft k s in
      let accepted = take m ds in
      let out = accepted ++ p ∷ [] in
      let e : Emits next tok max_tokens out s.context s.emitted (max_tokens - s.emitted)
          (emit tok max_tokens out s.emitted s.context) =
        emit-Emits next tok max_tokens out s.context s.emitted (max_tokens - s.emitted)
          (omega arith) (omega arith) g in
      let size = length-append accepted (p ∷ []) in
      record {
        output = e.output;
        in_step = λ go.
            e.context go
            ∙ ap (λ c. c ++ out) i
            ∙ append_assoc (held s.kv) (s.cur ∷ []) out
            ∙ sym (append_assoc (held s.kv) (s.cur ∷ accepted) (p ∷ []))
            ∙ sym (ap₂ (λ (a : List ℕ) (b : ℕ). a ++ b ∷ []) (held-roll_back s) (rw go));
        below = e.below;
        grows = λ go. omega (arith, e.counted, e.all go, size);
        drafted = omega (arith, matching-le ds (preds model draft k s));
        gained = omega (arith, e.counted, e.short, size, length-take-le m ds);
        counted = e.counted;
        kept = omega (arith, e.counted);
        one = refl;
      }

  pub round-Advances :
      (s : State)
      → InStep s
      → s.emitted < max_tokens
      → (r : Step) × (round model tok draft k max_tokens s ≡ some r) × Advances s r
  unfolding round
  round-Advances s i lt =
      let ds = drafts model draft k s in
      let q = forward-predictions (s.cur ∷ ds) s.kv in
      let (p, found, g) = accept_lem next (held s.kv) s.cur ds in
      let found' : get_elem? (preds model draft k s) (hits s) ≡ some p = rw q found in
      let g' : IsGreedy next s.context (take (hits s) ds ++ p ∷ []) =
        subst (λ c. IsGreedy next c (take (hits s) ds ++ p ∷ [])) (sym i) (rw q g) in
      (_, rw (round, found'), finish-Advances s p lt i g')
