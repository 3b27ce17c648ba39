-- ===== src/Speculative/Cached/Rollback.antt =====
-- `ModelDraft.trim`: the cache after a round in which some drafts were rejected.

use mathlib.Core.Path.{subst}
use expert_sniper.Prelude.{
  min, some-pair, Bool-cases, ◌||◌, nat_beq, take-take, length-take, ◌<◌, length-append,
  take-length-append, ℕ, zero, suc, ◌+◌, ◌-◌, ◌≤◌, some, List, [], ◌∷◌, ◌++◌, length, take, leb,
  ◌≡◌, refl, ap, sym, ◌∙◌, inl, inr, arith,
}
use expert_sniper.Generate.Model.{Target}
use expert_sniper.Speculative.Cached.{trim_draft, call, ModelDraft, trim_cache}
use expert_sniper.Speculative.Cached.Stateless.{stateless, InStep, call-Drafts, trim_cache-InStep}

module _ (model : Target) where
  open model use {next, held}

  length-stateless : (k : ℕ) (ctx : List ℕ) → length (stateless next k ctx) ≡ k
  unfolding stateless
  length-stateless zero ctx = refl
  length-stateless (suc k) ctx = omega (arith, length-stateless k (ctx ++ next ctx ∷ []))

  -- The cache behind a context and the drafts but the last, when all but `m` of these are dropped.
  take_drafts :
      (ctx out : List ℕ) (k m : ℕ)
      → length out ≡ suc k
      → m ≤ k
      → take (length (ctx ++ take k out) - (k - m)) (ctx ++ take k out) ≡ ctx ++ take m out
  take_drafts ctx out k m size le =
      let e : length (ctx ++ take k out) - (k - m) ≡ length ctx + m =
        omega (arith, length-append ctx (take k out), length-take k out) in
      rw e (take-length-append ctx (take k out) m ∙ ap (◌++◌ ctx) (take-take m k out le))

  drop_drafts :
      (ctx out : List ℕ) (k n : ℕ) (s : ModelDraft model)
      → InStep model s
      → s.cached ≡ ctx ++ take k out
      → s.pending ≡ k
      → length out ≡ suc k
      → 0 < n
      → n ≤ suc k
      → InStep model (trim_draft model n s)
        × ((trim_draft model n s).cached ≡ ctx ++ take (suc k - n) out)
  unfolding trim_draft
  drop_drafts ctx out k n s i c pend size pos le =
      elim (Bool-cases (leb n 0 || nat_beq s.pending 0)) [
        | inl idle ↦
            let none_left : k ≡ suc k - n = ground arith in
            rw (trim_draft, idle) (i, c ∙ ap (λ (m : ℕ). ctx ++ take m out) none_left)
        | inr busy ↦
            let cut : min s.pending (n - 1) ≡ k - (suc k - n) = omega arith in
            let fits : min s.pending (n - 1) ≤ length s.cached =
              rw c (omega (arith, length-append ctx (take k out), length-take k out)) in
            let (i', c') = trim_cache-InStep model (min s.pending (n - 1)) s fits i in
            let c'' : (trim_cache model (min s.pending (n - 1)) s).cached
                ≡ ctx ++ take (suc k - n) out =
              c'
              ∙ ap (λ l. take (length l - min s.pending (n - 1)) l) c
              ∙ ap (λ (m : ℕ). take (length (ctx ++ take k out) - m) (ctx ++ take k out)) cut
              ∙ take_drafts ctx out k (suc k - n) size (omega arith) in
            rw (trim_draft, busy) (i', c'')
      ]

  -- The end of a round: once `n` of the `k + 1` drafts are rejected, `trim` leaves a cache in step
  -- that holds the context and exactly the drafts that were accepted.
  pub trim-call :
      (x : ℕ) (xs : List ℕ) (k n : ℕ) (s end : ModelDraft model) (out : List ℕ)
      → InStep model s
      → call model (x ∷ xs) (suc k) s ≡ some (out, end)
      → 0 < n
      → n ≤ suc k
      → InStep model (trim_draft model n end)
        × ((trim_draft model n end).cached ≡ (x ∷ xs) ++ take (suc k - n) out)
  trim-call x xs k n s end out i made pos le =
      let d = call-Drafts model x xs k s i in
      let (same_out, same_end) = some-pair (sym d.done ∙ made) in
      let i' : InStep model end = subst (InStep model) same_end d.in_step in
      let c : end.cached ≡ (x ∷ xs) ++ take k out =
        ap (λ (m : ModelDraft model). m.cached) (sym same_end)
        ∙ d.cached
        ∙ ap (λ l. (x ∷ xs) ++ take k l) same_out in
      let pend : end.pending ≡ k =
        ap (λ (m : ModelDraft model). m.pending) (sym same_end) ∙ d.pending in
      let size : length out ≡ suc k =
        ap length (sym same_out) ∙ length-stateless (suc k) (x ∷ xs) in
      drop_drafts (x ∷ xs) out k n end i' c pend size pos le
