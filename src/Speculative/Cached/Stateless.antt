-- ===== src/Speculative/Cached/Stateless.antt =====
-- The cached draft is the stateless one, and its cache follows the context.
use mathlib.Core.List.{append_assoc, append-nil}
use expert_sniper.Prelude.{
  Bool-cases, nat_beq, take-append-drop, length-append, take-length-append, ℕ, zero, suc, ◌+◌, ◌-◌,
  ◌≤◌, Option, none, some, List, [], ◌∷◌, ◌++◌, length, take, drop, nat_beq_iff, leb, ◌≡◌, refl, ap,
  sym, ◌∙◌, inl, inr, arith, take_of_length-le,
}
use expert_sniper.Generate.{split_last}
use expert_sniper.Generate.Model.{Target}
use expert_sniper.Generate.Greedy.{split_last-append, split_last-predictions}
use expert_sniper.Speculative.Cached.{
  call, with_pending, del_last, common, ModelDraft, trim_cache, sync, draft_loop,
}

-- The reference: each token from the whole text, with no cache.
unfoldable pub stateless : (List ℕ → ℕ) → ℕ → List ℕ → List ℕ
stateless next zero ctx = []
stateless next (suc k) ctx = next ctx ∷ stateless next k (ctx ++ next ctx ∷ [])

del_last-take : (n : ℕ) (xs : List ℕ) → n ≤ length xs → del_last n xs ≡ take (length xs - n) xs
unfolding del_last
del_last-take n xs h = ground arith

common-le : (xs ys : List ℕ) → common xs ys ≤ length xs
unfolding common
common-le [] ys = omega arith
common-le (x ∷ xs) [] = omega arith
common-le (x ∷ xs) (y ∷ ys) = ground (arith, common-le xs ys)

take-common : (xs ys : List ℕ) → take (common xs ys) xs ≡ take (common xs ys) ys
unfolding common
take-common [] ys = refl
take-common (x ∷ xs) [] = refl
take-common (x ∷ xs) (y ∷ ys) = elim (Bool-cases (nat_beq x y)) [
  | inl same ↦ rw same (cc ((nat_beq_iff x y).0 same, take-common xs ys))
  | inr other ↦ rw other refl
]

take_but_last :
    (init : List ℕ) (last : ℕ) → take (length (init ++ last ∷ []) - 1) (init ++ last ∷ []) ≡ init
take_but_last init last =
    let e : length (init ++ last ∷ []) - 1 ≡ length init + 0 =
      omega (arith, length-append init (last ∷ [])) in
    rw e (take-length-append init (last ∷ []) 0 ∙ append-nil init)

module _ (model : Target) where
  open model use {
    next, held, forward, trim, held-forward, forward-predictions, held-trim, fresh, held-fresh,
  }

  -- The KV cache holds the tokens that `_cached` lists.
  abbrev pub InStep : ModelDraft model → Type 0
  InStep s = held s.kv ≡ s.cached

  pub trim_cache-InStep :
      (n : ℕ) (s : ModelDraft model)
      → n ≤ length s.cached
      → InStep s
      → InStep (trim_cache model n s)
        × ((trim_cache model n s).cached ≡ take (length s.cached - n) s.cached)
  unfolding trim_cache
  trim_cache-InStep n s le i = elim (Bool-cases (leb n 0)) [
    | inl none_to_drop ↦
        let all : take (length s.cached - n) s.cached ≡ s.cached =
          take_of_length-le _ _ (ground arith) in
        rw (trim_cache, none_to_drop, all) (i, refl)
    | inr some_to_drop ↦
        rw (trim_cache, some_to_drop, del_last-take n s.cached le)
          (held-trim n s.kv ∙ ap (λ l. take (length l - n) l) i, refl)
  ]

  sync-InStep :
      (context : List ℕ) (s : ModelDraft model)
      → InStep s
      → InStep (sync model context s)
        × ((sync model context s).cached ≡ take (common s.cached context) context)
  unfolding sync
  sync-InStep context s i =
      let le = common-le s.cached context in
      let (i', kept) =
        trim_cache-InStep (length s.cached - common s.cached context) s (omega arith) i in
      let e : length s.cached - (length s.cached - common s.cached context)
          ≡ common s.cached context =
        omega arith in
      (i', kept ∙ rw e (take-common s.cached context))

  -- The state after one forward pass.
  abbrev fed : List ℕ → ModelDraft model → ModelDraft model
  fed feed s = record s { kv = (forward feed s.kv).0; cached = s.cached ++ feed }

  fed-InStep : (feed : List ℕ) (s : ModelDraft model) → InStep s → InStep (fed feed s)
  fed-InStep feed s i = held-forward feed s.kv ∙ ap (λ h. h ++ feed) i

  fed_last :
      (t : ℕ) (feed : List ℕ) (s : ModelDraft model)
      → InStep s
      → (b : List ℕ) × (split_last (forward (t ∷ feed) s.kv).1
          ≡ some (b, next (s.cached ++ t ∷ feed)))
  fed_last t feed s i =
      let (b, p) = split_last-predictions next (held s.kv) t feed in
      (b, rw forward-predictions (p ∙ ap (λ h. some (b, next (h ++ t ∷ feed))) i))

  draft_loop-stateless :
      (k t : ℕ) (feed : List ℕ) (s : ModelDraft model)
      → InStep s
      → (s' : ModelDraft model) × (draft_loop model (suc k) (t ∷ feed) s
          ≡ some (stateless next (suc k) (s.cached ++ t ∷ feed), s'))
        × InStep s'
        × (s'.cached
            ≡ (s.cached ++ t ∷ feed) ++ take k (stateless next (suc k) (s.cached ++ t ∷ feed)))
  unfolding draft_loop stateless
  draft_loop-stateless zero t feed s i =
      let (b, last) = fed_last t feed s i in
      (fed (t ∷ feed) s, rw (draft_loop, last), fed-InStep (t ∷ feed) s i, sym (append-nil _))
  draft_loop-stateless (suc k) t feed s i =
      let (b, last) = fed_last t feed s i in
      let ctx = s.cached ++ t ∷ feed in
      let (s', done, i', c) =
        draft_loop-stateless k (next ctx) [] (fed (t ∷ feed) s) (fed-InStep (t ∷ feed) s i) in
      (s', rw (draft_loop, last, done), i', c ∙ append_assoc ctx (next ctx ∷ []) _)

  -- What a call leaves: the draft, and a cache of the context with all drafted tokens but the last.
  pub record Drafts (context : List ℕ) (k : ℕ) (r : Option (List ℕ × ModelDraft model))
      : Type 0 where
    pub end : ModelDraft model
    pub done : r ≡ some (stateless next (suc k) context, end)
    pub in_step : InStep end
    pub cached : end.cached ≡ context ++ take k (stateless next (suc k) context)
    pub pending : end.pending ≡ k

  loop-Drafts :
      (context : List ℕ) (k t : ℕ) (feed : List ℕ) (s : ModelDraft model)
      → InStep s
      → s.cached ++ t ∷ feed ≡ context
      → Drafts context k (with_pending model (suc k) (draft_loop model (suc k) (t ∷ feed) s))
  loop-Drafts context k t feed s i e =
      let (s', done, i', c) = draft_loop-stateless k t feed s i in
      record {
        end = record s' { pending = suc k - 1 };
        done = rw (done, e);
        in_step = i';
        cached = rw e at c;
        pending = omega arith;
      }

  -- Where the cache holds the whole context, its last token is dropped and fed again.
  refeed-Drafts :
      (x : ℕ) (xs : List ℕ) (k : ℕ) (s : ModelDraft model)
      → InStep s
      → s.cached ≡ x ∷ xs
      → Drafts (x ∷ xs) k (elim (split_last (x ∷ xs)) [
        | none ↦ none
        | some (_, last) ↦
            with_pending model (suc k) (draft_loop model (suc k) (last ∷ []) (trim_cache model 1 s))
      ])
  refeed-Drafts x xs k s i e =
      let (init, last, p, q) = split_last-append x xs in
      let size : length (x ∷ xs) ≡ length init + 1 = ap length q ∙ length-append init (last ∷ []) in
      let (i', c) = trim_cache-InStep 1 s (rw e (omega arith)) i in
      let c' : (trim_cache model 1 s).cached ≡ init =
        c ∙ ap (λ l. take (length l - 1) l) (e ∙ q) ∙ take_but_last init last in
      rw p (loop-Drafts (x ∷ xs) k last [] (trim_cache model 1 s) i' (rw c' (sym q)))

  -- A call on a context that is not empty, with the cache in step.
  pub call-Drafts :
      (x : ℕ) (xs : List ℕ) (k : ℕ) (s : ModelDraft model)
      → InStep s
      → Drafts (x ∷ xs) k (call model (x ∷ xs) (suc k) s)
  unfolding call
  call-Drafts x xs k s i = by_new (drop (common s.cached ctx) ctx) refl
    where
      ctx : List ℕ
      ctx = x ∷ xs

      i1 : InStep (sync model ctx s)
      i1 = (sync-InStep ctx s i).0

      c1 : (sync model ctx s).cached ≡ take (common s.cached ctx) ctx
      c1 = (sync-InStep ctx s i).1

      by_new :
          (new : List ℕ)
          → drop (common s.cached ctx) ctx ≡ new
          → Drafts ctx k (call model ctx (suc k) s)
      by_new (t ∷ new) e =
          let whole : (sync model ctx s).cached ++ t ∷ new ≡ ctx =
            rw (c1, ← e) (take-append-drop (common s.cached ctx) ctx) in
          rw (call, e) (loop-Drafts ctx k t new (sync model ctx s) i1 whole)
      by_new [] e =
          let whole : (sync model ctx s).cached ≡ ctx =
            c1
            ∙ sym (append-nil _)
            ∙ ap (λ l. take (common s.cached ctx) ctx ++ l) (sym e)
            ∙ take-append-drop (common s.cached ctx) ctx in
          rw (call, e) (refeed-Drafts x xs k (sync model ctx s) i1 whole)

  -- From any state whose cache is in step, a call on a context that is not empty does not fail, and
  -- it drafts just the tokens that the model drafts without a cache. Its cache stays in step.
  pub call-stateless :
      (x : ℕ) (xs : List ℕ) (k : ℕ) (s : ModelDraft model)
      → InStep s
      → (end : ModelDraft model) × (call model (x ∷ xs) (suc k) s
          ≡ some (stateless next (suc k) (x ∷ xs), end))
        × InStep end
  call-stateless x xs k s i = let d = call-Drafts x xs k s i in (d.end, d.done, d.in_step)
