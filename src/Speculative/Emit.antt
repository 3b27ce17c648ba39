-- ===== src/Speculative/Emit.antt =====
-- The loop over `out_tokens` yields a part of the greedy continuation.
use mathlib.Core.List.{append-nil}
use mathlib.Core.List.{append-nil, append_assoc}
use expert_sniper.Prelude.{
  ◌∙◌, ap, String, ℕ, zero, suc, ◌+◌, ◌-◌, ◌≤◌, ◌<◌, true, false, List, [], ◌∷◌, ◌++◌, length, ◌≡◌,
  refl, ap, sym, ◌∙◌, inl, inr, Bool-cases, arith, if◌then◌else◌, leb,
}
use expert_sniper.Generate.{Tokenizer, stops, elem, any_in, stop_tokens}
use expert_sniper.Generate.Greedy.{greedy}
use expert_sniper.Speculative.{after_chunk, Emitted, emit}
use expert_sniper.Speculative.Accept.{IsGreedy}

module _ (next : List ℕ → ℕ) (tok : Tokenizer) (max_tokens : ℕ) where
  -- What is left of the greedy continuation after the loop.
  abbrev pub rest : Emitted → List String
  rest r = if r.stop then [] else greedy next tok (max_tokens - r.emitted) r.context

  pub record Emits (ts ctx : List ℕ) (emitted n : ℕ) (r : Emitted) : Type 0 where
    pub output : greedy next tok n ctx ≡ r.chunks ++ rest r
    pub counted : r.emitted ≡ emitted + length r.chunks
    pub short : length r.chunks ≤ length ts
    pub context : r.stop ≡ false → r.context ≡ ctx ++ ts
    pub all : r.stop ≡ false → length r.chunks ≡ length ts
    pub below : r.stop ≡ false → r.emitted < max_tokens

  Emits-stop :
      (t : ℕ) (ts ctx : List ℕ) (emitted n : ℕ)
      → t ≡ next ctx
      → stops tok t ≡ true
      → Emits
          (t ∷ ts)
          ctx
          emitted
          n
          (record { chunks = []; emitted = emitted; context = ctx; stop = true })
  unfolding greedy
  Emits-stop t ts ctx emitted zero g h = record {
    output = refl;
    counted = omega arith;
    short = omega arith;
    context = λ go. cc;
    all = λ go. cc;
    below = λ go. cc;
  }
  Emits-stop t ts ctx emitted (suc n) g h = record {
    output = rw (← g, h);
    counted = omega arith;
    short = omega arith;
    context = λ go. cc;
    all = λ go. cc;
    below = λ go. cc;
  }

  Emits-last :
      (ts ctx : List ℕ) (emitted : ℕ)
      → Emits ts ctx emitted 0
          (record { chunks = []; emitted = emitted; context = ctx; stop = true })
  unfolding greedy
  Emits-last ts ctx emitted = record {
    output = refl;
    counted = omega arith;
    short = omega arith;
    context = λ go. cc;
    all = λ go. cc;
    below = λ go. cc;
  }

  Emits-chunk :
      (t : ℕ) (ts ctx : List ℕ) (emitted n : ℕ) (r : Emitted)
      → t ≡ next ctx
      → stops tok t ≡ false
      → Emits ts (ctx ++ t ∷ []) (emitted + 1) n r
      → Emits (t ∷ ts) ctx emitted (suc n) (after_chunk (tok.decode t) r)
  unfolding greedy
  Emits-chunk t ts ctx emitted n r g h e = record {
    output = rw (← g, h) (ap (◌∷◌ (tok.decode t)) e.output);
    counted = omega (arith, e.counted);
    short = omega (arith, e.short);
    context = λ go. e.context go ∙ append_assoc ctx (t ∷ []) ts;
    all = λ go. omega (arith, e.all go);
    below = λ go. e.below go;
  }

  pub emit-Emits :
      (ts ctx : List ℕ) (emitted n : ℕ)
      → max_tokens ≡ emitted + n
      → 0 < n
      → IsGreedy next ctx ts
      → Emits ts ctx emitted n (emit tok max_tokens ts emitted ctx)
  unfolding emit
  emit-Emits [] ctx emitted n e pos g = record {
    output = let q : max_tokens - emitted ≡ n = omega arith in rw q;
    counted = omega arith;
    short = omega arith;
    context = λ go. sym (append-nil ctx);
    all = λ go. refl;
    below = λ go. omega arith;
  }
  emit-Emits (t ∷ ts) ctx emitted zero e pos g = absurd (omega arith)
  emit-Emits (t ∷ ts) ctx emitted (suc n) e pos g = elim (Bool-cases (elem t tok.eos_ids)) [
    | inl eos ↦
        rw (emit, eos) (Emits-stop t ts ctx emitted (suc n) g.0 (unfold stops in rw (stops, eos)))
    | inr not_eos ↦ elim (Bool-cases (any_in stop_tokens (tok.decode t))) [
      | inl ends ↦
          rw (emit, not_eos, ends)
            (Emits-stop t ts ctx emitted (suc n) g.0 (unfold stops in rw (stops, not_eos, ends)))
      | inr plain ↦
          rw (emit, not_eos, plain)
            (Emits-chunk t ts ctx emitted n _ g.0 (unfold stops in rw (stops, not_eos, plain))
              (elim (Bool-cases (leb max_tokens (emitted + 1))) [
                | inl full ↦
                    (let z : n ≡ 0 = ground arith in
                      rw (full, z) (Emits-last ts (ctx ++ t ∷ []) (emitted + 1)))
                | inr room ↦
                    rw room (
                      emit-Emits ts (ctx ++ t ∷ []) (emitted + 1) n (omega arith) (ground arith)
                        g.1)
              ]))
    ]
  ]
