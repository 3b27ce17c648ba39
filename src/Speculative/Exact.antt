-- ===== src/Speculative/Exact.antt =====
-- Speculative generation yields exactly what greedy generation yields, whatever the draft proposes.
use mathlib.Core.List.{append-nil}
use expert_sniper.Prelude.{
  some-pair, ap, sym, ◌∙◌, length-append, ℕ, zero, suc, ◌+◌, ◌-◌, ◌≤◌, ◌<◌, false, some, List, [],
  ◌∷◌, ◌++◌, String, length, ◌≡◌, refl, inl, inr, Bool-cases, arith, if◌then◌else◌, ltb, ltb→lt,
}
use expert_sniper.Generate.{Tokenizer, generate_stream}
use expert_sniper.Generate.Model.{Target}
use expert_sniper.Generate.Greedy.{split_last-append, generate_stream-greedy, greedy}
use expert_sniper.Speculative.OneRound.{InStep, ahead, Advances, round-Advances}
use expert_sniper.Speculative.{spec_generate_stream, start, Draft, Loop, Round, rounds}

eq-nil : (l : List ℕ) → length l ≡ 0 → l ≡ []
eq-nil [] h = refl
eq-nil (x ∷ l) h = absurd (omega arith)

-- The forward passes before the loop.
abbrev pub prefill_of : List ℕ → ℕ
prefill_of tokens = if ltb 1 (length tokens) then 1 else 0

module _ (model : Target) (tok : Tokenizer) (draft : Draft) (k max_tokens : ℕ) where
  open model use {
    next, held, forward, trim, held-forward, forward-predictions, held-trim, fresh, held-fresh,
  }

  abbrev pub State : Type 0
  State = Loop model draft

  abbrev Synced : State → Type 0
  Synced = InStep model tok draft k max_tokens

  abbrev left : State → List String
  left = ahead model tok draft k max_tokens

  -- The account of the rounds up to some state, of which `prefill` forward passes came before them.
  -- A stopped run may have had one round more than it emitted tokens.
  record Counts (prefill last : ℕ) (s : State) : Type 0 where
    drafted : s.stats.accepted ≤ s.stats.drafted
    gained : s.emitted + prefill ≤ s.stats.accepted + s.stats.forwards
    bounded : s.stats.forwards ≤ s.emitted + prefill + last

  Counts-step :
      (prefill : ℕ) (s : State) (r : Round model draft)
      → Counts prefill 0 s
      → Advances model tok draft k max_tokens s r
      → Counts prefill 1 r.loop × (r.stop ≡ false → Counts prefill 0 r.loop)
  Counts-step prefill s r c a = (
    record {
      drafted = omega (arith, c.drafted, a.drafted);
      gained = omega (arith, c.gained, a.gained, a.one);
      bounded = omega (arith, c.bounded, a.one, a.kept);
    },
    λ goes. record {
      drafted = omega (arith, c.drafted, a.drafted);
      gained = omega (arith, c.gained, a.gained, a.one);
      bounded = omega (arith, c.bounded, a.one, a.grows goes);
    },
  )

  rounds-greedy :
      (fuel prefill : ℕ) (s : State)
      → max_tokens - s.emitted < fuel
      → Synced s
      → Counts prefill 0 s
      → (s' : State) × (rounds model tok draft k max_tokens fuel s ≡ some (left s, s'))
        × Counts prefill 1 s'
        × (s'.emitted ≡ s.emitted + length (left s))
  unfolding rounds greedy
  rounds-greedy zero prefill s f i c = absurd (omega arith)
  rounds-greedy (suc fuel) prefill s f i c = elim (Bool-cases (ltb s.emitted max_tokens)) [
    | inr done ↦
        let none_left : max_tokens - s.emitted ≡ 0 = ground arith in
        (
          s,
          rw (rounds, done, none_left),
          record { drafted = c.drafted; gained = c.gained; bounded = omega (arith, c.bounded) },
          rw none_left (omega arith),
        )
    | inl more ↦
        let (r, made, a) = round-Advances model tok draft k max_tokens s i (ltb→lt _ _ more) in
        elim (Bool-cases r.stop) [
          | inl stopped ↦
              let out : left s ≡ r.chunks = a.output ∙ rw (stopped, append-nil) in
              (
                r.loop,
                rw (rounds, more, made, stopped, out),
                (Counts-step prefill s r c a).0,
                rw out a.counted,
              )
          | inr goes ↦
              let (s', rest, c', n) =
                rounds-greedy fuel prefill r.loop (omega (arith, a.grows goes, a.below goes))
                  (a.in_step goes) ((Counts-step prefill s r c a).1 goes) in
              let out : left s ≡ r.chunks ++ left r.loop = a.output ∙ rw goes in
              (
                s',
                rw (rounds, more, made, goes, rest, out),
                c',
                rw out (omega (arith, n, a.counted, length-append r.chunks (left r.loop))),
              )
        ]
  ]

  -- The variables before the loop, for a prompt that is not empty.
  start-Synced :
      (tokens init : List ℕ) (cur : ℕ) (d : draft.State)
      → tokens ≡ init ++ cur ∷ []
      → Synced (start model tok draft k max_tokens tokens init cur d)
  unfolding start
  start-Synced tokens init cur d split = elim (Bool-cases (ltb 1 (length tokens))) [
    | inl more ↦ rw (start, more, held-forward, held-fresh) split
    | inr single ↦
        let empty : length init ≡ 0 =
          ground (arith, ap length split, length-append init (cur ∷ [])) in
        rw (start, single, held-fresh) (split ∙ ap (λ l. l ++ cur ∷ []) (eq-nil init empty))
  ]

  spec-greedy :
      (t : ℕ) (tokens : List ℕ) (d : draft.State)
      → (s' : State) × (spec_generate_stream model tok draft k max_tokens (t ∷ tokens) d
          ≡ some (greedy next tok max_tokens (t ∷ tokens), s'))
        × Counts (prefill_of (t ∷ tokens)) 1 s'
        × (s'.emitted ≡ length (greedy next tok max_tokens (t ∷ tokens)))
  unfolding spec_generate_stream start
  spec-greedy t tokens d =
      let (init, cur, p, q) = split_last-append t tokens in
      let (s', done, c, n) =
        rounds-greedy (max_tokens + 1) (prefill_of (t ∷ tokens))
          (start model tok draft k max_tokens (t ∷ tokens) init cur d) (omega arith)
          (start-Synced (t ∷ tokens) init cur d q)
          (record { drafted = omega arith; gained = omega arith; bounded = omega arith }) in
      let whole : max_tokens - 0 ≡ max_tokens = omega arith in
      let out : greedy next tok (max_tokens - 0) (t ∷ tokens)
          ≡ greedy next tok max_tokens (t ∷ tokens) =
        ap (λ (m : ℕ). greedy next tok m (t ∷ tokens)) whole in
      (s', rw (spec_generate_stream, p) (rw out at done), c, omega (arith, rw out at n))

  -- For every model, every draft and every draft length, on a prompt that is not empty: neither
  -- generator fails, and the speculative one yields exactly the texts that the plain one yields.
  -- What the draft proposes and how it keeps its state does not matter.
  pub spec_generate-eq-generate :
      (t : ℕ) (tokens : List ℕ) (d : draft.State)
      → (chunks : List String) × (end : State) × (generate_stream model tok (t ∷ tokens) max_tokens
          ≡ some chunks)
        × (spec_generate_stream model tok draft k max_tokens (t ∷ tokens) d ≡ some (chunks, end))
  spec_generate-eq-generate t tokens d =
      let (s', done, c, n) = spec-greedy t tokens d in
      (_, s', generate_stream-greedy model tok t tokens max_tokens, done)

  -- The counters at the end of a speculative generation: no more drafts are accepted than were
  -- proposed, each forward pass after the prefill yields at most one text beside the accepted
  -- drafts, and there is at most one forward pass more than there are texts and prefills.
  pub spec_generate_stats :
      (t : ℕ) (tokens : List ℕ) (d : draft.State) (chunks : List String) (end : State)
      → spec_generate_stream model tok draft k max_tokens (t ∷ tokens) d ≡ some (chunks, end)
      → (end.stats.accepted ≤ end.stats.drafted)
        × (length chunks + prefill_of (t ∷ tokens) ≤ end.stats.accepted + end.stats.forwards)
        × (end.stats.forwards ≤ length chunks + prefill_of (t ∷ tokens) + 1)
  spec_generate_stats t tokens d chunks end run =
      let (s', done, c, n) = spec-greedy t tokens d in
      let (same_chunks, same_end) = some-pair (sym done ∙ run) in
      let n' : s'.emitted ≡ length chunks = n ∙ ap length same_chunks in
      rw (← same_end) (c.drafted, omega (arith, c.gained, n'), omega (arith, c.bounded, n'))
