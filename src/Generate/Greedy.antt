-- ===== src/Generate/Greedy.antt =====
-- `generate_stream` yields the greedy continuation of the prompt.
use mathlib.Core.List.{append_assoc}
use expert_sniper.Prelude.{
  ℕ, zero, suc, some, List, [], ◌∷◌, ◌++◌, String, if◌then◌else◌, ◌≡◌, refl, ap, ◌∙◌, inl, inr,
  Bool-cases,
}
use expert_sniper.Generate.{Tokenizer, stops, split_last, generate_loop, generate_stream}
use expert_sniper.Generate.Model.{Target, predictions}

-- The reference: one token at a time from the whole text, with no cache.
unfoldable pub greedy : (List ℕ → ℕ) → Tokenizer → ℕ → List ℕ → List String
greedy next tok zero ctx = []
greedy next tok (suc n) ctx =
    let t = next ctx in
    let rest = greedy next tok n (ctx ++ t ∷ []) in if stops tok t then [] else tok.decode t ∷ rest

-- The last prediction is the token after the whole text.
pub split_last-predictions :
    (next : List ℕ → ℕ) (ctx : List ℕ) (t : ℕ) (input : List ℕ)
    → (before : List ℕ) × (split_last (predictions next ctx (t ∷ input))
        ≡ some (before, next (ctx ++ t ∷ input)))
unfolding split_last
split_last-predictions next ctx t [] = ([], refl)
split_last-predictions next ctx t (u ∷ input) =
    let (before, p) = split_last-predictions next (ctx ++ t ∷ []) u input in
    (next (ctx ++ t ∷ []) ∷ before, rw (split_last, p, append_assoc ctx (t ∷ []) (u ∷ input)))

module _ (model : Target) (tok : Tokenizer) where
  open model use {Kv, fresh, forward, next, held, held-fresh, held-forward, forward-predictions}

  generate_loop-greedy :
      (n : ℕ) (kv : Kv) (preds before : List ℕ)
      → split_last preds ≡ some (before, next (held kv))
      → generate_loop model tok n kv preds ≡ some (greedy next tok n (held kv))
  unfolding generate_loop greedy
  generate_loop-greedy zero kv preds before p = refl
  generate_loop-greedy (suc n) kv preds before p =
      let t = next (held kv) in
      let after = forward (t ∷ []) kv in
      let q : held after.0 ≡ held kv ++ t ∷ [] = held-forward (t ∷ []) kv in
      let (b, last) = split_last-predictions next (held kv) t [] in
      let ready : split_last after.1 ≡ some (b, next (held after.0)) =
        rw (forward-predictions, q) last in
      let ih = generate_loop-greedy n after.0 after.1 b ready in
      elim (Bool-cases (stops tok t)) [
        | inl yes_stop ↦ rw (generate_loop, p, greedy, yes_stop)
        | inr no_stop ↦ rw (generate_loop, p, greedy, no_stop) (rw (ih, q))
      ]

  -- On a prompt that is not empty `generate_stream` does not fail, and it yields the texts of the
  -- greedy continuation, up to the first stop token or `max_tokens`.
  pub generate_stream-greedy :
      (t : ℕ) (tokens : List ℕ) (max_tokens : ℕ)
      → generate_stream model tok (t ∷ tokens) max_tokens
        ≡ some (greedy next tok max_tokens (t ∷ tokens))
  unfolding generate_stream
  generate_stream-greedy t tokens max_tokens =
      let start = forward (t ∷ tokens) fresh in
      let q : held start.0 ≡ t ∷ tokens =
        held-forward (t ∷ tokens) fresh ∙ ap (λ ctx. ctx ++ t ∷ tokens) held-fresh in
      let (b, last) = split_last-predictions next [] t tokens in
      let ready : split_last start.1 ≡ some (b, next (held start.0)) =
        rw (forward-predictions, q, held-fresh) last in
      rw (generate_loop-greedy max_tokens start.0 start.1 b ready, q)

pub split_last-append {ℓ} :
    {A : Type ℓ} (x : A) (xs : List A)
    → (init : List A) × (last : A) × (split_last (x ∷ xs) ≡ some (init, last))
      × (x ∷ xs ≡ init ++ last ∷ [])
unfolding split_last
split_last-append x [] = ([], x, refl, refl)
split_last-append x (y ∷ xs) =
    let (init, last, p, q) = split_last-append y xs in
    (x ∷ init, last, rw (split_last, p), ap (◌∷◌ x) q)
