-- ===== src/SpecRouter/Verified.antt =====
-- The generation ends, and says nothing that the verify server did not say.
use expert_sniper.Prelude.{
  ℕ, suc, ◌+◌, ◌<◌, ◌≤◌, true, false, Option, none, some, List, [], ◌∷◌, ◌++◌, take, ◌≡◌,
}
use expert_sniper.SpecRouter.{
  Text, split, join, is_empty, any_within, eos_patterns, accepted_words, accepted_text, State,
  Ending, finished, raised, Generation,
}

module _ (draft verify : ℕ → Text → Option Text) (max_tokens : ℕ) where
  -- From a round, a text and a number of tokens on: the chunks, and how the generation ends. A round with
  -- `k` common words says one word more of what the verify server answers to the text so far.
  pub data Says : ℕ → Text → ℕ → List Text → Ending → Type 0 where
    full : {i t : ℕ} {text : Text} → max_tokens ≤ t → Says i text t [] finished
    no_draft : {i t : ℕ} {text : Text} → draft i text ≡ none → Says i text t [] raised
    empty_draft :
        {i t : ℕ} {text : Text} (drafted : Text)
        → draft i text ≡ some drafted
        → is_empty drafted ≡ true
        → Says i text t [] finished
    no_answer : {i t : ℕ} {text : Text} → verify i text ≡ none → Says i text t [] raised
    empty_answer :
        {i t : ℕ} {text : Text} (answer : Text) (k : ℕ)
        → verify i text ≡ some answer
        → is_empty (join (take (suc k) (split answer))) ≡ true
        → Says i text t [] finished
    last :
        {i t : ℕ} {text : Text} (answer : Text) (k : ℕ)
        → verify i text ≡ some answer
        → any_within eos_patterns (join (take (suc k) (split answer))) ≡ true
        → Says i text t ((join (take (suc k) (split answer)) ++ 32 ∷ []) ∷ []) finished
    says :
        {i t : ℕ} {text : Text} {chunks : List Text} {ending : Ending} (drafted answer : Text)
        (k : ℕ)
        → t < max_tokens
        → draft i text ≡ some drafted
        → verify i text ≡ some answer
        → take k (split drafted) ≡ take k (split answer)
        → any_within eos_patterns (join (take (suc k) (split answer))) ≡ false
        → Says
            (i + 1)
            (text ++ (join (take (suc k) (split answer)) ++ 32 ∷ []))
            (t + (k + 1))
            chunks
            ending
        → Says i text t ((join (take (suc k) (split answer)) ++ 32 ∷ []) ∷ chunks) ending

-- `s` and `end` are the variables before and after some rounds.
pub record Counts (s end : State) : Type 0 where
  pub tokens :
      end.tokens_generated + (s.engine.total_accepted + s.engine.total_steps)
      ≡ s.tokens_generated + (end.engine.total_accepted + end.engine.total_steps)
  pub drafted :
      end.engine.total_accepted + s.engine.total_drafted
      ≤ s.engine.total_accepted + end.engine.total_drafted

module _ (draft verify : ℕ → Text → Option Text) (max_tokens : ℕ) where
  abbrev text_of : Text → Text → Text
  text_of drafted answer =
      accepted_text (accepted_words (split drafted) (split answer)) (split drafted) (split answer)

  record IsVerified (i : ℕ) (s : State) (g : Generation) : Type 0 where
    said : Says draft verify max_tokens i s.generated s.tokens_generated g.chunks g.ending
    counts : Counts s g.state
