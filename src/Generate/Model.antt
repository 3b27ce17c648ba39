-- ===== src/Generate/Model.antt =====
-- The interface of a causal language model with a KV cache: what the generation loops use of the
-- engine, its forward pass and `KVCache.trim`, read at temperature 0.
use expert_sniper.Prelude.{ℕ, ◌-◌, ◌≡◌, refl, List, [], ◌∷◌, ◌++◌, length, take}

-- The argmax at each position of `input` after `ctx`, for a model that says `next` after a text.
abbrev pub predictions : (List ℕ → ℕ) → List ℕ → List ℕ → List ℕ
predictions next ctx [] = []
predictions next ctx (t ∷ input) = next (ctx ++ t ∷ []) ∷ predictions next (ctx ++ t ∷ []) input

pub record Target : Type 1 where
  pub Kv : Type 0
  -- the cache after `reset_cache`
  pub fresh : Kv
  -- the cache after a forward pass over some tokens, and the argmax at each of their positions
  pub forward : List ℕ → Kv → Kv × List ℕ
  -- `c.trim(n)` on every layer's cache
  pub trim : ℕ → Kv → Kv
  -- the token that the model puts first after a text, and the tokens that a cache holds
  pub next : List ℕ → ℕ
  pub held : Kv → List ℕ
  -- a cache holds what was fed to it, and a forward pass depends on nothing else
  pub held-fresh : held fresh ≡ []
  pub held-forward : (input : List ℕ) (kv : Kv) → held (forward input kv).0 ≡ held kv ++ input
  pub forward-predictions :
      (input : List ℕ) (kv : Kv) → (forward input kv).1 ≡ predictions next (held kv) input
  pub held-trim : (n : ℕ) (kv : Kv) → held (trim n kv) ≡ take (length (held kv) - n) (held kv)

-- A model whose cache is the list of its tokens.
abbrev pub list_target : (List ℕ → ℕ) → Target
list_target next = record {
  Kv = List ℕ;
  fresh = [];
  forward = λ input kv. (kv ++ input, predictions next kv input);
  trim = λ n kv. take (length kv - n) kv;
  next = next;
  held = λ kv. kv;
  held-fresh = refl;
  held-forward = λ input kv. refl;
  forward-predictions = λ input kv. refl;
  held-trim = λ n kv. refl;
}
