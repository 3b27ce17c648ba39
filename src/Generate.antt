-- ===== src/Generate.antt =====
-- Greedy generation: `generate_stream` of src/mlx_expert_sniper/generate.py, for the engines that
-- `make_forward` serves, at routing bias 0. A language model with its KV cache is a parameter.
pub mod Model
pub mod Greedy
mod Tests
use text.Mathlib.Text.{find?}
use expert_sniper.Prelude.{
  ℕ, zero, suc, Bool, true, false, ◌||◌, Option, none, some, List, [], ◌∷◌, ◌++◌, String,
  if◌then◌else◌, nat_eq, ◌==◌,
}
use expert_sniper.Generate.Model.{Target}

abbrev pub is_some {ℓ} : {A : Type ℓ} → Option A → Bool
is_some none = false
is_some (some _) = true

-- `STOP_TOKENS`
abbrev pub stop_tokens : List String
stop_tokens = "<|im_end|>" ∷ "<|endoftext|>" ∷ "<|im_start|>" ∷ []

-- `any(st in chunk for st in STOP_TOKENS)`
unfoldable pub any_in : List String → String → Bool
any_in [] chunk = false
any_in (st ∷ sts) chunk = is_some (find? chunk st) || any_in sts chunk

-- `t in eos_ids`
unfoldable pub elem : ℕ → List ℕ → Bool
elem t [] = false
elem t (x ∷ xs) = x == t || elem t xs

-- The engine's tokenizer: its ids that end a text, and the text of one token.
pub record Tokenizer : Type 0 where
  pub eos_ids : List ℕ
  pub decode : ℕ → String

-- The two tests that end a generation before the token is emitted.
unfoldable pub stops : Tokenizer → ℕ → Bool
stops tok t = elem t tok.eos_ids || any_in stop_tokens (tok.decode t)

-- `xs[:-1]` and `xs[-1]`; `none` is the IndexError on an empty list.
unfoldable pub split_last {ℓ} : {A : Type ℓ} → List A → Option (List A × A)
split_last [] = none
split_last (x ∷ []) = some ([], x)
split_last (x ∷ y ∷ xs) = elim (split_last (y ∷ xs)) [
  | none ↦ none
  | some (init, last) ↦ some (x ∷ init, last)
]

module _ (model : Target) (tok : Tokenizer) where
  open model use {Kv, fresh, forward}

  -- The loop over `range(max_tokens)`; `preds` are the last forward's argmax at each position, of
  -- which the last is the next token. The texts of the tokens are what it yields.
  unfoldable pub generate_loop : ℕ → Kv → List ℕ → Option (List String)
  generate_loop zero kv preds = some []
  generate_loop (suc n) kv preds = elim (split_last preds) [
    | none ↦ none
    | some (_, tid) ↦
        let rest = generate_loop n (forward (tid ∷ []) kv).0 (forward (tid ∷ []) kv).1 in
        if stops tok tid
        then some []
        else elim rest [ none ↦ none | some chunks ↦ some (tok.decode tid ∷ chunks) ]
  ]

  -- `tokens` is the encoded prompt. `none` is an error: a prompt of no tokens has no last logits.
  unfoldable pub generate_stream : List ℕ → ℕ → Option (List String)
  generate_stream tokens max_tokens =
      generate_loop max_tokens (forward tokens fresh).0 (forward tokens fresh).1
