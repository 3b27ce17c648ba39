-- ===== src/Speculative/Drafts.antt =====
-- The drafts of src/mlx_expert_sniper/speculative.py as values of `Draft`: prompt lookup, which is
-- the default, and the draft model with its cache.
use expert_sniper.Prelude.{Option, ℕ, none, some, List, []}
use expert_sniper.Generate.Model.{Target}
use expert_sniper.Speculative.{Draft}
use expert_sniper.Speculative.Lookup.{prompt_lookup_draft}
use expert_sniper.Speculative.Cached.{ModelDraft, reset, trim_draft, call}

-- `draft(context, k)` with the default `max_ngram=3`; a function has no `trim` and no `reset`.
abbrev pub lookup_draft : Draft
lookup_draft = record {
  State = Unit {0};
  propose = λ context k s. (s, prompt_lookup_draft context k 3);
  trim = λ n s. s;
  reset = λ s. s;
}

-- A call that fails would end the generation; on a context that is not empty none does.
abbrev proposed :
    (model : Target)
    → ModelDraft model
    → Option (List ℕ × ModelDraft model)
    → ModelDraft model × List ℕ
proposed model s none = (s, [])
proposed model s (some (out, s')) = (s', out)

abbrev pub model_draft : Target → Draft
model_draft model = record {
  State = ModelDraft model;
  propose = λ context k s. proposed model s (call model context k s);
  trim = trim_draft model;
  reset = λ s. reset model;
}
