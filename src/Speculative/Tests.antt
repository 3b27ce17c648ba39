-- ===== src/Speculative/Tests.antt =====
-- Runs of speculative generation on small models, and instances of its theorems.
use expert_sniper.Prelude.{
  ◌++◌, ◌≤◌, ℕ, ◌+◌, ◌%◌, ◌≡◌, refl, String, some, List, [], ◌∷◌, length, arith, if◌then◌else◌,
  nat_beq,
}
use expert_sniper.Generate.{
  Tokenizer, any_in, elem, stops, split_last, generate_loop, generate_stream,
}
use expert_sniper.Generate.Model.{Target, list_target}
use expert_sniper.Generate.Greedy.{greedy}
use expert_sniper.Speculative.{
  matching, emit, Loop, roll_back, finish, round, rounds, start, spec_generate_stream,
}
use expert_sniper.Speculative.Lookup.{list_eq, search_from, prompt_lookup_draft}
use expert_sniper.Speculative.Lookup.Best.{Found, prompt_lookup-Found}
use expert_sniper.Speculative.Cached.{
  ModelDraft, del_last, common, reset, trim_cache, trim_draft, sync, draft_loop, call,
}
use expert_sniper.Speculative.Cached.Stateless.{call-stateless, InStep, stateless}
use expert_sniper.Speculative.Cached.Rollback.{trim-call}
use expert_sniper.Speculative.Exact.{spec_generate_stats, prefill_of, spec_generate-eq-generate}
use expert_sniper.Speculative.Drafts.{model_draft}

program : Unit {0}
unfolding any_in elem stops split_last generate_loop generate_stream greedy matching emit roll_back
    finish round rounds start spec_generate_stream list_eq search_from prompt_lookup_draft del_last
    common reset trim_cache trim_draft sync draft_loop call stateless
program = tt

-- A model that counts up to 3 and starts over, and one that differs from it at times.
abbrev counting : Target
counting = list_target (λ ctx. (length ctx + 1) % 4)

abbrev other : Target
other = list_target (λ ctx. if nat_beq (length ctx % 3) 0 then 9 else (length ctx + 1) % 4)

abbrev tok : Tokenizer
tok = record { eos_ids = 8 ∷ []; decode = λ t. if nat_beq t 3 then "c" else "x" }

abbrev prompt : List ℕ
prompt = 1 ∷ 2 ∷ 3 ∷ 0 ∷ []

plain : generate_stream counting tok prompt 6 ≡ some ("x" ∷ "x" ∷ "c" ∷ "x" ∷ "x" ∷ "x" ∷ [])
unfolding program
plain = refl

-- The lookup draft finds the tokens after the earlier occurrence of `3, 0`.
looked_up : prompt_lookup_draft (1 ∷ 2 ∷ 3 ∷ 0 ∷ 7 ∷ 3 ∷ 0 ∷ []) 2 3 ≡ 7 ∷ 3 ∷ []
unfolding program
looked_up = refl

prompt_lookup-Found_example :
    Found
      (1 ∷ 2 ∷ 3 ∷ 0 ∷ 7 ∷ 3 ∷ 0 ∷ [])
      3
      2
      (prompt_lookup_draft (1 ∷ 2 ∷ 3 ∷ 0 ∷ 7 ∷ 3 ∷ 0 ∷ []) 2 3)
prompt_lookup-Found_example = prompt_lookup-Found (1 ∷ 2 ∷ 3 ∷ 0 ∷ 7 ∷ 3 ∷ 0 ∷ []) 2 3 (omega arith)

spec_generate-eq-generate_example :
    (chunks : List String) × (end : Loop counting (model_draft other)) × (generate_stream counting
        tok prompt 6
      ≡ some chunks)
    × (spec_generate_stream counting tok (model_draft other) 3 6 prompt (reset other)
        ≡ some (chunks, end))
spec_generate-eq-generate_example =
    spec_generate-eq-generate counting tok (model_draft other) 3 6 1 (2 ∷ 3 ∷ 0 ∷ []) (reset other)

-- The end of a run in which four of six drafts are accepted.
abbrev texts : List String
texts = "x" ∷ "x" ∷ "c" ∷ "x" ∷ "x" ∷ "x" ∷ []

abbrev fed : List ℕ
fed = 1 ∷ 2 ∷ 3 ∷ 0 ∷ 1 ∷ 2 ∷ 3 ∷ 0 ∷ 1 ∷ []

abbrev end : Loop counting (model_draft other)
end = record {
  kv = fed;
  drafter = record { kv = fed; cached = fed; pending = 0 };
  context = fed ++ 2 ∷ [];
  cur = 3;
  emitted = 6;
  stats = record { drafted = 6; accepted = 4; forwards = 3 };
}

spec_run :
    spec_generate_stream counting tok (model_draft other) 3 6 prompt (reset other)
    ≡ some (texts, end)
unfolding program
spec_run = refl

spec_generate_stats_example :
    (4 ≤ 6)
    × (length texts + prefill_of prompt ≤ 4 + 3)
    × (3 ≤ length texts + prefill_of prompt + 1)
spec_generate_stats_example =
    spec_generate_stats counting tok (model_draft other) 3 6 1 (2 ∷ 3 ∷ 0 ∷ []) (reset other) texts
      end spec_run

-- A draft model whose cache holds more than the context: it is rolled back before it drafts.
abbrev ahead : ModelDraft other
ahead = record { kv = 1 ∷ 2 ∷ 7 ∷ []; cached = 1 ∷ 2 ∷ 7 ∷ []; pending = 1 }

call-stateless_example :
    (s : ModelDraft other) × (call other (1 ∷ 2 ∷ 3 ∷ []) 3 ahead
      ≡ some (stateless other.next 3 (1 ∷ 2 ∷ 3 ∷ []), s))
    × InStep other s
call-stateless_example = call-stateless other 1 (2 ∷ 3 ∷ []) 2 ahead refl

abbrev drafted : ModelDraft other
drafted = record { kv = 1 ∷ 2 ∷ 3 ∷ 9 ∷ 1 ∷ []; cached = 1 ∷ 2 ∷ 3 ∷ 9 ∷ 1 ∷ []; pending = 2 }

call_run : call other (1 ∷ 2 ∷ 3 ∷ []) 3 ahead ≡ some (9 ∷ 1 ∷ 2 ∷ [], drafted)
unfolding program
call_run = refl

trim-call_example :
    InStep other (trim_draft other 2 drafted)
    × ((trim_draft other 2 drafted).cached ≡ 1 ∷ 2 ∷ 3 ∷ 9 ∷ [])
trim-call_example =
    trim-call other 1 (2 ∷ 3 ∷ []) 2 2 ahead drafted (9 ∷ 1 ∷ 2 ∷ []) refl call_run (omega arith)
      (omega arith)
