-- ===== src/Generate/Tests.antt =====
-- A run of the plain generator that ends at a stop token, and an instance of its theorem.
use expert_sniper.Prelude.{◌≡◌, refl, some, none, [], ◌∷◌, length, nat_beq, if◌then◌else◌}
use expert_sniper.Generate.{
  Tokenizer, any_in, elem, stops, split_last, generate_loop, generate_stream,
}
use expert_sniper.Generate.Model.{Target, list_target}
use expert_sniper.Generate.Greedy.{greedy, generate_stream-greedy}

program : Unit {0}
unfolding any_in elem stops split_last generate_loop generate_stream greedy
program = tt

abbrev counting : Target
counting = list_target length

abbrev tok : Tokenizer
tok = record { eos_ids = 9 ∷ []; decode = λ t. if nat_beq t 5 then "a<|im_end|>" else "b" }

-- The token 5 decodes to a text with a stop token inside.
ends_inside : generate_stream counting tok (7 ∷ 7 ∷ 7 ∷ []) 10 ≡ some ("b" ∷ "b" ∷ [])
unfolding program
ends_inside = refl

no_prompt : generate_stream counting tok [] 10 ≡ none
unfolding program
no_prompt = refl

generate_stream-greedy_example :
    generate_stream counting tok (7 ∷ 7 ∷ []) 10 ≡ some (greedy length tok 10 (7 ∷ 7 ∷ []))
generate_stream-greedy_example = generate_stream-greedy counting tok 7 (7 ∷ []) 10
