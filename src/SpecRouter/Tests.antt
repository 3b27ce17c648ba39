-- ===== src/SpecRouter/Tests.antt =====
-- A generation of two rounds, and an instance of the theorem. The letters are code points: 97 is "a".
use expert_sniper.Prelude.{Bool, arith, nat_beq, ℕ, zero, suc, Option, some, [], ◌∷◌, ◌≡◌, refl}
use expert_sniper.Speculative.Lookup.{list_eq}
use expert_sniper.SpecRouter.{
  Text, split_from, split, Engine, accepted_words, accepted_text, after_round, generate_rounds,
  generate,
}
use expert_sniper.SpecRouter.Pool.{ServerPool, probe_servers, next, Finds, next-Finds}

program : Unit {0}
unfolding list_eq split_from accepted_words accepted_text after_round generate_rounds generate
program = tt

-- "a b  c" and "a b d e"
abbrev drafted : Text
drafted = 97 ∷ 32 ∷ 98 ∷ 32 ∷ 32 ∷ 99 ∷ []

abbrev answer : Text
answer = 97 ∷ 32 ∷ 98 ∷ 32 ∷ 100 ∷ 32 ∷ 101 ∷ []

three_words : split drafted ≡ (97 ∷ []) ∷ (98 ∷ []) ∷ (99 ∷ []) ∷ []
unfolding program
three_words = refl

abbrev draft : ℕ → Text → Option Text
draft i text = some drafted

-- The second answer ends the text: "</s>".
abbrev verify : ℕ → Text → Option Text
verify zero text = some answer
verify (suc i) text = some (60 ∷ 47 ∷ 115 ∷ 62 ∷ [])

abbrev new_engine : Engine
new_engine = record { total_drafted = 0; total_accepted = 0; total_steps = 0 }

-- "a b d " and "</s> "
two_chunks :
    (generate draft verify 8 new_engine).chunks
    ≡ (97 ∷ 32 ∷ 98 ∷ 32 ∷ 100 ∷ 32 ∷ []) ∷ (60 ∷ 47 ∷ 115 ∷ 62 ∷ 32 ∷ []) ∷ []
unfolding program
two_chunks = refl

counted : (generate draft verify 8 new_engine).state.tokens_generated ≡ 4
unfolding program
counted = refl

-- Of the servers 7, 8 and 9 only 8 is healthy, and the next turn would be 9's.
abbrev pool : ServerPool ℕ
pool = record { servers = 7 ∷ 8 ∷ 9 ∷ []; idx = 5 }

abbrev healthy : ℕ → ℕ → Bool
healthy t server = nat_beq server 8

skips_two : next healthy pool ≡ (record pool { idx = 8 }, some 8)
unfolding next probe_servers
skips_two = refl

next-Finds_example : Finds healthy 8 (λ t. refl) 3 pool (next healthy pool)
next-Finds_example = next-Finds healthy 8 (λ t. refl) pool 1 refl (omega arith)
