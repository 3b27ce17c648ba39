-- ===== src/SpecRouter.antt =====
-- `SpecDecodeEngine.generate` of src/sniper-router/spec_router.py: a draft server and a verify server answer
-- with texts, and the words on which they agree are accepted. The answers of the servers are parameters: a
-- function of the round and of the text so far, since the temperature is not 0. A text is the list of its
-- code points.
pub mod Words
pub mod Verified
pub mod Pool
mod Tests
use expert_sniper.Prelude.{
  ℕ, zero, suc, ◌+◌, Bool, true, false, ◌&&◌, ◌||◌, Option, none, some, List, [], ◌∷◌, ◌++◌, length,
  take, get_elem?, ltb, leb, nat_beq,
}
use expert_sniper.Speculative.Lookup.{list_eq}

abbrev pub Text : Type 0
Text = List ℕ

-- `str.isspace` of one code point.
abbrev pub is_space : ℕ → Bool
is_space c =
    (leb 9 c && leb c 13)
    || (leb 28 c && leb c 32)
    || nat_beq c 133
    || nat_beq c 160
    || nat_beq c 5760
    || (leb 8192 c && leb c 8202)
    || nat_beq c 8232
    || nat_beq c 8233
    || nat_beq c 8239
    || nat_beq c 8287
    || nat_beq c 12288

abbrev pub push : Text → List Text → List Text
push [] words = words
push (c ∷ word) words = (c ∷ word) ∷ words

-- `text.split()`, with the letters of the word that is being read.
unfoldable pub split_from : Text → Text → List Text
split_from word [] = push word []
split_from word (c ∷ text) = elim (is_space c) [
  | true ↦ push word (split_from [] text)
  | false ↦ split_from (word ++ c ∷ []) text
]

abbrev pub split : Text → List Text
split text = split_from [] text

-- `" ".join(words)`
abbrev pub join : List Text → Text
join [] = []
join (w ∷ words) = elim words [ [] ↦ w | v ∷ rest ↦ w ++ 32 ∷ join words ]

abbrev pub starts_with : Text → Text → Bool
starts_with [] text = true
starts_with (c ∷ part) [] = false
starts_with (c ∷ part) (d ∷ text) = nat_beq c d && starts_with part text

-- `not text`
abbrev pub is_empty : Text → Bool
is_empty [] = true
is_empty (c ∷ text) = false

-- `part in text`
abbrev pub is_within : Text → Text → Bool
is_within part [] = starts_with part []
is_within part (c ∷ text) = starts_with part (c ∷ text) || is_within part text

-- `"<|im_end|>"`, `"</s>"` and `"<|endoftext|>"`
abbrev pub eos_patterns : List Text
eos_patterns =
    (60 ∷ 124 ∷ 105 ∷ 109 ∷ 95 ∷ 101 ∷ 110 ∷ 100 ∷ 124 ∷ 62 ∷ [])
    ∷ (60 ∷ 47 ∷ 115 ∷ 62 ∷ [])
    ∷ (60 ∷ 124 ∷ 101 ∷ 110 ∷ 100 ∷ 111 ∷ 102 ∷ 116 ∷ 101 ∷ 120 ∷ 116 ∷ 124 ∷ 62 ∷ [])
    ∷ []

abbrev pub any_within : List Text → Text → Bool
any_within [] text = false
any_within (eos ∷ patterns) text = is_within eos text || any_within patterns text

-- The loop over `zip(draft_words, verify_words)`.
unfoldable pub accepted_words : List Text → List Text → ℕ
accepted_words [] verify_words = 0
accepted_words (d ∷ draft_words) [] = 0
accepted_words (d ∷ draft_words) (v ∷ verify_words) = elim (list_eq d v) [
  | true ↦ suc (accepted_words draft_words verify_words)
  | false ↦ 0
]

unfoldable pub accepted_text : ℕ → List Text → List Text → Text
accepted_text zero draft_words verify_words = elim verify_words [ [] ↦ [] | v ∷ rest ↦ v ]
accepted_text (suc k) draft_words verify_words =
    join (take (suc k) draft_words)
    ++ elim (get_elem? verify_words (suc k)) [ none ↦ [] | some v ↦ 32 ∷ v ]

-- The statistics of the engine, and the variables of the loop.
pub record Engine : Type 0 where
  pub total_drafted : ℕ
  pub total_accepted : ℕ
  pub total_steps : ℕ

pub record State : Type 0 where
  pub generated : Text
  pub tokens_generated : ℕ
  pub engine : Engine

pub data Ending : Type 0 where
  finished : Ending
  raised : Ending
  out_of_fuel : Ending

-- The chunks that are yielded, the variables at the end, and how the loop ended.
pub record Generation : Type 0 where
  pub chunks : List Text
  pub state : State
  pub ending : Ending

-- A round that emits `accepted`.
unfoldable pub after_round : ℕ → List Text → Text → State → State
after_round k draft_words accepted s = record {
  generated = s.generated ++ (accepted ++ 32 ∷ []);
  tokens_generated = s.tokens_generated + (k + 1);
  engine = record {
    total_drafted = s.engine.total_drafted + length draft_words;
    total_accepted = s.engine.total_accepted + k;
    total_steps = s.engine.total_steps + 1;
  };
}

module _ (draft verify : ℕ → Text → Option Text) (max_tokens : ℕ) where
  -- `while tokens_generated < max_tokens`, with fuel.
  unfoldable pub generate_rounds : ℕ → ℕ → State → Generation
  generate_rounds zero i s = record { chunks = []; state = s; ending = out_of_fuel }
  generate_rounds (suc fuel) i s = elim (ltb s.tokens_generated max_tokens) [
    | false ↦ record { chunks = []; state = s; ending = finished }
    | true ↦ elim (draft i s.generated) [
      | none ↦ record { chunks = []; state = s; ending = raised }
      | some draft_text ↦ elim (is_empty draft_text) [
        | true ↦ record { chunks = []; state = s; ending = finished }
        | false ↦ elim (verify i s.generated) [
          | none ↦ record { chunks = []; state = s; ending = raised }
          | some verify_text ↦
              let draft_words = split draft_text in
              let verify_words = split verify_text in
              let k = accepted_words draft_words verify_words in
              let accepted = accepted_text k draft_words verify_words in
              let s' = after_round k draft_words accepted s in
              elim (is_empty accepted) [
                | true ↦ record { chunks = []; state = s; ending = finished }
                | false ↦ elim (any_within eos_patterns accepted) [
                  | true ↦ record {
                    chunks = (accepted ++ 32 ∷ []) ∷ [];
                    state = s';
                    ending = finished;
                  }
                  | false ↦
                      let rest = generate_rounds fuel (i + 1) s' in
                      record rest { chunks = (accepted ++ 32 ∷ []) ∷ rest.chunks }
                ]
              ]
        ]
      ]
    ]
  ]

  -- Each round counts at least one token, so `max_tokens + 1` rounds of fuel are enough.
  unfoldable pub generate : Engine → Generation
  generate engine =
      generate_rounds (max_tokens + 1) 0
        (record { generated = []; tokens_generated = 0; engine = engine })
