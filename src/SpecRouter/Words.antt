-- ===== src/SpecRouter/Words.antt =====
-- What is accepted is text of the verify server.
use mathlib.Core.List.{append_assoc, append-nil}
use expert_sniper.Prelude.{
  ℕ, zero, suc, ◌≤◌, none, some, List, [], ◌∷◌, ◌++◌, length, take, get_elem?, ◌≡◌, refl, ap, ◌∙◌,
  inl, inr, arith, Bool-cases,
}
use expert_sniper.Speculative.Lookup.{list_eq}
use expert_sniper.Speculative.Lookup.Best.{list_eq→eq}
use expert_sniper.SpecRouter.{Text, join, accepted_words, accepted_text}

pub accepted_words-take :
    (d v : List Text) → take (accepted_words d v) d ≡ take (accepted_words d v) v
unfolding accepted_words
accepted_words-take [] v = refl
accepted_words-take (x ∷ d) [] = refl
accepted_words-take (x ∷ d) (y ∷ v) = elim (Bool-cases (list_eq x y)) [
  | inr other ↦ rw (accepted_words, other) refl
  | inl same ↦
      let q : x ≡ y = list_eq→eq x y same in
      rw (accepted_words, same)
        (ap (λ w. w ∷ take (accepted_words d v) d) q
          ∙ ap (λ rest. y ∷ rest) (accepted_words-take d v))
]

pub accepted_words-bounded :
    (d v : List Text) → (accepted_words d v ≤ length d) × (accepted_words d v ≤ length v)
unfolding accepted_words
accepted_words-bounded [] v = (omega arith, omega arith)
accepted_words-bounded (x ∷ d) [] = (omega arith, omega arith)
accepted_words-bounded (x ∷ d) (y ∷ v) = elim (Bool-cases (list_eq x y)) [
  | inr other ↦ rw (accepted_words, other) (omega arith, omega arith)
  | inl same ↦
      let (in_d, in_v) = accepted_words-bounded d v in
      rw (accepted_words, same) (omega (arith, in_d), omega (arith, in_v))
]

-- One more word, where there are some already.
join-take :
    (k : ℕ) (v : List Text)
    → suc k ≤ length v
    → join (take (suc k) v)
        ++ elim (get_elem? v (suc k)) as (λ _. Text) [ none ↦ [] | some w ↦ 32 ∷ w ]
      ≡ join (take (suc (suc k)) v)
join-take k [] h = absurd (omega (arith, h))
join-take zero (w ∷ []) h = append-nil w
join-take zero (w ∷ x ∷ v) h = refl
join-take (suc k) (w ∷ []) h = absurd (omega (arith, h))
join-take (suc k) (w ∷ x ∷ v) h =
    append_assoc w (32 ∷ join (x ∷ take k v))
      (elim (get_elem? v k) as (λ _. Text) [ none ↦ [] | some y ↦ 32 ∷ y ])
    ∙ ap (λ r. w ++ 32 ∷ r) (join-take k (x ∷ v) (omega (arith, h)))

accepted_text-same :
    (k : ℕ) (d v : List Text)
    → take k d ≡ take k v
    → k ≤ length v
    → accepted_text k d v ≡ join (take (suc k) v)
unfolding accepted_text
accepted_text-same zero d [] same h = refl
accepted_text-same zero d (w ∷ v) same h = refl
accepted_text-same (suc k) d v same h =
    ap
      (λ words.
        join words ++ elim (get_elem? v (suc k)) as (λ _. Text) [ none ↦ [] | some w ↦ 32 ∷ w ])
      same
    ∙ join-take k v h

-- The accepted text is the first words of the verify server: those that the draft has too, and one more if
-- there is one.
pub accepted_text-join :
    (d v : List Text)
    → accepted_text (accepted_words d v) d v ≡ join (take (suc (accepted_words d v)) v)
accepted_text-join d v =
    accepted_text-same (accepted_words d v) d v (accepted_words-take d v)
      (accepted_words-bounded d v).1
