-- ===== src/Speculative/Lookup/Best.antt =====
-- The draft follows the best match: the longest n-gram, and of its occurrences the newest.
use mathlib.Core.Path.{subst}
use expert_sniper.Prelude.{
  sym, ltb, ltb→lt, leb→le, ℕ, zero, suc, ◌+◌, ◌-◌, ◌≤◌, ◌<◌, true, Option, none, some, List, [],
  ◌∷◌, length, take, leb, ◌≡◌, refl, ◌⊎◌, inl, inr, arith, Bool-cases,
}
use expert_sniper.Dict.Order.{last_n}
use expert_sniper.Speculative.Lookup.{list_eq, slice, search_from, prompt_lookup_draft}

pub list_eq→eq : (xs ys : List ℕ) → list_eq xs ys ≡ true → xs ≡ ys
unfolding list_eq
list_eq→eq [] [] h = refl
list_eq→eq [] (y ∷ ys) h = cc
list_eq→eq (x ∷ xs) [] h = cc
list_eq→eq (x ∷ xs) (y ∷ ys) h = ground (arith, list_eq→eq xs ys)

pub list_eq_refl : (xs : List ℕ) → list_eq xs xs ≡ true
unfolding list_eq
list_eq_refl [] = refl
list_eq_refl (x ∷ xs) = ground (arith, list_eq_refl xs)

slice-cons :
    (a k : ℕ) (l : List ℕ)
    → a < length l
    → (c : ℕ) × (cont : List ℕ) × (slice a (suc k) l ≡ c ∷ cont)
slice-cons zero k [] h = absurd (omega arith)
slice-cons zero k (x ∷ l) h = (x, take k l, refl)
slice-cons (suc a) k [] h = absurd (omega arith)
slice-cons (suc a) k (x ∷ l) h = slice-cons a k l (omega arith)

module _ (context : List ℕ) where
  -- The `n` tokens from `start` are the last `n` tokens, and do not reach the end.
  pub record IsMatch (n start : ℕ) : Type 0 where
    pub inside : start + n < length context
    pub same : slice start n context ≡ last_n n context

  -- A longer n-gram, or a newer occurrence of the same length.
  abbrev pub IsBetter : ℕ → ℕ → ℕ → ℕ → Type 0
  IsBetter n start n' start' = (n < n') ⊎ ((n ≡ n') × (start < start'))

  -- What the loops find: nothing where there is no match, or else what follows the best match.
  pub data Found (max_ngram k : ℕ) : List ℕ → Type 0 where
    nothing :
        ((n start : ℕ) → ¬ ((0 < n) × (n ≤ max_ngram) × IsMatch n start)) → Found max_ngram k []
    follows :
        (n start : ℕ)
        → 0 < n
        → n ≤ max_ngram
        → IsMatch n start
        → ((n' start' : ℕ) → ¬ ((n' ≤ max_ngram) × IsMatch n' start' × IsBetter n start n' start'))
        → Found max_ngram k (slice (start + n) k context)

  module _ (k : ℕ) where
    -- What the inner loop finds among the starts below `count`.
    abbrev SearchResult : ℕ → ℕ → Option (List ℕ) → Type 0
    SearchResult n count none = (start : ℕ) → start < count → ¬ IsMatch n start
    SearchResult n count (some cont) =
        (start : ℕ) × (start < count)
        × IsMatch n start
        × (cont ≡ slice (start + n) (suc k) context)
        × ((start' : ℕ) → start < start' → start' < count → ¬ IsMatch n start')

    lt_suc_cases : (s t : ℕ) → s < suc t → (s < t) ⊎ (s ≡ t)
    lt_suc_cases s t h = elim (Bool-cases (ltb s t)) [
      | inl lt ↦ inl (ltb→lt s t lt)
      | inr ge ↦ inr (ground arith)
    ]

    search_skip :
        (n start : ℕ) (o : Option (List ℕ))
        → ¬ IsMatch n start
        → SearchResult n start o
        → SearchResult n (suc start) o
    search_skip n start none no_match r = λ s lt m. elim (lt_suc_cases s start lt) [
      | inl below ↦ r s below m
      | inr here ↦ no_match (rw here at m)
    ]
    search_skip n start (some cont) no_match (s, lt, m, p, newest) = (
      s,
      omega arith,
      m,
      p,
      λ s' a b m'. elim (lt_suc_cases s' start b) [
        | inl below ↦ newest s' a below m'
        | inr here ↦ no_match (rw here at m')
      ],
    )

    search_result :
        (n count : ℕ)
        → count + n ≤ length context
        → SearchResult n count (search_from context (suc k) n count)
    unfolding search_from
    search_result n zero h = λ start lt m. absurd (omega arith)
    search_result n (suc start) h =
        elim (Bool-cases (list_eq (slice start n context) (last_n n context))) [
          | inl eq ↦
              let (c, cont, p) = slice-cons (start + n) k context (omega arith) in
              rw (eq, p)
                (
                  start,
                  omega arith,
                  record { inside = omega arith; same = list_eq→eq _ _ eq },
                  sym p,
                  λ s' a b m. absurd (omega arith),
                )
          | inr ne ↦ rw ne (
              search_skip n start (search_from context (suc k) n start)
                (λ m. cc (list_eq_refl (last_n n context), m.same, ne))
                (search_result n start (omega arith)))
        ]

    -- A longer n-gram without a match leaves what the shorter ones give.
    Found-longer :
        (n : ℕ) (draft : List ℕ)
        → ((start : ℕ) → ¬ IsMatch (suc n) start)
        → Found n (suc k) draft
        → Found (suc n) (suc k) draft
    Found-longer n draft no_match (nothing none_at) = nothing (λ n' s m.
        elim (lt_suc_cases n' (suc n) (omega arith)) [
          | inl below ↦ none_at n' s (m.0, omega arith, m.2)
          | inr top ↦ no_match s (rw top at m.2)
        ])
    Found-longer n draft no_match (follows m s pos le match best) =
        follows m s pos (omega arith) match (λ n' s' b.
          elim (lt_suc_cases n' (suc n) (omega arith)) [
            | inl below ↦ best n' s' (omega arith, b.1, b.2)
            | inr top ↦ no_match s' (rw top at b.1)
          ])

    Found-here :
        (n count : ℕ) (o : Option (List ℕ)) (shorter : List ℕ)
        → count ≡ length context - suc n
        → suc n < length context
        → SearchResult (suc n) count o
        → Found n (suc k) shorter
        → Found (suc n) (suc k) (elim o [ none ↦ shorter | some cont ↦ cont ])
    Found-here n count none shorter e lt r ih =
        Found-longer n shorter (λ start m. r start (omega (arith, m.inside)) m) ih
    Found-here n count (some cont) shorter e lt (start, below, m, p, newest) ih =
        subst (Found (suc n) (suc k)) (sym p) (
          follows (suc n) start (omega arith) (omega arith) m (λ n' s' b. elim b.2 [
            | inl longer ↦ omega (arith, b.0)
            | inr (same, newer) ↦
                newest s' newer (omega (arith, b.1.inside, same)) (rw (← same) at b.1)
          ]))

    found :
        (max_ngram : ℕ) → Found max_ngram (suc k) (prompt_lookup_draft context (suc k) max_ngram)
    unfolding prompt_lookup_draft
    found zero = nothing (λ n s m. absurd (omega arith))
    found (suc n) = elim (Bool-cases (leb (length context) (suc n))) [
      | inl short ↦
          rw short
            (Found-longer n _ (λ start m. omega (arith, m.inside, leb→le _ _ short)) (found n))
      | inr room ↦ rw room (
          Found-here n _ _ _ refl (ground arith)
            (search_result (suc n) (length context - suc n) (ground arith)) (found n))
    ]

  -- For a positive `k`, the draft is empty exactly where no suffix of at most `max_ngram` tokens
  -- occurs earlier in the context, and else it is the `k` tokens (or all, if fewer) after an
  -- occurrence such that no longer suffix occurs earlier, and this one nowhere later.
  pub prompt_lookup-Found :
      (k max_ngram : ℕ) → 0 < k → Found max_ngram k (prompt_lookup_draft context k max_ngram)
  prompt_lookup-Found zero max_ngram h = absurd (omega arith)
  prompt_lookup-Found (suc k) max_ngram h = found k max_ngram
