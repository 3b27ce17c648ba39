-- ===== src/Ngram/Ranges.antt =====
-- The coalesced ranges of `HFNGramSource`: each row that was asked for lies in one of them, which is
-- the last one that starts at the row or before it.
use mathlib.Core.List.{append_assoc, append-nil}
use expert_sniper.Prelude.{
  ℕ, suc, ◌-◌, ◌*◌, ◌≤◌, ◌<◌, max, true, false, none, some, List, [], ◌∷◌, ◌++◌, leb, nat_eq, ◌≡◌,
  refl, sym, ◌∙◌, inl, inr, ◌⊎◌, arith, Bool-cases, nat_beq, ◌||◌,
}
use expert_sniper.Prelude.Sorted.{AllFrom, AllBelow, Ascending, is_in}
use expert_sniper.Dict.{Dict, get?, set}
use expert_sniper.Ngram.{Blob, extend, last_start, store_all}

-- Ranges from `x` on, each starting after the start of the one before and ending below `n`.
abbrev pub Increasing : ℕ → ℕ → List (ℕ × ℕ) → Type 0
Increasing n x [] = Unit
Increasing n x ((a, b) ∷ rgs) = (x ≤ a) × (a ≤ b) × (b < n) × Increasing n (suc a) rgs

Increasing-le : (n x y : ℕ) (rgs : List (ℕ × ℕ)) → x ≤ y → Increasing n y rgs → Increasing n x rgs
Increasing-le n x y [] p h = tt
Increasing-le n x y ((a, b) ∷ rgs) p (h, ab, bn, rest) = (omega arith, ab, bn, rest)

module _ (content : ℕ → ℕ → List ℕ) where
  -- The results of the requests for some ranges.
  abbrev pub results : List (ℕ × ℕ) → List (ℕ × Blob)
  results [] = []
  results ((a, b) ∷ rgs) = (a, (b, content a b)) ∷ results rgs

  -- The blob that has row `r` among those from row `x` on.
  pub record Located (r x : ℕ) (blobs : Dict ℕ Blob) : Type 0 where
    pub start : ℕ
    pub end : ℕ
    pub found : last_start r blobs ≡ some start
    pub held : get? start blobs ≡ some (end, content start end)
    pub from : x ≤ start
    pub before : start ≤ r
    pub until : r ≤ end

  pub last_start-eq-none :
      (n x r : ℕ) (rgs : List (ℕ × ℕ))
      → r < x
      → Increasing n x rgs
      → last_start r (results rgs) ≡ none
  unfolding last_start
  last_start-eq-none n x r [] p h = refl
  last_start-eq-none n x r ((a, b) ∷ rgs) p (q, _, _, h) =
      ground (arith, last_start-eq-none n (suc a) r rgs (omega arith) h)

  pub first :
      (n a b r : ℕ) (rgs : List (ℕ × ℕ))
      → a ≤ r
      → r ≤ b
      → Increasing n (suc b) rgs
      → Located r a ((a, (b, content a b)) ∷ results rgs)
  unfolding last_start get?
  first n a b r rgs p q h =
      let none_later = last_start-eq-none n (suc b) r rgs (omega arith) h in
      record {
        start = a;
        end = b;
        found = ground arith;
        held = ground arith;
        from = omega arith;
        before = p;
        until = q;
      }

  pub later :
      (a b r x : ℕ) (d : Dict ℕ Blob)
      → a < x
      → Located r x d
      → Located r a ((a, (b, content a b)) ∷ d)
  unfolding last_start get?
  later a b r x d p l = record {
    start = l.start;
    end = l.end;
    found = ground (arith, l.found, l.from, l.before);
    held = ground (arith, l.held, l.from);
    from = omega (arith, l.from);
    before = l.before;
    until = l.until;
  }

module _ (coalesce rb : ℕ) where
  apart : (r b : ℕ) → leb ((r - b - 1) * rb) coalesce ≡ false → b < r
  apart r b h = elim (Bool-cases (leb r b)) [
    | inr gt ↦ ground arith
    | inl le ↦
        let z : r - b - 1 ≡ 0 = ground arith in
        let none_left : (r - b - 1) * rb ≡ 0 = rw z (omega arith) in ground arith
  ]

  pub extend-Increasing :
      (n a b : ℕ) (rs : List ℕ)
      → a ≤ b
      → b < n
      → AllFrom b rs
      → Ascending rs
      → AllBelow n rs
      → Increasing n a (extend coalesce rb a b rs)
  unfolding extend
  extend-Increasing n a b [] p q from up below = (omega arith, p, q, tt)
  extend-Increasing n a b (r ∷ rs) p q from up below =
      elim (Bool-cases (leb ((r - b - 1) * rb) coalesce)) [
        | inl close ↦
            let m : max b r ≡ r = omega (arith, from.0) in
            rw (extend, close, m)
              (extend-Increasing n a r rs (omega (arith, from.0)) below.0 up.0 up.1 below.1)
        | inr far ↦
            let gap : b < r = apart r b far in
            rw (extend, far)
              (
                omega arith,
                p,
                q,
                Increasing-le n (suc a) r _ (omega arith)
                    (extend-Increasing n r r rs (omega arith) below.0 up.0 up.1 below.1),
              )
      ]

  pub is_first :
      (x r : ℕ) (rs : List ℕ)
      → (nat_beq x r || is_in r rs) ≡ true
      → ((x ≤ r) × (r ≤ x)) ⊎ (is_in r rs ≡ true)
  is_first x r rs h = elim (Bool-cases (nat_beq x r)) [
    | inl same ↦ inl (ground arith, ground arith)
    | inr other ↦ inr (ground arith)
  ]

  reaches :
      (a b x r : ℕ) (rs : List ℕ)
      → a ≤ b
      → b ≤ x
      → ((a ≤ r) × (r ≤ b)) ⊎ ((nat_beq x r || is_in r rs) ≡ true)
      → ((a ≤ r) × (r ≤ x)) ⊎ (is_in r rs ≡ true)
  reaches a b x r rs p q (inl (l, u)) = inl (l, omega arith)
  reaches a b x r rs p q (inr h) = elim (is_first x r rs h) [
    | inl (l, u) ↦ inl (omega arith, u)
    | inr later ↦ inr later
  ]

  pub extend-Located :
      (content : ℕ → ℕ → List ℕ) (n a b r : ℕ) (rs : List ℕ)
      → a ≤ b
      → AllFrom b rs
      → Ascending rs
      → AllBelow n rs
      → ((a ≤ r) × (r ≤ b)) ⊎ (is_in r rs ≡ true)
      → Located content r a (results content (extend coalesce rb a b rs))
  unfolding extend
  extend-Located content n a b r [] p from up below (inl (q, q')) = first content n a b r [] q q' tt
  extend-Located content n a b r [] p from up below (inr h) = absurd cc
  extend-Located content n a b r (x ∷ rs) p from up below here =
      elim (Bool-cases (leb ((x - b - 1) * rb) coalesce)) [
        | inl close ↦
            let m : max b x ≡ x = omega (arith, from.0) in
            rw (extend, close, m)
              (extend-Located content n a x r rs (omega (arith, from.0)) up.0 up.1 below.1
                (reaches a b x r rs p from.0 here))
        | inr far ↦
            let gap : b < x = apart x b far in
            let rest = extend-Increasing n x x rs (omega arith) below.0 up.0 up.1 below.1 in
            rw (extend, far)
              (elim here [
                | inl (q, q') ↦
                    first content n a b r (extend coalesce rb x x rs) q q'
                      (Increasing-le n (suc b) x (extend coalesce rb x x rs) gap rest)
                | inr h ↦
                    later content a b r x (results content (extend coalesce rb x x rs))
                      (omega arith)
                      (extend-Located content n x x r rs (omega arith) up.0 up.1 below.1
                        (is_first x r rs h))
              ])
      ]

-- The keys of `blobs`, so far, lie below `x`.
abbrev KeysBelow : ℕ → Dict ℕ Blob → Type 0
KeysBelow x [] = Unit
KeysBelow x ((k, blob) ∷ d) = (k < x) × KeysBelow x d

set-KeysBelow :
    (x a : ℕ) (blob : Blob) (d : Dict ℕ Blob)
    → x ≤ a
    → KeysBelow x d
    → set a blob d ≡ d ++ (a, blob) ∷ []
unfolding set
set-KeysBelow x a blob [] p h = refl
set-KeysBelow x a blob ((k, w) ∷ d) p h = ground (arith, h.0, set-KeysBelow x a blob d p h.1)

append-KeysBelow :
    (x a : ℕ) (blob : Blob) (d : Dict ℕ Blob)
    → x ≤ a
    → KeysBelow x d
    → KeysBelow (suc a) (d ++ (a, blob) ∷ [])
append-KeysBelow x a blob [] p h = (omega arith, tt)
append-KeysBelow x a blob ((k, w) ∷ d) p h = (omega (arith, h.0), append-KeysBelow x a blob d p h.1)

pub store_all-results :
    (content : ℕ → ℕ → List ℕ) (n x : ℕ) (rgs : List (ℕ × ℕ)) (d : Dict ℕ Blob)
    → Increasing n x rgs
    → KeysBelow x d
    → store_all (results content rgs) d ≡ d ++ results content rgs
unfolding store_all
store_all-results content n x [] d i h = sym (append-nil d)
store_all-results content n x ((a, b) ∷ rgs) d (p, _, _, i) h =
    rw (store_all, set-KeysBelow x a (b, content a b) d p h)
      (store_all-results content n (suc a) rgs (d ++ (a, (b, content a b)) ∷ []) i
          (append-KeysBelow x a (b, content a b) d p h)
        ∙ append_assoc d ((a, (b, content a b)) ∷ []) (results content rgs))
