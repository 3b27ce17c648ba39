-- ===== src/Coactivation/Cells.antt =====
-- What `record_layer` adds to each cell of the co-activation counts.
use mathlib.Core.Path.{subst}
use expert_sniper.Prelude.{
  ℕ, ◌+◌, Bool, true, false, ◌&&◌, ◌||◌, List, [], ◌∷◌, ◌++◌, ◌≡◌, refl, inl, inr, arith,
  Bool-cases, nat_beq, nat_eq, pair_eq,
}
use expert_sniper.Dict.{set}
use expert_sniper.Dict.Laws.{get?-set}
use expert_sniper.Lru.{add, member}
use expert_sniper.Lru.Invariant.{member-add}
use expert_sniper.Coactivation.{count, CrossLayer, counter_of, bump, bump_all, bump_pairs, set_of}

-- The count at (layer, expert) and the expert of the next layer.
abbrev pub cell : ℕ → ℕ → ℕ → CrossLayer → ℕ
cell l p x cross = count x (counter_of (l, p) cross)

abbrev pub bit : Bool → ℕ
bit true = 1
bit false = 0

abbrev pub NoRepeat : List ℕ → Type 0
NoRepeat [] = Unit
NoRepeat (x ∷ s) = (member x s ≡ false) × NoRepeat s

cell-bump :
    (k p y : ℕ) (m q x : ℕ) (cross : CrossLayer)
    → cell m q x (bump (k, p) y cross)
      ≡ cell m q x cross + bit (nat_beq k m && (nat_beq p q && nat_beq y x))
unfolding bump
cell-bump k p y m q x cross =
    let c = set y (count y (counter_of (k, p) cross) + 1) (counter_of (k, p) cross) in
    ground (
      arith,
      get?-set (k, p) (m, q) c cross,
      get?-set y x (count y (counter_of (k, p) cross) + 1) (counter_of (k, p) cross),
    )

cell-bump_all :
    (k p : ℕ) (active : List ℕ) (m q x : ℕ) (cross : CrossLayer)
    → NoRepeat active
    → cell m q x (bump_all (k, p) active cross)
      ≡ cell m q x cross + bit (nat_beq k m && (nat_beq p q && member x active))
unfolding bump_all
cell-bump_all k p [] m q x cross u = ground arith
cell-bump_all k p (y ∷ active) m q x cross u =
    let rest = cell-bump_all k p active m q x (bump (k, p) y cross) u.1 in
    let first = cell-bump k p y m q x cross in
    elim (Bool-cases (nat_beq y x)) [
      | inl same ↦
          let at_x : y ≡ x = ground arith in
          let absent : member x active ≡ false = subst (λ z. member z active ≡ false) at_x u.0 in
          ground (arith, rest, first, absent, same)
      | inr other ↦ ground (arith, rest, first, other)
    ]

pub cell-bump_pairs :
    (k : ℕ) (prev active : List ℕ) (m q x : ℕ) (cross : CrossLayer)
    → NoRepeat prev
    → NoRepeat active
    → cell m q x (bump_pairs k prev active cross)
      ≡ cell m q x cross + bit (nat_beq k m && (member q prev && member x active))
unfolding bump_pairs
cell-bump_pairs k [] active m q x cross v u = ground arith
cell-bump_pairs k (p ∷ prev) active m q x cross v u =
    let rest = cell-bump_pairs k prev active m q x (bump_all (k, p) active cross) v.1 u in
    let first = cell-bump_all k p active m q x cross u in
    elim (Bool-cases (nat_beq p q)) [
      | inl same ↦
          let at_q : p ≡ q = ground arith in
          let absent : member q prev ≡ false = subst (λ z. member z prev ≡ false) at_q v.0 in
          ground (arith, rest, first, absent, same)
      | inr other ↦ ground (arith, rest, first, other)
    ]

NoRepeat-append : (x : ℕ) (s : List ℕ) → NoRepeat s → member x s ≡ false → NoRepeat (s ++ x ∷ [])
NoRepeat-append x [] u h = (refl, tt)
NoRepeat-append x (y ∷ s) u h =
    (absent_end y x s u.0 (ground (arith, h)), NoRepeat-append x s u.1 (ground (arith, h)))
  where
    absent_end :
        (y x : ℕ) (s : List ℕ)
        → member y s ≡ false
        → nat_beq y x ≡ false
        → member y (s ++ x ∷ []) ≡ false
    absent_end y x [] a b = ground (arith, b)
    absent_end y x (z ∷ s) a b = ground (arith, absent_end y x s (ground (arith, a)) b, a)

NoRepeat-add : (x : ℕ) (s : List ℕ) → NoRepeat s → NoRepeat (add x s)
unfolding add
NoRepeat-add x s u = elim (Bool-cases (member x s)) [
  | inl old ↦ rw (add, old) u
  | inr new ↦ rw (add, new) (NoRepeat-append x s u new)
]

pub NoRepeat-set_of : (ids s : List ℕ) → NoRepeat s → NoRepeat (set_of ids s)
unfolding set_of
NoRepeat-set_of [] s u = u
NoRepeat-set_of (x ∷ ids) s u = NoRepeat-set_of ids (add x s) (NoRepeat-add x s u)

pub member-set_of :
    (e : ℕ) (ids s : List ℕ) → member e (set_of ids s) ≡ (member e s || member e ids)
unfolding set_of
member-set_of e [] s = ground arith
member-set_of e (x ∷ ids) s = ground (arith, member-set_of e ids (add x s), member-add e x s)
