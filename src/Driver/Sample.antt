-- ===== src/Driver/Sample.antt =====
-- Two nodes that share a model of two experts and one layer, for the tests.
use mathlib.Core.Path.{subst}
use expert_sniper.Prelude.{
  nat_beq_iff, ◌⊎◌, sym, ap, ◌∙◌, ℕ, ◌+◌, true, false, ◌&&◌, Option, none, some, List, [], ◌∷◌,
  String, ◌≡◌, refl, nat_beq, ltb, nat_eq, pair_eq, string_eq, inl, inr, Bool-cases, ◌==◌,
  if◌then◌else◌, arith,
}
use expert_sniper.Prelude.Sorted.{is_in}
use expert_sniper.Dict.{get?}
use expert_sniper.Node.{Expert, Experts}
use expert_sniper.Driver.{ask_nodes, World}
use expert_sniper.Driver.Knows.{Nodes, IsHonest}

-- Node "a" has expert 0, and every other node expert 1, if it is called "b".
abbrev pub partition_of : String → List ℕ
partition_of u = if u == "a" then 0 ∷ [] else if u == "b" then 1 ∷ [] else []

abbrev pub weights_of : ℕ → Expert ℕ
weights_of e = ("w", 10 + e) ∷ []

abbrev pub experts_of : String → Experts ℕ
experts_of u =
    if u == "a"
    then ((0, 0), weights_of 0) ∷ []
    else if u == "b"
    then ((0, 1), weights_of 1) ∷ []
    else []

abbrev pub two_nodes : Nodes ℕ
two_nodes = record {
  partition = partition_of;
  experts = experts_of;
  num_experts = λ u. 2;
  num_layers = 1;
}

abbrev pub parse : List ℕ → Option (Expert ℕ)
parse [] = none
parse (e ∷ raw) = some (weights_of e)

abbrev pub world : World
world = record {
  partition_of = λ u. some (partition_of u);
  block_of = λ u l e. if is_in e (partition_of u) && ltb l 1 then some (e ∷ []) else none;
}

abbrev pub part_of : String → List ℕ
part_of u =
    if u == "a" then 0 ∷ 0 ∷ 0 ∷ 0 ∷ 7 ∷ [] else if u == "b" then 1 ∷ 0 ∷ 0 ∷ 5 ∷ 0 ∷ [] else []

pub who :
    (u : String)
    → (u ≡ "a") ⊎ ((u ≡ "b") ⊎ ((partition_of u ≡ []) × (experts_of u ≡ []) × (part_of u ≡ [])))
who u = elim (Bool-cases (u == "a")) [
  | inl p ↦ inl ((string_eq.same_iff u "a").0 p)
  | inr p ↦ elim (Bool-cases (u == "b")) [
    | inl q ↦ inr (inl ((string_eq.same_iff u "b").0 q))
    | inr q ↦ inr (inr (rw (p, q) refl, rw (p, q) refl, rw (p, q) refl))
  ]
]

-- Which node has which expert.
pub has_zero : (e : ℕ) → is_in e (partition_of "a") ≡ true → 0 ≡ e
has_zero e h = (nat_beq_iff 0 e).0 (ground (arith, h))

pub has_one : (e : ℕ) → is_in e (partition_of "b") ≡ true → 1 ≡ e
has_one e h = (nat_beq_iff 1 e).0 (ground (arith, h))

pub has_none : (e : ℕ) (u : String) → partition_of u ≡ [] → is_in e (partition_of u) ≡ true → ⊥
has_none e u p h = let never : is_in e [] ≡ true = rw p at h in absurd cc

pub apart :
    (e : ℕ) (u v : String)
    → is_in e (partition_of u) ≡ true
    → is_in e (partition_of v) ≡ true
    → u ≡ v
apart e u v hu hv = elim (who u) [
  | inr (inr (p, _, _)) ↦ absurd (has_none e u p hu)
  | inl p ↦
      let zero_is = has_zero e (subst (λ w. is_in e (partition_of w) ≡ true) p hu) in
      elim (who v) [
        | inl q ↦ p ∙ sym q
        | inr (inl q) ↦
            let one_is = has_one e (subst (λ w. is_in e (partition_of w) ≡ true) q hv) in
            absurd (omega arith)
        | inr (inr (q, _, _)) ↦ absurd (has_none e v q hv)
      ]
  | inr (inl p) ↦
      let one_is = has_one e (subst (λ w. is_in e (partition_of w) ≡ true) p hu) in
      elim (who v) [
        | inl q ↦
            let zero_is = has_zero e (subst (λ w. is_in e (partition_of w) ≡ true) q hv) in
            absurd (omega arith)
        | inr (inl q) ↦ p ∙ sym q
        | inr (inr (q, _, _)) ↦ absurd (has_none e v q hv)
      ]
]

pub right_block :
    (u : String) (e : ℕ)
    → is_in e (partition_of u) ≡ true
    → some (weights_of e) ≡ get? (0, e) (experts_of u)
unfolding get?
right_block u e h = elim (who u) [
  | inr (inr (p, _, _)) ↦ absurd (has_none e u p h)
  | inl p ↦
      let zero_is = has_zero e (subst (λ w. is_in e (partition_of w) ≡ true) p h) in
      subst (λ w. some (weights_of e) ≡ get? (0, e) (experts_of w)) (sym p)
        (subst (λ x. some (weights_of x) ≡ get? (0, x) (experts_of "a")) zero_is refl)
  | inr (inl p) ↦
      let one_is = has_one e (subst (λ w. is_in e (partition_of w) ≡ true) p h) in
      subst (λ w. some (weights_of e) ≡ get? (0, e) (experts_of w)) (sym p)
        (subst (λ x. some (weights_of x) ≡ get? (0, x) (experts_of "b")) one_is refl)
]

serves :
    (u : String) (l e : ℕ) (raw : List ℕ)
    → world.block_of u l e ≡ some raw
    → (is_in e (partition_of u) ≡ true) × (parse raw ≡ get? (l, e) (experts_of u))
serves u l e raw h = elim (Bool-cases (is_in e (partition_of u) && ltb l 1)) [
  | inr p ↦ absurd (let never = rw p at h in cc)
  | inl p ↦
      let has : is_in e (partition_of u) ≡ true = ground (arith, p) in
      let below : ltb l 1 ≡ true = ground (arith, p) in
      let first : 0 ≡ l = ground (arith, below) in
      let bytes : some (e ∷ []) ≡ some raw = rw p at h in
      let raw_is : e ∷ [] ≡ raw = cc in
      (
        has,
        ap parse (sym raw_is)
            ∙ subst (λ k. some (weights_of e) ≡ get? (k, e) (experts_of u)) first
                (right_block u e has),
      )
]

probed :
    (l e : ℕ)
    → ltb l 1 ≡ true
    → ask_nodes world 1 l e ("a" ∷ "b" ∷ []) ≡ none
    → (u : String) → is_in e (partition_of u) ≡ false
unfolding ask_nodes
probed l e below h u = elim (Bool-cases (nat_beq 0 e)) [
  | inl zero_is ↦ absurd (let never = rw (ask_nodes, zero_is, below) at h in cc)
  | inr not_zero ↦ elim (Bool-cases (nat_beq 1 e)) [
    | inl one_is ↦ absurd (let never = rw (ask_nodes, not_zero, one_is, below) at h in cc)
    | inr not_one ↦ elim (who u) [
      | inl p ↦ subst (λ w. is_in e (partition_of w) ≡ false) (sym p) (ground (arith, not_zero))
      | inr (inl p) ↦
          subst (λ w. is_in e (partition_of w) ≡ false) (sym p) (ground (arith, not_one))
      | inr (inr (p, _, _)) ↦ ap (is_in e) p
    ]
  ]
]

pub honest : IsHonest two_nodes parse ("a" ∷ "b" ∷ []) 1 world
honest = record {
  disjoint = apart;
  names = λ u ids p x. ap (λ o. is_in x o) (let q : ids ≡ partition_of u = cc in q);
  serves = serves;
  reachable = probed;
}
