-- ===== src/Coactivation/Predict.antt =====
-- What `predict_next_layer` may answer.
use expert_sniper.Prelude.{
  ℕ, zero, suc, ◌+◌, ◌≤◌, Bool, true, false, not, ◌&&◌, ◌||◌, List, [], ◌∷◌, map, take, length,
  length-take-le, leb, ◌≡◌, refl, sym, ap, ◌∙◌, inl, inr, arith, Bool-cases, nat_beq, nat_eq,
  pair_eq,
}
use expert_sniper.Dict.{get?, contains, set, remove}
use expert_sniper.Dict.Laws.{get?-remove, get?-set}
use expert_sniper.Lru.{member}
use expert_sniper.Coactivation.{
  Tracker, Counter, CrossLayer, counter_of, count, update, gather, drop_ids, insert_common,
  most_common, predict_next_layer,
}

abbrev ids_of : Counter → List ℕ
ids_of c = map (λ e. e.0) c

contains-drop_ids :
    (e : ℕ) (ids : List ℕ) (c : Counter)
    → contains e (drop_ids ids c) ≡ (not (member e ids) && contains e c)
unfolding drop_ids
contains-drop_ids e [] c = ground arith
contains-drop_ids e (x ∷ ids) c =
    ground (arith, contains-drop_ids e ids (remove x c), get?-remove x e c)

member-ids_of : (e : ℕ) (c : Counter) → member e (ids_of c) ≡ contains e c
unfolding get?
member-ids_of e [] = refl
member-ids_of e ((x, n) ∷ c) = ground (arith, member-ids_of e c)

member-insert_common :
    (e : ℕ) (y : ℕ × ℕ) (c : Counter)
    → member e (ids_of (insert_common y c)) ≡ (nat_beq y.0 e || member e (ids_of c))
unfolding insert_common
member-insert_common e y [] = refl
member-insert_common e y (x ∷ c) = ground (arith, member-insert_common e y c)

member-most_common : (e : ℕ) (c : Counter) → member e (ids_of (most_common c)) ≡ member e (ids_of c)
unfolding most_common
member-most_common e [] = refl
member-most_common e (x ∷ c) =
    ground (arith, member-insert_common e x (most_common c), member-most_common e c)

member-take :
    (e n : ℕ) (c : Counter) → member e (ids_of (take n c)) ≡ true → member e (ids_of c) ≡ true
member-take e zero c h = absurd cc
member-take e (suc n) [] h = absurd cc
member-take e (suc n) (x ∷ c) h = ground (arith, h, member-take e n c)

length-ids_of : (c : Counter) → length (ids_of c) ≡ length c
length-ids_of [] = refl
length-ids_of (x ∷ c) = ap suc (length-ids_of c)

-- One of the experts `ids` of layer `l` was counted together with expert `e` of the next layer.
abbrev pub seen_with : ℕ → List ℕ → ℕ → CrossLayer → Bool
seen_with l [] e cross = false
seen_with l (p ∷ ids) e cross = contains e (counter_of (l, p) cross) || seen_with l ids e cross

contains-update :
    (e : ℕ) (candidates c : Counter)
    → contains e (update candidates c) ≡ (contains e candidates || contains e c)
unfolding update get?
contains-update e candidates [] = ground arith
contains-update e candidates ((x, n) ∷ c) = ground (
  arith,
  contains-update e (set x (n + count x candidates) candidates) c,
  get?-set x e (n + count x candidates) candidates,
)

counter_of-set :
    (k j : ℕ × ℕ) (cross : CrossLayer)
    → counter_of j (set k (counter_of k cross) cross) ≡ counter_of j cross
counter_of-set k j cross =
    ground (arith, get?-set k j (counter_of k cross) cross, pair_eq.same_iff k j)

seen_with-set :
    (l : ℕ) (ids : List ℕ) (e : ℕ) (k : ℕ × ℕ) (cross : CrossLayer)
    → seen_with l ids e (set k (counter_of k cross) cross) ≡ seen_with l ids e cross
seen_with-set l [] e k cross = refl
seen_with-set l (p ∷ ids) e k cross =
    ground (arith, seen_with-set l ids e k cross, counter_of-set k (l, p) cross)

contains-gather :
    (l : ℕ) (ids : List ℕ) (cross : CrossLayer) (candidates : Counter) (e : ℕ)
    → contains e (gather l ids cross candidates).1
      ≡ (contains e candidates || seen_with l ids e cross)
unfolding gather
contains-gather l [] cross candidates e = ground arith
contains-gather l (p ∷ ids) cross candidates e =
    let rest =
      contains-gather l ids (set (l, p) (counter_of (l, p) cross) cross)
        (update candidates (counter_of (l, p) cross)) e in
    ground (
      arith,
      rest,
      contains-update e candidates (counter_of (l, p) cross),
      seen_with-set l ids e (l, p) cross,
    )

-- At most `top_k` experts are predicted, and each of them is an expert that is not active in this
-- layer and was counted together with one that is.
pub predict_next_layer-seen_with :
    (l : ℕ) (ids : List ℕ) (top_k : ℕ) (t : Tracker) (e : ℕ)
    → member e (predict_next_layer l ids top_k t).1 ≡ true
    → (member e ids ≡ false)
      × (seen_with l ids e t.cross_layer ≡ true)
      × (length (predict_next_layer l ids top_k t).1 ≤ top_k)
unfolding predict_next_layer
predict_next_layer-seen_with l ids top_k t e h =
    let gathered = (gather l ids t.cross_layer []).1 in
    let c = drop_ids ids gathered in
    elim (Bool-cases (not t.ready || leb t.num_layers (l + 1))) [
      | inl early ↦ absurd (ground (arith, early, h))
      | inr ready ↦
          let in_top : member e (ids_of (take top_k (most_common c))) ≡ true =
            ground (arith, ready, h) in
          let kept : contains e c ≡ true =
            sym (member-ids_of e c)
            ∙ sym (member-most_common e c)
            ∙ member-take e top_k (most_common c) in_top in
          let both : (not (member e ids) && contains e gathered) ≡ true =
            sym (contains-drop_ids e ids gathered) ∙ kept in
          let few : length (ids_of (take top_k (most_common c))) ≤ top_k = omega (
            arith,
            length-ids_of (take top_k (most_common c)),
            length-take-le top_k (most_common c),
          ) in
          let from_pairs : seen_with l ids e t.cross_layer ≡ true =
            unfold get? in ground (arith, both, contains-gather l ids t.cross_layer [] e) in
          (ground (arith, both), from_pairs, rw ready few)
    ]
