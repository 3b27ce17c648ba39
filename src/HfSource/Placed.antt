-- ===== src/HfSource/Placed.antt =====
-- The tables of `expert_layout` place the tensors of a layer one after the other.
use mathlib.Core.Path.{subst}
use expert_sniper.Prelude.{
  nat_beq_iff, ==_refl, ℕ, ◌+◌, false, Option, none, some, List, [], ◌∷◌, String, ◌≡◌, refl, sym,
  ◌∙◌, inl, inr, arith, Option-cases, Bool-cases, List-cases, string_eq, ◌==◌, ap, nat_beq,
  some-pair,
}
use expert_sniper.Dict.{Dict, get?, set}
use expert_sniper.Dict.Laws.{get?-set}
use expert_sniper.Fetch.{Bytes}
use expert_sniper.Reader.Format.{Info}
use expert_sniper.HfSource.Layout.{
  Source, Shards, Header, Tables, Place, place_tensor, place_all, locate, nbytes_of, dtype_mlx,
}

abbrev pub Fresh : String → List String → Type 0
Fresh t [] = Unit
Fresh t (u ∷ ts) = ((u == t) ≡ false) × Fresh t ts

abbrev pub DistinctNames : List String → Type 0
DistinctNames [] = Unit
DistinctNames (t ∷ ts) = Fresh t ts × DistinctNames ts

-- One tensor after the other, from offset `off` on.
abbrev pub Placed : ℕ → List String → Dict String Info → Dict String Source → Type 0
Placed off [] tensors sources = Unit
Placed off (t ∷ ts) tensors sources =
    (info : Info) × (src : Source) × (get? t tensors ≡ some info)
    × (get? t sources ≡ some src)
    × (info.inner_offset ≡ off)
    × (info.nbytes ≡ src.1.1)
    × Placed (off + src.1.1) ts tensors sources

-- The bytes of all slices together.
unfoldable pub payload_of : List String → Dict String Source → ℕ
payload_of [] sources = 0
payload_of (t ∷ ts) sources =
    elim (get? t sources) [ none ↦ 0 | some src ↦ src.1.1 ] + payload_of ts sources

pub record Step (num_experts : ℕ) (t : String) (place : Place) (before after : Tables)
    : Type 0 where
  pub info : Info
  pub src : Source
  pub tensor_set : after.tensors ≡ set t info before.tensors
  pub source_set : after.sources ≡ set t src before.sources
  pub at_offset : info.inner_offset ≡ before.offset
  pub same_size : info.nbytes ≡ src.1.1
  pub grown : after.offset ≡ before.offset + src.1.1
  pub of_shape : place.shape ≡ num_experts ∷ info.shape_per_expert
  pub of_size : nbytes_of info.shape_per_expert place.dtype ≡ some info.nbytes
  pub of_place : src ≡ (place.shard, (place.start, info.nbytes))

pub place_tensor-Step :
    (num_experts : ℕ) (t : String) (place : Place) (before after : Tables)
    → place_tensor num_experts t place before ≡ some after
    → Step num_experts t place before after
unfolding place_tensor
place_tensor-Step num_experts t place before after h = elim (List-cases place.shape) [
  | inl p ↦ absurd (let never = rw (place_tensor, p) at h in cc)
  | inr ((d, per_shape), p) ↦ elim (Bool-cases (nat_beq d num_experts)) [
    | inr q ↦ absurd (let never = rw (place_tensor, p, q) at h in cc)
    | inl q ↦ elim (Option-cases (nbytes_of per_shape place.dtype)) [
      | inl r ↦ absurd (let never = rw (place_tensor, p, q, r) at h in cc)
      | inr (per, r) ↦ elim (Option-cases (get? place.dtype dtype_mlx)) [
        | inl u ↦ absurd (let never = rw (place_tensor, p, q, r, u) at h in cc)
        | inr (dtype, u) ↦
            let done = rw (place_tensor, p, q, r, u) at h in
            record {
              info = record {
                inner_offset = before.offset;
                nbytes = per;
                shape_per_expert = per_shape;
                dtype = dtype;
              };
              src = (place.shard, (place.start, per));
              tensor_set = cc;
              source_set = cc;
              at_offset = refl;
              same_size = refl;
              grown = cc;
              of_shape = p ∙ ap (λ n. n ∷ per_shape) ((nat_beq_iff d num_experts).0 q);
              of_size = r;
              of_place = refl;
            }
      ]
    ]
  ]
]

pub record Filled (ts : List String) (before after : Tables) : Type 0 where
  pub placed : Placed before.offset ts after.tensors after.sources
  pub others :
      (x : String)
      → Fresh x ts
      → (get? x after.tensors ≡ get? x before.tensors)
        × (get? x after.sources ≡ get? x before.sources)
  pub filled : after.offset ≡ before.offset + payload_of ts after.sources

module _ {ℓ} {V : Type ℓ} (t : String) (v : V) (before after : Dict String V)
    (h : after ≡ set t v before) where
  set_self : get? t after ≡ some v
  set_self = rw (h, get?-set t t v before, ==_refl t) refl

  set_other : (x : String) → (t == x) ≡ false → get? x after ≡ get? x before
  set_other x f = rw (h, get?-set t x v before, f) refl

cons-Filled :
    (num_experts : ℕ) (t : String) (ts : List String) (place : Place) (before next after : Tables)
    → Step num_experts t place before next
    → Filled ts next after
    → Fresh t ts
    → Filled (t ∷ ts) before after
unfolding payload_of
cons-Filled num_experts t ts place before next after step rest fresh =
    let info_here = set_self t step.info before.tensors next.tensors step.tensor_set in
    let src_here = set_self t step.src before.sources next.sources step.source_set in
    let same = rest.others t fresh in
    let src_after : get? t after.sources ≡ some step.src = same.1 ∙ src_here in
    record {
      placed = (
        step.info,
        step.src,
        same.0 ∙ info_here,
        src_after,
        step.at_offset,
        step.same_size,
        subst (λ o. Placed o ts after.tensors after.sources) step.grown rest.placed,
      );
      others = λ x f. (
        (rest.others x f.1).0
            ∙ set_other t step.info before.tensors next.tensors step.tensor_set x f.0,
        (rest.others x f.1).1
            ∙ set_other t step.src before.sources next.sources step.source_set x f.0,
      );
      filled = rw src_after (omega (arith, rest.filled, step.grown));
    }

module _ (read : String → ℕ → ℕ → Option Bytes) (parse_json : Bytes → Option Header)
    (weight_map : Dict String String) (num_experts : ℕ) (tensor_name : ℕ → String → String) where
  pub place_all-Filled :
      (layer : ℕ) (ts : List String) (before after : Tables) (known known' : Shards)
      → DistinctNames ts
      → place_all read parse_json weight_map num_experts tensor_name layer ts before known
        ≡ some (after, known')
      → Filled ts before after
  unfolding place_all payload_of
  place_all-Filled layer [] before after known known' d h =
      let same = (some-pair h).0 in
      record {
        placed = tt;
        others = λ x f. (
          ap (λ (b : Tables). get? x b.tensors) (sym same),
          ap (λ (b : Tables). get? x b.sources) (sym same),
        );
        filled = ap (λ (b : Tables). b.offset) (sym same) ∙ omega arith;
      }
  place_all-Filled layer (t ∷ ts) before after known known' (fresh, d) h =
      elim (Option-cases (locate read parse_json weight_map (tensor_name layer t) known)) [
        | inl p ↦ absurd (let never = rw (place_all, p) at h in cc)
        | inr ((place, known1), p) ↦ elim (Option-cases (place_tensor num_experts t place before)) [
          | inl q ↦ absurd (let never = rw (place_all, p, q) at h in cc)
          | inr (next, q) ↦
              let rest =
                place_all-Filled layer ts next after known1 known' d (rw (place_all, p, q) at h) in
              let step = place_tensor-Step num_experts t place before next q in
              cons-Filled num_experts t ts place before next after step rest fresh
        ]
      ]
