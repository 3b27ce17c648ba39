-- ===== src/HfSource/Rows.antt =====
-- The block of an expert has the rows of the expert in the tensors of the checkpoint.
use mathlib.Core.Path.{subst}
use native.Mathlib.Nat.{mul-div_cancel_left}
use expert_sniper.Prelude.{
  zero, suc, ◌/◌, ℕ, ◌+◌, ◌-◌, ◌*◌, ◌<◌, ◌≤◌, Option, some, List, [], ◌∷◌, ◌++◌, String, length,
  take, drop, ◌≡◌, refl, sym, ap, ◌∙◌, inl, inr, arith, Option-cases, Bool-cases, string_eq, ◌==◌,
  some-pair, length-append, drop-append,
}
use expert_sniper.Dict.{Dict, get?, set}
use expert_sniper.Dict.Laws.{get?-set}
use expert_sniper.Fetch.{Bytes}
use expert_sniper.Reader.Format.{Info}
use expert_sniper.HfSource.Layout.{
  Tensor, Header, Shards, Place, Source, Tables, Layout, nbytes_of, product, tensor_order, locate,
  place_tensor, place_all, expert_layout,
}
use expert_sniper.HfSource.Blocks.{fetch_expert_block}
use expert_sniper.HfSource.Placed.{Step, place_tensor-Step}
use expert_sniper.HfSource.Slices.{SlicesOf, fetch_expert_block-SlicesOf}
use expert_sniper.HfSource.Safetensors.{
  item_bytes, Shard, bytes_of, IsSafetensors, IsKnown, Located, locate-Located,
  nbytes_of-item_bytes,
}

some_inj {ℓ} : {A : Type ℓ} {x y : A} → ◌≡◌ {A = Option A} (some x) (some y) → x ≡ y
some_inj h = cc

factor_positive : (m n : ℕ) → 0 < m * n → 0 < n
factor_positive m zero h = omega (arith, h)
factor_positive m (suc n) h = omega arith

same_factor : (m a b : ℕ) → 0 < m * a → m * a ≡ m * b → a ≡ b
same_factor m a b h q =
    let m_positive : 0 < m =
      factor_positive a m (let e : a * m ≡ m * a = grind arith in omega (arith, h, e)) in
    sym (mul-div_cancel_left a m_positive) ∙ ap (λ x. x / m) q ∙ mul-div_cancel_left b m_positive

module _ (parse_json : Bytes → Option Header) (checkpoint : String → Shard)
    (weight_map : Dict String String) (num_experts : ℕ) (tensor_name : ℕ → String → String)
    (layer : ℕ) where
  -- The tensor `t` of the layer, in the header of its shard.
  abbrev pub IsTensorAt : String → String → Tensor → Type 0
  IsTensorAt t shard tensor =
      (get? (tensor_name layer t) weight_map ≡ some shard)
      × (get? (tensor_name layer t) (checkpoint shard).header ≡ some tensor)

  -- For each tensor of `ts`, the bytes that the layout names in `block` are row `e` of the tensor, one
  -- of the `num_experts` rows that fill it in the shard.
  abbrev pub RowsOf : ℕ → Bytes → Dict String Info → List String → Type 0
  RowsOf e block tensors [] = Unit
  RowsOf e block tensors (t ∷ ts) =
      ((info : Info) × (shard : String) × (tensor : Tensor) × (get? t tensors ≡ some info)
        × IsTensorAt t shard tensor
        × (tensor.shape ≡ num_experts ∷ info.shape_per_expert)
        × (tensor.from + num_experts * info.nbytes ≡ tensor.to)
        × (take info.nbytes (drop info.inner_offset block)
            ≡ take info.nbytes (drop (tensor.from + e * info.nbytes) (checkpoint shard).numbers)))
      × RowsOf e block tensors ts

  record SourceOf (t : String) (src : Source) : Type 0 where
    tensor : Tensor
    at : IsTensorAt t src.0 tensor
    at_start : src.1.0 ≡ 8 + length (checkpoint src.0).text + tensor.from
    rows : tensor.from + num_experts * src.1.1 ≡ tensor.to

  record InfoOf (t : String) (info : Info) : Type 0 where
    shard : String
    tensor : Tensor
    at : IsTensorAt t shard tensor
    of_shape : tensor.shape ≡ num_experts ∷ info.shape_per_expert
    rows : tensor.from + num_experts * info.nbytes ≡ tensor.to

  abbrev Each {ℓ} : {V : Type ℓ} → (String → V → Type 0) → Dict String V → Type ℓ
  Each {V = V} Fits d = (t : String) (v : V) → get? t d ≡ some v → Fits t v

  set-Each {ℓ} :
      {V : Type ℓ} (Fits : String → V → Type 0) (t : String) (v : V) (d d' : Dict String V)
      → d' ≡ set t v d
      → Fits t v
      → Each Fits d
      → Each Fits d'
  set-Each Fits t v d d' same here all u w h = elim (Bool-cases (t == u)) [
    | inl at_u ↦
        let q = rw (same, get?-set t u v d, at_u) at h in
        let q' : v ≡ w = cc in
        subst (λ x. Fits u x) q' (subst (λ x. Fits x v) ((string_eq.same_iff t u).0 at_u) here)
    | inr away ↦ all u w (rw (same, get?-set t u v d, away) at h)
  ]

  record Origins (tables : Tables) : Type 0 where
    sources : Each SourceOf tables.sources
    tensors : Each InfoOf tables.tensors

  module _
      (is_shard : (name shard : String)
        → get? name weight_map ≡ some shard
        → IsSafetensors parse_json (checkpoint shard))
      (read : String → ℕ → ℕ → Option Bytes)
      (honest : (shard : String) (s e : ℕ)
        → s ≤ e
        → e < length (bytes_of (checkpoint shard))
        → read shard s e ≡ some (take (e + 1 - s) (drop s (bytes_of (checkpoint shard))))) where
    rows-fill :
        (name : String) (tensor : Tensor) (shard : String) (shape : List ℕ) (n : ℕ)
        → get? name weight_map ≡ some shard
        → get? name (checkpoint shard).header ≡ some tensor
        → tensor.shape ≡ num_experts ∷ shape
        → nbytes_of shape tensor.dtype ≡ some n
        → tensor.from + num_experts * n ≡ tensor.to
    rows-fill name tensor shard shape n in_map in_header of_shape of_size =
        let fills = ((is_shard name shard in_map).tensors name tensor in_header).fills in
        let size = nbytes_of-item_bytes shape tensor.dtype n of_size in
        let fills' = rw of_shape at fills in
        let one : num_experts * product shape * item_bytes tensor.dtype ≡ num_experts * n =
          rw size (grind arith) in
        omega (arith, fills', one)

    step-Origins :
        (t : String) (place : Place) (known' : Shards) (before after : Tables)
        → Located parse_json checkpoint read honest weight_map (tensor_name layer t) place known'
        → Step num_experts t place before after
        → Origins before
        → Origins after
    step-Origins t place known' before after found step origins =
        let at : IsTensorAt t place.shard found.tensor = (found.in_shard, found.in_header) in
        let of_shape = sym found.same_shape ∙ step.of_shape in
        let rows =
          rows-fill (tensor_name layer t) found.tensor place.shard step.info.shape_per_expert
            step.info.nbytes found.in_shard found.in_header of_shape
            (rw found.same_dtype at step.of_size) in
        record {
          sources =
              set-Each SourceOf t step.src before.sources after.sources step.source_set
                (subst (SourceOf t) (sym step.of_place) (record {
                  tensor = found.tensor;
                  at = at;
                  at_start = found.at_start;
                  rows = rows;
                }))
                origins.sources;
          tensors =
              set-Each InfoOf t step.info before.tensors after.tensors step.tensor_set
                (record {
                  shard = place.shard;
                  tensor = found.tensor;
                  at = at;
                  of_shape = of_shape;
                  rows = rows;
                })
                origins.tensors;
        }

    place_all-Origins :
        (ts : List String) (before after : Tables) (known known' : Shards)
        → Origins before
        → IsKnown parse_json checkpoint known
        → place_all read parse_json weight_map num_experts tensor_name layer ts before known
          ≡ some (after, known')
        → Origins after × IsKnown parse_json checkpoint known'
    unfolding place_all
    place_all-Origins [] before after known known' origins k h =
        let (same, same_known) = some-pair h in
        (subst Origins same origins, subst (IsKnown parse_json checkpoint) same_known k)
    place_all-Origins (t ∷ ts) before after known known' origins k h =
        elim (Option-cases (locate read parse_json weight_map (tensor_name layer t) known)) [
          | inl p ↦ absurd (let never = rw (place_all, p) at h in cc)
          | inr ((place, known1), p) ↦
              elim (Option-cases (place_tensor num_experts t place before)) [
                | inl q ↦ absurd (let never = rw (place_all, p, q) at h in cc)
                | inr (next, q) ↦
                    let found =
                      locate-Located parse_json checkpoint read honest weight_map
                        (tensor_name layer t) place known known1
                        (λ shard. is_shard (tensor_name layer t) shard) k p in
                    let step = place_tensor-Step num_experts t place before next q in
                    place_all-Origins ts next after known1 known'
                      (step-Origins t place known1 before next found step origins) found.known
                      (rw (place_all, p, q) at h)
              ]
        ]

    source-Inside :
        (t : String) (src : Source)
        → SourceOf t src
        → (0 < src.1.1) × (src.1.0 + num_experts * src.1.1 ≤ length (bytes_of (checkpoint src.0)))
    source-Inside t src s =
        let c = checkpoint src.0 in
        let is = is_shard (tensor_name layer t) src.0 s.at.0 in
        let fits = is.tensors (tensor_name layer t) s.tensor s.at.1 in
        let len = length-append c.prefix (c.text ++ c.numbers) in
        let len' = length-append c.text c.numbers in
        (
          factor_positive num_experts src.1.1 (omega (arith, s.rows, fits.not_empty)),
          omega (arith, s.at_start, s.rows, fits.inside, len, len', is.eight_bytes),
        )

    -- Behind its header, a shard has the bytes of its tensors.
    drop-bytes_of :
        (name shard : String) (k : ℕ)
        → get? name weight_map ≡ some shard
        → drop (8 + length (checkpoint shard).text + k) (bytes_of (checkpoint shard))
          ≡ drop k (checkpoint shard).numbers
    drop-bytes_of name shard k in_map =
        let c = checkpoint shard in
        let is = is_shard name shard in_map in
        let n : length c.prefix + (length c.text + k) ≡ 8 + length c.text + k =
          omega (arith, is.eight_bytes) in
        subst (λ m. drop m (bytes_of c) ≡ drop k c.numbers) n
          (drop-append c.prefix (c.text ++ c.numbers) (length c.text + k)
            ∙ drop-append c.text c.numbers k)

    slices-RowsOf :
        (e : ℕ) (block : Bytes) (tables : Tables) (ts : List String)
        → Origins tables
        → SlicesOf (λ shard. bytes_of (checkpoint shard)) e block tables.tensors tables.sources ts
        → RowsOf e block tables.tensors ts
    slices-RowsOf e block tables [] origins slices = tt
    slices-RowsOf e block tables (t ∷ ts) origins
          ((info, src, tensor_at, source_at, slice), slices) =
        let i = origins.tensors t info tensor_at in
        let s = origins.sources t src source_at in
        let same_shard : i.shard ≡ src.0 = some_inj (sym i.at.0 ∙ s.at.0) in
        let at : IsTensorAt t src.0 i.tensor =
          subst (λ x. IsTensorAt t x i.tensor) same_shard i.at in
        let same_tensor : s.tensor ≡ i.tensor = some_inj (sym s.at.1 ∙ at.1) in
        let rows =
          subst (λ (x : Tensor). x.from + num_experts * src.1.1 ≡ x.to) same_tensor s.rows in
        let is = is_shard (tensor_name layer t) src.0 s.at.0 in
        let fits = is.tensors (tensor_name layer t) i.tensor at.1 in
        let same_size : src.1.1 ≡ info.nbytes =
          same_factor num_experts src.1.1 info.nbytes (omega (arith, rows, fits.not_empty))
            (omega (arith, rows, i.rows)) in
        let at_start =
          subst (λ (x : Tensor). src.1.0 ≡ 8 + length (checkpoint src.0).text + x.from) same_tensor
            s.at_start in
        let place : src.1.0 + e * src.1.1
            ≡ 8 + length (checkpoint src.0).text + (i.tensor.from + e * src.1.1) =
          omega (arith, at_start) in
        let row =
          slice
          ∙ rw
              (
                place,
                drop-bytes_of (tensor_name layer t) src.0 (i.tensor.from + e * src.1.1) s.at.0,
              )
              refl in
        (
          (
            info,
            src.0,
            i.tensor,
            tensor_at,
            at,
            i.of_shape,
            i.rows,
            subst
                (λ n.
                  take info.nbytes (drop info.inner_offset block)
                  ≡ take n (drop (i.tensor.from + e * n) (checkpoint src.0).numbers))
                same_size row,
          ),
          slices-RowsOf e block tables ts origins slices,
        )

    nothing-Origins : Origins (record { tensors = []; sources = []; offset = 0 })
    unfolding get?
    nothing-Origins = record { sources = λ t v h. absurd cc; tensors = λ t v h. absurd cc }

    -- The shards that the weight map names are safetensors files, range requests within a shard answer with
    -- its bytes, and what is known of the shards is right. If the layout of a layer can be computed, then
    -- what is known is right after it too, and the block of every expert can be fetched and has exactly the
    -- size of the layout. For each of the nine tensors, the header of the shard that the map names has
    -- the shape with one row per expert, the rows fill the place of the tensor, and the bytes that the
    -- layout names in the block are the row of the expert among the bytes of the tensor.
    pub fetch_expert_block-RowsOf :
        (e : ℕ) (known known' : Shards) (lay : Layout)
        → IsKnown parse_json checkpoint known
        → expert_layout read parse_json weight_map num_experts tensor_name layer known
          ≡ some (lay, known')
        → e < num_experts
        → (block : Bytes) × (fetch_expert_block read e lay ≡ some block)
          × (length block ≡ lay.expert_block_size)
          × RowsOf e block lay.tensors tensor_order
          × IsKnown parse_json checkpoint known'
    unfolding expert_layout
    fetch_expert_block-RowsOf e known known' lay k h below =
        let start : Tables = record { tensors = []; sources = []; offset = 0 } in
        elim (Option-cases (
          place_all read parse_json weight_map num_experts tensor_name layer tensor_order start
            known)) [
              | inl p ↦ absurd (let never = rw (expert_layout, p) at h in cc)
              | inr ((tables, known1), p) ↦
                  let (same, same_known) = some-pair (rw (expert_layout, p) at h) in
                  let (origins, k') =
                    place_all-Origins tensor_order start tables known known1 nothing-Origins k p in
                  let same_sources : tables.sources ≡ lay.sources =
                    ap (λ (x : Layout). x.sources) same in
                  let same_tensors : tables.tensors ≡ lay.tensors =
                    ap (λ (x : Layout). x.tensors) same in
                  let at_lay : Origins
                      (record { tensors = lay.tensors; sources = lay.sources; offset = 0 }) =
                    record {
                      sources = subst (Each SourceOf) same_sources origins.sources;
                      tensors = subst (Each InfoOf) same_tensors origins.tensors;
                    } in
                  let (block, fetched, size, slices) =
                    fetch_expert_block-SlicesOf read (λ shard. bytes_of (checkpoint shard)) honest
                      parse_json weight_map num_experts tensor_name layer e known known' lay h
                      (λ t src q. source-Inside t src (at_lay.sources t src q)) below in
                  (
                    block,
                    fetched,
                    size,
                    slices-RowsOf e block
                        (record { tensors = lay.tensors; sources = lay.sources; offset = 0 })
                        tensor_order at_lay slices,
                    subst (IsKnown parse_json checkpoint) same_known k',
                  )
            ]
