-- ===== src/HfSource/Slices.antt =====
-- Each slice of a fetched block is the slice of its tensor in the checkpoint.
use mathlib.Core.List.{append_assoc}
use expert_sniper.Prelude.{
  ◌/◌, length-append, length-take, length-drop, drop-append, take-append, ℕ, ◌+◌, ◌-◌, ◌*◌, ◌<◌,
  ◌≤◌, Option, some, List, [], ◌∷◌, ◌++◌, String, length, take, drop, ◌≡◌, refl, sym, ◌∙◌, inl, inr,
  arith, Option-cases, string_eq, ap, some-pair,
}
use expert_sniper.Fetch.{length-zeros, zeros, Bytes}
use expert_sniper.Ngram.Disk.{row_end}
use expert_sniper.HfSource.Layout.{
  page_size, Layout, expert_layout, tensor_order, Source, Shards, Header, place_all,
}
use expert_sniper.HfSource.Blocks.{fetch_slices, fetch_expert_block}
use expert_sniper.HfSource.Placed.{DistinctNames, Placed, payload_of, place_all-Filled}
use mathlib.Core.Path.{subst}
use expert_sniper.Dict.{Dict, get?}
use expert_sniper.Reader.Format.{Info}

-- In block `block` of expert `e`, each tensor of `ts` has the bytes that the expert has in the tensor's
-- shard, at the place where the layout says.
abbrev pub SlicesOf :
    (String → Bytes) → ℕ → Bytes → Dict String Info → Dict String Source → List String → Type 0
SlicesOf file e block tensors sources [] = Unit
SlicesOf file e block tensors sources (t ∷ ts) =
    ((info : Info) × (src : Source) × (get? t tensors ≡ some info)
      × (get? t sources ≡ some src)
      × (take info.nbytes (drop info.inner_offset block)
          ≡ take src.1.1 (drop (src.1.0 + e * src.1.1) (file src.0))))
    × SlicesOf file e block tensors sources ts

pub middle :
    (pre piece rest : Bytes) (off n : ℕ)
    → length pre ≡ off
    → length piece ≡ n
    → take n (drop off (pre ++ (piece ++ rest))) ≡ piece
middle pre piece rest off n p q =
    let e : length pre + 0 ≡ off = omega (arith, p) in
    rw (← e, drop-append pre (piece ++ rest) 0) (take-append n piece rest q)

module _ (read : String → ℕ → ℕ → Option Bytes) (file : String → Bytes) (num_experts : ℕ)
    (honest : (shard : String) (s e : ℕ)
      → s ≤ e
      → e < length (file shard)
      → read shard s e ≡ some (take (e + 1 - s) (drop s (file shard))))
    (sources : Dict String Source)
    (inside : (t : String) (src : Source)
      → get? t sources ≡ some src
      → (0 < src.1.1) × (src.1.0 + num_experts * src.1.1 ≤ length (file src.0)))
    (e : ℕ) (below : e < num_experts) where
  abbrev slice_of : Source → Bytes
  slice_of src = take src.1.1 (drop (src.1.0 + e * src.1.1) (file src.0))

  read-slice :
      (t : String) (src : Source)
      → get? t sources ≡ some src
      → (read src.0 (src.1.0 + e * src.1.1) (src.1.0 + e * src.1.1 + src.1.1 - 1)
          ≡ some (slice_of src))
        × (length (slice_of src) ≡ src.1.1)
  read-slice t src h =
      let (positive, room) = inside t src h in
      let ends = row_end e num_experts src.1.1 below in
      let start = src.1.0 + e * src.1.1 in
      let n : start + src.1.1 - 1 + 1 - start ≡ src.1.1 = omega (arith, positive) in
      let got =
        honest src.0 start (start + src.1.1 - 1) (omega (arith, positive))
          (omega (arith, positive, room, ends)) in
      (
        subst
            (λ k. read src.0 start (start + src.1.1 - 1) ≡ some (take k (drop start (file src.0))))
            n got,
        length-take src.1.1 (drop start (file src.0))
            (omega (arith, length-drop start (file src.0), room, ends)),
      )

  record Fetched (ts : List String) (tensors : Dict String Info) (pre pad : Bytes) : Type 0 where
    out : Bytes
    fetched : fetch_slices read e ts sources ≡ some out
    size : length out ≡ payload_of ts sources
    slices : SlicesOf file e (pre ++ (out ++ pad)) tensors sources ts

  fetch_slices-Fetched :
      (ts : List String) (tensors : Dict String Info) (off : ℕ) (pre pad : Bytes)
      → length pre ≡ off
      → Placed off ts tensors sources
      → Fetched ts tensors pre pad
  unfolding fetch_slices payload_of
  fetch_slices-Fetched [] tensors off pre pad p placed = record {
    out = [];
    fetched = refl;
    size = refl;
    slices = tt;
  }
  fetch_slices-Fetched (t ∷ ts) tensors off pre pad p
        (info, src, tensor_at, source_at, at_offset, same_size, placed) =
      let (got, size) = read-slice t src source_at in
      let piece = slice_of src in
      let far : length (pre ++ piece) ≡ off + src.1.1 =
        length-append pre piece ∙ omega (arith, p, size) in
      let rest = fetch_slices-Fetched ts tensors (off + src.1.1) (pre ++ piece) pad far placed in
      let here : take info.nbytes (drop info.inner_offset (pre ++ (piece ++ (rest.out ++ pad))))
          ≡ piece =
        middle pre piece (rest.out ++ pad) info.inner_offset info.nbytes (p ∙ sym at_offset)
          (size ∙ sym same_size) in
      let joined : (pre ++ piece) ++ (rest.out ++ pad) ≡ pre ++ ((piece ++ rest.out) ++ pad) =
        simp append_assoc in
      let joined' : pre ++ (piece ++ (rest.out ++ pad)) ≡ pre ++ ((piece ++ rest.out) ++ pad) =
        simp append_assoc in
      record {
        out = piece ++ rest.out;
        fetched = rw (fetch_slices, source_at, got, rest.fetched) refl;
        size = rw source_at (length-append piece rest.out ∙ omega (arith, size, rest.size));
        slices = (
          (
            info,
            src,
            tensor_at,
            source_at,
            subst (λ b. take info.nbytes (drop info.inner_offset b) ≡ piece) joined' here,
          ),
          subst (λ b. SlicesOf file e b tensors sources ts) joined rest.slices,
        );
      }

pub aligned : (n : ℕ) → n ≤ (n + page_size - 1) / page_size * page_size
aligned n = omega arith

pub names_differ : DistinctNames tensor_order
names_differ = search

module _ (read : String → ℕ → ℕ → Option Bytes) (file : String → Bytes)
    (honest : (shard : String) (s e : ℕ)
      → s ≤ e
      → e < length (file shard)
      → read shard s e ≡ some (take (e + 1 - s) (drop s (file shard))))
    (parse_json : Bytes → Option Header) (weight_map : Dict String String) (num_experts : ℕ)
    (tensor_name : ℕ → String → String) where
  abbrev pub Inside : Dict String Source → Type 0
  Inside sources =
      (t : String) (src : Source)
      → get? t sources ≡ some src
      → (0 < src.1.1) × (src.1.0 + num_experts * src.1.1 ≤ length (file src.0))

  record Whole (e : ℕ) (lay : Layout) : Type 0 where
    block : Bytes
    fetched : fetch_expert_block read e lay ≡ some block
    size : length block ≡ lay.expert_block_size
    slices : SlicesOf file e block lay.tensors lay.sources tensor_order

  fetch_expert_block-Whole :
      (e : ℕ) (tensors : Dict String Info) (sources : Dict String Source) (offset : ℕ)
      → e < num_experts
      → Placed 0 tensor_order tensors sources
      → offset ≡ payload_of tensor_order sources
      → Inside sources
      → Whole e (record {
        expert_block_size = (offset + page_size - 1) / page_size * page_size;
        data_start = page_size;
        tensors = tensors;
        sources = sources;
        payload = offset;
      })
  unfolding fetch_expert_block
  fetch_expert_block-Whole e tensors sources offset below placed total inside =
      let size = (offset + page_size - 1) / page_size * page_size in
      let f =
        fetch_slices-Fetched read file num_experts honest sources inside e below tensor_order
          tensors 0 [] (zeros (size - payload_of tensor_order sources)) refl placed in
      let pad : zeros (size - length f.out) ≡ zeros (size - payload_of tensor_order sources) =
        ap (λ n. zeros (size - n)) f.size in
      record {
        block = f.out ++ zeros (size - payload_of tensor_order sources);
        fetched = rw (fetch_expert_block, f.fetched, pad) refl;
        size =
            length-append f.out (zeros (size - payload_of tensor_order sources))
            ∙ omega (
              arith,
              f.size,
              total,
              aligned offset,
              length-zeros (size - payload_of tensor_order sources),
            );
        slices = f.slices;
      }

  -- Range requests within a shard answer with its bytes, and the layout of a layer has been computed from
  -- the headers, where each of its tensors has some bytes per expert and lies in its shard. Then the block
  -- of every expert can be fetched, it has exactly the size of the layout, and for each of the nine
  -- tensors the bytes that the layout names are those of the expert in that tensor's shard.
  pub fetch_expert_block-SlicesOf :
      (layer e : ℕ) (known known' : Shards) (lay : Layout)
      → expert_layout read parse_json weight_map num_experts tensor_name layer known
        ≡ some (lay, known')
      → ((t : String) (src : Source)
          → get? t lay.sources ≡ some src
          → (0 < src.1.1) × (src.1.0 + num_experts * src.1.1 ≤ length (file src.0)))
      → e < num_experts
      → (block : Bytes) × (fetch_expert_block read e lay ≡ some block)
        × (length block ≡ lay.expert_block_size)
        × SlicesOf file e block lay.tensors lay.sources tensor_order
  unfolding expert_layout
  fetch_expert_block-SlicesOf layer e known known' lay h inside below =
      elim (Option-cases (
        place_all read parse_json weight_map num_experts tensor_name layer tensor_order
          (record { tensors = []; sources = []; offset = 0 }) known)) [
            | inl p ↦ absurd (let never = rw (expert_layout, p) at h in cc)
            | inr ((tables, known1), p) ↦
                let f =
                  place_all-Filled read parse_json weight_map num_experts tensor_name layer
                    tensor_order (record { tensors = []; sources = []; offset = 0 }) tables known
                    known1 names_differ p in
                let same = (some-pair (rw (expert_layout, p) at h)).0 in
                let whole : Whole e lay =
                  subst (λ (l : Layout). Inside l.sources → Whole e l) same
                    (fetch_expert_block-Whole e tables.tensors tables.sources tables.offset below
                      f.placed (omega (arith, f.filled)))
                    inside in
                (whole.block, whole.fetched, whole.size, whole.slices)
          ]
