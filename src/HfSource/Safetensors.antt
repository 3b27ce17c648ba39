-- ===== src/HfSource/Safetensors.antt =====
-- The safetensors format, and what `locate` of src/expert_network/hf_source.py finds in a shard of it.
use mathlib.Core.Path.{subst}
use expert_sniper.Prelude.{
  ==_refl, ℕ, ◌+◌, ◌-◌, ◌*◌, ◌<◌, ◌≤◌, Option, some, List, [], ◌∷◌, ◌++◌, String, length, take,
  drop, ◌≡◌, refl, sym, ap, ◌∙◌, inl, inr, arith, Option-cases, Bool-cases, string_eq, ◌==◌,
  if◌then◌else◌, some-pair, length-append, drop-append, take-append,
}
use expert_sniper.Dict.{Dict, get?, set}
use expert_sniper.Dict.Laws.{get?-set}
use expert_sniper.Fetch.{Bytes}
use expert_sniper.HfSource.Layout.{
  Tensor, Header, Shards, Place, little_endian, dtype_size, product, nbytes_of, header_of, locate,
}

-- The bytes of one number of a type, from the description of the format.
abbrev pub item_bytes : String → ℕ
item_bytes dtype =
    if "BF16" == dtype
    then 2
    else if "F16" == dtype
    then 2
    else if "F32" == dtype
    then 4
    else if "U32" == dtype
    then 4
    else if "I32" == dtype
    then 4
    else if "I64" == dtype
    then 8
    else if "U8" == dtype
    then 1
    else if "I8" == dtype
    then 1
    else if "BOOL" == dtype
    then 1
    else 0

-- The value of bytes of which the first has the weight `w`, and each next one 256 times more.
abbrev pub weighted : ℕ → Bytes → ℕ
weighted w [] = 0
weighted w (b ∷ bytes) = b * w + weighted (256 * w) bytes

weighted-little_endian : (w : ℕ) (bytes : Bytes) → weighted w bytes ≡ w * little_endian bytes
unfolding little_endian
weighted-little_endian w [] = grind arith
weighted-little_endian w (b ∷ bytes) = grind (arith, weighted-little_endian (256 * w) bytes)

-- The parts of a shard: the size of its header, the text of the header, and the bytes of its tensors.
pub record Shard : Type 0 where
  pub prefix : Bytes
  pub text : Bytes
  pub numbers : Bytes
  pub header : Header

abbrev pub bytes_of : Shard → Bytes
bytes_of shard = shard.prefix ++ (shard.text ++ shard.numbers)

-- The numbers of a tensor fill its place, which lies in the data.
pub record IsTensor (numbers : Bytes) (tensor : Tensor) : Type 0 where
  pub fills : tensor.from + product tensor.shape * item_bytes tensor.dtype ≡ tensor.to
  pub not_empty : tensor.from < tensor.to
  pub inside : tensor.to ≤ length numbers

pub record IsSafetensors (parse_json : Bytes → Option Header) (shard : Shard) : Type 0 where
  pub eight_bytes : length shard.prefix ≡ 8
  pub text_size : weighted 1 shard.prefix ≡ length shard.text
  pub some_text : 0 < length shard.text
  pub parses : parse_json shard.text ≡ some shard.header
  pub tensors :
      (name : String) (tensor : Tensor)
      → get? name shard.header ≡ some tensor
      → IsTensor shard.numbers tensor

pub nbytes_of-item_bytes :
    (shape : List ℕ) (dtype : String) (n : ℕ)
    → nbytes_of shape dtype ≡ some n
    → n ≡ product shape * item_bytes dtype
unfolding nbytes_of dtype_size get?
nbytes_of-item_bytes shape dtype n h = ground (arith, h)

module _ (parse_json : Bytes → Option Header) (checkpoint : String → Shard) where
  -- What is known of the shards is right.
  pub record IsKnown (known : Shards) : Type 0 where
    pub right :
        (shard : String) (header : Header)
        → get? shard known.headers ≡ some header
        → (header ≡ (checkpoint shard).header)
          × (get? shard known.data_start ≡ some (8 + length (checkpoint shard).text))

  module _ (read : String → ℕ → ℕ → Option Bytes)
      (honest : (shard : String) (s e : ℕ)
        → s ≤ e
        → e < length (bytes_of (checkpoint shard))
        → read shard s e ≡ some (take (e + 1 - s) (drop s (bytes_of (checkpoint shard))))) where
    reads_size :
        (shard : String)
        → IsSafetensors parse_json (checkpoint shard)
        → read shard 0 7 ≡ some (checkpoint shard).prefix
    reads_size shard is =
        let c = checkpoint shard in
        let rest = c.text ++ c.numbers in
        honest shard 0 7 (omega arith) (
          omega (
            arith,
            length-append c.prefix rest,
            is.eight_bytes,
            is.some_text,
            length-append c.text c.numbers,
          ))
        ∙ ap some (take-append 8 c.prefix rest is.eight_bytes)

    reads_text :
        (shard : String)
        → IsSafetensors parse_json (checkpoint shard)
        → read shard 8 (8 + length (checkpoint shard).text - 1) ≡ some (checkpoint shard).text
    reads_text shard is =
        let c = checkpoint shard in
        let rest = c.text ++ c.numbers in
        let n : 8 + length c.text - 1 + 1 - 8 ≡ length c.text = omega (arith, is.some_text) in
        let eight : length c.prefix + 0 ≡ 8 = omega (arith, is.eight_bytes) in
        let behind : drop 8 (bytes_of c) ≡ rest =
          subst (λ k. drop k (bytes_of c) ≡ rest) eight (drop-append c.prefix rest 0) in
        honest shard 8 (8 + length c.text - 1) (omega (arith, is.some_text)) (
          omega (
            arith,
            length-append c.prefix rest,
            is.eight_bytes,
            is.some_text,
            length-append c.text c.numbers,
          ))
        ∙ rw (n, behind) (ap some (take-append (length c.text) c.text c.numbers refl))

    record Found (shard : String) (header : Header) (known' : Shards) : Type 0 where
      pub same : header ≡ (checkpoint shard).header
      pub known : IsKnown known'
      pub starts : get? shard known'.data_start ≡ some (8 + length (checkpoint shard).text)

    set-IsKnown :
        (shard : String) (known : Shards)
        → IsKnown known
        → IsKnown (record {
          headers = set shard (checkpoint shard).header known.headers;
          data_start = set shard (8 + length (checkpoint shard).text) known.data_start;
        })
    set-IsKnown shard known k = record {
      right = λ other header h. elim (Bool-cases (shard == other)) [
        | inl here ↦
            let at_other : shard ≡ other = (string_eq.same_iff shard other).0 here in
            let q = rw (get?-set shard other (checkpoint shard).header known.headers, here) at h in
            (
              let q' : header ≡ (checkpoint shard).header = cc in
                  q' ∙ ap (λ x. (checkpoint x).header) at_other,
              rw (get?-set shard other (8 + length (checkpoint shard).text) known.data_start, here)
                  (ap (λ x. some (8 + length (checkpoint x).text)) at_other),
            )
        | inr away ↦
            let (same, starts) =
              k.right other header
                (rw (get?-set shard other (checkpoint shard).header known.headers, away) at h) in
            (
              same,
              rw (get?-set shard other (8 + length (checkpoint shard).text) known.data_start, away)
                  starts,
            )
      ];
    }

    header_of-Found :
        (shard : String) (header : Header) (known known' : Shards)
        → IsSafetensors parse_json (checkpoint shard)
        → IsKnown known
        → header_of read parse_json shard known ≡ some (header, known')
        → Found shard header known'
    unfolding header_of
    header_of-Found shard header known known' is k h =
        elim (Option-cases (get? shard known.headers)) [
          | inr (old, p) ↦
              let (same_header, same_known) = some-pair (rw (header_of, p) at h) in
              let (same, starts) = k.right shard old p in
              record {
                same = sym same_header ∙ same;
                known = subst IsKnown same_known k;
                starts =
                    subst
                      (λ (x : Shards).
                        get? shard x.data_start ≡ some (8 + length (checkpoint shard).text))
                      same_known starts;
              }
          | inl p ↦
              let c = checkpoint shard in
              let size : little_endian c.prefix ≡ length c.text =
                omega (arith, weighted-little_endian 1 c.prefix, is.text_size) in
              let got : header_of read parse_json shard known
                  ≡ some (
                    c.header,
                    record {
                      headers = set shard c.header known.headers;
                      data_start = set shard (8 + length c.text) known.data_start;
                    },
                  ) =
                rw (header_of, p, reads_size shard is, size, reads_text shard is, is.parses, size)
                  refl in
              let (same_header, same_known) = some-pair (sym got ∙ h) in
              let starts =
                get?-set shard shard (8 + length c.text) known.data_start
                ∙ rw (==_refl shard) refl in
              record {
                same = sym same_header;
                known = subst IsKnown same_known (set-IsKnown shard known k);
                starts =
                    subst
                      (λ (x : Shards).
                        get? shard x.data_start ≡ some (8 + length (checkpoint shard).text))
                      same_known starts;
              }
        ]

    -- The place of a tensor, in a shard that is in order.
    pub record Located (weight_map : Dict String String) (name : String) (place : Place)
        (known' : Shards) : Type 0 where
      pub tensor : Tensor
      pub in_shard : get? name weight_map ≡ some place.shard
      pub in_header : get? name (checkpoint place.shard).header ≡ some tensor
      pub same_dtype : place.dtype ≡ tensor.dtype
      pub same_shape : place.shape ≡ tensor.shape
      pub at_start : place.start ≡ 8 + length (checkpoint place.shard).text + tensor.from
      pub known : IsKnown known'

    pub locate-Located :
        (weight_map : Dict String String) (name : String) (place : Place) (known known' : Shards)
        → ((shard : String)
            → get? name weight_map ≡ some shard
            → IsSafetensors parse_json (checkpoint shard))
        → IsKnown known
        → locate read parse_json weight_map name known ≡ some (place, known')
        → Located weight_map name place known'
    unfolding locate
    locate-Located weight_map name place known known' is k h =
        elim (Option-cases (get? name weight_map)) [
          | inl p ↦ absurd (let never = rw (locate, p) at h in cc)
          | inr (shard, p) ↦ elim (Option-cases (header_of read parse_json shard known)) [
            | inl q ↦ absurd (let never = rw (locate, p, q) at h in cc)
            | inr ((header, known1), q) ↦
                let f = header_of-Found shard header known known1 (is shard p) k q in
                elim (Option-cases (get? name header)) [
                  | inl u ↦ absurd (let never = rw (locate, p, q, u) at h in cc)
                  | inr (tensor, u) ↦
                      let (same_place, same_known) =
                        some-pair (rw (locate, p, q, u, f.starts) at h) in
                      subst (λ (x : Place). Located weight_map name x known') same_place
                        (record {
                          tensor = tensor;
                          in_shard = p;
                          in_header = subst (λ (x : Header). get? name x ≡ some tensor) f.same u;
                          same_dtype = refl;
                          same_shape = refl;
                          at_start = refl;
                          known = subst IsKnown same_known f.known;
                        })
                ]
          ]
        ]
