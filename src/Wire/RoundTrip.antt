-- ===== src/Wire/RoundTrip.antt =====
-- What one side packs, the other side unpacks.
use expert_sniper.Prelude.{
  ℕ, ◌+◌, ◌*◌, ◌/◌, ◌%◌, ◌<◌, some, List, [], ◌∷◌, ◌++◌, length, drop, ◌≡◌, refl, ap, ◌∙◌, arith,
  take-append, drop-append, take_of_length-le,
}
use expert_sniper.Prelude.Sorted.{sorted, AllBelow, sorted-AllBelow, length-sorted}
use expert_sniper.Wire.{
  Array, u16, u16s, read_u16s, read_pair, prod, from_buffer, pack_request, read_arrays, read_shapes,
  unpack_request, pack_response, unpack_response,
}

-- An array whose bytes are those of its shape, for items of `k` bytes.
pub record IsArray (k : ℕ) (a : Array) : Type 0 where
  pub sized : length a.raw ≡ prod a.shape * k
  pub small : AllBelow 65536 a.shape

u16-bytes : (x : ℕ) → x < 65536 → u16 x ≡ some (x % 256 ∷ x / 256 ∷ [])
unfolding u16
u16-bytes x h = ground arith

joined : (x : ℕ) → x % 256 + 256 * (x / 256) ≡ x
joined x = omega arith

-- The bytes of some numbers.
record Encoded (xs : List ℕ) : Type 0 where
  bytes : List ℕ
  packs : u16s xs ≡ some bytes
  reads : read_u16s bytes ≡ some xs
  size : length bytes ≡ length xs * 2

u16s-Encoded : (xs : List ℕ) → AllBelow 65536 xs → Encoded xs
unfolding u16s read_u16s
u16s-Encoded [] h = record { bytes = []; packs = refl; reads = refl; size = refl }
u16s-Encoded (x ∷ xs) (below, h) =
    let more = u16s-Encoded xs h in
    record {
      bytes = x % 256 ∷ x / 256 ∷ more.bytes;
      packs = rw (u16s, u16-bytes x below, more.packs) refl;
      reads = rw (read_u16s, more.reads, joined x) refl;
      size = omega (arith, more.size);
    }

drop-front : (n : ℕ) (xs ys : List ℕ) → length xs ≡ n → drop n (xs ++ ys) ≡ ys
drop-front n xs ys h =
    let e : n ≡ length xs + 0 = omega (arith, h) in
    ap (λ k. drop k (xs ++ ys)) e ∙ drop-append xs ys 0

from_buffer-IsArray : (k : ℕ) (a : Array) → IsArray k a → from_buffer k a.shape a.raw ≡ some a
unfolding from_buffer
from_buffer-IsArray k a i = ground (arith, i.sized)

arrays-back :
    (layer : ℕ) (ids : List ℕ) (h i w : Array)
    → IsArray 2 h
    → IsArray 4 i
    → IsArray 4 w
    → read_arrays layer ids h.shape i.shape w.shape (h.raw ++ (i.raw ++ w.raw))
      ≡ some (record { layer_idx = layer; expert_ids = ids; hidden = h; inds = i; weights = w })
unfolding read_arrays
arrays-back layer ids h i w ok_h ok_i ok_w =
    rw
      (
        read_arrays,
        take-append (prod h.shape * 2) h.raw (i.raw ++ w.raw) ok_h.sized,
        drop-front (prod h.shape * 2) h.raw (i.raw ++ w.raw) ok_h.sized,
        take-append (prod i.shape * 4) i.raw w.raw ok_i.sized,
        drop-front (prod i.shape * 4) i.raw w.raw ok_i.sized,
        take_of_length-le w.raw (prod w.shape * 4) (omega (arith, ok_w.sized)),
        from_buffer-IsArray 2 h ok_h,
        from_buffer-IsArray 4 i ok_i,
        from_buffer-IsArray 4 w ok_w,
      )
      refl

shapes-back :
    (layer : ℕ) (ids s1 s2 s3 rest : List ℕ) (a : Encoded s1) (b : Encoded s2) (c : Encoded s3)
    → length s1 ≡ 3
    → length s2 ≡ 3
    → length s3 ≡ 3
    → read_shapes layer ids (a.bytes ++ (b.bytes ++ (c.bytes ++ rest)))
      ≡ read_arrays layer ids s1 s2 s3 rest
unfolding read_shapes
shapes-back layer ids s1 s2 s3 rest a b c three1 three2 three3 =
    let size1 : length a.bytes ≡ 6 = omega (arith, a.size, three1) in
    let size2 : length b.bytes ≡ 6 = omega (arith, b.size, three2) in
    let size3 : length c.bytes ≡ 6 = omega (arith, c.size, three3) in
    rw
      (
        read_shapes,
        take-append 6 a.bytes (b.bytes ++ (c.bytes ++ rest)) size1,
        drop-front 6 a.bytes (b.bytes ++ (c.bytes ++ rest)) size1,
        take-append 6 b.bytes (c.bytes ++ rest) size2,
        drop-front 6 b.bytes (c.bytes ++ rest) size2,
        take-append 6 c.bytes rest size3,
        drop-front 6 c.bytes rest size3,
        a.reads,
        b.reads,
        c.reads,
      )
      refl

-- If layer, ids, their number and the shapes fit into 16 bits, each shape has three dimensions and
-- the bytes of each array are those of its shape, then packing a request succeeds, and unpacking it
-- gives the same layer and arrays, and the expert ids in ascending order.
pub unpack_request-pack_request :
    (layer : ℕ) (ids : List ℕ) (h i w : Array)
    → layer < 65536
    → length ids < 65536
    → AllBelow 65536 ids
    → IsArray 2 h
    → IsArray 4 i
    → IsArray 4 w
    → length h.shape ≡ 3
    → length i.shape ≡ 3
    → length w.shape ≡ 3
    → (raw : List ℕ) × (pack_request layer ids h i w ≡ some raw)
      × (unpack_request raw
          ≡ some (record {
            layer_idx = layer;
            expert_ids = sorted ids;
            hidden = h;
            inds = i;
            weights = w;
          }))
unfolding pack_request unpack_request read_pair
unpack_request-pack_request layer ids h i w small few below ok_h ok_i ok_w dims_h dims_i dims_w =
    let n = length ids in
    let e = u16s-Encoded (sorted ids) (sorted-AllBelow 65536 ids below) in
    let s1 = u16s-Encoded h.shape ok_h.small in
    let s2 = u16s-Encoded i.shape ok_i.small in
    let s3 = u16s-Encoded w.shape ok_w.small in
    let size : length e.bytes ≡ n * 2 = omega (arith, e.size, length-sorted ids) in
    let arrays = h.raw ++ (i.raw ++ w.raw) in
    let rest = s1.bytes ++ (s2.bytes ++ (s3.bytes ++ arrays)) in
    let header = layer % 256 ∷ layer / 256 ∷ n % 256 ∷ n / 256 ∷ [] in
    (
      header ++ (e.bytes ++ rest),
      rw
          (
            pack_request,
            u16-bytes layer small,
            u16-bytes n few,
            e.packs,
            s1.packs,
            s2.packs,
            s3.packs,
          )
          refl,
      rw
          (
            unpack_request,
            joined layer,
            joined n,
            take-append (n * 2) e.bytes rest size,
            drop-front (n * 2) e.bytes rest size,
            e.reads,
            shapes-back layer (sorted ids) h.shape i.shape w.shape arrays s1 s2 s3 dims_h dims_i
                dims_w,
            arrays-back layer (sorted ids) h i w ok_h ok_i ok_w,
          )
          refl,
    )

-- If the numbers fit into 16 bits and the bytes of the array are those of its shape, then packing a
-- response succeeds and unpacking it gives the same number and array.
pub unpack_response-pack_response :
    (n : ℕ) (a : Array)
    → n < 65536
    → length a.shape < 65536
    → IsArray 2 a
    → (raw : List ℕ) × (pack_response n a ≡ some raw) × (unpack_response raw ≡ some (n, a))
unfolding pack_response unpack_response read_pair
unpack_response-pack_response n a small dims i =
    let s = u16s-Encoded a.shape i.small in
    let d = length a.shape in
    let header = n % 256 ∷ n / 256 ∷ d % 256 ∷ d / 256 ∷ [] in
    let shape_end : length s.bytes ≡ d * 2 = s.size in
    (
      header ++ (s.bytes ++ a.raw),
      rw (pack_response, u16-bytes n small, u16-bytes d dims, s.packs) refl,
      rw
          (
            unpack_response,
            joined n,
            joined d,
            take-append (d * 2) s.bytes a.raw shape_end,
            drop-front (d * 2) s.bytes a.raw shape_end,
            s.reads,
            from_buffer-IsArray 2 a i,
          )
          refl,
    )
