-- ===== src/Wire.antt =====
-- The binary format between driver and expert nodes: src/expert_network/protocol.py.
pub mod RoundTrip
mod Tests
use expert_sniper.Prelude.{
  ℕ, zero, suc, ◌+◌, ◌*◌, ◌/◌, ◌%◌, Option, none, some, List, [], ◌∷◌, ◌++◌, length, take, drop,
  ltb, nat_beq, if◌then◌else◌,
}
use expert_sniper.Prelude.Sorted.{sorted}

-- A NumPy array: its shape, and its bytes in memory order.
pub record Array : Type 0 where
  pub shape : List ℕ
  pub raw : List ℕ

abbrev pub and_then {ℓ κ} : {A : Type ℓ} {B : Type κ} → Option A → (A → Option B) → Option B
and_then none next = none
and_then (some a) next = next a

-- A `uint16` in little endian order. `struct.pack` and NumPy raise (`none`) on a number that is too
-- large.
unfoldable pub u16 : ℕ → Option (List ℕ)
u16 x = if ltb x 65536 then some (x % 256 ∷ x / 256 ∷ []) else none

-- `np.asarray(xs, dtype=np.uint16).tobytes()`
unfoldable pub u16s : List ℕ → Option (List ℕ)
u16s [] = some []
u16s (x ∷ xs) = and_then (u16 x) (λ a. and_then (u16s xs) (λ b. some (a ++ b)))

-- `np.frombuffer(bytes, dtype=np.uint16)`, which raises on an odd number of bytes
unfoldable pub read_u16s : List ℕ → Option (List ℕ)
read_u16s [] = some []
read_u16s (a ∷ []) = none
read_u16s (a ∷ b ∷ bytes) = and_then (read_u16s bytes) (λ xs. some ((a + 256 * b) ∷ xs))

-- `struct.unpack("<HH", bytes)`, which wants four bytes
unfoldable pub read_pair : List ℕ → Option (ℕ × ℕ)
read_pair (a ∷ b ∷ c ∷ d ∷ []) = some (a + 256 * b, c + 256 * d)
read_pair _ = none

-- `np.prod(shape)`
abbrev pub prod : List ℕ → ℕ
prod [] = 1
prod (n ∷ shape) = n * prod shape

-- `np.frombuffer(bytes, dtype).reshape(shape)` for items of `k` bytes, which raises on another size
unfoldable pub from_buffer : ℕ → List ℕ → List ℕ → Option Array
from_buffer k shape bytes =
    if nat_beq (length bytes) (prod shape * k)
    then some (record { shape = shape; raw = bytes })
    else none

unfoldable pub pack_request : ℕ → List ℕ → Array → Array → Array → Option (List ℕ)
pack_request layer_idx expert_ids hidden inds weights = and_then (u16 layer_idx) (λ a.
    and_then (u16 (length expert_ids)) (λ b. and_then (u16s (sorted expert_ids)) (λ ids.
      and_then (u16s hidden.shape) (λ s1. and_then (u16s inds.shape) (λ s2.
        and_then (u16s weights.shape) (λ s3. some (
          (a ++ b)
          ++ (ids ++ (s1 ++ (s2 ++ (s3 ++ (hidden.raw ++ (inds.raw ++ weights.raw)))))))))))))

pub record Request : Type 0 where
  pub layer_idx : ℕ
  pub expert_ids : List ℕ
  pub hidden : Array
  pub inds : Array
  pub weights : Array

-- The three arrays; `rest` is `raw[off:]` where they start.
unfoldable pub read_arrays : ℕ → List ℕ → List ℕ → List ℕ → List ℕ → List ℕ → Option Request
read_arrays layer_idx ids s1 s2 s3 rest =
    let after_hidden = drop (prod s1 * 2) rest in
    let after_inds = drop (prod s2 * 4) after_hidden in
    and_then (from_buffer 2 s1 (take (prod s1 * 2) rest)) (λ hidden.
      and_then (from_buffer 4 s2 (take (prod s2 * 4) after_hidden)) (λ inds.
        and_then (from_buffer 4 s3 (take (prod s3 * 4) after_inds)) (λ weights. some (record {
          layer_idx = layer_idx;
          expert_ids = ids;
          hidden = hidden;
          inds = inds;
          weights = weights;
        }))))

-- The loop over the three shapes of six bytes each.
unfoldable pub read_shapes : ℕ → List ℕ → List ℕ → Option Request
read_shapes layer_idx ids rest = and_then (read_u16s (take 6 rest)) (λ s1.
    and_then (read_u16s (take 6 (drop 6 rest))) (λ s2.
      and_then (read_u16s (take 6 (drop 6 (drop 6 rest))))
        (λ s3. read_arrays layer_idx ids s1 s2 s3 (drop 6 (drop 6 (drop 6 rest))))))

unfoldable pub unpack_request : List ℕ → Option Request
unpack_request raw = and_then (read_pair (take 4 raw)) (λ header.
    and_then (read_u16s (take (header.1 * 2) (drop 4 raw)))
      (λ ids. read_shapes header.0 ids (drop (header.1 * 2) (drop 4 raw))))

unfoldable pub pack_response : ℕ → Array → Option (List ℕ)
pack_response n_computed result = and_then (u16 n_computed) (λ a.
    and_then (u16 (length result.shape))
      (λ b. and_then (u16s result.shape) (λ s. some ((a ++ b) ++ (s ++ result.raw)))))

unfoldable pub unpack_response : List ℕ → Option (ℕ × Array)
unpack_response raw = and_then (read_pair (take 4 raw)) (λ header.
    and_then (read_u16s (take (header.1 * 2) (drop 4 raw))) (λ shape.
      and_then (from_buffer 2 shape (drop (header.1 * 2) (drop 4 raw)))
        (λ result. some (header.0, result))))
