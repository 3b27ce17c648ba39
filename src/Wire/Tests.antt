-- ===== src/Wire/Tests.antt =====
-- A request and a response on the wire, and instances of the round trips.
use expert_sniper.Prelude.{ℕ, none, some, List, [], ◌∷◌, ◌≡◌, refl, arith}
use expert_sniper.Prelude.Sorted.{insert, sorted}
use expert_sniper.Wire.{
  Array, u16, u16s, read_u16s, read_pair, from_buffer, pack_request, read_arrays, read_shapes,
  unpack_request, pack_response, unpack_response,
}
use expert_sniper.Wire.RoundTrip.{
  IsArray, unpack_request-pack_request, unpack_response-pack_response,
}

program : Unit {0}
unfolding insert sorted u16 u16s read_u16s read_pair from_buffer pack_request read_arrays
    read_shapes unpack_request pack_response unpack_response
program = tt

abbrev hidden : Array
hidden = record { shape = 1 ∷ 1 ∷ 2 ∷ []; raw = 1 ∷ 2 ∷ 3 ∷ 4 ∷ [] }

abbrev inds : Array
inds = record { shape = 1 ∷ 1 ∷ 1 ∷ []; raw = 2 ∷ 0 ∷ 0 ∷ 0 ∷ [] }

abbrev weights : Array
weights = record { shape = 1 ∷ 1 ∷ 1 ∷ []; raw = 0 ∷ 0 ∷ 128 ∷ 63 ∷ [] }

packed_response :
    pack_response 2 hidden ≡ some (2 ∷ 0 ∷ 3 ∷ 0 ∷ 1 ∷ 0 ∷ 1 ∷ 0 ∷ 2 ∷ 0 ∷ 1 ∷ 2 ∷ 3 ∷ 4 ∷ [])
unfolding program
packed_response = refl

-- A layer index that does not fit raises.
too_large : pack_request 65536 (2 ∷ []) hidden inds weights ≡ none
unfolding program
too_large = refl

of_hidden : IsArray 2 hidden
of_hidden = record { sized = refl; small = (omega arith, (omega arith, (omega arith, tt))) }

of_inds : IsArray 4 inds
of_inds = record { sized = refl; small = (omega arith, (omega arith, (omega arith, tt))) }

of_weights : IsArray 4 weights
of_weights = record { sized = refl; small = (omega arith, (omega arith, (omega arith, tt))) }

unpack_request-pack_request_example :
    (raw : List ℕ) × (pack_request 3 (300 ∷ 2 ∷ []) hidden inds weights ≡ some raw)
    × (unpack_request raw
        ≡ some (record {
          layer_idx = 3;
          expert_ids = sorted (300 ∷ 2 ∷ []);
          hidden = hidden;
          inds = inds;
          weights = weights;
        }))
unpack_request-pack_request_example =
    unpack_request-pack_request 3 (300 ∷ 2 ∷ []) hidden inds weights (omega arith) (omega arith)
      (omega arith, (omega arith, tt)) of_hidden of_inds of_weights refl refl refl

unpack_response-pack_response_example :
    (raw : List ℕ) × (pack_response 2 hidden ≡ some raw) × (unpack_response raw ≡ some (2, hidden))
unpack_response-pack_response_example =
    unpack_response-pack_response 2 hidden (omega arith) (omega arith) of_hidden
