-- ===== src/Fetch/Tests.antt =====
-- A pull of two blocks from an honest and a hostile peer, and instances of its theorems.
use expert_sniper.Prelude.{
  ℕ, zero, suc, ◌+◌, ◌*◌, Bool, true, false, Option, none, some, List, [], ◌∷◌, String, length, ◌≡◌,
  ◌≢◌, refl, inl, inr, arith, Bool-cases, nat_beq, string_eq, ◌==◌, if◌then◌else◌, nat_beq_iff,
}
use expert_sniper.Dict.{get?, set}
use expert_sniper.Fetch.{
  delivered_by, Bytes, pwrite, Pull, ok, file_of, credit, fetch_block, probe, take_probe, has_slot,
  missing, store_block, first_block, pull_all, open_layer, pull_layer, LayerInput, Run,
  fetch_layers, fetch_partition,
}
use expert_sniper.Fetch.Credit.{
  fetch_arrivals, sent_by, total, arrivals, counted, delivered_sum, pull_layer-counted,
}
use expert_sniper.Fetch.Layers.{IsSound, all_verified, fetch_partition-verified}
use expert_sniper.Fetch.Verified.{Published}
use expert_sniper.Fetch.Layer.{pull_layer-verified, pull_layer-keeps}

program : Unit {0}
unfolding get? set pwrite credit fetch_block probe take_probe missing store_block first_block
    pull_all open_layer pull_layer fetch_layers fetch_partition fetch_arrivals
program = tt

-- A toy digest: it tells the length of a block, and its first byte.
abbrev starts_with : ℕ → Bytes → Bool
starts_with n [] = false
starts_with n (b ∷ bytes) = nat_beq b n

abbrev digest : Bytes → String
digest block =
    if nat_beq (length block) 2
    then (if starts_with 1 block then "one" else if starts_with 5 block then "two" else "zero")
    else "odd"

abbrev hashes : ℕ → Option String
hashes zero = some "one"
hashes (suc zero) = some "two"
hashes (suc (suc e)) = none

odd_is_no_hash : (e : ℕ) → hashes e ≢ some "odd"
odd_is_no_hash zero h =
    absurd (let q : "one" ≡ "odd" = cc in let t = (string_eq.same_iff "one" "odd").1 q in cc)
odd_is_no_hash (suc zero) h =
    absurd (let q : "two" ≡ "odd" = cc in let t = (string_eq.same_iff "two" "odd").1 q in cc)
odd_is_no_hash (suc (suc e)) h = absurd cc

sized : (e : ℕ) (block : Bytes) → hashes e ≡ some (digest block) → length block ≡ 2
sized e block h = elim (Bool-cases (nat_beq (length block) 2)) [
  | inl two ↦ (nat_beq_iff (length block) 2).0 two
  | inr other ↦
      let odd : digest block ≡ "odd" = ground (arith, other) in
      absurd (odd_is_no_hash e (rw odd at h))
]

-- The hostile peer answers with the wrong bytes, and with too many.
abbrev order : ℕ → List String
order e = "hostile" ∷ "honest" ∷ []

abbrev block_of : ℕ → Bytes
block_of zero = 1 ∷ 7 ∷ []
block_of (suc e) = 5 ∷ 8 ∷ []

abbrev reply : ℕ → ℕ → String → Option Bytes
reply e attempt peer = if peer == "honest" then some (block_of e) else some (9 ∷ 9 ∷ 9 ∷ [])

abbrev at_start : Pull
at_start = record {
  file = open_layer digest 1 2 hashes 3 (42 ∷ []) none;
  stats = record { fetched = 0; skipped = 0; bytes = 0; delivered = [] };
  probed = false;
}

abbrev replies : ℕ → List (String × Option Bytes)
replies e = ("hostile", some (9 ∷ 9 ∷ [])) ∷ ("honest", some (block_of e)) ∷ []

abbrev end : Pull
end = record {
  file = 42 ∷ 1 ∷ 7 ∷ 5 ∷ 8 ∷ 0 ∷ 0 ∷ [];
  stats = record { fetched = 2; skipped = 0; bytes = 4; delivered = ("honest", 4) ∷ [] };
  probed = true;
}

pulls_both : pull_layer digest 1 2 hashes replies order reply (0 ∷ 1 ∷ []) at_start ≡ ok end
unfolding program
pulls_both = refl

skips_both :
    pull_layer digest 1 2 hashes replies order reply (0 ∷ 1 ∷ []) end
    ≡ ok (record end { stats = record end.stats { skipped = 2 } })
unfolding program
skips_both = refl

in_model : Published hashes 3 (0 ∷ 1 ∷ [])
in_model = (omega arith, (λ h. cc), (omega arith, (λ h. cc), tt))

sized_start : length at_start.file ≡ 1 + 3 * 2
unfolding program
sized_start = refl

pull_layer-verified_example : has_slot digest 1 2 hashes 1 end.file ≡ true
pull_layer-verified_example =
    pull_layer-verified digest 1 2 hashes 3 sized replies order reply (0 ∷ 1 ∷ []) at_start end 1
      sized_start in_model pulls_both refl

pull_layer-keeps_example :
    (has_slot digest 1 2 hashes 0
        (file_of (pull_layer digest 1 2 hashes replies order reply (1 ∷ []) end))
      ≡ true)
    × (length (file_of (pull_layer digest 1 2 hashes replies order reply (1 ∷ []) end))
        ≡ length end.file)
pull_layer-keeps_example =
    pull_layer-keeps digest 1 2 hashes 3 sized replies order reply (1 ∷ []) end 0 refl
      (omega arith, (λ h. cc), tt) refl

-- The hostile peer delivers nothing that verifies, and is not credited.
pull_layer-counted_example :
    (counted end ≡ counted at_start + length {A = ℕ} (0 ∷ 1 ∷ []))
    × (end.stats.bytes
        ≡ at_start.stats.bytes
          + total (arrivals digest 1 2 hashes replies order reply (0 ∷ 1 ∷ []) at_start))
    × (delivered_by "honest" end.stats.delivered
        ≡ delivered_by "honest" at_start.stats.delivered
          + sent_by "honest" (arrivals digest 1 2 hashes replies order reply (0 ∷ 1 ∷ []) at_start))
    × (delivered_sum end.stats.delivered ≡ end.stats.bytes)
pull_layer-counted_example =
    pull_layer-counted digest 1 2 hashes replies order reply (0 ∷ 1 ∷ []) at_start end "honest"
      pulls_both refl

arrives :
    arrivals digest 1 2 hashes replies order reply (0 ∷ 1 ∷ []) at_start
    ≡ ("honest", 2) ∷ ("honest", 2) ∷ []
unfolding program
arrives = refl

-- Two layers: of the first, a previous run has left the file with one of the two blocks.
abbrev both : List ℕ
both = 0 ∷ 1 ∷ []

abbrev input_of : Option Bytes → LayerInput
input_of old = record {
  header = 42 ∷ [];
  old = old;
  blocks = hashes;
  replies = replies;
  order = order;
  reply = reply;
}

abbrev inputs : List LayerInput
inputs = input_of (some (0 ∷ 1 ∷ 7 ∷ 0 ∷ 0 ∷ 0 ∷ 0 ∷ [])) ∷ input_of none ∷ []

abbrev whole : Run
whole = record {
  files = end.file ∷ end.file ∷ [];
  stats = record { fetched = 3; skipped = 1; bytes = 6; delivered = ("honest", 6) ∷ [] };
  complete = true;
}

fetches_both : fetch_partition digest 1 2 3 both inputs ≡ whole
unfolding program
fetches_both = refl

input_of-IsSound : (old : Option Bytes) → IsSound digest 1 2 3 both (input_of old)
input_of-IsSound old = record { fits = omega arith; sized = sized; wanted = in_model }

fetch_partition-verified_example :
    (all_verified digest 1 2 3 both inputs (fetch_partition digest 1 2 3 both inputs).files ≡ true)
    × ((fetch_partition digest 1 2 3 both inputs).stats.fetched
          + (fetch_partition digest 1 2 3 both inputs).stats.skipped
        ≡ length inputs * length both)
    × (delivered_sum (fetch_partition digest 1 2 3 both inputs).stats.delivered
        ≡ (fetch_partition digest 1 2 3 both inputs).stats.bytes)
fetch_partition-verified_example =
    fetch_partition-verified digest 1 2 3 both inputs
      (input_of-IsSound (some (0 ∷ 1 ∷ 7 ∷ 0 ∷ 0 ∷ 0 ∷ 0 ∷ [])), (input_of-IsSound none, tt))
      (rw fetches_both refl)
