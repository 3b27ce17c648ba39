-- ===== src/HfReader/Tests.antt =====
-- A layer with expert 0 on the disk and expert 1 in the checkpoint only, an outage, and an instance of the
-- theorem.

use expert_sniper.Prelude.{
  ℕ, suc, Bool, true, false, ◌&&◌, Option, none, some, List, [], ◌∷◌, String, ◌≡◌, ◌≢◌, refl, sym,
  ap, ◌∙◌, inl, inr, arith, Bool-cases, nat_beq, nat_eq, pair_eq, string_eq, if◌then◌else◌,
}
use expert_sniper.Dict.{Dict, get?, set, remove}
use expert_sniper.Hrw.{mem}
use expert_sniper.Lru.{get, put, has, init, make_room, store_new, layer_ids}
use expert_sniper.Reader.Format.{Info}
use expert_sniper.HfSource.Layout.{Layout}
use expert_sniper.Node.{block_bytes, LayerLayout, Expert, parse_tensors}
use expert_sniper.HfReader.{
  Sources, HfReader, Call, prefetch, experts, layer_of, local_block, read_local, hf_layout,
  tensors_of, fetch_remote, fetch, submit, futures_at, prefetch_experts, reset_prefetch, future_for,
  look_up, consume, store_rest, keep_rest, get_experts, make, run, new_reader,
}
use expert_sniper.HfReader.Faithful.{Truth, IsFaithful, true_expert, CanServe}
use expert_sniper.HfReader.History.{get_experts-true_expert}

abbrev tensors : Dict String Info
tensors =
    ("w", record { inner_offset = 0; nbytes = 2; shape_per_expert = 2 ∷ []; dtype = "uint8" }) ∷ []

abbrev layer_layout : LayerLayout
layer_layout = record { data_start = 1; expert_block_size = 2; tensors = tensors }

abbrev layout : Layout
layout = record {
  expert_block_size = 2;
  data_start = 1;
  tensors = tensors;
  sources = [];
  payload = 2;
}

abbrev block_for : ℕ → List ℕ
block_for e = suc e ∷ 7 ∷ []

abbrev model : Truth
model = record { layout = λ l. layout; header = λ l. layer_layout; block = λ l e. block_for e }

abbrev bytes_view : Info → List ℕ → Option (List ℕ)
bytes_view info bytes = some bytes

abbrev listed : List (ℕ × ℕ)
listed = (0, 0) ∷ []

abbrev sources : Bool → Sources
sources online = record {
  layer_header = λ l. some (some layer_layout);
  file = λ l. 9 ∷ 1 ∷ 7 ∷ 0 ∷ 0 ∷ [];
  expert_layout = λ l. if online then some layout else none;
  fetch_expert_block = λ l e lay. if online then some (block_for e) else none;
}

some_inj {ℓ} : {X : Type ℓ} {x y : X} → ◌≡◌ {A = Option X} (some x) (some y) → x ≡ y
some_inj h = cc

on_disk :
    (online : Bool) (l e : ℕ) (raw : List ℕ)
    → local_block listed bytes_view (sources online) (some layer_layout) l e ≡ some raw
    → raw ≡ block_for e
unfolding local_block mem
on_disk online l e raw h = elim (Bool-cases (nat_beq 0 l && nat_beq 0 e)) [
  | inr p ↦ absurd (let never = rw (local_block, p) at h in cc)
  | inl p ↦
      let first : 0 ≡ e = ground (arith, p) in
      let bytes = rw (local_block, p) at h in
      let at_zero : some raw ≡ some (1 ∷ 7 ∷ []) =
        sym bytes
        ∙ ap (λ x. some (block_bytes (9 ∷ 1 ∷ 7 ∷ 0 ∷ 0 ∷ []) x layer_layout)) (sym first) in
      let raw_is : raw ≡ block_for 0 = cc in raw_is ∙ ap block_for first
]

from_checkpoint {ℓ} :
    {X : Type ℓ} (online : Bool) (x y : X) → (if online then some x else none) ≡ some y → y ≡ x
from_checkpoint true x y h = cc
from_checkpoint false x y h = absurd cc

is_faithful : (online : Bool) → IsFaithful listed bytes_view model (sources online)
is_faithful online = record {
  layouts = λ l lay h. from_checkpoint online layout lay h;
  blocks = λ l e raw h. from_checkpoint online (block_for e) raw h;
  headers = λ l header h. some_inj (some_inj (sym h));
  same_tensors = λ l. refl;
  local_blocks = on_disk online;
}

program : Unit {0}
unfolding get? set remove mem get put has init make_room store_new layer_ids parse_tensors layer_of
    local_block read_local hf_layout tensors_of fetch_remote fetch submit futures_at
    prefetch_experts reset_prefetch future_for look_up consume store_rest keep_rest get_experts make
    run new_reader
program = tt

abbrev after : List (Sources × Call) → HfReader (List ℕ)
after history = run listed bytes_view history (new_reader 4)

abbrev ask : Bool → List ℕ → HfReader (List ℕ) → Option (Dict ℕ (Expert (List ℕ)))
ask online ids r = (get_experts listed bytes_view (sources online) 0 ids r).1

-- Expert 1 is prefetched while the checkpoint is out of reach. A call raises this exception later, although
-- the checkpoint is back, and the next call answers.
abbrev outage : List (Sources × Call)
outage = (sources false, prefetch 0 (1 ∷ [])) ∷ []

failure_is_kept : ask true (1 ∷ []) (after outage) ≡ none
unfolding program
failure_is_kept = refl

abbrev raised_once : List (Sources × Call)
raised_once = (sources false, prefetch 0 (1 ∷ [])) ∷ (sources true, experts 0 (0 ∷ 1 ∷ [])) ∷ []

retry_answers : ask true (1 ∷ []) (after raised_once) ≡ some ((1, ("w", 2 ∷ 7 ∷ []) ∷ []) ∷ [])
unfolding program
retry_answers = refl

-- The other way round: what was prefetched in time is served in the outage.
abbrev in_time : List (Sources × Call)
in_time = (sources true, prefetch 0 (1 ∷ [])) ∷ []

prefetch_survives :
    ask false (0 ∷ 1 ∷ []) (after in_time)
    ≡ some ((0, ("w", 1 ∷ 7 ∷ []) ∷ []) ∷ (1, ("w", 2 ∷ 7 ∷ []) ∷ []) ∷ [])
unfolding program
prefetch_survives = refl

first_is_cached : (after raised_once).local_hits ≡ 1
unfolding program
first_is_cached = refl

-- Nothing is held for the layer after the call that raised.
nothing_held : futures_at 0 (after raised_once) ≡ []
unfolding program
nothing_held = refl

header_is_known : get? 0 (after raised_once).headers ≡ some (some layer_layout)
unfolding program
header_is_known = refl

not_failed : (e : ℕ) → get? e (futures_at 0 (after raised_once)) ≢ some none
unfolding get?
not_failed e h = absurd (let h' = rw nothing_held at h in cc)

can_serve : (e : ℕ) → CanServe listed bytes_view model (sources true) (some layer_layout) 0 e
unfolding parse_tensors set
can_serve e = (inr (refl, block_for e, refl), ("w", suc e ∷ 7 ∷ []) ∷ [], refl)

get_experts-true_expert_example :
    (out : Dict ℕ (Expert (List ℕ))) × ((get_experts listed bytes_view
        (sources true)
        0
        (0 ∷ 1 ∷ [])
        (run listed bytes_view raised_once (new_reader 4))).1
      ≡ some out)
    × (x : Expert (List ℕ)) × (get? 1 out ≡ some x)
    × (true_expert listed bytes_view model 0 1 ≡ some x)
get_experts-true_expert_example =
    get_experts-true_expert listed bytes_view model raised_once 4 (sources true) 0 (0 ∷ 1 ∷ [])
      (some layer_layout) (omega arith) (is_faithful false, (is_faithful true, tt))
      (is_faithful true) (inl header_is_known) (λ e m. can_serve e) (λ e m. not_failed e) 1 refl
