-- ===== src/FromHf/Complete.antt =====
-- All layers of `fetch_from_hf`.

use expert_sniper.Prelude.{
  ℕ, zero, suc, ◌+◌, ◌-◌, ◌*◌, ◌≤◌, ◌<◌, true, Option, some, List, [], ◌∷◌, String, length, take,
  drop, ◌≡◌, pair_eq,
}
use expert_sniper.Prelude.Sorted.{is_in}
use expert_sniper.Dict.{Dict, get?}
use expert_sniper.HfSource.Layout.{Layout, Header, Shards, page_size}
use expert_sniper.HfSource.Slices.{Inside}
use expert_sniper.Fetch.{Bytes}
use expert_sniper.FromHf.{Take, Run, layout_of}
use expert_sniper.FromHf.Held.{Held}

-- From layer `layer` on, each file holds all of `mine` with the hashes that were noted.
abbrev pub HeldFrom :
    (Bytes → String)
    → (ℕ × ℕ → Option String)
    → ℕ
    → ℕ
    → List ℕ
    → Dict (ℕ × ℕ) String
    → List Bytes
    → Type 0
HeldFrom sha256 want bs layer mine hashes [] = Unit
HeldFrom sha256 want bs layer mine hashes (f ∷ files) =
    ((x : ℕ) → is_in x mine ≡ true → Held sha256 want bs layer x f hashes)
    × HeldFrom sha256 want bs (layer + 1) mine hashes files

module _ (sha256 : Bytes → String) (want : ℕ × ℕ → Option String)
    (read : String → ℕ → ℕ → Option Bytes) (parse_json : Bytes → Option Header)
    (weight_map : Dict String String) (num_experts : ℕ) (tensor_name : ℕ → String → String)
    (header : ℕ → Layout → Bytes) (old : ℕ → Option Bytes) (file : String → Bytes)
    (honest : (shard : String) (s e : ℕ)
      → s ≤ e
      → e < length (file shard)
      → read shard s e ≡ some (take (e + 1 - s) (drop s (file shard)))) where
  -- The tensors of the layer lie in their shards, its blocks have the size `bs`, and its header fits.
  pub record IsSound (bs layer : ℕ) (lay : Layout) : Type 0 where
    pub inside : Inside read file honest parse_json weight_map num_experts tensor_name lay.sources
    pub size : lay.expert_block_size ≡ bs
    pub fits : length (header layer lay) ≤ page_size

  -- So it is for `count` layers from `layer` on, as their headers are read one after the other.
  abbrev pub AllSound : ℕ → ℕ → ℕ → Shards → Type 0
  AllSound bs zero layer known = Unit
  AllSound bs (suc count) layer known =
      (lay : Layout) (known' : Shards)
      → layout_of sha256 want read parse_json weight_map num_experts tensor_name header old layer
          known
        ≡ some (lay, known')
      → IsSound bs layer lay × AllSound bs count (layer + 1) known'

  record Taken (bs count layer : ℕ) (mine : List ℕ) (t : Take) (run : Run) : Type 0 where
    files : length run.files ≡ count
    held : HeldFrom sha256 want bs layer mine run.last.hashes run.files
    earlier : (k : ℕ × ℕ) → k.0 < layer → get? k run.last.hashes ≡ get? k t.hashes
    counts : run.last.fetched + run.last.skipped ≡ t.fetched + t.skipped + count * length mine
