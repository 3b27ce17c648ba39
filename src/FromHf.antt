-- ===== src/FromHf.antt =====
-- `fetch_from_hf` of src/expert_network/fetch_partition.py: a machine takes its share of a model from the
-- source checkpoint. SHA-256, the digest of the placement, the JSON of a layer's header and the old
-- layer files are parameters.
pub mod Held
pub mod Writes
pub mod Share
pub mod Complete
mod Tests
use expert_sniper.Prelude.{
  ℕ, zero, suc, ◌+◌, ◌*◌, Bool, true, false, Option, none, some, List, [], ◌∷◌, ◌++◌, String,
  length, pair_eq, string_eq, Eq, if◌then◌else◌,
}
use expert_sniper.Dict.{Dict, get?, set}
use expert_sniper.Hrw.{mem, partition}
use expert_sniper.Fetch.{Bytes, pwrite, rejected, has_slot, open_layer}
use expert_sniper.HfSource.Layout.{Layout, Header, Shards, expert_layout, page_size}
use expert_sniper.HfSource.Blocks.{fetch_expert_block}

-- A layer file, `got_hashes` and the counters.
pub record Take : Type 0 where
  pub file : Bytes
  pub hashes : Dict (ℕ × ℕ) String
  pub fetched : ℕ
  pub skipped : ℕ
  pub bytes : ℕ

-- The take when it goes on, or when an exception ends it.
pub data Outcome : Type 0 where
  ok : Take → Outcome
  raised : Take → Outcome

-- The rendezvous share of `me`, which joins the roster if it is not listed.
unfoldable pub my_share {ℓ} :
    {N : Type ℓ} ⦃e : Eq N⦄ → (N → ℕ → ℕ) → List N → N → ℕ → Option (List ℕ)
my_share digest roster me num_experts =
    partition digest (if mem me roster then roster else roster ++ me ∷ []) me num_experts

module _ (sha256 : Bytes → String) (want : ℕ × ℕ → Option String) (block_size : ℕ) (layer : ℕ) where
  abbrev pub wanted : ℕ → Option String
  wanted e = want (layer, e)

  -- The loop over `mine`: what the file holds intact is skipped, and its hash is noted.
  unfoldable pub sort_out : List ℕ → Take → List ℕ × Take
  sort_out [] t = ([], t)
  sort_out (e ∷ mine) t = elim (wanted e) [
    | none ↦ (e ∷ (sort_out mine t).0, (sort_out mine t).1)
    | some w ↦ elim (has_slot sha256 page_size block_size wanted e t.file) [
      | true ↦
          sort_out mine (record t { skipped = t.skipped + 1; hashes = set (layer, e) w t.hashes })
      | false ↦ (e ∷ (sort_out mine t).0, (sort_out mine t).1)
    ]
  ]

  unfoldable pub write_block : ℕ → Bytes → Take → Take
  write_block e block t = record t {
    file = pwrite block (page_size + e * block_size) t.file;
    hashes = set (layer, e) (sha256 block) t.hashes;
    fetched = t.fetched + 1;
    bytes = t.bytes + length block;
  }

  -- The loop over `pool.map(one, todo)`: a block that fails, or that the manifest contradicts, ends it.
  unfoldable pub write_all : (ℕ → Option Bytes) → List ℕ → Take → Outcome
  write_all source [] t = ok t
  write_all source (e ∷ todo) t = elim (source e) [
    | none ↦ raised t
    | some block ↦ elim (rejected sha256 (wanted e) block) [
      | true ↦ raised t
      | false ↦ write_all source todo (write_block e block t)
    ]
  ]

  unfoldable pub take_layer : (ℕ → Option Bytes) → List ℕ → Take → Outcome
  take_layer source mine t = let (todo, t') = sort_out mine t in write_all source todo t'

-- The layer files that were written, the rest of the take, and whether no exception ended it.
pub record Run : Type 0 where
  pub files : List Bytes
  pub last : Take
  pub complete : Bool

module _ (sha256 : Bytes → String) (want : ℕ × ℕ → Option String)
    (read : String → ℕ → ℕ → Option Bytes) (parse_json : Bytes → Option Header)
    (weight_map : Dict String String) (num_experts : ℕ) (tensor_name : ℕ → String → String)
    (header : ℕ → Layout → Bytes) (old : ℕ → Option Bytes) where
  abbrev pub layout_of : ℕ → Shards → Option (Layout × Shards)
  layout_of layer known =
      expert_layout read parse_json weight_map num_experts tensor_name layer known

  abbrev pub opened : ℕ → ℕ → Layout → Take → Take
  opened block_size layer lay t = record t {
    file =
        open_layer sha256 page_size block_size (wanted sha256 want block_size layer) num_experts
          (header layer lay) (old layer);
  }

  abbrev pub taken : ℕ → ℕ → Layout → List ℕ → Take → Outcome
  taken block_size layer lay mine t =
      take_layer sha256 want block_size layer (λ e. fetch_expert_block read e lay) mine
        (opened block_size layer lay t)

  -- The loop over the layers, with `count` layers left.
  unfoldable pub take_layers : ℕ → ℕ → ℕ → List ℕ → Shards → Take → Run
  take_layers block_size zero layer mine known t = record { files = []; last = t; complete = true }
  take_layers block_size (suc count) layer mine known t = elim (layout_of layer known) [
    | none ↦ record { files = []; last = t; complete = false }
    | some (lay, known') ↦ elim (taken block_size layer lay mine t) [
      | raised t' ↦ record { files = t'.file ∷ []; last = t'; complete = false }
      | ok t' ↦
          let rest = take_layers block_size count (layer + 1) mine known' t' in
          record rest { files = t'.file ∷ rest.files }
    ]
  ]

  -- The block size is that of the first layer. `none` is an exception before the loop.
  unfoldable pub fetch_from_hf {ℓ} :
      {N : Type ℓ} ⦃e : Eq N⦄ → (N → ℕ → ℕ) → List N → N → ℕ → Shards → Option Run
  fetch_from_hf digest roster me num_layers known = elim (layout_of 0 known) [
    | none ↦ none
    | some (lay, known') ↦ elim (my_share digest roster me num_experts) [
      | none ↦ none
      | some mine ↦ some (
          take_layers lay.expert_block_size num_layers 0 mine known'
            (record { file = []; hashes = []; fetched = 0; skipped = 0; bytes = 0 }))
    ]
  ]
