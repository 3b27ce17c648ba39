-- ===== src/Driver.antt =====
-- `DistributedExpertReader` of src/expert_network/reader.py: the driver asks the nodes for their parts of a
-- layer, or computes a node's part itself from the experts in its hot cache. The answers of the nodes, the
-- floating-point sum and the numeric kernel are parameters. What is here has the hot cache on, except
-- `broadcast`, which is `compute_distributed` without it.
pub mod Compute
pub mod Knows
pub mod Warmed
pub mod Owners
pub mod TakenHot
pub mod Local
pub mod Parts
pub mod Exact
pub mod Sample
mod Tests
use expert_sniper.Prelude.{
  ℕ, zero, suc, ◌+◌, Bool, true, false, not, ◌&&◌, ◌||◌, Option, none, some, List, [], ◌∷◌, ◌++◌,
  String, length, max, nat_beq, nat_eq, pair_eq, string_eq, ◌==◌, if◌then◌else◌,
}
use expert_sniper.Prelude.Sorted.{is_in, sorted}
use expert_sniper.Dict.{Dict, get?, set, remove, contains}
use expert_sniper.Hrw.{filter}
use expert_sniper.Lru.{Cache, add, get, put, has}
use expert_sniper.Node.{Expert, Experts, compute_partial}

-- `_owner` has `none` for an expert that nobody serves, and no entry for one of unknown owner.
-- `_inflight` has a key for each fetch that has not ended.
pub record Driver {ℓ} (A : Type ℓ) : Type ℓ where
  pub node_urls : List String
  pub owner : Dict ℕ (Option String)
  pub partition : Dict String (List ℕ)
  pub hot : Cache (Expert A)
  pub inflight : Dict (ℕ × ℕ) (Unit {0})
  pub hot_hits : ℕ
  pub hot_misses : ℕ
  pub hot_skipped : ℕ
  pub hot_fetch_errors : ℕ
  pub requests_sent : ℕ

-- The answers of the nodes: the ids of `/partition`, and the bytes of `/block`; `none` for an
-- exception or another status.
pub record World : Type 0 where
  pub partition_of : String → Option (List ℕ)
  pub block_of : String → ℕ → ℕ → Option (List ℕ)

-- What the driver knows of an expert's owner.
pub data Owner : Type 0 where
  unknown : Owner
  nobody : Owner
  node : String → Owner

unfoldable pub owner_of : ℕ → Dict ℕ (Option String) → Owner
owner_of e owner = elim (get? e owner) [
  | none ↦ unknown
  | some none ↦ nobody
  | some (some url) ↦ node url
]

unfoldable pub set_owner : String → List ℕ → Dict ℕ (Option String) → Dict ℕ (Option String)
set_owner url [] owner = owner
set_owner url (e ∷ ids) owner = set_owner url ids (set e (some url) owner)

-- `_partition.setdefault(url, set()).add(eid)`
unfoldable pub add_to : String → ℕ → Dict String (List ℕ) → Dict String (List ℕ)
add_to url e partition = elim (get? url partition) [
  | none ↦ set url (e ∷ []) partition
  | some ids ↦ set url (add e ids) partition
]

-- The first candidate that answers with a block of the right size.
unfoldable pub ask_nodes : World → ℕ → ℕ → ℕ → List String → Option (String × List ℕ)
ask_nodes world block_size l e [] = none
ask_nodes world block_size l e (url ∷ urls) = elim (world.block_of url l e) [
  | none ↦ ask_nodes world block_size l e urls
  | some raw ↦ elim (nat_beq (length raw) block_size) [
    | true ↦ some (url, raw)
    | false ↦ ask_nodes world block_size l e urls
  ]
]

abbrev pub is_known : Owner → Bool
is_known unknown = false
is_known nobody = true
is_known (node url) = true

abbrev pub owned_by : String → Owner → Bool
owned_by url unknown = false
owned_by url nobody = false
owned_by url (node other) = other == url

module _ {ℓ} {A : Type ℓ} where
  unfoldable pub learn_partitions : World → List String → Driver A → Driver A
  learn_partitions world [] d = d
  learn_partitions world (url ∷ urls) d = elim (world.partition_of url) [
    | none ↦ learn_partitions world urls d
    | some ids ↦
        learn_partitions world urls
          (record d { partition = set url ids d.partition; owner = set_owner url ids d.owner })
  ]

  unfoldable pub candidates : ℕ → Driver A → List String
  candidates e d = elim (owner_of e d.owner) [
    | unknown ↦ d.node_urls
    | nobody ↦ []
    | node url ↦ url ∷ []
  ]

  -- `raw is None`: an expert of unknown owner that no node serves is not asked for again.
  unfoldable pub not_served : ℕ → Driver A → Driver A
  not_served e d = elim (owner_of e d.owner) [
    | unknown ↦ elim d.node_urls [
      | [] ↦ record d { hot_fetch_errors = d.hot_fetch_errors + 1 }
      | url ∷ urls ↦ record d {
        owner = set e none d.owner;
        hot_fetch_errors = d.hot_fetch_errors + 1;
      }
    ]
    | _ ↦ record d { hot_fetch_errors = d.hot_fetch_errors + 1 }
  ]

  unfoldable pub served : String → ℕ → Driver A → Driver A
  served url e d = record d {
    owner = set e (some url) d.owner;
    partition = add_to url e d.partition;
  }

  -- `_fetch_block`, which runs on the fetch executor; an exception of the parse or of the cache ends it.
  unfoldable pub fetch_block :
      (List ℕ → Option (Expert A)) → World → ℕ → ℕ → ℕ → Driver A → Driver A
  fetch_block parse world block_size l e d =
      elim (ask_nodes world block_size l e (candidates e d)) [
        | none ↦ not_served e d
        | some (url, raw) ↦ elim (parse raw) [
          | none ↦ served url e d
          | some expert ↦ elim (put l e expert d.hot) [
            | none ↦ served url e d
            | some hot ↦ record (served url e d) { hot = hot }
          ]
        ]
      ]

  -- A fetch in flight ends: `_fetch_block`, and the callback `_done`.
  unfoldable pub land : (List ℕ → Option (Expert A)) → World → ℕ → ℕ × ℕ → Driver A → Driver A
  land parse world block_size (l, e) d =
      let d' = fetch_block parse world block_size l e d in
      record d' { inflight = remove (l, e) d'.inflight }

  unfoldable pub land_all :
      (List ℕ → Option (Expert A)) → World → ℕ → List (ℕ × ℕ) → Driver A → Driver A
  land_all parse world block_size [] d = d
  land_all parse world block_size (key ∷ keys) d =
      land_all parse world block_size keys (land parse world block_size key d)

  unfoldable pub warm : ℕ → ℕ → Driver A → Driver A
  warm l e d =
      if contains (l, e) d.inflight || has l e d.hot then d else elim (owner_of e d.owner) [
        | nobody ↦ d
        | _ ↦ record d { inflight = set (l, e) tt d.inflight }
      ]

  unfoldable pub warm_all : ℕ → List ℕ → Driver A → Driver A
  warm_all l [] d = d
  warm_all l (e ∷ ids) d = warm_all l ids (warm l e d)
