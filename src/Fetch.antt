-- ===== src/Fetch.antt =====
-- src/expert_network/fetch_partition.py: the blocks of this machine's experts, pulled from peers and
-- checked against the published hashes. SHA-256 and the peers' replies are parameters.
pub mod Slots
pub mod Accepted
pub mod Verified
pub mod Layer
pub mod Credit
pub mod Layers
mod Tests
use expert_sniper.Prelude.{
  ◌≡◌, refl, arith, ℕ, zero, suc, ◌+◌, ◌-◌, ◌*◌, ◌%◌, Bool, true, false, not, ◌&&◌, Option, none,
  some, List, [], ◌∷◌, ◌++◌, String, length, take, drop, get_elem?, nat_beq, string_eq, ◌==◌,
  if◌then◌else◌,
}
use expert_sniper.Dict.{Dict, get?, set}

abbrev pub Bytes : Type 0
Bytes = List ℕ

-- `b"\x00" * n`
abbrev pub zeros : ℕ → Bytes
zeros zero = []
zeros (suc n) = 0 ∷ zeros n

pub length-zeros : (n : ℕ) → length (zeros n) ≡ n
length-zeros zero = refl
length-zeros (suc n) = omega (arith, length-zeros n)

-- `os.pread(fd, size, offset)` and `os.pwrite(fd, data, offset)`
abbrev pub pread : ℕ → ℕ → Bytes → Bytes
pread size offset file = take size (drop offset file)

unfoldable pub pwrite : Bytes → ℕ → Bytes → Bytes
pwrite written offset file =
    (take offset file ++ zeros (offset - length file))
    ++ (written ++ drop (offset + length written) file)

-- `delivered` and the counters of `stats`.
pub record Stats : Type 0 where
  pub fetched : ℕ
  pub skipped : ℕ
  pub bytes : ℕ
  pub delivered : Dict String ℕ

-- One layer file, the counters, and whether the peers were probed.
pub record Pull : Type 0 where
  pub file : Bytes
  pub stats : Stats
  pub probed : Bool

-- The pull when it goes on, or when an exception ends it.
pub data Outcome : Type 0 where
  ok : Pull → Outcome
  raised : Pull → Outcome

abbrev pub file_of : Outcome → Bytes
file_of (ok p) = p.file
file_of (raised p) = p.file

abbrev pub delivered_by : String → Dict String ℕ → ℕ
delivered_by node d = elim (get? node d) [ none ↦ 0 | some n ↦ n ]

unfoldable pub credit : String → ℕ → Stats → Stats
credit node n s = record s {
  delivered = set node (delivered_by node s.delivered + n) s.delivered;
  bytes = s.bytes + n;
}

-- The loop over the peers after the probe: each delivery is credited, and the last one is kept.
unfoldable pub take_probe :
    List (String × Option Bytes) → Option Bytes → Stats → Option Bytes × Stats
take_probe [] got s = (got, s)
take_probe ((peer, none) ∷ results) got s = take_probe results got s
take_probe ((peer, some block) ∷ results) got s =
    take_probe results (some block) (credit peer (length block) s)

module _ (sha256 : Bytes → String) where
  -- `want_hash and sha256(data) != want_hash`. A hash is `none` where the manifest has none or an empty one,
  -- which is falsy.
  abbrev pub rejected : Option String → Bytes → Bool
  rejected none reply = false
  rejected (some want) reply = not (sha256 reply == want)

  -- The attempts of `fetch_block`: `order` is the draw of the ranker, `reply` what the peer answers
  -- to an attempt (`none` for an error). `none` is the exception after the last attempt.
  unfoldable pub fetch_block :
      Option String → List String → (ℕ → String → Option Bytes) → ℕ → ℕ → Option (Bytes × String)
  fetch_block want order reply attempt zero = none
  fetch_block want order reply attempt (suc tries) =
      elim (get_elem? order (attempt % length order)) [
        | none ↦ none
        | some peer ↦ elim (reply attempt peer) [
          | none ↦ fetch_block want order reply (attempt + 1) tries
          | some block ↦ elim (rejected want block) [
            | true ↦ fetch_block want order reply (attempt + 1) tries
            | false ↦ some (block, peer)
          ]
        ]
      ]

  -- `PeerRanker.probe`: what each peer delivered, or nothing if it failed or its hash is wrong.
  unfoldable pub probe : Option String → List (String × Option Bytes) → List (String × Option Bytes)
  probe want [] = []
  probe want ((peer, none) ∷ replies) = (peer, none) ∷ probe want replies
  probe want ((peer, some block) ∷ replies) =
      (peer, if rejected want block then none else some block) ∷ probe want replies

  module _ (page block_size : ℕ) (blocks : ℕ → Option String) where
    abbrev pub slot_offset : ℕ → ℕ
    slot_offset e = page + e * block_size

    -- `_have_block`
    abbrev pub have_block : Option String → Bytes → Bool
    have_block none raw = false
    have_block (some want) raw = nat_beq (length raw) block_size && (sha256 raw == want)

    abbrev pub has_slot : ℕ → Bytes → Bool
    has_slot e file = have_block (blocks e) (pread block_size (slot_offset e) file)

    -- The loop over `mine`: what the file holds intact is skipped.
    unfoldable pub missing : List ℕ → Pull → List ℕ × Pull
    missing [] p = ([], p)
    missing (e ∷ mine) p = elim (has_slot e p.file) [
      | true ↦ missing mine (record p { stats = record p.stats { skipped = p.stats.skipped + 1 } })
      | false ↦ (e ∷ (missing mine p).0, (missing mine p).1)
    ]

    unfoldable pub store_block : ℕ → Bytes → Stats → Pull → Pull
    store_block e block s p = record p {
      file = pwrite block (slot_offset e) p.file;
      stats = record s { fetched = s.fetched + 1 };
    }

    -- The probe: the first missing block is asked of every peer, once in a run.
    unfoldable pub first_block : (ℕ → List (String × Option Bytes)) → List ℕ → Pull → List ℕ × Pull
    first_block replies [] p = ([], p)
    first_block replies (e ∷ todo) p = elim p.probed [
      | true ↦ (e ∷ todo, p)
      | false ↦
          let kept = take_probe (probe (blocks e) (replies e)) none p.stats in
          elim kept.0 [
            | none ↦ (e ∷ todo, record p { probed = true; stats = kept.1 })
            | some block ↦ (todo, store_block e block kept.1 (record p { probed = true }))
          ]
    ]

    -- The loop over `pool.map(one, todo)`: the results arrive in the order of `todo`.
    unfoldable pub pull_all :
        (ℕ → List String) → (ℕ → ℕ → String → Option Bytes) → List ℕ → Pull → Outcome
    pull_all order reply [] p = ok p
    pull_all order reply (e ∷ todo) p = elim (fetch_block (blocks e) (order e) (reply e) 0 3) [
      | none ↦ raised p
      | some (block, peer) ↦
          let stored = store_block e block p.stats p in
          pull_all order reply todo
            (record stored { stats = credit peer (length block) stored.stats })
    ]

    -- One turn of the loop over the layers, from the file as it is opened: a file of the right size
    -- is kept, and anything else becomes a file of zeros. The header is written in any case.
    unfoldable pub open_layer : ℕ → Bytes → Option Bytes → Bytes
    open_layer num_experts header old =
        let size = page + num_experts * block_size in
        let padded = header ++ zeros (page - length header) in
        let sparse = take size (padded ++ zeros size) in
        elim old [
          | none ↦ sparse
          | some bytes ↦ if nat_beq (length bytes) size then pwrite padded 0 bytes else sparse
        ]

    unfoldable pub pull_layer :
        (ℕ → List (String × Option Bytes))
        → (ℕ → List String)
        → (ℕ → ℕ → String → Option Bytes)
        → List ℕ
        → Pull
        → Outcome
    pull_layer replies order reply mine p =
        let (todo, p1) = missing mine p in
        let (todo', p2) = first_block replies todo p1 in pull_all order reply todo' p2

-- What `fetch_partition` meets at one layer: the header, the old file, the published hashes, and what
-- the peers do.
pub record LayerInput : Type 0 where
  pub header : Bytes
  pub old : Option Bytes
  pub blocks : ℕ → Option String
  pub replies : ℕ → List (String × Option Bytes)
  pub order : ℕ → List String
  pub reply : ℕ → ℕ → String → Option Bytes

-- The layer files that were opened, the counters, and whether no exception ended the run.
pub record Run : Type 0 where
  pub files : List Bytes
  pub stats : Stats
  pub complete : Bool

module _ (sha256 : Bytes → String) (page block_size num_experts : ℕ) (mine : List ℕ) where
  abbrev pub opened : LayerInput → Stats → Bool → Pull
  opened layer stats probed = record {
    file = open_layer sha256 page block_size layer.blocks num_experts layer.header layer.old;
    stats = stats;
    probed = probed;
  }

  abbrev pub pulled : LayerInput → Stats → Bool → Outcome
  pulled layer stats probed =
      pull_layer sha256 page block_size layer.blocks layer.replies layer.order layer.reply mine
        (opened layer stats probed)

  -- The loop over the layers.
  unfoldable pub fetch_layers : List LayerInput → Stats → Bool → Run
  fetch_layers [] stats probed = record { files = []; stats = stats; complete = true }
  fetch_layers (layer ∷ layers) stats probed = elim (pulled layer stats probed) [
    | raised p ↦ record { files = p.file ∷ []; stats = p.stats; complete = false }
    | ok p ↦
        let rest = fetch_layers layers p.stats p.probed in
        record rest { files = p.file ∷ rest.files }
  ]

  unfoldable pub fetch_partition : List LayerInput → Run
  fetch_partition layers =
      fetch_layers layers (record { fetched = 0; skipped = 0; bytes = 0; delivered = [] }) false
