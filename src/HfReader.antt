-- ===== src/HfReader.antt =====
-- `HFExpertReader` of src/expert_network/hf_reader.py: experts come from the cache, from the sparse files on
-- the disk, or from the checkpoint. `expert_layout` and `fetch_expert_block` of the checkpoint (HfSource) are
-- arguments, which may fail. A future is the result that its fetch has had: it runs when it is submitted, by
-- the sources as they are then, and it keeps a failure.
pub mod Faithful
pub mod Fetched
pub mod Right
pub mod Ready
pub mod Serves
pub mod History
mod Tests
use expert_sniper.Prelude.{
  ℕ, ◌+◌, ◌*◌, Bool, true, false, not, ◌&&◌, ◌||◌, Option, none, some, List, [], ◌∷◌, String,
  length, nat_beq, nat_eq, pair_eq, string_eq, if◌then◌else◌,
}
use expert_sniper.Dict.{Dict, get?, set, remove, contains}
use expert_sniper.Hrw.{mem}
use expert_sniper.Lru.{init, Cache, get, put, has}
use expert_sniper.Fetch.{Bytes}
use expert_sniper.Reader.Format.{Info, pread}
use expert_sniper.HfSource.Layout.{Layout}
use expert_sniper.Node.{LayerLayout, Expert, block_bytes, parse_expert_block}

-- What the disk and the checkpoint are at the time of a call. `layer_header` opens a layer file and reads
-- its header: `some none` where there is no file, `none` an exception. `file` is what an open file holds.
-- `none` is an exception of the checkpoint.
pub record Sources : Type 0 where
  pub layer_header : ℕ → Option (Option LayerLayout)
  pub file : ℕ → Bytes
  pub expert_layout : ℕ → Option Layout
  pub fetch_expert_block : ℕ → ℕ → Layout → Option Bytes

-- The result of `_fetch`: true for a block from the disk. `none` is an exception.
abbrev pub Fetched : Type 0
Fetched = Option (Bool × Bytes)

-- `headers` is `_fds` and `_headers`: what is there of a layer once it was looked for.
pub record HfReader {ℓ} (A : Type ℓ) : Type ℓ where
  pub lru : Cache (Expert A)
  pub prefetch_futures : Dict ℕ (Dict ℕ Fetched)
  pub headers : Dict ℕ (Option LayerLayout)
  pub layouts : Dict ℕ Layout
  pub reads : ℕ
  pub local_hits : ℕ
  pub hf_reads : ℕ
  pub bytes_read : ℕ

unfoldable pub new_reader {ℓ} : {A : Type ℓ} → ℕ → HfReader A
new_reader cache_size = record {
  lru = init cache_size;
  prefetch_futures = [];
  headers = [];
  layouts = [];
  reads = 0;
  local_hits = 0;
  hf_reads = 0;
  bytes_read = 0;
}

-- `any(probe)`
abbrev pub any_byte : Bytes → Bool
any_byte [] = false
any_byte (b ∷ bytes) = not (nat_beq b 0) || any_byte bytes

-- The calls of an engine.
pub data Call : Type 0 where
  prefetch : ℕ → List ℕ → Call
  reset : Call
  experts : ℕ → List ℕ → Call

unfoldable pub futures_at {ℓ} : {A : Type ℓ} → ℕ → HfReader A → Dict ℕ Fetched
futures_at l r = elim (get? l r.prefetch_futures) [ none ↦ [] | some futs ↦ futs ]

-- `listed` is `self.local`, the keys of `manifest.partial.json`, which `__init__` reads once; `view` makes an
-- array of bytes.
module _ {ℓ} {A : Type ℓ} (listed : List (ℕ × ℕ)) (view : Info → Bytes → Option A) where
  module _ (src : Sources) where
    -- `_layer`
    unfoldable pub layer_of : ℕ → HfReader A → HfReader A × Option (Option LayerLayout)
    layer_of l r = elim (get? l r.headers) [
      | some header ↦ (r, some header)
      | none ↦ elim (src.layer_header l) [
        | none ↦ (r, none)
        | some header ↦ (record r { headers = set l header r.headers }, some header)
      ]
    ]

    -- Whether the block on the disk is real and not a hole.
    abbrev pub is_real : LayerLayout → ℕ → ℕ → Bool
    is_real layout l e = elim listed [
      | [] ↦ any_byte (pread 4096 (layout.data_start + e * layout.expert_block_size) (src.file l))
      | key ∷ keys ↦ mem (l, e) (key ∷ keys)
    ]

    unfoldable pub local_block : Option LayerLayout → ℕ → ℕ → Option Bytes
    local_block none l e = none
    local_block (some layout) l e = elim (is_real layout l e) [
      | true ↦ some (block_bytes (src.file l) e layout)
      | false ↦ none
    ]

    unfoldable pub read_local : ℕ → ℕ → HfReader A → HfReader A × Option (Option Bytes)
    read_local l e r =
        let (r', header) = layer_of l r in
        elim header [ none ↦ (r', none) | some h ↦ (r', some (local_block h l e)) ]

    -- The layout of the checkpoint, kept in `_layouts`.
    unfoldable pub hf_layout : ℕ → HfReader A → HfReader A × Option Layout
    hf_layout l r = elim (get? l r.layouts) [
      | some lay ↦ (r, some lay)
      | none ↦ elim (src.expert_layout l) [
        | none ↦ (r, none)
        | some lay ↦ (record r { layouts = set l lay r.layouts }, some lay)
      ]
    ]

    -- `layout(layer)["tensors"]`
    unfoldable pub tensors_of : ℕ → HfReader A → HfReader A × Option (Dict String Info)
    tensors_of l r =
        let (r', header) = layer_of l r in
        elim header [
          | none ↦ (r', none)
          | some h ↦ elim h [
            | some layout ↦ (r', some layout.tensors)
            | none ↦
                let (r'', found) = hf_layout l r' in
                elim found [ none ↦ (r'', none) | some lay ↦ (r'', some lay.tensors) ]
          ]
        ]

    -- The fetch of a block that is not on the disk.
    unfoldable pub fetch_remote : ℕ → ℕ → HfReader A → HfReader A × Fetched
    fetch_remote l e r =
        let (r', found) = hf_layout l r in
        elim found [
          | none ↦ (r', none)
          | some lay ↦ elim (src.fetch_expert_block l e lay) [
            | none ↦ (r', none)
            | some raw ↦ (r', some (false, raw))
          ]
        ]

    -- `_fetch`
    unfoldable pub fetch : ℕ → ℕ → HfReader A → HfReader A × Fetched
    fetch l e r =
        let (r', got) = read_local l e r in
        elim got [
          | none ↦ (r', none)
          | some here ↦ elim here [ some raw ↦ (r', some (true, raw)) | none ↦ fetch_remote l e r' ]
        ]

    -- The ids of a layer that have no future yet and are not cached get one.
    unfoldable pub submit : ℕ → List ℕ → Dict ℕ Fetched → HfReader A → HfReader A × Dict ℕ Fetched
    submit l [] futs r = (r, futs)
    submit l (e ∷ ids) futs r = elim (contains e futs || has l e r.lru) [
      | true ↦ submit l ids futs r
      | false ↦ let (r', got) = fetch l e r in submit l ids (set e got futs) r'
    ]

    unfoldable pub prefetch_experts : ℕ → List ℕ → HfReader A → HfReader A
    prefetch_experts l ids r =
        let (r', futs) = submit l ids (futures_at l r) r in
        record r' { prefetch_futures = set l futs r'.prefetch_futures }

    -- `futs.get(eid) or self.pool.submit(...)`
    unfoldable pub future_for : ℕ → Dict ℕ Fetched → ℕ → HfReader A → HfReader A × Fetched
    future_for l futs e r = elim (get? e futs) [ some got ↦ (r, got) | none ↦ fetch l e r ]

    -- The loop over the ids: what is cached, and `pending`.
    unfoldable pub look_up :
        ℕ
        → Dict ℕ Fetched
        → List ℕ
        → Dict ℕ (Expert A)
        → Dict ℕ Fetched
        → HfReader A
        → HfReader A × (Dict ℕ (Expert A) × Dict ℕ Fetched)
    look_up l futs [] out pending r = (r, (out, pending))
    look_up l futs (e ∷ ids) out pending r =
        let (lru, found) = get l e r.lru in
        let r' : HfReader A = record r { lru = lru } in
        elim found [
          | none ↦
              let (r'', got) = future_for l futs e r' in
              look_up l futs ids out (set e got pending) r''
          | some expert ↦ look_up l futs ids (set e expert out) pending r'
        ]

  unfoldable pub reset_prefetch : HfReader A → HfReader A
  reset_prefetch r = record r { prefetch_futures = [] }

  -- The loop over `pending`. `none` is an exception, which may be that of a future.
  unfoldable pub consume :
      ℕ
      → Dict String Info
      → Dict ℕ Fetched
      → Dict ℕ (Expert A)
      → HfReader A
      → HfReader A × Option (Dict ℕ (Expert A))
  consume l tensors [] out r = (r, some out)
  consume l tensors ((e, none) ∷ pending) out r = (r, none)
  consume l tensors ((e, some (is_local, raw)) ∷ pending) out r =
      elim (parse_expert_block view raw tensors) [
        | none ↦ (r, none)
        | some expert ↦ elim (put l e expert r.lru) [
          | none ↦ (r, none)
          | some lru ↦ consume l tensors pending (set e expert out) (record r {
            lru = lru;
            bytes_read = r.bytes_read + length raw;
            local_hits = r.local_hits + (if is_local then 1 else 0);
            hf_reads = r.hf_reads + (if is_local then 0 else 1);
          })
        ]
      ]

  -- A prefetch that was not consumed is stored; its exceptions are swallowed.
  unfoldable pub store_rest : ℕ → Dict String Info → ℕ → Fetched → HfReader A → HfReader A
  store_rest l tensors e none r = r
  store_rest l tensors e (some (is_local, raw)) r = elim (parse_expert_block view raw tensors) [
    | none ↦ r
    | some expert ↦ elim (put l e expert r.lru) [ none ↦ r | some lru ↦ record r { lru = lru } ]
  ]

  unfoldable pub keep_rest :
      ℕ → Dict String Info → Dict ℕ Fetched → Dict ℕ Fetched → HfReader A → HfReader A
  keep_rest l tensors pending [] r = r
  keep_rest l tensors pending ((e, got) ∷ futs) r =
      keep_rest l tensors pending futs (elim (contains e pending || has l e r.lru) [
        | true ↦ r
        | false ↦ store_rest l tensors e got r
      ])

  unfoldable pub get_experts :
      Sources → ℕ → List ℕ → HfReader A → HfReader A × Option (Dict ℕ (Expert A))
  get_experts src l ids r =
      let futs = futures_at l r in
      let popped : HfReader A = record r { prefetch_futures = remove l r.prefetch_futures } in
      let (r1, (out, pending)) = look_up src l futs ids [] [] popped in
      let (r2, found) = tensors_of src l r1 in
      elim found [
        | none ↦ (r2, none)
        | some tensors ↦
            let (r3, answer) = consume l tensors pending out r2 in
            elim answer [
              | none ↦ (r3, none)
              | some out' ↦
                  let r4 = keep_rest l tensors pending futs r3 in
                  (record r4 { reads = r4.reads + length ids }, some out')
            ]
      ]

  unfoldable pub make : Sources → Call → HfReader A → HfReader A
  make src (prefetch l ids) r = prefetch_experts src l ids r
  make src reset r = reset_prefetch r
  make src (experts l ids) r = (get_experts src l ids r).0

  -- Calls one after the other, each with the disk and the checkpoint as they are then.
  unfoldable pub run : List (Sources × Call) → HfReader A → HfReader A
  run [] r = r
  run ((src, call) ∷ history) r = run history (make src call r)
