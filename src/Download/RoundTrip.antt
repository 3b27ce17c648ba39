-- ===== src/Download/RoundTrip.antt =====
-- What `_write_layer` writes, the reader reads.
use mathlib.Core.Path.{subst}
use expert_sniper.Prelude.{
  ℕ, ◌+◌, ◌-◌, ◌*◌, ◌<◌, ◌≤◌, Bool, true, false, Option, none, some, List, [], ◌∷◌, ◌++◌, String,
  length, take, map, ◌≡◌, refl, sym, ap, ◌∙◌, arith, length-append, take-append, string_eq,
}
use expert_sniper.Dict.{Dict}
use expert_sniper.Hrw.{range}
use expert_sniper.Prelude.Sorted.{AllBelow}
use expert_sniper.Speculative.Lookup.Best.{list_eq_refl}
use expert_sniper.Fetch.{Bytes, zeros, length-zeros}
use expert_sniper.Reader.Format.{Info, Files, read_expert, pread}
use expert_sniper.Reader.Blocks.{AllLong, concat, read_expert-block}
use expert_sniper.HfSource.Layout.{tensor_order, page_size}
use expert_sniper.HfSource.Slices.{aligned, names_differ}
use expert_sniper.Download.{
  LayerTensors, lay_out, round_up, expert_data, write_blocks, verify, Written, write_fresh,
  write_layer,
}
use expert_sniper.Download.Laid.{AllRows, HoldsExpert, LaidOut, lay_out-Laid, expert_data-Joined}
use expert_sniper.Download.Blocks.{
  length-map-range, padded, block_of, block_of-padded, write_blocks-concat, get_elem?-map-range,
  range-AllBelow,
}

-- How a reader sees a layer file whose header has this layout.
abbrev pub files_of {ℓ} :
    {A : Type ℓ} → (Info → Bytes → Option A) → Bytes → Dict String Info → ℕ → Files A
files_of view file tensor_info block_size = record {
  file = λ l. some file;
  view = view;
  data_start = page_size;
  expert_block_size = block_size;
  tensor_layout = tensor_info;
  fallback = none;
}

-- The sizes of equal blocks.
length-concat :
    (k : ℕ) (blocks : List Bytes) → AllLong k blocks → length (concat blocks) ≡ length blocks * k
length-concat k [] h = omega arith
length-concat k (b ∷ blocks) (here, h) =
    length-append b (concat blocks) ∙ grind (arith, here, length-concat k blocks h)

some_inj : {x y : Bytes} → ◌≡◌ {A = Option Bytes} (some x) (some y) → x ≡ y
some_inj h = cc

-- `header_json` padded to a page.
abbrev page_of : Bytes → Bytes
page_of header = header ++ zeros (page_size - length header)

module _ (lt : LayerTensors) (num_experts : ℕ) (rows : AllRows lt num_experts tensor_order)
    (tensor_info : Dict String Info) (offset : ℕ)
    (placed : LaidOut lt tensor_info 0 offset tensor_order) (header : Bytes)
    (short : length header ≤ page_size) where
  abbrev block_size : ℕ
  block_size = round_up offset

  data_of :
      (e : ℕ)
      → e < num_experts
      → (bytes : Bytes) × (expert_data lt tensor_order e ≡ some bytes) × (length bytes ≤ block_size)
  data_of e below =
      let j =
        expert_data-Joined lt num_experts tensor_order tensor_info 0 offset e [] [] refl rows below
          placed in
      (j.bytes, j.joined, omega (arith, j.size, aligned offset))

  abbrev blocks : List Bytes
  blocks = map (block_of lt num_experts block_size data_of) (range num_experts)

  abbrev file : Bytes
  file = page_of header ++ concat blocks

  page_of-length : length (page_of header) ≡ page_size
  page_of-length =
      length-append header (zeros (page_size - length header))
      ∙ omega (arith, short, length-zeros (page_size - length header))

  -- The block of an expert stands where it is read.
  read_expert-padded {ℓ} :
      {A : Type ℓ} (view : Info → Bytes → Option A) (l e : ℕ) (bytes : Bytes)
      → e < num_experts
      → expert_data lt tensor_order e ≡ some bytes
      → read_expert (files_of view file tensor_info block_size) l e ≡ some (padded block_size bytes)
  read_expert-padded view l e bytes below joined =
      let written =
        write_blocks-concat lt num_experts block_size data_of (range num_experts) []
          (range-AllBelow num_experts) in
      let at =
        get_elem?-map-range (block_of lt num_experts block_size data_of) num_experts e below
        ∙ ap some (block_of-padded lt num_experts block_size data_of e bytes joined) in
      read_expert-block (files_of view file tensor_info block_size) l e (page_of header) blocks
        (padded block_size bytes) refl page_of-length written.1 at

  verify-true :
      (sample : List ℕ) → AllBelow num_experts sample → verify lt block_size file sample ≡ some true
  unfolding verify read_expert
  verify-true [] h = refl
  verify-true (e ∷ sample) (below, h) =
      let (bytes, joined, fits) = data_of e below in
      let found = read_expert-padded (λ i b. some b) 0 e bytes below joined in
      let on_disk : pread block_size (page_size + e * block_size) file ≡ padded block_size bytes =
        cc in
      let cut =
        ap (take (length bytes)) on_disk
        ∙ take-append (length bytes) bytes (zeros (block_size - length bytes)) refl in
      rw (verify, joined, cut, list_eq_refl bytes) (verify-true sample h)

  holds_block :
      (e : ℕ) (bytes : Bytes)
      → e < num_experts
      → expert_data lt tensor_order e ≡ some bytes
      → HoldsExpert lt tensor_info e (padded block_size bytes) tensor_order
  holds_block e bytes below joined =
      let pad = zeros (block_size - length bytes) in
      let j =
        expert_data-Joined lt num_experts tensor_order tensor_info 0 offset e [] pad refl rows below
          placed in
      let same : j.bytes ≡ bytes = some_inj (sym j.joined ∙ joined) in
      subst (λ b. HoldsExpert lt tensor_info e (b ++ pad) tensor_order) same j.holds

  written_file : write_blocks lt block_size (range num_experts) (page_of header) ≡ some file
  written_file =
      (write_blocks-concat lt num_experts block_size data_of (range num_experts) (page_of header)
        (range-AllBelow num_experts)).0

  file_size : page_size + num_experts * block_size ≡ length file
  file_size =
      let written =
        write_blocks-concat lt num_experts block_size data_of (range num_experts) []
          (range-AllBelow num_experts) in
      let many : length blocks ≡ num_experts =
        length-map-range (block_of lt num_experts block_size data_of) num_experts in
      let total : length (concat blocks) ≡ num_experts * block_size =
        length-concat block_size blocks written.1 ∙ ap (λ k. k * block_size) many in
      omega (arith, length-append (page_of header) (concat blocks), page_of-length, total)

write_layer-runs :
    (header_json : Dict String Info → ℕ → Bytes) (lt : LayerTensors) (num_experts : ℕ)
    (tensor_info : Dict String Info) (offset : ℕ) (whole : Bytes)
    → lay_out lt tensor_order [] 0 ≡ some (tensor_info, offset)
    → write_blocks lt
        (round_up offset)
        (range num_experts)
        (page_of (header_json tensor_info (round_up offset)))
      ≡ some whole
    → (sample : List ℕ) → verify lt (round_up offset) whole sample ≡ some true
    → (check : Bool)
    → write_layer header_json lt num_experts none check sample
      ≡ some (record {
        file = whole;
        layer_bytes = page_size + num_experts * round_up offset;
        verified = true;
      })
unfolding write_layer write_fresh
write_layer-runs header_json lt num_experts tensor_info offset whole laid written sample passes
      false =
    rw (write_layer, laid, write_fresh, written) refl
write_layer-runs header_json lt num_experts tensor_info offset whole laid written sample passes
      true =
    rw (write_layer, laid, write_fresh, written, passes) refl

-- If the nine tensors of a layer have the rows of all experts and the header fits into its page, then
-- `_write_layer` writes a new file of the size that it returns, the verification of any experts passes,
-- and the reader finds each expert in it: the bytes at the place of each tensor in the block are the
-- tensor's bytes of that expert, with its shape and dtype.
pub write_layer-HoldsExpert {ℓ} :
    {A : Type ℓ} (view : Info → Bytes → Option A) (header_json : Dict String Info → ℕ → Bytes)
    (lt : LayerTensors) (num_experts : ℕ) (check : Bool) (sample : List ℕ) (l e : ℕ)
    → AllRows lt num_experts tensor_order
    → ((tensor_info : Dict String Info) (block_size : ℕ)
        → length (header_json tensor_info block_size) ≤ page_size)
    → AllBelow num_experts sample
    → e < num_experts
    → (tensor_info : Dict String Info) × (offset : ℕ) × (lay_out lt tensor_order [] 0
        ≡ some (tensor_info, offset))
      × (w : Written) × (write_layer header_json lt num_experts none check sample ≡ some w)
      × (w.verified ≡ true)
      × (w.layer_bytes ≡ length w.file)
      × (block : Bytes) × (read_expert (files_of view w.file tensor_info (round_up offset)) l e
          ≡ some block)
      × HoldsExpert lt tensor_info e block tensor_order
write_layer-HoldsExpert view header_json lt num_experts check sample l e rows short sampled below =
    let (tensor_info, offset, layout) =
      lay_out-Laid lt num_experts tensor_order [] 0 rows names_differ in
    let header = header_json tensor_info (round_up offset) in
    let fits = short tensor_info (round_up offset) in
    let placed = layout.placed in
    let whole : Bytes = file lt num_experts rows tensor_info offset placed header fits in
    let (bytes, joined, room) =
      data_of lt num_experts rows tensor_info offset placed header fits e below in
    let written : write_blocks lt (round_up offset) (range num_experts) (page_of header)
        ≡ some whole =
      written_file lt num_experts rows tensor_info offset placed header fits in
    let passes : verify lt (round_up offset) whole sample ≡ some true =
      verify-true lt num_experts rows tensor_info offset placed header fits sample sampled in
    (
      tensor_info,
      offset,
      layout.laid,
      record {
        file = whole;
        layer_bytes = page_size + num_experts * round_up offset;
        verified = true;
      },
      write_layer-runs header_json lt num_experts tensor_info offset whole layout.laid written
          sample passes check,
      refl,
      file_size lt num_experts rows tensor_info offset placed header fits,
      padded (round_up offset) bytes,
      read_expert-padded lt num_experts rows tensor_info offset placed header fits view l e bytes
          below joined,
      holds_block lt num_experts rows tensor_info offset placed header fits e bytes below joined,
    )
