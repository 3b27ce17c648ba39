-- ===== src/Lib.antt =====
-- Expert Sniper: the parts of the program that decide what is kept, where it lives and which tokens
-- come out.
--
-- Parts, and the files that model them:
--
-- - Lru: `LRUExpertCache` of src/mlx_expert_sniper/expert_io.py, the cache of parsed experts that
--   the readers, the hot cache of the driver and the routing bias use. Each method holds the
--   cache's lock, so several threads make one sequence of calls (Lru.Recency). `get`, `put`,
--   `peek`, `cached_ids` keep their names; `contains` is `has`. The value of an entry is any type,
--   and the `OrderedDict` is the association list of Dict, whose order is the order of the entries.
--   A Python set of expert ids is a list without repetitions.
-- - Reader: `MoEExpertReader` of the same file. Reader.Format reads and parses the block of one
--   expert; Reader has `prefetch_experts`, `reset_prefetch` and the backfill, and Reader.Demand
--   `get_experts`, with a function per branch of its loop. A future is the pair of the layer and
--   the expert that it reads, since a read has no other effect; which futures are complete when
--   they are looked at is an argument. The backfill worker takes turns before each use of the cache
--   by the caller, as many entries as the argument `pace` says. An exception that leaves
--   `get_experts` leaves the reader as it was at that moment.
-- - Hrw: src/expert_network/hrw.py, which gives each expert to the node of highest digest. The
--   digest (SHA-256 of the node's URL and the expert) is a parameter, read as a number.
-- - Generate: the loop of `generate_stream` in src/mlx_expert_sniper/generate.py. The language
--   model is a parameter, `Target` of Generate.Model: a forward pass that extends the KV cache and
--   answers with the argmax at each position, and `trim`, with the laws that a cache holds the
--   tokens that were fed to it and that a forward pass depends on nothing else. `list_target` is a
--   value of it.
-- - Speculative: `spec_generate_stream` of src/mlx_expert_sniper/speculative.py for any draft;
--   Speculative.Lookup is `prompt_lookup_draft`, Speculative.Cached is `ModelDraft`, and
--   Speculative.Drafts makes them values of `Draft`.
-- - Fetch: src/expert_network/fetch_partition.py, `fetch_partition` over all layers. `Fetch` has
--   the probe, the attempts on one block and the writes at fixed offsets into the sparse file; the
--   replies of the peers and the order in which they are asked are arguments. An exception keeps
--   the file as it was then.
-- - HfSource: src/expert_network/hf_source.py. `HfSource` has `read_range` with its five attempts
--   and the cache of redirects; HfSource.Safetensors states the format of a shard; HfSource.Layout
--   finds the tensors of a layer from the safetensors headers, and HfSource.Blocks puts the block
--   of an expert together. There `read_range` is the function that answers or fails.
-- - FromHf: `fetch_from_hf` of fetch_partition.py, which takes the share that Hrw gives to the
--   machine from HfSource, and writes it into the sparse files of Fetch. The manifest of the
--   coordinator, the roster and the JSON of the headers are arguments; the answers to the command
--   line's other options are left out.
-- - Node: src/expert_network/node.py. `load_partition` with the parse of a block, the handlers
--   `block` and `partition`, and `compute_partial` up to `compute_expert_ffn`; the layer files and
--   MLX are parameters.
-- - Driver: `DistributedExpertReader` of src/expert_network/reader.py with its hot cache, a `Lru`.
--   Driver has the owners and the fetches, Driver.Compute the plan and `compute_distributed`, which
--   takes a node's part from `compute_partial` of Node or from its answer. The fetch executor works
--   while a request runs: which fetches end before a node of the plan is an argument. The parts are
--   summed in floating point afterwards, in the order of the nodes; the model gives the list of
--   them.
-- - Download: `_write_layer` of src/mlx_expert_sniper/download.py, which writes the layer files
--   that Reader and Node read. The tensors of a layer are the bytes of each expert, the JSON of the
--   header and the experts that are verified are arguments.
-- - HfReader: `HFExpertReader` of src/expert_network/hf_reader.py, which serves experts from its
--   cache, from the sparse files that FromHf writes, or from the checkpoint. A history is a list of
--   calls, each with the disk and the checkpoint as they are at that time. A future holds what its
--   fetch answered or that it failed, by the sources at its submission: the pool of threads ends
--   each fetch before the sources change.
-- - SpecRouter: `SpecDecodeEngine.generate` of sniper-router/spec_router.py. A text is a list of
--   code points. SpecRouter.Pool is `ServerPool`. `max_tokens + 1` rounds of fuel are enough, since
--   each round that goes on counts a token.
-- - Ngram: `_read_rows` of `HFNGramSource` and of `DiskNGramSource` in
--   src/mlx_expert_sniper/ngram_source.py. `read_range` is a parameter, with the law that it
--   answers with the bytes of the range, both ends included.
-- - Rows: `RowLRU` and `RowNGramSource.rows` in the same file, up to the raw bytes of the distinct
--   ids; the numpy parts before (`unique`) and after (dequantisation) are left out. The rows of all
--   tensors are one value, and `_read_rows` is an argument; `disk_rows` of Ngram is a value of it
--   in the tests.
-- - Wire: src/expert_network/protocol.py. An array is its shape and its bytes; a number that does
--   not fit into 16 bits raises.
-- - Coactivation: src/mlx_expert_sniper/coactivation.py. `cross_layer` is a dictionary of counters,
--   and a Python set of ids is a list without repetitions.
-- - Prelude and Dict: lists, tests and Python's dictionaries.
--
-- Errors of Python (KeyError, IndexError) are the `none` of an Option. Loops are recursion on a
-- list or a counter, but for `while emitted < max_tokens` of `spec_generate_stream` and `while
-- tokens_generated < max_tokens` of `SpecDecodeEngine.generate`, which run on fuel: `max_tokens +
-- 1` rounds are enough, since each round that does not stop emits a token.
--
-- Not modelled: the numeric code (engines, forward passes, quantized matmuls, the Gemma 4 and
-- qwen4_exp models), which is floating-point work of MLX; the chat template and the tokenizer,
-- which are third-party; the HTTP services and command lines of the expert network
-- (src/expert_network/driver.py, sidecar.py and the like) and sniper-router/router.py, which are
-- HTTP around the parts above; calibration, the rest of the download tools and the command line;
-- timing and formatted statistics.
pub mod Prelude
pub mod Dict
pub mod Lru
pub mod Hrw
pub mod Generate
pub mod Speculative
pub mod Reader
pub mod Ngram
pub mod Rows
pub mod Fetch
pub mod HfSource
pub mod FromHf
pub mod Wire
pub mod Node
pub mod Driver
pub mod Download
pub mod HfReader
pub mod SpecRouter
pub mod Coactivation
