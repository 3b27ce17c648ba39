-- ===== src/HfSource.antt =====
-- `HFCheckpoint` of src/expert_network/hf_source.py: the ranges of the shard files, read with retries.
-- The answers of the servers are parameters. Other threads leave `_cdn` alone during a call.
pub mod Retry
pub mod Layout
pub mod Blocks
pub mod Placed
pub mod Slices
pub mod Safetensors
pub mod Rows
pub mod Sample
mod Tests
use expert_sniper.Prelude.{
  ℕ, zero, suc, ◌+◌, ◌-◌, ◌*◌, ◌/◌, ◌^◌, Bool, true, false, not, ◌&&◌, ◌||◌, Option, none, some,
  List, [], ◌∷◌, ◌++◌, String, length, take, drop, nat_beq, ltb, string_eq, ◌==◌, if◌then◌else◌,
}
use expert_sniper.Dict.{Dict, get?, set, remove}
use expert_sniper.Fetch.{Bytes, zeros}
use expert_sniper.Reader.Format.{Info}

-- What the servers and the clock do in the attempts of one `read_range`. `redirect` is the URL that a
-- shard redirects to and its `Expires` number if it has one, and `get` is the status and the body of a
-- range request; `none` is an exception. `now` is the time before the redirect, `then_now` after it.
pub record Net : Type 0 where
  pub now : ℕ → ℕ
  pub then_now : ℕ → ℕ
  pub redirect : ℕ → String → Option (String × Option ℕ)
  pub get : ℕ → String → ℕ → ℕ → Option (ℕ × Bytes)

-- `self._cdn`
abbrev pub Cdn : Type 0
Cdn = Dict String (String × ℕ)

-- The entry of the cache, if it is good for another minute.
unfoldable pub cached_url : ℕ → String → Cdn → Option String
cached_url now shard cdn = elim (get? shard cdn) [
  | none ↦ none
  | some (url, exp) ↦ if not (url == "") && ltb (now + 60) exp then some url else none
]

-- `_shard_url` in attempt `i`.
unfoldable pub shard_url : Net → ℕ → String → Cdn → Option (String × Cdn)
shard_url net i shard cdn = elim (cached_url (net.now i) shard cdn) [
  | some url ↦ some (url, cdn)
  | none ↦ elim (net.redirect i shard) [
    | none ↦ none
    | some (final, expires) ↦
        let exp : ℕ = elim expires [ none ↦ net.then_now i + 600 | some t ↦ t ] in
        some (final, set shard (final, exp) cdn)
  ]
]

-- The checks on an answer: the status, and `len(r.content) == end - start + 1`, which is never so for a
-- negative length.
unfoldable pub accept : ℕ → ℕ → ℕ × Bytes → Option Bytes
accept s e (status, body) =
    if (nat_beq status 200 || nat_beq status 206) && nat_beq (length body + s) (e + 1)
    then some body
    else none

-- The `try` of one attempt: its bytes, or an exception. The cache is as the attempt leaves it.
unfoldable pub attempt : Net → ℕ → String → ℕ → ℕ → Cdn → Option Bytes × Cdn
attempt net i shard s e cdn = elim (shard_url net i shard cdn) [
  | none ↦ (none, cdn)
  | some (url, cdn') ↦ elim (net.get i url s e) [
    | none ↦ (none, cdn')
    | some answer ↦ (accept s e answer, cdn')
  ]
]

-- `read_range`, from attempt `i` on with `tries` attempts left. `none` is the IOError at the end.
unfoldable pub read_from : Net → ℕ → ℕ → String → ℕ → ℕ → Cdn → Option Bytes × Cdn
read_from net i zero shard s e cdn = (none, cdn)
read_from net i (suc tries) shard s e cdn =
    let (result, cdn') = attempt net i shard s e cdn in
    elim result [
      | some bytes ↦ (some bytes, cdn')
      | none ↦ read_from net (i + 1) tries shard s e (remove shard cdn')
    ]

unfoldable pub read_range : Net → String → ℕ → ℕ → Cdn → Option Bytes × Cdn
read_range net shard s e cdn = read_from net 0 5 shard s e cdn
