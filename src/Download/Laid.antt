-- ===== src/Download/Laid.antt =====
-- `tensor_info` lays the tensors of an expert one after the other, as `expert_data` puts them together.
use mathlib.Core.List.{append_assoc}
use mathlib.Core.Path.{subst}
use expert_sniper.Prelude.{
  ◌<◌, length-append, ==_refl, ℕ, zero, suc, ◌+◌, some, List, [], ◌∷◌, ◌++◌, String, length, take,
  drop, get_elem?, ◌≡◌, refl, sym, ap, ◌∙◌, arith, string_eq,
}
use expert_sniper.Dict.{Dict, get?, set}
use expert_sniper.Dict.Laws.{get?-set}
use expert_sniper.Fetch.{Bytes}
use expert_sniper.Reader.Format.{Info}
use expert_sniper.Reader.Blocks.{AllLong}
use expert_sniper.HfSource.Slices.{middle}
use expert_sniper.HfSource.Placed.{Fresh, DistinctNames}
use expert_sniper.Download.{Stacked, LayerTensors, per_expert_bytes, lay_out, expert_data}

-- Every tensor is there, with the rows of `n` experts.
abbrev pub AllRows : LayerTensors → ℕ → List String → Type 0
AllRows lt n [] = Unit
AllRows lt n (tname ∷ names) =
    (t : Stacked) × (get? tname lt ≡ some t)
    × (length t.experts ≡ n)
    × AllLong (per_expert_bytes t) t.experts
    × AllRows lt n names

-- In the block of expert `e`, the bytes at the place of each tensor are the tensor's bytes of that expert,
-- with its shape and dtype.
abbrev pub HoldsExpert : LayerTensors → Dict String Info → ℕ → Bytes → List String → Type 0
HoldsExpert lt tensor_info e block [] = Unit
HoldsExpert lt tensor_info e block (tname ∷ names) =
    (t : Stacked) × (get? tname lt ≡ some t)
    × (info : Info) × (get? tname tensor_info ≡ some info)
    × (info.shape_per_expert ≡ t.shape_per_expert)
    × (info.dtype ≡ t.dtype)
    × (get_elem? t.experts e ≡ some (take info.nbytes (drop info.inner_offset block)))
    × HoldsExpert lt tensor_info e block names

-- The entry of a tensor.
abbrev pub info_at : ℕ → Stacked → Info
info_at offset t = record {
  inner_offset = offset;
  nbytes = per_expert_bytes t;
  shape_per_expert = t.shape_per_expert;
  dtype = t.dtype;
}

-- One after the other from `offset` to `end`.
abbrev pub LaidOut : LayerTensors → Dict String Info → ℕ → ℕ → List String → Type 0
LaidOut lt tensor_info offset end [] = offset ≡ end
LaidOut lt tensor_info offset end (tname ∷ names) =
    (t : Stacked) × (get? tname lt ≡ some t)
    × (get? tname tensor_info ≡ some (info_at offset t))
    × LaidOut lt tensor_info (offset + per_expert_bytes t) end names

pub record Laid (lt : LayerTensors) (names : List String) (before : Dict String Info) (offset : ℕ)
    (after : Dict String Info) (end : ℕ) : Type 0 where
  pub laid : lay_out lt names before offset ≡ some (after, end)
  pub placed : LaidOut lt after offset end names
  pub others : (u : String) → Fresh u names → get? u after ≡ get? u before

pub lay_out-Laid :
    (lt : LayerTensors) (n : ℕ) (names : List String) (before : Dict String Info) (offset : ℕ)
    → AllRows lt n names
    → DistinctNames names
    → (after : Dict String Info) × (end : ℕ) × Laid lt names before offset after end
unfolding lay_out
lay_out-Laid lt n [] before offset rows distinct =
    (before, offset, record { laid = refl; placed = refl; others = λ u fresh. refl })
lay_out-Laid lt n (tname ∷ names) before offset (t, found, many, long, rows) (fresh, distinct) =
    let (after, end, rest) =
      lay_out-Laid lt n names (set tname (info_at offset t) before) (offset + per_expert_bytes t)
        rows distinct in
    (
      after,
      end,
      record {
        laid = rw (lay_out, found) rest.laid;
        placed = (
          t,
          found,
          rest.others tname fresh
              ∙ (get?-set tname tname (info_at offset t) before ∙ rw (==_refl tname) refl),
          rest.placed,
        );
        others = λ u (apart, fresh_u).
            rest.others u fresh_u ∙ get?-set tname u (info_at offset t) before ∙ rw apart refl;
      },
    )

row_at :
    (n k e : ℕ) (rows : List Bytes)
    → AllLong k rows
    → length rows ≡ n
    → e < n
    → (row : Bytes) × (get_elem? rows e ≡ some row) × (length row ≡ k)
row_at n k e [] long many below = absurd (omega arith)
row_at n k zero (row ∷ rows) long many below = (row, refl, long.0)
row_at n k (suc e) (row ∷ rows) long many below =
    row_at (length rows) k e rows long.1 refl (omega (arith, many))

-- What `expert_data` puts together, with `before` and `after` around it.
pub record Joined (lt : LayerTensors) (tensor_info : Dict String Info) (e offset end : ℕ)
    (names : List String) (before after : Bytes) : Type 0 where
  pub bytes : Bytes
  pub joined : expert_data lt names e ≡ some bytes
  pub size : offset + length bytes ≡ end
  pub holds : HoldsExpert lt tensor_info e (before ++ (bytes ++ after)) names

pub expert_data-Joined :
    (lt : LayerTensors) (n : ℕ) (names : List String) (tensor_info : Dict String Info)
    (offset end e : ℕ) (before after : Bytes)
    → length before ≡ offset
    → AllRows lt n names
    → e < n
    → LaidOut lt tensor_info offset end names
    → Joined lt tensor_info e offset end names before after
unfolding expert_data
expert_data-Joined lt n [] tensor_info offset end e before after start rows below placed = record {
  bytes = [];
  joined = refl;
  size = omega (arith, placed);
  holds = tt;
}
expert_data-Joined lt n (tname ∷ names) tensor_info offset end e before after start
      (t, found, many, long, rows) below (t', found', here, placed) =
    let same_t : t' ≡ t = cc in
    let (row, at, size) = row_at n (per_expert_bytes t) e t.experts long many below in
    let far : length (before ++ row) ≡ offset + per_expert_bytes t =
      length-append before row ∙ omega (arith, start, size) in
    let placed' =
      subst (λ s. LaidOut lt tensor_info (offset + per_expert_bytes s) end names) same_t placed in
    let rest =
      expert_data-Joined lt n names tensor_info (offset + per_expert_bytes t) end e (before ++ row)
        after far rows below placed' in
    let cut : take (per_expert_bytes t) (drop offset (before ++ (row ++ (rest.bytes ++ after))))
        ≡ row =
      middle before row (rest.bytes ++ after) offset (per_expert_bytes t) start size in
    let moved : (before ++ row) ++ (rest.bytes ++ after)
        ≡ before ++ ((row ++ rest.bytes) ++ after) =
      simp append_assoc in
    let moved' : before ++ (row ++ (rest.bytes ++ after))
        ≡ before ++ ((row ++ rest.bytes) ++ after) =
      simp append_assoc in
    record {
      bytes = row ++ rest.bytes;
      joined = rw (expert_data, found, at, rest.joined) refl;
      size = omega (arith, length-append row rest.bytes, size, rest.size);
      holds = (
        t,
        found,
        info_at offset t,
        here ∙ ap (λ s. some (info_at offset s)) same_t,
        refl,
        refl,
        at
            ∙ ap some
                (sym (subst (λ b. take (per_expert_bytes t) (drop offset b) ≡ row) moved' cut)),
        subst (λ b. HoldsExpert lt tensor_info e b names) moved rest.holds,
      );
    }
