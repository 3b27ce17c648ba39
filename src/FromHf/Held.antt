-- ===== src/FromHf/Held.antt =====
-- A block on the disk whose hash was noted, and what the steps of a take do to it.
use mathlib.Core.Path.{subst}
use expert_sniper.Prelude.{
  ℕ, ◌+◌, ◌*◌, ◌≤◌, true, false, not, ◌&&◌, Option, some, String, length, ◌≡◌, ◌≢◌, refl, sym, ap,
  ◌∙◌, inl, inr, arith, Bool-cases, ==_refl, nat_beq, nat_beq_iff, string_eq, pair_eq, ◌==◌,
}
use expert_sniper.Prelude.Keys.{same_pair}
use expert_sniper.Dict.{Dict, get?, set}
use expert_sniper.Dict.Laws.{get?-set}
use expert_sniper.HfSource.Layout.{page_size}
use expert_sniper.Fetch.{Bytes, pread, pwrite, rejected, has_slot}
use expert_sniper.Fetch.Slots.{length-pwrite, pread-pwrite, pread-pwrite_other}
use expert_sniper.FromHf.{Take, write_block, wanted}

module _ (sha256 : Bytes → String) (want : ℕ × ℕ → Option String) (bs : ℕ) (layer : ℕ) where
  -- The bytes in the slot of an expert have the size of a block and the hash that was noted for it,
  -- which is the published one where there is one.
  pub record Held (e : ℕ) (file : Bytes) (hashes : Dict (ℕ × ℕ) String) : Type 0 where
    pub noted : get? (layer, e) hashes ≡ some (sha256 (pread bs (page_size + e * bs) file))
    pub size : length (pread bs (page_size + e * bs) file) ≡ bs
    pub agrees :
        (w : String) → want (layer, e) ≡ some w → w ≡ sha256 (pread bs (page_size + e * bs) file)

  -- What a take makes of the files and hashes that were there.
  pub record Keeps (t t' : Take) : Type 0 where
    pub same_length : length t'.file ≡ length t.file
    pub held : (x : ℕ) → Held x t.file t.hashes → Held x t'.file t'.hashes
    pub others : (k : ℕ × ℕ) → nat_beq k.0 layer ≡ false → get? k t'.hashes ≡ get? k t.hashes

  pub no-Keeps : (t : Take) → Keeps t t
  no-Keeps t = record { same_length = refl; held = λ x h. h; others = λ k h. refl }

  pub then_Keeps : (t u v : Take) → Keeps t u → Keeps u v → Keeps t v
  then_Keeps t u v a b = record {
    same_length = b.same_length ∙ a.same_length;
    held = λ x h. b.held x (a.held x h);
    others = λ k h. b.others k h ∙ a.others k h;
  }

  other_key :
      (e : ℕ) (h : String) (hashes : Dict (ℕ × ℕ) String) (k : ℕ × ℕ)
      → same_pair (layer, e) k ≡ false
      → get? k (set (layer, e) h hashes) ≡ get? k hashes
  other_key e h hashes k differs = rw (get?-set (layer, e) k h hashes, differs) refl

  own_key :
      (e : ℕ) (h : String) (hashes : Dict (ℕ × ℕ) String)
      → get? (layer, e) (set (layer, e) h hashes) ≡ some h
  own_key e h hashes =
      let key : ℕ × ℕ = (layer, e) in rw (get?-set key key h hashes, ==_refl key) refl

  pub moved-Held :
      (x : ℕ) (file file' : Bytes) (hashes hashes' : Dict (ℕ × ℕ) String)
      → Held x file hashes
      → pread bs (page_size + x * bs) file' ≡ pread bs (page_size + x * bs) file
      → get? (layer, x) hashes' ≡ get? (layer, x) hashes
      → Held x file' hashes'
  moved-Held x file file' hashes hashes' h p q = record {
    noted = q ∙ h.noted ∙ ap (λ b. some (sha256 b)) (sym p);
    size = ap length p ∙ h.size;
    agrees = λ w r. h.agrees w r ∙ ap sha256 (sym p);
  }

  -- One slot is as its new hash says, and the other slots and hashes are as before.
  one-Keeps :
      (e : ℕ) (h : String) (t t' : Take)
      → length t'.file ≡ length t.file
      → ((x : ℕ)
          → x ≢ e
          → pread bs (page_size + x * bs) t'.file ≡ pread bs (page_size + x * bs) t.file)
      → t'.hashes ≡ set (layer, e) h t.hashes
      → Held e t'.file t'.hashes
      → Keeps t t' × Held e t'.file t'.hashes
  one-Keeps e h t t' len slots set_hash here = (
    record {
      same_length = len;
      held = λ x old. elim (Bool-cases (nat_beq e x)) [
        | inl same ↦
            let q : e ≡ x = (nat_beq_iff e x).0 same in subst (λ y. Held y t'.file t'.hashes) q here
        | inr differs ↦
            moved-Held x t.file t'.file t.hashes t'.hashes old
              (slots x (λ q. ground (arith, differs)))
              (ap (get? (layer, x)) set_hash
                ∙ other_key e h t.hashes (layer, x) (ground (arith, differs)))
      ];
      others =
          λ k differs. ap (get? k) set_hash ∙ other_key e h t.hashes k (ground (arith, differs));
    },
    here,
  )

  -- A block that is there intact.
  pub skip-Keeps :
      (e : ℕ) (w : String) (t : Take)
      → want (layer, e) ≡ some w
      → has_slot sha256 page_size bs (wanted sha256 want bs layer) e t.file ≡ true
      → Keeps t (record t { skipped = t.skipped + 1; hashes = set (layer, e) w t.hashes })
        × Held e t.file (set (layer, e) w t.hashes)
  skip-Keeps e w t published slot =
      let block = pread bs (page_size + e * bs) t.file in
      let test : nat_beq (length block) bs && (sha256 block == w) ≡ true = rw published at slot in
      let size : length block ≡ bs = (nat_beq_iff (length block) bs).0 (ground (arith, test)) in
      let same : sha256 block ≡ w =
        (string_eq.same_iff (sha256 block) w).0 (ground (arith, test)) in
      let here : Held e t.file (set (layer, e) w t.hashes) = record {
        noted = own_key e w t.hashes ∙ ap some (sym same);
        size = size;
        agrees = λ w' h. let q : w ≡ w' = cc in sym q ∙ sym same;
      } in
      one-Keeps e w t (record t { skipped = t.skipped + 1; hashes = set (layer, e) w t.hashes })
        refl (λ x differs. refl) refl here

  -- A block that is written.
  pub write-Keeps :
      (e : ℕ) (block : Bytes) (t : Take)
      → length block ≡ bs
      → page_size + e * bs + bs ≤ length t.file
      → rejected sha256 (want (layer, e)) block ≡ false
      → Keeps t (write_block sha256 want bs layer e block t)
        × Held e
            (write_block sha256 want bs layer e block t).file
            (write_block sha256 want bs layer e block t).hashes
  unfolding write_block
  write-Keeps e block t size fits accepted =
      let back : pread bs (page_size + e * bs) (pwrite block (page_size + e * bs) t.file) ≡ block =
        pread-pwrite block (page_size + e * bs) bs t.file size (omega (arith, fits)) in
      let here : Held e (pwrite block (page_size + e * bs) t.file)
          (set (layer, e) (sha256 block) t.hashes) =
        record {
          noted = own_key e (sha256 block) t.hashes ∙ ap (λ b. some (sha256 b)) (sym back);
          size = ap length back ∙ size;
          agrees = λ w h.
              let test : not (sha256 block == w) ≡ false = rw h at accepted in
              sym ((string_eq.same_iff (sha256 block) w).0 (ground (arith, test)))
              ∙ ap sha256 (sym back);
        } in
      one-Keeps e (sha256 block) t (write_block sha256 want bs layer e block t)
        (length-pwrite block (page_size + e * bs) t.file (omega (arith, size, fits)))
        (λ x differs.
          pread-pwrite_other block page_size bs e x t.file size (omega (arith, fits)) differs)
        refl here
