-- ===== src/Fetch/Slots.antt =====
-- Writing one block of a layer file and reading another.
use mathlib.Core.List.{append_assoc, append-nil}
use expert_sniper.Prelude.{
  ℕ, ◌+◌, ◌-◌, ◌*◌, ◌≤◌, ◌++◌, length, take, drop, ◌≡◌, ◌≢◌, refl, sym, ap, ◌∙◌, inl, inr, arith,
  Bool-cases, leb, leb→le, length-append, length-take, length-drop, drop-append, take-append,
}
use expert_sniper.Prelude.Slices.{drop-drop, slice-append, slice-take}
use expert_sniper.Fetch.{Bytes, pread, pwrite}

pwrite-inside :
    (b : Bytes) (o : ℕ) (f : Bytes)
    → o ≤ length f
    → pwrite b o f ≡ take o f ++ (b ++ drop (o + length b) f)
unfolding pwrite
pwrite-inside b o f h =
    let z : o - length f ≡ 0 = omega (arith, h) in
    rw (pwrite, z) (ap (λ front. front ++ (b ++ drop (o + length b) f)) (append-nil (take o f)))

pub length-pwrite :
    (b : Bytes) (o : ℕ) (f : Bytes) → o + length b ≤ length f → length (pwrite b o f) ≡ length f
length-pwrite b o f h =
    let parts = pwrite-inside b o f (omega (arith, h)) in
    rw
      (
        parts,
        length-append (take o f) (b ++ drop (o + length b) f),
        length-append b (drop (o + length b) f),
        length-drop (o + length b) f,
        length-take o f (omega (arith, h)),
      )
      (omega (arith, h))

pub pread-pwrite :
    (b : Bytes) (o n : ℕ) (f : Bytes) → length b ≡ n → o ≤ length f → pread n o (pwrite b o f) ≡ b
pread-pwrite b o n f size h =
    let rest = b ++ drop (o + length b) f in
    let whole : o ≡ length (take o f) + 0 = omega (arith, length-take o f h) in
    let at_o : drop o (take o f ++ rest) ≡ rest =
      ap (λ k. drop k (take o f ++ rest)) whole ∙ drop-append (take o f) rest 0 in
    rw (pwrite-inside b o f h, at_o) (take-append n b (drop (o + length b) f) size)

pread_before :
    (b : Bytes) (o m n : ℕ) (f : Bytes)
    → m + n ≤ o
    → o ≤ length f
    → pread n m (pwrite b o f) ≡ pread n m f
pread_before b o m n f before h =
    let rest = b ++ drop (o + length b) f in
    rw (pwrite-inside b o f h) (
      slice-append m n (take o f) rest (omega (arith, before, length-take o f h))
      ∙ slice-take m n o f before)

pread_after :
    (b : Bytes) (o m n : ℕ) (f : Bytes)
    → o + length b ≤ m
    → o ≤ length f
    → pread n m (pwrite b o f) ≡ pread n m f
pread_after b o m n f later h =
    let front = take o f ++ b in
    let k = m - (o + length b) in
    let size : length front ≡ o + length b =
      length-append (take o f) b ∙ omega (arith, length-take o f h) in
    let at_m : m ≡ length front + k = omega (arith, size, later) in
    let back : o + length b + k ≡ m = omega (arith, later) in
    let same : drop m (front ++ drop (o + length b) f) ≡ drop m f =
      ap (λ i. drop i (front ++ drop (o + length b) f)) at_m
      ∙ drop-append front (drop (o + length b) f) k
      ∙ drop-drop k (o + length b) f
      ∙ ap (λ i. drop i f) back in
    rw (pwrite-inside b o f h, sym (append_assoc (take o f) b (drop (o + length b) f)), same) refl

-- Another block is not touched.
pub pread-pwrite_other :
    (b : Bytes) (page n e x : ℕ) (f : Bytes)
    → length b ≡ n
    → page + e * n ≤ length f
    → x ≢ e
    → pread n (page + x * n) (pwrite b (page + e * n) f) ≡ pread n (page + x * n) f
pread-pwrite_other b page n e x f size h differs = elim (Bool-cases (leb x e)) [
  | inl le ↦
      let k = e - x - 1 in
      let p : e ≡ x + 1 + k = omega (arith, differs, leb→le x e le) in
      pread_before b (page + e * n) (page + x * n) n f (rw p (grind arith)) h
  | inr gt ↦
      let k = x - e - 1 in
      let p : x ≡ e + 1 + k = ground arith in
      pread_after b (page + e * n) (page + x * n) n f (rw (size, p) (grind arith)) h
]
