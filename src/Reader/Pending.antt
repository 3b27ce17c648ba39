-- ===== src/Reader/Pending.antt =====
-- The reads in flight of `MoEExpertReader`: each future stands at the expert that it reads.
use mathlib.Core.Path.{subst}
use expert_sniper.Prelude.{
  ℕ, some, [], ◌∷◌, ◌≡◌, refl, inl, inr, Bool-cases, nat_eq, arith, nat_beq,
}
use expert_sniper.Dict.{Dict, get?, set, remove}
use expert_sniper.Lru.{Key}
use expert_sniper.Reader.{Futures}

-- The futures of one layer.
abbrev pub PendingIn : ℕ → Futures → Type 0
PendingIn l [] = Unit
PendingIn l ((e, k) ∷ futures) = (k ≡ (l, e)) × PendingIn l futures

abbrev pub Pending : Dict ℕ Futures → Type 0
Pending [] = Unit
Pending ((l, futures) ∷ d) = PendingIn l futures × Pending d

pub get?-PendingIn :
    (l e : ℕ) (k : Key) (futures : Futures)
    → PendingIn l futures
    → get? e futures ≡ some k
    → k ≡ (l, e)
unfolding get?
get?-PendingIn l e k [] a h = cc
get?-PendingIn l e k ((x, j) ∷ futures) a h = ground (arith, get?-PendingIn l e k futures a.1)

pub set-PendingIn :
    (l e : ℕ) (futures : Futures) → PendingIn l futures → PendingIn l (set e (l, e) futures)
unfolding set
set-PendingIn l e [] a = (refl, tt)
set-PendingIn l e ((x, j) ∷ futures) a = ground (arith, set-PendingIn l e futures a.1)

pub get?-Pending :
    (l : ℕ) (futures : Futures) (d : Dict ℕ Futures)
    → Pending d
    → get? l d ≡ some futures
    → PendingIn l futures
unfolding get?
get?-Pending l futures [] a h = cc
get?-Pending l futures ((m, fs) ∷ d) a h = elim (Bool-cases (nat_beq m l)) [
  | inr differs ↦ get?-Pending l futures d a.1 (ground (arith, h))
  | inl same ↦
      let at_l : m ≡ l = ground arith in
      let first : fs ≡ futures = ground (arith, h) in
      subst (λ fs'. PendingIn l fs') first (subst (λ m'. PendingIn m' fs) at_l a.0)
]

pub set-Pending :
    (l : ℕ) (futures : Futures) (d : Dict ℕ Futures)
    → Pending d
    → PendingIn l futures
    → Pending (set l futures d)
unfolding set
set-Pending l futures [] a h = (h, tt)
set-Pending l futures ((m, fs) ∷ d) a h = elim (Bool-cases (nat_beq m l)) [
  | inr differs ↦ rw (set, differs) (a.0, set-Pending l futures d a.1 h)
  | inl same ↦
      let at_l : l ≡ m = ground arith in
      rw (set, same) (subst (λ m'. PendingIn m' futures) at_l h, a.1)
]

pub remove-Pending : (l : ℕ) (d : Dict ℕ Futures) → Pending d → Pending (remove l d)
unfolding remove
remove-Pending l [] a = tt
remove-Pending l ((m, fs) ∷ d) a = elim (Bool-cases (nat_beq m l)) [
  | inl same ↦ rw (remove, same) (remove-Pending l d a.1)
  | inr differs ↦ rw (remove, differs) (a.0, remove-Pending l d a.1)
]
