-- ===== src/Prelude/Keys.antt =====
-- The interface of a dictionary's keys: a test for sameness, and what it decides.
use Prim.Native.Nat.{ℕ}
use Prim.Native.String.{String}
use mathlib.Core.Path.{◌≡◌, refl}
use mathlib.Core.Logic.{◌↔◌}
use mathlib.Core.Bool.{Bool, true, ◌&&◌}
use native.Mathlib.Omega.{arith}
use text.Mathlib.Text
use text.Mathlib.TextEquality
use expert_sniper.Prelude.Tests.{nat_beq, nat_beq_iff}

-- A pair of numbers, such as (layer, expert).
abbrev pub same_pair : ℕ × ℕ → ℕ × ℕ → Bool
same_pair a b = nat_beq a.0 b.0 && nat_beq a.1 b.1

pub same_pair_iff : (a b : ℕ × ℕ) → (same_pair a b ≡ true) ↔ (a ≡ b)
same_pair_iff (a, b) (c, d) = (λ h. ground arith, λ h. ground arith)

-- Keys with a decidable equality.
pub record Eq {ℓ} (K : Type ℓ) : Type ℓ where
  pub same : K → K → Bool
  pub same_iff : (j k : K) → (same j k ≡ true) ↔ (j ≡ k)

instance abbrev pub pair_eq : Eq (ℕ × ℕ)
pair_eq = record { same = same_pair; same_iff = same_pair_iff }

instance abbrev pub string_eq : Eq String
string_eq = record { same = Text.◌==◌; same_iff = TextEquality.eq_iff }

instance abbrev pub nat_eq : Eq ℕ
nat_eq = record { same = nat_beq; same_iff = nat_beq_iff }

infix 50 ◌==◌
abbrev pub ◌==◌ {ℓ} : {K : Type ℓ} ⦃e : Eq K⦄ → K → K → Bool
◌==◌ ⦃e⦄ j k = e.same j k

pub ==_refl {ℓ} : {K : Type ℓ} ⦃e : Eq K⦄ (k : K) → (k == k) ≡ true
==_refl ⦃e⦄ k = (e.same_iff k k).1 refl
