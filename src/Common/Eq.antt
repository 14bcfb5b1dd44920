-- ===== src/Common/Eq.antt =====
-- Boolean equality as an interface: keys of dicts and members of sets.
use Prim.Native.Nat.{ℕ}
use Prim.Native.String.{String}
use mathlib.Core.Path.{◌≡◌}
use mathlib.Core.Logic.{◌↔◌}
use mathlib.Core.Bool.{Bool, true}
use text.Mathlib.Text.{◌==◌ as str_eq}
use text.Mathlib.TextEquality.{eq_iff}
use kafka_python.Common.Tests.{nat_beq, nat_beq_iff}
use kafka_python.Common.Int.{ℤ, int_beq, int_beq_iff}

-- A Boolean test that decides the path equality of `K`.
pub record Eq {κ} (K : Type κ) : Type κ where
  pub same : K → K → Bool
  pub same_iff : (i j : K) → (same i j ≡ true) ↔ (i ≡ j)

instance abbrev pub int_eq : Eq ℤ
int_eq = record { same_iff = int_beq_iff; same = int_beq }

instance abbrev pub string_eq : Eq String
string_eq = record { same_iff = eq_iff; same = str_eq }

instance abbrev pub nat_eq : Eq ℕ
nat_eq = record { same_iff = nat_beq_iff; same = nat_beq }

-- Python's `==`, on every type with an instance.
infix 45 ◌==◌
abbrev pub ◌==◌ {κ} : {K : Type κ} ⦃test : Eq K⦄ → K → K → Bool
◌==◌ ⦃test⦄ i j = test.same i j
