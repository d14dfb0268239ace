-- ===== src/Base/Codes.antt =====
-- Maps with integer keys.
use mathlib.Core.Path.{◌≡◌}
use mathlib.Core.Logic.{◌↔◌}
use mathlib.Core.Bool.{Bool, true}
use mathlib.Core.Option.{Option}
use mathlib.Core.List.{List}
use native.Mathlib.Omega.{arith}
use go_utility.Base.Tests.{Eq, nat_beq}
use go_utility.Base.Maps.{lookup}
use go_utility.Base.Int.{ℤ, pos_part, neg_part, eq_of_parts}
use Prim.Native.Nat.{◌+◌}

abbrev pub int_beq : ℤ → ℤ → Bool
int_beq a b = nat_beq (pos_part a + neg_part b) (pos_part b + neg_part a)

pub int_beq_iff : (a b : ℤ) → (int_beq a b ≡ true) ↔ (a ≡ b)
int_beq_iff a b = ground (arith, eq_of_parts a b)

instance abbrev pub int_eq : Eq ℤ
int_eq = record { beq = int_beq; beq_iff = int_beq_iff }

abbrev pub lookup_code {ℓ} : {A : Type ℓ} → ℤ → List (ℤ × A) → Option A
lookup_code k m = lookup k m
