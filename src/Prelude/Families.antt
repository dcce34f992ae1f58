-- ===== src/Prelude/Families.antt =====
-- Families indexed by a number, such as the goroutines of a system.
use Prim.Native.Nat.{ℕ}
use zx909_gw.Prelude.Tests.{◌==◌, if◌then◌else◌}

-- The family with another value at one index.
abbrev pub update {ℓ} : {A : Type ℓ} → (ℕ → A) → ℕ → A → ℕ → A
update f i a j = if i == j then a else f j
