-- ===== src/Base/Maps.antt =====
-- C arrays and pointed-to objects as functions from an index or an address.
use Prim.Native.Nat.{ℕ}
use tpa.Base.Tests.{◌==◌, if◌then◌else◌}

module _ {ℓ} {A : Type ℓ} where
  abbrev pub update : (ℕ → A) → ℕ → A → ℕ → A
  update f i v j = if j == i then v else f j
