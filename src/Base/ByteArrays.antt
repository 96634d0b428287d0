-- ===== src/Base/ByteArrays.antt =====
-- A `Uint8Array` as the list of its bytes.
use Prim.Native.Nat.{ℕ, ◌<◌}
use mathlib.Core.List.{List}
use stellar_onramp.Base.Lists.{All}

abbrev pub Bytes : Type 0
Bytes = List ℕ

abbrev pub IsByte : ℕ → Type 0
IsByte b = b < 256

abbrev pub AreBytes : Bytes → Type 0
AreBytes = All IsByte
