-- ===== src/Base/Text.antt =====
-- Byte strings: the program's `std::string` and `char*` texts.
use Prim.Native.Nat.{ℕ}
use Prim.Native.Char.{code}
use Prim.Native.String.{String}
use mathlib.Core.Path.{◌≡◌}
use mathlib.Core.Logic.{◌↔◌}
use mathlib.Core.Bool.{Bool, true, false, ◌&&◌}
use mathlib.Core.List.{List, [], ◌∷◌}
use native.Mathlib.Omega.{arith}
use ndppd.Base.Tests.{◌==◌}

abbrev pub Bytes : Type 0
Bytes = List ℕ

-- The bytes of an ASCII literal.
abbrev pub codes : String → Bytes
codes String.[] = []
codes (String.◌∷◌ c s) = code c ∷ codes s

-- `operator==` of two strings.
unfoldable pub equal_text : Bytes → Bytes → Bool
equal_text [] [] = true
equal_text (x ∷ a) (y ∷ b) = (x == y) && equal_text a b
equal_text _ _ = false

pub equal_text_iff : (a b : Bytes) → (equal_text a b ≡ true) ↔ (a ≡ b)
unfolding equal_text
equal_text_iff (x ∷ a) (y ∷ b) = ground (arith, equal_text_iff a b)
equal_text_iff _ _ = ground arith
