-- ===== src/Common/Text.antt =====
-- The bytes of a text, as in `std::vector<uint8_t>(message.begin(), message.end())`.
use Prim.Native.Nat.{ℕ}
use Prim.Native.Char.{code}
use Prim.Native.String.{String}
use mathlib.Core.List.{List, [], ◌∷◌}

abbrev pub bytes_of_text : String → List ℕ
bytes_of_text String.[] = []
bytes_of_text (String.◌∷◌ c s) = code c ∷ bytes_of_text s
