-- ===== src/Handlers/Text.antt =====
-- Texts by their characters: the bytes of a text in ASCII, and the pattern of a session id.
use Prim.Native.Char.{Char, code}
use Prim.Native.String.{String, [], ◌∷◌, count}
use mathlib.Core.List as L
use central_auth.Common.{ℕ, Bool, true, ◌&&◌, ◌||◌, leb, ◌==◌, List}

abbrev pub bytes_of : String → List ℕ
bytes_of [] = L.[]
bytes_of (c ∷ s) = L.◌∷◌ (code c) (bytes_of s)

-- `[0-9a-f]`
abbrev pub is_hex : Char → Bool
is_hex c = (leb 48 (code c) && leb (code c) 57) || (leb 97 (code c) && leb (code c) 102)

unfoldable pub all_hex : String → Bool
all_hex [] = true
all_hex (c ∷ s) = is_hex c && all_hex s

-- `sessionIDRegexp`, `^[0-9a-f]{64}$`
unfoldable pub matches_session_id : String → Bool
unfolding all_hex
matches_session_id s = (count s == 64) && all_hex s
