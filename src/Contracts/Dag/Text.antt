-- ===== src/Contracts/Dag/Text.antt =====
-- backend/app/runtime/contracts.py: `TASK_KEY_PATTERN`, `^[a-z][a-z0-9_.-]{0,119}$`, over code points.
use Prim.Native.Char.{code}
use reviewlens_ai.Prelude.{ℕ, String, Bool, false, ◌&&◌, ◌||◌, List, [], ◌∷◌, leb, eqb, all, length}

abbrev pub codes : String → List ℕ
codes String.[] = []
codes (String.◌∷◌ c s) = code c ∷ codes s

abbrev is_lower : ℕ → Bool
is_lower c = leb b'a' c && leb c b'z'

abbrev is_key_code : ℕ → Bool
is_key_code c = is_lower c || (leb b'0' c && leb c b'9') || eqb c b'_' || eqb c b'.' || eqb c b'-'

matches_key : List ℕ → Bool
matches_key [] = false
matches_key (c ∷ cs) = is_lower c && leb (length cs) 119 && all is_key_code cs

unfoldable pub is_stable_key : String → Bool
unfolding matches_key
is_stable_key s = matches_key (codes s)
