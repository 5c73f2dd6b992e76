-- ===== src/Models/Patterns.antt =====
-- src/ard_ossie/models.py and impact.py: the patterns of the constrained text types.
use Prim.Native.Char.{Char, code}
use Prim.Native.String.{String}
use ard_ossie_provider.Prelude.{
  ℕ, zero, suc, Bool, true, false, ◌&&◌, ◌||◌, List, [], ◌∷◌, ◌++◌, leb, ◌==◌,
}

-- `[0-9a-f]`
unfoldable pub is_hex : Char → Bool
is_hex c = leb b'0' (code c) && leb (code c) b'9' || leb b'a' (code c) && leb (code c) b'f'

-- `[a-z0-9]`
unfoldable pub is_key_char : Char → Bool
is_key_char c = leb b'a' (code c) && leb (code c) b'z' || leb b'0' (code c) && leb (code c) b'9'

-- one position of a pattern: a character, `[0-9a-f]`, or `[89ab]`
pub data Piece : Type 0 where
  exactly : ℕ → Piece
  hex variant : Piece

unfoldable pub fits : Piece → Char → Bool
unfolding is_hex
fits (exactly n) c = code c == n
fits hex c = is_hex c
fits variant c = code c == b'8' || code c == b'9' || code c == b'a' || code c == b'b'

-- `^...$`: every position, and nothing after the last
unfoldable pub matches : List Piece → String → Bool
unfolding fits
matches [] String.[] = true
matches [] (String.◌∷◌ c s) = false
matches (p ∷ ps) String.[] = false
matches (p ∷ ps) (String.◌∷◌ c s) = fits p c && matches ps s

unfoldable pub hexes : ℕ → List Piece
hexes zero = []
hexes (suc n) = hex ∷ hexes n

unfoldable pub literal : String → List Piece
literal String.[] = []
literal (String.◌∷◌ c s) = exactly (code c) ∷ literal s

-- `[0-9a-f]{8}-[0-9a-f]{4}-7[0-9a-f]{3}-[89ab][0-9a-f]{3}-[0-9a-f]{12}`
unfoldable pub uuid7 : List Piece
unfolding hexes
uuid7 =
    hexes 8
    ++ (exactly b'-'
        ∷ (hexes 4
            ++ (exactly b'-'
                ∷ exactly b'7'
                ∷ (hexes 3 ++ (exactly b'-' ∷ variant ∷ (hexes 3 ++ (exactly b'-' ∷ hexes 12)))))))

-- `ProductId`, `TableId`, `LinkId`, `ColumnId`, `MetricId`, `RelationshipId`, `ChangeSetId`, each by
-- its prefix with the underscore
unfoldable pub is_id : String → String → Bool
unfolding literal uuid7 matches
is_id prefix s = matches (literal prefix ++ uuid7) s

-- `Sha256`
unfoldable pub is_sha256 : String → Bool
unfolding hexes matches
is_sha256 s = matches (hexes 64) s

-- `GitCommitSha`: `^(?:[0-9a-f]{40}|[0-9a-f]{64})$`
unfoldable pub is_commit_sha : String → Bool
unfolding hexes matches
is_commit_sha s = matches (hexes 40) s || matches (hexes 64) s

-- `seen`: the segment before this point has a character
unfoldable pub key_from : Bool → String → Bool
unfolding is_key_char
key_from seen String.[] = seen
key_from seen (String.◌∷◌ c s) =
    (is_key_char c || code c == b'-' && seen) && key_from (is_key_char c) s

-- `ProductKey`: `^[a-z0-9]+(?:-[a-z0-9]+)*$`
unfoldable pub is_product_key : String → Bool
unfolding key_from
is_product_key s = key_from false s

-- `Version`
unfoldable pub is_version : ℕ → Bool
is_version n = leb 1 n && leb n 999
