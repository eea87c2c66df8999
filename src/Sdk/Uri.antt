-- ===== src/Sdk/Uri.antt =====
-- packages/code-runner-sdk-node/src/client.ts: what its paths use of `encodeURIComponent`, with the
-- UTF-8 bytes of a character written out.
use Prim.Native.Char.{code}
use Prim.Native.String.{◌++◌}
use code_runner.Prelude.{ℕ, ◌+◌, ◌/◌, ◌%◌, String, Bool, ◌&&◌, ◌||◌, leb, ltb, eqb, if◌then◌else◌}
use code_runner.Sdk.Files.{char_at}

unfoldable pub hex_digit : ℕ → String
unfolding char_at
hex_digit n = char_at n "0123456789ABCDEF"

abbrev percent : ℕ → String
percent byte = "%" ++ (hex_digit (byte / 16) ++ hex_digit (byte % 16))

-- the UTF-8 bytes of a character, each after a percent sign
unfoldable pub percent_encoded : ℕ → String
unfolding hex_digit
percent_encoded c =
    if ltb c 0x80
    then percent c
    else if ltb c 0x800
    then percent (0xc0 + c / 64) ++ percent (0x80 + c % 64)
    else if ltb c 0x10000
    then percent (0xe0 + c / 4096) ++ (percent (0x80 + c / 64 % 64) ++ percent (0x80 + c % 64))
    else percent (0xf0 + c / 262144)
      ++ (percent (0x80 + c / 4096 % 64)
          ++ (percent (0x80 + c / 64 % 64) ++ percent (0x80 + c % 64)))

-- letters, digits and - _ . ! ~ * ' ( )
unfoldable pub is_unreserved : ℕ → Bool
is_unreserved c =
    leb b'A' c && leb c b'Z'
    || leb b'a' c && leb c b'z'
    || leb b'0' c && leb c b'9'
    || leb 39 c && leb c 42
    || eqb c b'-'
    || eqb c b'_'
    || eqb c b'.'
    || eqb c b'!'
    || eqb c b'~'

unfoldable pub encode_uri_component : String → String
unfolding percent_encoded is_unreserved
encode_uri_component String.[] = ""
encode_uri_component (String.◌∷◌ c s) =
    (if is_unreserved (code c) then String.◌∷◌ c String.[] else percent_encoded (code c))
    ++ encode_uri_component s
