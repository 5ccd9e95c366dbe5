-- ===== src/Text.antt =====
-- Byte strings (`std::string`) and the byte-level checks that the components repeat: identifiers,
-- lowercase SHA-256 digests and prefixed digests (src/LocalGooseDialogueResponder.cpp,
-- src/LocalActivityPulseStore.cpp, src/LiveControl.cpp). The laws are in the modules below.
pub mod Laws
use Prim.Native.Char.{code}
use gaudere_agent.Prelude.{
  ℕ, ◌+◌, String, Bool, true, false, not, ◌&&◌, ◌||◌, List, [], ◌∷◌, ltb, leb, ◌==◌, if◌then◌else◌,
  length, empty, drop, all,
}

abbrev pub Text : Type 0
Text = List ℕ

-- The bytes of an ASCII literal.
unfoldable pub text : String → Text
text String.[] = []
text (String.◌∷◌ c s) = code c ∷ text s

-- `operator==` of `std::string`.
unfoldable pub eqb : Text → Text → Bool
eqb [] [] = true
eqb [] (b ∷ t) = false
eqb (a ∷ s) [] = false
eqb (a ∷ s) (b ∷ t) = a == b && eqb s t

-- value.compare(0, p.size(), p) == 0
unfoldable pub starts_with : Text → Text → Bool
starts_with s [] = true
starts_with [] (b ∷ p) = false
starts_with (a ∷ s) (b ∷ p) = a == b && starts_with s p

abbrev pub max_identifier_bytes : ℕ
max_identifier_bytes = 128

unfoldable pub identifier_byte : ℕ → Bool
identifier_byte c =
    leb b'a' c && leb c b'z'
    || leb b'A' c && leb c b'Z'
    || leb b'0' c && leb c b'9'
    || c == b'.'
    || c == b'_'
    || c == b':'
    || c == b'-'

unfoldable pub safe_identifier : Text → Bool
safe_identifier value =
    if empty value || ltb max_identifier_bytes (length value)
    then false
    else all identifier_byte value

unfoldable pub hex_byte : ℕ → Bool
hex_byte c = leb b'0' c && leb c b'9' || leb b'a' c && leb c b'f'

unfoldable pub lowercase_sha256 : Text → Bool
lowercase_sha256 value = if not (length value == 64) then false else all hex_byte value

unfoldable pub prefixed_sha256 : Text → Text → Bool
prefixed_sha256 value p =
    length value == length p + 64 && starts_with value p && lowercase_sha256 (drop (length p) value)

unfoldable pub bounded_nonempty : Text → ℕ → Bool
bounded_nonempty value max_bytes = not (empty value) && leb (length value) max_bytes

unfoldable pub safe_byte : ℕ → Bool
safe_byte character = not (ltb character 0x20 || character == 0x7f)

unfoldable pub safe_text : Text → Bool
safe_text value = all safe_byte value
