-- ===== src/Sha256/Examples.antt =====
-- Instances of the theorems, and the digests of the empty text, of "abc" and of a text of two blocks, from FIPS 180-4.
use gaudere_agent.Prelude.{◌+◌, ◌%◌, ◌≤◌, ◌≡◌, refl, true, [], length}
use gaudere_agent.Text.{text, lowercase_sha256}
use gaudere_agent.Sha256.Laws.{sha256_hex-lowercase, padded-blocks}
use gaudere_agent.Sha256.{
  sha256_hex, padded, zeros_after, big_endian, element, load_word, load_words, next_word, extend,
  round, rounds, add_hash, block, blocks, hex_digits, hex_hash, rotate_right,
}

abc :
    sha256_hex (text "abc")
    ≡ text "ba7816bf8f01cfea414140de5dae2223b00361a396177a9cb410ff61f20015ad"
unfolding text sha256_hex padded zeros_after big_endian element load_word load_words next_word
    extend round rounds add_hash block blocks hex_digits hex_hash rotate_right
abc = refl

no_text : sha256_hex [] ≡ text "e3b0c44298fc1c149afbf4c8996fb92427ae41e4649b934ca495991b7852b855"
unfolding text sha256_hex padded zeros_after big_endian element load_word load_words next_word
    extend round rounds add_hash block blocks hex_digits hex_hash rotate_right
no_text = refl

two_blocks :
    sha256_hex (text "abcdbcdecdefdefgefghfghighijhijkijkljklmklmnlmnomnopnopq")
    ≡ text "248d6a61d20638b8e5c026930c3e6039a33ce45964ff2167f6ecedd419db06c1"
unfolding text sha256_hex padded zeros_after big_endian element load_word load_words next_word
    extend round rounds add_hash block blocks hex_digits hex_hash rotate_right
two_blocks = refl

sha256_hex-lowercase_example : lowercase_sha256 (sha256_hex (text "abc")) ≡ true
sha256_hex-lowercase_example = sha256_hex-lowercase (text "abc")

padded-blocks_example :
    (length (padded (text "abc")) % 64 ≡ 0)
    × (length (text "abc") + 9 ≤ length (padded (text "abc")))
    × (length (padded (text "abc")) ≤ length (text "abc") + 72)
padded-blocks_example = padded-blocks (text "abc")
