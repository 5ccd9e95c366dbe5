-- ===== src/Sha256.antt =====
-- sha256_hex of src/Sha256.cpp. A std::uint32_t is a number with its wrap-around written out; a byte of the
-- input is below 256.
pub mod Laws
mod Examples
use Prim.Native.Nat.{◌/◌, ◌%◌, ◌*◌, bit_and, bit_or, bit_xor}
use gaudere_agent.Prelude.{
  ℕ, zero, suc, ◌+◌, ◌-◌, Bool, true, false, List, [], ◌∷◌, ◌++◌, length, ltb, ◌==◌, if◌then◌else◌,
}
use gaudere_agent.Text.{Text}

-- 2 ^ 32
abbrev pub radix : ℕ
radix = 0x100000000

abbrev pub word : ℕ → ℕ
word x = x % radix

-- value << count is value * power, and value >> (32 - count) divides by the other power.
abbrev pub rotate : ℕ → ℕ → ℕ → ℕ
rotate low high value = bit_or (value / low) (word (value * high))

-- rotate_right(value, count), for the counts that the code uses
abbrev pub power : ℕ → ℕ
power zero = 1
power (suc n) = 2 * power n

unfoldable pub rotate_right : ℕ → ℕ → ℕ
rotate_right value count = rotate (power count) (power (32 - count)) value

abbrev pub round_constants : List ℕ
round_constants =
    0x428a2f98 ∷ 0x71374491 ∷ 0xb5c0fbcf ∷ 0xe9b5dba5 ∷ 0x3956c25b ∷ 0x59f111f1 ∷ 0x923f82a4
    ∷ 0xab1c5ed5 ∷ 0xd807aa98 ∷ 0x12835b01 ∷ 0x243185be ∷ 0x550c7dc3 ∷ 0x72be5d74 ∷ 0x80deb1fe
    ∷ 0x9bdc06a7 ∷ 0xc19bf174 ∷ 0xe49b69c1 ∷ 0xefbe4786 ∷ 0x0fc19dc6 ∷ 0x240ca1cc ∷ 0x2de92c6f
    ∷ 0x4a7484aa ∷ 0x5cb0a9dc ∷ 0x76f988da ∷ 0x983e5152 ∷ 0xa831c66d ∷ 0xb00327c8 ∷ 0xbf597fc7
    ∷ 0xc6e00bf3 ∷ 0xd5a79147 ∷ 0x06ca6351 ∷ 0x14292967 ∷ 0x27b70a85 ∷ 0x2e1b2138 ∷ 0x4d2c6dfc
    ∷ 0x53380d13 ∷ 0x650a7354 ∷ 0x766a0abb ∷ 0x81c2c92e ∷ 0x92722c85 ∷ 0xa2bfe8a1 ∷ 0xa81a664b
    ∷ 0xc24b8b70 ∷ 0xc76c51a3 ∷ 0xd192e819 ∷ 0xd6990624 ∷ 0xf40e3585 ∷ 0x106aa070 ∷ 0x19a4c116
    ∷ 0x1e376c08 ∷ 0x2748774c ∷ 0x34b0bcb5 ∷ 0x391c0cb3 ∷ 0x4ed8aa4a ∷ 0x5b9cca4f ∷ 0x682e6ff3
    ∷ 0x748f82ee ∷ 0x78a5636f ∷ 0x84c87814 ∷ 0x8cc70208 ∷ 0x90befffa ∷ 0xa4506ceb ∷ 0xbef9a3f7
    ∷ 0xc67178f2 ∷ []

pub record Hash : Type 0 where
  pub a : ℕ
  pub b : ℕ
  pub c : ℕ
  pub d : ℕ
  pub e : ℕ
  pub f : ℕ
  pub g : ℕ
  pub h : ℕ

abbrev pub initial_hash : Hash
initial_hash = record {
  a = 0x6a09e667;
  b = 0xbb67ae85;
  c = 0x3c6ef372;
  d = 0xa54ff53a;
  e = 0x510e527f;
  f = 0x9b05688c;
  g = 0x1f83d9ab;
  h = 0x5be0cd19;
}

-- while ((bytes.size() % 64u) != 56u) bytes.push_back(0u), of a size; 64 rounds are enough.
unfoldable pub zeros_after : ℕ → ℕ → Text
zeros_after zero size = []
zeros_after (suc n) size =
    let rest = zeros_after n (size + 1) in if size % 64 == 56 then [] else 0 ∷ rest

-- for (int shift = 56; shift >= 0; shift -= 8)
unfoldable pub big_endian : ℕ → ℕ → Text
big_endian zero value = []
big_endian (suc n) value = value / power (8 * n) % 256 ∷ big_endian n value

unfoldable pub padded : Text → Text
padded input =
    let bit_length = length input * 8 % (radix * radix) in
    let marked = input ++ (0x80 ∷ []) in
    marked ++ zeros_after 64 (length marked) ++ big_endian 8 bit_length

-- An element of an array; 0 stands for what is never read.
unfoldable pub element : List ℕ → ℕ → ℕ
element [] i = 0
element (x ∷ xs) zero = x
element (x ∷ xs) (suc i) = element xs i

-- The four bytes at an offset.
unfoldable pub load_word : Text → ℕ → ℕ
load_word bytes offset =
    bit_or
      (bit_or
        (bit_or (word (element bytes offset * 0x1000000)) (element bytes (offset + 1) * 0x10000))
        (element bytes (offset + 2) * 0x100))
      (element bytes (offset + 3))

-- The first n words of the block at base.
unfoldable pub load_words : Text → ℕ → ℕ → List ℕ
load_words bytes base zero = []
load_words bytes base (suc n) = load_words bytes base n ++ (load_word bytes (base + n * 4) ∷ [])

unfoldable pub next_word : List ℕ → ℕ → ℕ
next_word w i =
    let x = element w (i - 15) in
    let y = element w (i - 2) in
    let s0 = bit_xor (bit_xor (rotate_right x 7) (rotate_right x 18)) (x / power 3) in
    let s1 = bit_xor (bit_xor (rotate_right y 17) (rotate_right y 19)) (y / power 10) in
    word (element w (i - 16) + s0 + element w (i - 7) + s1)

-- n further words, from the index i
unfoldable pub extend : ℕ → ℕ → List ℕ → List ℕ
extend zero i w = w
extend (suc n) i w = extend n (i + 1) (w ++ (next_word w i ∷ []))

unfoldable pub round : Hash → ℕ → ℕ → Hash
round s k w =
    let s1 = bit_xor (bit_xor (rotate_right s.e 6) (rotate_right s.e 11)) (rotate_right s.e 25) in
    let ch = bit_xor (bit_and s.e s.f) (bit_and (bit_xor s.e 0xffffffff) s.g) in
    let t1 = word (s.h + s1 + ch + k + w) in
    let s0 = bit_xor (bit_xor (rotate_right s.a 2) (rotate_right s.a 13)) (rotate_right s.a 22) in
    let maj = bit_xor (bit_xor (bit_and s.a s.b) (bit_and s.a s.c)) (bit_and s.b s.c) in
    let t2 = word (s0 + maj) in
    record {
      a = word (t1 + t2);
      b = s.a;
      c = s.b;
      d = s.c;
      e = word (s.d + t1);
      f = s.e;
      g = s.f;
      h = s.g;
    }

unfoldable pub rounds : List ℕ → List ℕ → Hash → Hash
rounds [] w s = s
rounds (k ∷ ks) [] s = s
rounds (k ∷ ks) (x ∷ w) s = rounds ks w (round s k x)

unfoldable pub add_hash : Hash → Hash → Hash
add_hash x y = record {
  a = word (x.a + y.a);
  b = word (x.b + y.b);
  c = word (x.c + y.c);
  d = word (x.d + y.d);
  e = word (x.e + y.e);
  f = word (x.f + y.f);
  g = word (x.g + y.g);
  h = word (x.h + y.h);
}

unfoldable pub block : Text → ℕ → Hash → Hash
block bytes base hash =
    add_hash hash (rounds round_constants (extend 48 16 (load_words bytes base 16)) hash)

-- for (base = 0; base < bytes.size(); base += 64u), on fuel
unfoldable pub blocks : ℕ → Text → ℕ → Hash → Hash
blocks zero bytes base hash = hash
blocks (suc n) bytes base hash =
    let rest = blocks n bytes (base + 64) (block bytes base hash) in
    if ltb base (length bytes) then rest else hash

abbrev pub hex_character : ℕ → ℕ
hex_character digit = if ltb digit 10 then 48 + digit else 87 + digit

-- std::hex with std::setw(8) and std::setfill('0')
unfoldable pub hex_digits : ℕ → ℕ → Text
hex_digits zero value = []
hex_digits (suc n) value = hex_character (value / power (4 * n) % 16) ∷ hex_digits n value

unfoldable pub hex_hash : Hash → Text
hex_hash s =
    hex_digits 8 s.a
    ++ hex_digits 8 s.b
    ++ hex_digits 8 s.c
    ++ hex_digits 8 s.d
    ++ hex_digits 8 s.e
    ++ hex_digits 8 s.f
    ++ hex_digits 8 s.g
    ++ hex_digits 8 s.h

-- One round of the loop for each block, and one for its end: there are no more blocks than bytes.
unfoldable pub sha256_hex : Text → Text
sha256_hex input = let bytes = padded input in hex_hash (blocks (length bytes) bytes 0 initial_hash)
