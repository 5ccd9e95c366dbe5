-- ===== src/Sha256/Laws.antt =====
-- The form of a digest, and that the loops of sha256_hex end (src/Sha256.cpp).
use gaudere_agent.Prelude.{
  ℕ, zero, suc, ◌+◌, ◌*◌, ◌/◌, ◌-◌, ◌%◌, ◌≤◌, ◌<◌, ◌≡◌, refl, ap, inl, inr, true, false, [], ◌∷◌,
  ◌++◌, arith, ltb, ◌==◌, length, all, length-append, all-append, Bool-cases,
}
use gaudere_agent.Text.{Text, lowercase_sha256, hex_byte}
use gaudere_agent.Sha256.{
  Hash, initial_hash, sha256_hex, padded, zeros_after, big_endian, block, blocks, hex_digits,
  hex_hash, hex_character, power, radix,
}

hex_digits-length : (n value : ℕ) → length (hex_digits n value) ≡ n
unfolding hex_digits
hex_digits-length zero value = refl
hex_digits-length (suc n) value = ap suc (hex_digits-length n value)

hex_character-hex : (digit : ℕ) → digit < 16 → hex_byte (hex_character digit) ≡ true
unfolding hex_byte
hex_character-hex digit lt = ground arith

hex_digits-hex : (n value : ℕ) → all hex_byte (hex_digits n value) ≡ true
unfolding hex_digits all
hex_digits-hex zero value = refl
hex_digits-hex (suc n) value =
    rw (hex_character-hex (value / power (4 * n) % 16) (omega arith)) (hex_digits-hex n value)

abbrev Form : ℕ → Text → Type 0
Form n t = (length t ≡ n) × (all hex_byte t ≡ true)

Form-append : (m n : ℕ) (s t : Text) → Form m s → Form n t → Form (m + n) (s ++ t)
Form-append m n s t p q =
    (omega (arith, length-append s t, p.0, q.0), rw (all-append hex_byte s t, p.1, q.1) refl)

hex_digits-Form : (value : ℕ) → Form 8 (hex_digits 8 value)
hex_digits-Form value = (hex_digits-length 8 value, hex_digits-hex 8 value)

hex_hash-Form : (s : Hash) → Form 64 (hex_hash s)
unfolding hex_hash
hex_hash-Form s =
    Form-append 56 8 _ _
      (Form-append 48 8 _ _
        (Form-append 40 8 _ _
          (Form-append 32 8 _ _
            (Form-append 24 8 _ _
              (Form-append 16 8 _ _
                (Form-append 8 8 _ _ (hex_digits-Form s.a) (hex_digits-Form s.b))
                (hex_digits-Form s.c))
              (hex_digits-Form s.d))
            (hex_digits-Form s.e))
          (hex_digits-Form s.f))
        (hex_digits-Form s.g))
      (hex_digits-Form s.h)

-- The digest of every text is 64 lowercase hexadecimal digits.
pub sha256_hex-lowercase : (t : Text) → lowercase_sha256 (sha256_hex t) ≡ true
unfolding lowercase_sha256 sha256_hex
sha256_hex-lowercase t =
    let form = hex_hash-Form (blocks (length (padded t)) (padded t) 0 initial_hash) in
    rw (form.0) (form.1)

zeros_after-fill :
    (n size gap : ℕ)
    → (size + gap) % 64 ≡ 56
    → gap < n
    → ((size + length (zeros_after n size)) % 64 ≡ 56) × (length (zeros_after n size) ≤ gap)
unfolding zeros_after
zeros_after-fill zero size gap e lt = absurd (omega (arith, lt))
zeros_after-fill (suc n) size zero e lt = elim (Bool-cases (size % 64 == 56)) [
  | inl y ↦ rw y (omega (arith, e), omega arith)
  | inr other ↦ absurd (ground (arith, e))
]
zeros_after-fill (suc n) size (suc gap) e lt = elim (Bool-cases (size % 64 == 56)) [
  | inl y ↦ rw y (ground arith, omega arith)
  | inr other ↦
      let rest = zeros_after-fill n (size + 1) gap (omega (arith, e)) (omega (arith, lt)) in
      rw other (omega (arith, rest.0), omega (arith, rest.1))
]

big_endian-length : (n value : ℕ) → length (big_endian n value) ≡ n
unfolding big_endian
big_endian-length zero value = refl
big_endian-length (suc n) value = ap suc (big_endian-length n value)

-- The padded text is a whole number of blocks of 64 bytes, and from 9 to 72 bytes longer than the text.
pub padded-blocks :
    (t : Text)
    → (length (padded t) % 64 ≡ 0)
      × (length t + 9 ≤ length (padded t))
      × (length (padded t) ≤ length t + 72)
unfolding padded
padded-blocks t =
    let size = length (t ++ (0x80 ∷ [])) in
    let zeros = zeros_after 64 size in
    let tail = big_endian 8 (length t * 8 % (radix * radix)) in
    let fill = zeros_after-fill 64 size ((120 - size % 64) % 64) (omega arith) (omega arith) in
    let marked = length-append t (0x80 ∷ []) in
    let outer = length-append (t ++ (0x80 ∷ []) ++ zeros) tail in
    let inner = length-append (t ++ (0x80 ∷ [])) zeros in
    let eight = big_endian-length 8 (length t * 8 % (radix * radix)) in
    let whole : length (padded t) ≡ length (t ++ (0x80 ∷ []) ++ zeros ++ tail) = refl in
    let first : length (zeros_after 64 size) ≤ 63 = omega (arith, fill.1) in
    (
      omega (arith, whole, fill.0, outer, inner, eight),
      omega (arith, whole, marked, outer, inner, eight),
      omega (arith, whole, marked, outer, inner, eight, first),
    )

-- Past the end of the text the loop over the blocks does nothing more, on any fuel.
blocks-enough :
    (n m : ℕ) (bytes : Text) (base : ℕ) (hash : Hash)
    → n ≤ m
    → length bytes ≤ base + n * 64
    → blocks m bytes base hash ≡ blocks n bytes base hash
unfolding blocks
blocks-enough zero zero bytes base hash q le = refl
blocks-enough zero (suc m) bytes base hash q le =
    let over : ltb base (length bytes) ≡ false = ground arith in rw over refl
blocks-enough (suc n) zero bytes base hash q le = absurd (omega (arith, q))
blocks-enough (suc n) (suc m) bytes base hash q le =
    rw
      (blocks-enough n m bytes (base + 64) (block bytes base hash) (omega (arith, q))
        (omega (arith, le)))
      refl

-- The loop over the blocks has ended on the fuel that sha256_hex takes: more fuel gives the same digest.
sha256_hex-ends :
    (t : Text) (fuel : ℕ)
    → length (padded t) ≤ fuel
    → hex_hash (blocks fuel (padded t) 0 initial_hash) ≡ sha256_hex t
unfolding sha256_hex
sha256_hex-ends t fuel le =
    ap hex_hash (blocks-enough (length (padded t)) fuel (padded t) 0 initial_hash le (omega arith))
