-- ===== src/Control/Sequence.antt =====
-- The decimal sequence numbers of acknowledgements (positive_sequence_text of src/LiveControl.cpp).
use gaudere_agent.Prelude.{
  int64_max, ℕ, ◌+◌, ◌-◌, ◌*◌, ◌/◌, ◌%◌, ◌^◌, ◌≤◌, ◌<◌, ◌≡◌, Bool, true, false, not, ◌&&◌, ◌||◌,
  none, some, [], ◌∷◌, arith, ltb, leb, if◌then◌else◌, all, empty, length, Bool-cases, inl, inr,
}
use gaudere_agent.Text.{Text}
use gaudere_agent.Control.Validate.{starts_with_zero, sequence_loop, positive_sequence_text}

abbrev pub digit_byte : ℕ → Bool
digit_byte c = leb b'0' c && leb c b'9'

-- The number that a digit string writes, after the digits of `n`, in unbounded arithmetic.
unfoldable pub decimal : ℕ → Text → ℕ
decimal n [] = n
decimal n (c ∷ rest) = decimal (n * 10 + (c - b'0')) rest

decimal-le : (n : ℕ) (v : Text) → n ≤ decimal n v
unfolding decimal
decimal-le n [] = omega arith
decimal-le n (c ∷ v) = omega (arith, decimal-le (n * 10 + (c - b'0')) v)

digit_value : (c : ℕ) → (ltb c b'0' || ltb b'9' c) ≡ false → c - b'0' ≤ 9
digit_value c h = ground arith

too_big : (n d : ℕ) → d ≤ 9 → ltb ((int64_max - d) / 10) n ≡ true → int64_max < n * 10 + d
too_big n d b h = ground arith

fits : (n d : ℕ) → d ≤ 9 → ltb ((int64_max - d) / 10) n ≡ false → n * 10 + d ≤ int64_max
fits n d b h = ground arith

-- The loop in uint64 arithmetic computes the number itself, and refuses exactly a byte that is no digit
-- and a number above the limit.
pub sequence_loop_lem :
    (n : ℕ) (v : Text)
    → n ≤ int64_max
    → sequence_loop n v
      ≡ (if all digit_byte v && leb (decimal n v) int64_max then some (decimal n v) else none)
unfolding sequence_loop decimal all
sequence_loop_lem n [] h = ground arith
sequence_loop_lem n (c ∷ v) h = elim (Bool-cases (ltb c b'0' || ltb b'9' c)) [
  | inl bad ↦ ground arith
  | inr digit ↦ elim (Bool-cases (ltb ((int64_max - (c - b'0')) / 10) n)) [
    | inl big ↦
        let above = too_big n (c - b'0') (digit_value c digit) big in
        ground (arith, above, decimal-le (n * 10 + (c - b'0')) v)
    | inr small ↦
        let room = fits n (c - b'0') (digit_value c digit) small in
        let exact : (n * 10 + (c - b'0')) % 2 ^ 64 ≡ n * 10 + (c - b'0') = omega arith in
        rw exact (ground (arith, sequence_loop_lem (n * 10 + (c - b'0')) v room))
  ]
]

-- An acknowledgement text is accepted exactly where it is 1 to 19 digits without a leading zero that
-- write a positive int64 value.
pub positive_sequence_text_lem :
    (v : Text)
    → positive_sequence_text v ≡ (
        not (empty v)
        && leb (length v) 19
        && not (starts_with_zero v)
        && all digit_byte v
        && leb 1 (decimal 0 v)
        && leb (decimal 0 v) int64_max)
unfolding positive_sequence_text
positive_sequence_text_lem v = rw (sequence_loop_lem 0 v (omega arith)) (ground arith)
