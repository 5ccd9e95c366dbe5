-- ===== src/Responder/Canonical.antt =====
-- The canonical texts that identities are hashed from: `append` of
-- src/LocalGooseDialogueResponder.cpp, for a string and for a number.
use gaudere_agent.Prelude.{
  ℕ, zero, suc, ◌+◌, ◌-◌, ◌*◌, ◌/◌, ◌%◌, ◌≤◌, ◌≡◌, refl, sym, Bool, true, false, ◌&&◌, [], ◌∷◌,
  ◌++◌, append_assoc, arith, ltb, leb, if◌then◌else◌, length, all, all-append, ◌∙◌, Bool-cases, inl,
  inr, ap,
}
use gaudere_agent.Text.{Text, text}

-- The decimal digits of a number, most significant first; the fuel is the number of divisions at most.
unfoldable pub digits : ℕ → ℕ → Text
digits zero n = (b'0' + n % 10) ∷ []
digits (suc fuel) n =
    let front = digits fuel (n / 10) in
    if ltb n 10 then (b'0' + n % 10) ∷ [] else front ++ ((b'0' + n % 10) ∷ [])

-- std::to_string
unfoldable pub to_string : ℕ → Text
to_string n = digits n n

-- out += to_string(value.size()) + ':' + value + '|'
unfoldable pub append_text : Text → Text → Text
append_text out value = out ++ to_string (length value) ++ text ":" ++ value ++ text "|"

-- out += to_string(value) + '|'
unfoldable pub append_number : Text → ℕ → Text
append_number out value = out ++ to_string value ++ text "|"

-- The number that digits write.
unfoldable pub read : ℕ → Text → ℕ
read n [] = n
read n (c ∷ rest) = read (n * 10 + (c - b'0')) rest

read-append : (n : ℕ) (s t : Text) → read n (s ++ t) ≡ read (read n s) t
unfolding read
read-append n [] t = refl
read-append n (c ∷ s) t = read-append (n * 10 + (c - b'0')) s t

read-digits : (fuel n : ℕ) → n ≤ fuel → read 0 (digits fuel n) ≡ n
unfolding read digits
read-digits zero n h = omega arith
read-digits (suc fuel) n h = elim (Bool-cases (ltb n 10)) [
  | inl small ↦ rw small (ground arith)
  | inr large ↦
      let lower : n / 10 ≤ fuel = ground arith in
      rw
        (
          large,
          read-append 0 (digits fuel (n / 10)) ((b'0' + n % 10) ∷ []),
          read-digits fuel (n / 10) lower,
        )
        (omega arith)
]

-- Reading a printed number back gives the number.
pub read-to_string : (n : ℕ) → read 0 (to_string n) ≡ n
unfolding to_string
read-to_string n = read-digits n n (omega arith)

abbrev pub digit_byte : ℕ → Bool
digit_byte c = leb b'0' c && leb c b'9'

all-digits : (fuel n : ℕ) → all digit_byte (digits fuel n) ≡ true
unfolding digits all
all-digits zero n = ground arith
all-digits (suc fuel) n = ground (
  arith,
  all-append digit_byte (digits fuel (n / 10)) ((b'0' + n % 10) ∷ []),
  all-digits fuel (n / 10),
)

pub to_string_digits : (n : ℕ) → all digit_byte (to_string n) ≡ true
unfolding to_string
to_string_digits n = all-digits n n

-- What a string adds to a text, before the rest.
abbrev pub frame_text : Text → Text → Text
frame_text value rest = to_string (length value) ++ b':' ∷ (value ++ b'|' ∷ rest)

abbrev pub frame_number : ℕ → Text → Text
frame_number value rest = to_string value ++ b'|' ∷ rest

pub append_text-frame :
    (out value rest : Text) → append_text out value ++ rest ≡ out ++ frame_text value rest
unfolding append_text text
append_text-frame out value rest =
    append_assoc (out ++ to_string (length value) ++ text ":" ++ value) (b'|' ∷ []) rest
    ∙ append_assoc (out ++ to_string (length value) ++ text ":") value (b'|' ∷ rest)
    ∙ append_assoc (out ++ to_string (length value)) (b':' ∷ []) (value ++ b'|' ∷ rest)
    ∙ append_assoc out (to_string (length value)) (b':' ∷ (value ++ b'|' ∷ rest))

pub append_number-frame :
    (out : Text) (value : ℕ) (rest : Text)
    → append_number out value ++ rest ≡ out ++ frame_number value rest
unfolding append_number text
append_number-frame out value rest =
    append_assoc (out ++ to_string value) (b'|' ∷ []) rest
    ∙ append_assoc out (to_string value) (b'|' ∷ rest)

tail_eq : (a b : ℕ) (s t : Text) → a ∷ s ≡ b ∷ t → (a ≡ b) × (s ≡ t)
tail_eq a b s t e = ground (arith, e)

-- Two digit strings that end at the same byte, which is no digit, are the same.
digits_end :
    (c : ℕ) (xs ys s t : Text)
    → digit_byte c ≡ false
    → all digit_byte xs ≡ true
    → all digit_byte ys ≡ true
    → xs ++ c ∷ s ≡ ys ++ c ∷ t
    → (xs ≡ ys) × (s ≡ t)
unfolding all
digits_end c [] [] s t n p q e = (refl, (tail_eq c c s t e).1)
digits_end c [] (y ∷ ys) s t n p q e = ground (arith, tail_eq c y s (ys ++ c ∷ t) e)
digits_end c (x ∷ xs) [] s t n p q e = ground (arith, tail_eq x c (xs ++ c ∷ s) t e)
digits_end c (x ∷ xs) (y ∷ ys) s t n p q e =
    let same = tail_eq x y (xs ++ c ∷ s) (ys ++ c ∷ t) e in
    let rest = digits_end c xs ys s t n (ground arith) (ground arith) same.1 in
    (rw (same.0, rest.0) refl, rest.1)

-- Two texts of the same length in front of the rest.
same_length : (u v s t : Text) → length u ≡ length v → u ++ s ≡ v ++ t → (u ≡ v) × (s ≡ t)
same_length [] [] s t n e = (refl, e)
same_length [] (b ∷ v) s t n e = ground arith
same_length (a ∷ u) [] s t n e = ground arith
same_length (a ∷ u) (b ∷ v) s t n e =
    let same = tail_eq a b (u ++ s) (v ++ t) e in
    let rest = same_length u v s t (omega arith) same.1 in (rw (same.0, rest.0) refl, rest.1)

pub prefix_cancel : (u s t : Text) → u ++ s ≡ u ++ t → s ≡ t
prefix_cancel u s t e = (same_length u u s t refl e).1

to_string_injective : (m n : ℕ) → to_string m ≡ to_string n → m ≡ n
to_string_injective m n e = sym (read-to_string m) ∙ ap (read 0) e ∙ read-to_string n

pub frame_number_injective :
    (m n : ℕ) (s t : Text) → frame_number m s ≡ frame_number n t → (m ≡ n) × (s ≡ t)
frame_number_injective m n s t e =
    let same =
      digits_end b'|' (to_string m) (to_string n) s t refl (to_string_digits m) (to_string_digits n)
        e in
    (to_string_injective m n same.0, same.1)

pub frame_text_injective : (u v s t : Text) → frame_text u s ≡ frame_text v t → (u ≡ v) × (s ≡ t)
frame_text_injective u v s t e =
    let same =
      digits_end b':' (to_string (length u)) (to_string (length v)) _ _ refl
        (to_string_digits (length u)) (to_string_digits (length v)) e in
    let value =
      same_length u v (b'|' ∷ s) (b'|' ∷ t) (to_string_injective (length u) (length v) same.0)
        same.1 in
    (value.0, (tail_eq b'|' b'|' s t value.1).1)
