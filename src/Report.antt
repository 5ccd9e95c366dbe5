-- ===== src/Report.antt =====
-- The quoted texts of a task report (escaped_text of src/TaskReport.cpp), and a reader of them.
mod Examples
use gaudere_agent.Prelude.{
  ℕ, ◌+◌, ◌-◌, ◌*◌, ◌/◌, ◌%◌, ◌<◌, ◌≤◌, ◌≡◌, refl, inl, inr, Bool, true, false, ◌&&◌, ◌||◌, List,
  [], ◌∷◌, ◌++◌, append_assoc, arith, ltb, leb, ◌==◌, if◌then◌else◌, all, all-append, Bool-cases,
  ==_iff, ap, ◌∙◌,
}
use gaudere_agent.Text.{Text}

unfoldable pub hex_digit : ℕ → ℕ
hex_digit n = if ltb n 10 then 48 + n else 87 + n

-- The `switch` on a byte: 92 is the backslash, 34 the quote, 10, 13 and 9 are \n, \r and \t.
unfoldable pub escape_byte : ℕ → Text
escape_byte byte =
    if byte == 92
    then 92 ∷ 92 ∷ []
    else if byte == 34
    then 92 ∷ 34 ∷ []
    else if byte == 10
    then 92 ∷ b'n' ∷ []
    else if byte == 13
    then 92 ∷ b'r' ∷ []
    else if byte == 9
    then 92 ∷ b't' ∷ []
    else if ltb byte 32
    then 92 ∷ b'x' ∷ hex_digit (byte / 16) ∷ hex_digit (byte % 16) ∷ []
    else byte ∷ []

unfoldable pub escape_all : Text → Text
escape_all [] = []
escape_all (byte ∷ rest) = escape_byte byte ++ escape_all rest

unfoldable pub escaped_text : Text → Text
escaped_text value = 34 ∷ (escape_all value ++ 34 ∷ [])

-- A reader of quoted texts.
data Mode : Type 0 where
  plain slash first_digit : Mode
  last_digit : ℕ → Mode

unfoldable hex_value : ℕ → ℕ
hex_value c = if ltb c 58 then c - 48 else c - 87

unfoldable unescape : ℕ → ℕ
unescape c = if c == b'n' then 10 else if c == b'r' then 13 else if c == b't' then 9 else c

unfoldable read : Mode → Text → Text
read mode [] = []
read plain (c ∷ rest) =
    let escaped = read slash rest in
    let more = read plain rest in if c == 34 then [] else if c == 92 then escaped else c ∷ more
read slash (c ∷ rest) =
    let hex = read first_digit rest in
    let more = read plain rest in if c == b'x' then hex else unescape c ∷ more
read first_digit (c ∷ rest) = read (last_digit (hex_value c)) rest
read (last_digit n) (c ∷ rest) = (n * 16 + hex_value c) ∷ read plain rest

pub unquoted : Text → Text
unquoted [] = []
unquoted (quote ∷ rest) = read plain rest

hex_value-hex_digit : (n : ℕ) → n < 16 → hex_value (hex_digit n) ≡ n
unfolding hex_value hex_digit
hex_value-hex_digit n h = ground arith

read-control :
    (c : ℕ) → c < 32 → hex_value (hex_digit (c / 16)) * 16 + hex_value (hex_digit (c % 16)) ≡ c
read-control c h =
    let p : c / 16 < 16 = omega arith in
    let q : c % 16 < 16 = omega arith in
    rw (hex_value-hex_digit (c / 16) p, hex_value-hex_digit (c % 16) q) (omega arith)

read-escape_byte : (c : ℕ) (rest : Text) → read plain (escape_byte c ++ rest) ≡ c ∷ read plain rest
unfolding read escape_byte unescape
read-escape_byte c rest = elim (Bool-cases (c == 92)) [
  | inl a ↦ rw ((==_iff c 92).0 a) refl
  | inr a ↦ elim (Bool-cases (c == 34)) [
    | inl b ↦ rw ((==_iff c 34).0 b) refl
    | inr b ↦ elim (Bool-cases (c == 10)) [
      | inl d ↦ rw ((==_iff c 10).0 d) refl
      | inr d ↦ elim (Bool-cases (c == 13)) [
        | inl e ↦ rw ((==_iff c 13).0 e) refl
        | inr e ↦ elim (Bool-cases (c == 9)) [
          | inl f ↦ rw ((==_iff c 9).0 f) refl
          | inr f ↦ elim (Bool-cases (ltb c 32)) [
            | inl g ↦
                rw (a, b, d, e, f, g)
                  (ap (λ n. n ∷ read plain rest) (read-control c (ground arith)))
            | inr g ↦ rw (a, b, d, e, f, g) (rw (b, a) refl)
          ]
        ]
      ]
    ]
  ]
]

read-escape_all : (v : Text) → read plain (escape_all v ++ 34 ∷ []) ≡ v
unfolding escape_all read
read-escape_all [] = refl
read-escape_all (c ∷ v) =
    ap (read plain) (append_assoc (escape_byte c) (escape_all v) (34 ∷ []))
    ∙ read-escape_byte c (escape_all v ++ 34 ∷ [])
    ∙ ap (λ t. c ∷ t) (read-escape_all v)

abbrev pub printable : ℕ → Bool
printable c = leb 32 c

escape_byte-printable : (c : ℕ) → all printable (escape_byte c) ≡ true
unfolding escape_byte all hex_digit
escape_byte-printable c = ground arith

escape_all-printable : (v : Text) → all printable (escape_all v) ≡ true
unfolding escape_all all
escape_all-printable [] = refl
escape_all-printable (c ∷ v) =
    rw (all-append printable (escape_byte c) (escape_all v), escape_byte-printable c)
      (escape_all-printable v)

-- A quoted text has no byte below 32, so no line break, and the reader of quoted texts gives the text
-- back, whatever its bytes.
pub escaped_text-reads :
    (v : Text) → (all printable (escaped_text v) ≡ true) × (unquoted (escaped_text v) ≡ v)
unfolding escaped_text all unquoted read
escaped_text-reads v = (
  rw (all-append printable (escape_all v) (34 ∷ []), escape_all-printable v) refl,
  read-escape_all v,
)
