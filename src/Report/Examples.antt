-- ===== src/Report/Examples.antt =====
-- A quoted text, printed and read (src/TaskReport.cpp).
use gaudere_agent.Prelude.{◌≡◌, refl, true, all, [], ◌∷◌}
use gaudere_agent.Text.{Text}
use gaudere_agent.Report.{
  escaped_text, escape_all, escape_byte, hex_digit, unquoted, printable, escaped_text-reads,
}

-- A line feed, the byte 27 and a quote.
abbrev awkward : Text
awkward = 10 ∷ 27 ∷ 34 ∷ []

awkward_escaped :
    escaped_text awkward ≡ 34 ∷ 92 ∷ b'n' ∷ 92 ∷ b'x' ∷ b'1' ∷ b'b' ∷ 92 ∷ 34 ∷ 34 ∷ []
unfolding escaped_text escape_all escape_byte hex_digit
awkward_escaped = refl

escaped_text-reads_example :
    (all printable (escaped_text awkward) ≡ true) × (unquoted (escaped_text awkward) ≡ awkward)
escaped_text-reads_example = escaped_text-reads awkward
