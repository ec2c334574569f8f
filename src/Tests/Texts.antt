-- ===== src/Tests/Texts.antt =====
-- The text forms at concrete inputs.
use qsyn.Prelude.{ℕ, ◌-◌, ◌≡◌, ◌≢◌, some, ◌&&◌, refl, arith, leb, if◌then◌else◌, [], ◌∷◌}
use qsyn.Pauli.Product.{Pauli}
use qsyn.Pauli.Text
use qsyn.Pauli.Text.{of_string, KeepsLetters, of_string-to_string, to_string-of_paulis}
use qsyn.Tests.Paulis.{minus_xy}

-- The upper case of an ASCII byte.
abbrev ascii_upper : ℕ → ℕ
ascii_upper c = if leb b'a' c && leb c b'z' then c - 32 else c

ascii_upper-letter : (p : Pauli) → ascii_upper (Text.letter p) ≡ Text.letter p
ascii_upper-letter Pauli.i = refl
ascii_upper-letter Pauli.x = refl
ascii_upper-letter Pauli.y = refl
ascii_upper-letter Pauli.z = refl

ascii_upper-KeepsLetters : KeepsLetters ascii_upper
ascii_upper-KeepsLetters = record { keeps = ascii_upper-letter }

-- A text with a sign is not empty.
text_shown : Text.to_string b'+' minus_xy ≢ []
unfolding Text.to_string
text_shown e = ground (arith, e)

of_string-to_string_example : of_string ascii_upper (Text.to_string b'+' minus_xy) ≡ some minus_xy
of_string-to_string_example =
    of_string-to_string ascii_upper ascii_upper-KeepsLetters b'+' minus_xy (λ e. ground arith)
      text_shown

-- Small letters are read too.
small_letters : of_string ascii_upper (b'-' ∷ b'x' ∷ b'y' ∷ []) ≡ some minus_xy
unfolding of_string
small_letters = refl
