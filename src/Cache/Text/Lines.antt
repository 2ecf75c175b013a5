-- ===== src/Cache/Text/Lines.antt =====
-- cpu.c: a trace file in its format is read line by line.
use projects_in_c.Base.{
  ℕ, zero, suc, ◌+◌, ◌*◌, ◌%◌, ◌≤◌, ◌<◌, ◌≡◌, refl, ap, ◌∙◌, List, [], ◌∷◌, ◌++◌, some, true, false,
  ◌==◌, ◌&&◌, ◌||◌, arith, map, length, length-append,
}
use projects_in_c.Base.Words.{word}
use projects_in_c.Base.Decimal.{skip_space, is_space}
use projects_in_c.Base.Hex.{is_hex, hex_digit, scan_hex_digits, hex_number, hex_prefixed, scan_hex}
use projects_in_c.Cache.Sim.{TraceLine}
use projects_in_c.Cache.Text.{read_address, trace_lines}

-- A line of a trace file: an operation, the digits of an address and a size.
pub record TextLine : Type 0 where
  pub operation : ℕ
  pub digits : List ℕ
  pub size : ℕ

abbrev pub AreHex : List ℕ → Type 0
AreHex [] = Unit
AreHex (c ∷ cs) = (is_hex c ≡ true) × AreHex cs

-- The number that digits spell behind `n`.
abbrev pub spelled : ℕ → List ℕ → ℕ
spelled n [] = n
spelled n (c ∷ cs) = spelled (n * 16 + hex_digit c) cs

-- The operation is no white space, and the address has one hexadecimal digit or more.
pub record IsLine (l : TextLine) : Type 0 where
  pub no_space : is_space l.operation ≡ false
  pub some_digits : 0 < length l.digits
  pub hex : AreHex l.digits

abbrev pub AreLines : List TextLine → Type 0
AreLines [] = Unit
AreLines (l ∷ ls) = IsLine l × AreLines ls

abbrev pub line_text : TextLine → List ℕ → List ℕ
line_text l rest = l.operation ∷ b' ' ∷ (l.digits ++ (b',' ∷ l.size ∷ b'\n' ∷ rest))

-- The text of a trace file, a line for each access.
abbrev pub text_of : List TextLine → List ℕ
text_of [] = []
text_of (l ∷ ls) = line_text l (text_of ls)

abbrev pub value_of : TextLine → TraceLine
value_of l = record { operation = l.operation; address = spelled 0 l.digits % word; size = l.size }

scan_hex_digits_lem :
    (ds cs : List ℕ) (n : ℕ)
    → AreHex ds
    → scan_hex_digits n (ds ++ (b',' ∷ cs)) ≡ (spelled n ds, b',' ∷ cs)
unfolding scan_hex_digits
scan_hex_digits_lem [] cs n h = refl
scan_hex_digits_lem (d ∷ ds) cs n (h, hs) =
    rw h (scan_hex_digits_lem ds cs (n * 16 + hex_digit d) hs)

hex_number_lem :
    (d : ℕ) (ds cs : List ℕ)
    → AreHex (d ∷ ds)
    → hex_number (d ∷ (ds ++ (b',' ∷ cs))) ≡ (some (spelled 0 (d ∷ ds) % word), b',' ∷ cs)
unfolding hex_number
hex_number_lem d ds cs h = rw h.0 (
    ap (λ (r : ℕ × List ℕ). (some (r.0 % word), r.1))
      (scan_hex_digits_lem ds cs (0 + hex_digit d) h.1))

-- No digit is the letter of the prefix, and none is a sign.
no_prefix : (d c : ℕ) → is_hex c ≡ true → (d == b'0' && (c == b'x' || c == b'X')) ≡ false
no_prefix d c h = ground arith

no_comma : (d : ℕ) → (d == b'0' && (b',' == b'x' || b',' == b'X')) ≡ false
no_comma d = ground arith

no_minus : (d : ℕ) → is_hex d ≡ true → (d == b'-') ≡ false
no_minus d h = ground arith

no_plus : (d : ℕ) → is_hex d ≡ true → (d == b'+') ≡ false
no_plus d h = ground arith

hex_prefixed_lem :
    (d : ℕ) (ds cs : List ℕ)
    → AreHex (d ∷ ds)
    → hex_prefixed (d ∷ (ds ++ (b',' ∷ cs))) ≡ (some (spelled 0 (d ∷ ds) % word), b',' ∷ cs)
unfolding hex_prefixed
hex_prefixed_lem d [] cs h = rw (no_comma d) (hex_number_lem d [] cs h)
hex_prefixed_lem d (e ∷ es) cs h = rw (no_prefix d e h.1.0) (hex_number_lem d (e ∷ es) cs h)

scan_hex_lem :
    (d : ℕ) (ds cs : List ℕ)
    → AreHex (d ∷ ds)
    → scan_hex (d ∷ (ds ++ (b',' ∷ cs))) ≡ (some (spelled 0 (d ∷ ds) % word), b',' ∷ cs)
unfolding scan_hex
scan_hex_lem d ds cs h = rw (no_minus d h.0, no_plus d h.0) (hex_prefixed_lem d ds cs h)

hex_no_space : (d : ℕ) → is_hex d ≡ true → is_space d ≡ false
hex_no_space d h = ground arith

-- White space behind a line is passed over up to the next line.
skip_lines : (ls : List TextLine) → AreLines ls → skip_space (text_of ls) ≡ text_of ls
unfolding skip_space
skip_lines [] h = refl
skip_lines (l ∷ ls) (h, _) = rw h.no_space

skip-newline : (cs : List ℕ) → skip_space (b'\n' ∷ cs) ≡ skip_space cs
unfolding skip_space
skip-newline cs = refl

skip-digit : (d : ℕ) (cs : List ℕ) → is_hex d ≡ true → skip_space (b' ' ∷ d ∷ cs) ≡ d ∷ cs
unfolding skip_space
skip-digit d cs h = rw (hex_no_space d h)

read_address_lem :
    (digits : List ℕ) (operation size : ℕ) (ls : List TextLine) (line : TraceLine)
    → 0 < length digits
    → AreHex digits
    → AreLines ls
    → read_address line
        (line_text (record { operation = operation; digits = digits; size = size }) (text_of ls))
      ≡ some (
        record { operation = operation; address = spelled 0 digits % word; size = size },
        text_of ls,
      )
unfolding read_address
read_address_lem [] operation size ls line pos hex h = absurd (omega arith)
read_address_lem (d ∷ ds) operation size ls line pos hex h = rw (
  skip-digit d (ds ++ (b',' ∷ size ∷ b'\n' ∷ text_of ls)) hex.0,
  scan_hex_lem d ds (size ∷ b'\n' ∷ text_of ls) hex,
  skip-newline (text_of ls),
  skip_lines ls h,
)

trace_lines-step :
    (fuel : ℕ) (line line' : TraceLine) (cs cs' : List ℕ)
    → read_address line cs ≡ some (line', cs')
    → trace_lines (suc fuel) line cs ≡ line' ∷ trace_lines fuel line' cs'
unfolding trace_lines
trace_lines-step fuel line line' cs cs' e = rw (trace_lines, e)

-- The loop of `run_cpu` gets exactly the lines of a trace file that is written in the format of
-- `read_address`, with the address that the hexadecimal digits of a line spell as a number of 32 bits,
-- whatever the variable holds at first. As many rounds as the file has characters are enough.
pub trace_lines-text_of :
    (ls : List TextLine) (fuel : ℕ) (line : TraceLine)
    → AreLines ls
    → length (text_of ls) ≤ fuel
    → trace_lines fuel line (text_of ls) ≡ map value_of ls
unfolding trace_lines
trace_lines-text_of [] zero line h enough = refl
trace_lines-text_of [] (suc fuel) line h enough = unfold read_address in refl
trace_lines-text_of (l ∷ ls) zero line h enough = absurd (omega arith)
trace_lines-text_of (l ∷ ls) (suc fuel) line (h, hs) enough =
    trace_lines-step fuel line (value_of l) (text_of (l ∷ ls)) (text_of ls)
      (read_address_lem l.digits l.operation l.size ls line h.some_digits h.hex hs)
    ∙ (ap (λ (xs : List TraceLine). value_of l ∷ xs)
        (trace_lines-text_of ls fuel (value_of l) hs
          (omega (arith, length-append l.digits (b',' ∷ l.size ∷ b'\n' ∷ text_of ls)))))
