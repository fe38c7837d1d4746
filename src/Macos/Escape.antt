-- ===== src/Macos/Escape.antt =====
-- native-macos.ts: `escapeSeatbeltPath`, and a reader of quoted strings.
use convira_sandbox.Base.{
  ℕ, Bool, true, false, Option, none, some, [], ◌∷◌, ◌++◌, ◌≡◌, refl, ◌==◌, arith, if◌then◌else◌,
}
use convira_sandbox.Base.Text.{Text}

-- `p.replace(/\\/g, "\\\\")`.
unfoldable pub double_backslashes : Text → Text
double_backslashes [] = []
double_backslashes (c ∷ p) =
    let rest = double_backslashes p in if c == b'\\' then b'\\' ∷ b'\\' ∷ rest else c ∷ rest

-- `p.replace(/"/g, '\\"')`.
unfoldable pub escape_quotes : Text → Text
escape_quotes [] = []
escape_quotes (c ∷ p) =
    let rest = escape_quotes p in if c == b'"' then b'\\' ∷ b'"' ∷ rest else c ∷ rest

unfoldable pub escape_seatbelt_path : Text → Text
escape_seatbelt_path p = escape_quotes (double_backslashes p)

prepend : ℕ → Option (Text × Text) → Option (Text × Text)
prepend c none = none
prepend c (some (s, rest)) = some (c ∷ s, rest)

-- What a reader takes from behind an opening quote: the string up to the closing quote and the text
-- behind it, where a backslash, which the flag remembers, takes the next character as it is.
unfoldable pub read_string : Bool → Text → Option (Text × Text)
unfolding prepend
read_string escaped [] = none
read_string true (c ∷ s) = prepend c (read_string false s)
read_string false (c ∷ s) =
    let escaped = read_string true s in
    let rest = read_string false s in
    if c == b'"' then some ([], s) else if c == b'\\' then escaped else prepend c rest

-- A path that is escaped and quoted is read back as the same path, and what follows the closing
-- quote is left as it is: no path can end the string early.
pub read_string-escape_seatbelt_path :
    (p rest : Text) → read_string false (escape_seatbelt_path p ++ b'"' ∷ rest) ≡ some (p, rest)
unfolding read_string escape_seatbelt_path escape_quotes double_backslashes
read_string-escape_seatbelt_path [] rest = refl
read_string-escape_seatbelt_path (c ∷ p) rest =
    ground (arith, read_string-escape_seatbelt_path p rest)
