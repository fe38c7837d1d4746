-- ===== src/Probing.antt =====
-- What the boot probes share: waiting for a condition, and the texts that probe children leave in
-- files (`pollUntil`, `readFileTrimmed` and the pid tests of packages/sandbox-runtime/src).
use convira_sandbox.Base.{
  ℕ, Bool, true, false, Option, none, some, List, [], ◌∷◌, ◌≡◌, refl, any, if◌then◌else◌,
}
use convira_sandbox.Base.Text.{Text, trim, is_digits}
use convira_sandbox.Base.Decimal.{of_decimal}

-- `pollUntil`: the answers that the condition gives until the deadline passes; the first is asked
-- for in any case.
unfoldable pub poll_until : List Bool → Bool
poll_until [] = false
poll_until (true ∷ answers) = true
poll_until (false ∷ answers) = poll_until answers

pub poll_until_lem : (answers : List Bool) → poll_until answers ≡ any (λ answer. answer) answers
unfolding poll_until
poll_until_lem [] = refl
poll_until_lem (true ∷ answers) = refl
poll_until_lem (false ∷ answers) = poll_until_lem answers

-- `readFileTrimmed`: nothing stands for a file that cannot be read.
unfoldable pub read_file_trimmed : Option Text → Option Text
read_file_trimmed none = none
read_file_trimmed (some raw) = some (trim raw)

-- The number of a text of digits.
unfoldable pub digits_of : Option Text → Option ℕ
digits_of none = none
digits_of (some raw) = if is_digits raw then some (of_decimal raw) else none

-- The first pid that a file shows while it is polled; a text is what the file holds at one poll.
unfoldable pub poll_pid : List (Option Text) → Option ℕ
poll_pid [] = none
poll_pid (content ∷ contents) =
    let later = poll_pid contents in
    elim (digits_of (read_file_trimmed content)) [ some pid ↦ some pid | none ↦ later ]
