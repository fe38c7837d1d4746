-- ===== src/Macos/Decides.antt =====
-- native-macos.ts: what a profile decides, where the last rule that matches wins.
use convira_sandbox.Base.{
  Bool, true, false, List, [], ◌∷◌, ◌++◌, ◌≡◌, refl, any, if◌then◌else◌, ◌&&◌,
}
use convira_sandbox.Base.Text.{Text}
use convira_sandbox.Macos.Profile.{
  Filter, FileOp, file_read, file_write, Item, plain, file_rule, network_rule,
}

unfoldable pub same_op : FileOp → FileOp → Bool
same_op file_read file_read = true
same_op file_read file_write = false
same_op file_write file_read = false
same_op file_write file_write = true

-- `matches` says which paths a filter of Seatbelt covers.
module _ (matches : Filter → Text → Bool) where
  abbrev pub covers : List Filter → Text → Bool
  covers filters x = any (λ f. matches f x) filters

  -- The decision on an operation, after a profile's items, from the one before them.
  unfoldable pub decide : List Item → FileOp → Text → Bool → Bool
  unfolding same_op
  decide [] op x before = before
  decide (plain line ∷ items) op x before = decide items op x before
  decide (network_rule o d a ∷ items) op x before = decide items op x before
  decide (file_rule allow ops filters layout ∷ items) op x before =
      decide items op x (if any (same_op op) ops && covers filters x then allow else before)

  pub decide-append :
      (xs ys : List Item) (op : FileOp) (x : Text) (before : Bool)
      → decide (xs ++ ys) op x before ≡ decide ys op x (decide xs op x before)
  unfolding decide
  decide-append [] ys op x before = refl
  decide-append (plain line ∷ xs) ys op x before = decide-append xs ys op x before
  decide-append (network_rule o d a ∷ xs) ys op x before = decide-append xs ys op x before
  decide-append (file_rule allow ops filters layout ∷ xs) ys op x before =
      decide-append xs ys op x (if any (same_op op) ops && covers filters x then allow else before)
