-- ===== src/AppContainer/Ledger.antt =====
-- win-appcontainer.ts: the janitor reads back what was written, and touches its own profiles only.
use convira_sandbox.Base.{
  ℕ, Bool, true, false, not, some, List, [], ◌∷◌, ◌++◌, ◌≡◌, refl, sym, ◌∙◌, inl, inr, arith, all,
  All, All-append, all-append, Bool-cases, Option-cases, map, ◌==◌, and_true, append_assoc,
  append-nil, ap,
}
use mathlib.Core.List.{reverse, reverse-append, reverse-reverse}
use convira_sandbox.Base.Text.{
  Text, IsOneLine, split-line, codes, starts_with, ends_with, split, split_at, starts_with_rest,
}
use convira_sandbox.AppContainer.Grants.{
  WinAppContainerGrants, or_empty, line, ended_lines, format_app_container_grants,
}
use convira_sandbox.AppContainer.Prepare.{profile_prefix}
use convira_sandbox.AppContainer.Sweep.{
  SweepCall, remove_ace, delete_profile, remove_entry, Ledger, targets, ace_calls, profile_of,
  is_ledger_entry, sweep_text, sweep_entry, sweep_entries, sweep_orphaned_app_container_profiles,
}

split-ended_lines :
    (ls : List Text) → All IsOneLine ls → split b'\n' (ended_lines ls) ≡ ls ++ [] ∷ []
unfolding split ended_lines
split-ended_lines [] h = refl
split-ended_lines (l ∷ ls) (one, h) =
    rw (split-line l (ended_lines ls) one) (rw (split-ended_lines ls h))

-- The verbs of the ledger's lines: not empty, with no tab and no newline.
abbrev IsVerb : Text → Type 0
IsVerb [] = ⊥
IsVerb (c ∷ verb) = (all (λ d. not (d == b'\t')) (c ∷ verb) ≡ true) × IsOneLine (c ∷ verb)

split_at-line :
    (verb p : Text)
    → all (λ d. not (d == b'\t')) verb ≡ true
    → split_at b'\t' (line verb p) ≡ some (verb, p)
unfolding split_at
split_at-line [] p h = refl
split_at-line (c ∷ verb) p h = ground (arith, split_at-line verb p)

targets-lines :
    (verb : Text) (ps : List Text) (ls : List Text)
    → IsVerb verb
    → targets (map (line verb) ps ++ ls) ≡ ps ++ targets ls
unfolding targets
targets-lines [] ps ls h = absurd h
targets-lines (c ∷ verb) [] ls h = refl
targets-lines (c ∷ verb) (p ∷ ps) ls h =
    rw (split_at-line (c ∷ verb) p h.0) (rw (targets-lines (c ∷ verb) ps ls h))

IsOneLine-line : (verb p : Text) → IsOneLine verb → IsOneLine p → IsOneLine (line verb p)
IsOneLine-line verb p h k =
    ground (arith, all-append (λ (c : ℕ). not (c == b'\n')) verb (b'\t' ∷ p))

lines-IsOneLine :
    (verb : Text) (ps : List Text)
    → IsOneLine verb
    → All IsOneLine ps
    → All IsOneLine (map (line verb) ps)
lines-IsOneLine verb [] h k = tt
lines-IsOneLine verb (p ∷ ps) h (one, k) =
    (IsOneLine-line verb p h one, lines-IsOneLine verb ps h k)

targets_blocks :
    (ds rs ws : List Text)
    → targets (
        (map (line (codes "deny")) ds
          ++ (map (line (codes "read")) rs ++ map (line (codes "write")) ws))
        ++ [] ∷ [])
      ≡ ds ++ (rs ++ ws)
unfolding targets split_at
targets_blocks ds rs ws =
    let last : List Text = [] ∷ [] in
    rw
      (append_assoc (map (line (codes "deny")) ds)
        (map (line (codes "read")) rs ++ map (line (codes "write")) ws) last)
      (rw (append_assoc (map (line (codes "read")) rs) (map (line (codes "write")) ws) last) (
        rw (targets-lines (codes "deny") ds _ (refl, refl)) (
          rw (targets-lines (codes "read") rs _ (refl, refl)) (
            rw (targets-lines (codes "write") ws last (refl, refl))
              (ap (λ t. ds ++ (rs ++ t)) (append-nil ws))))))

-- Splitting a grants file into lines and taking what stands behind the first tab of each gives back
-- the granted paths, the denied ones first, if no path holds a newline.
pub targets-format :
    (grants : WinAppContainerGrants)
    → All IsOneLine (or_empty grants.deny_paths)
    → All IsOneLine grants.read_paths
    → All IsOneLine grants.write_paths
    → targets (split b'\n' (format_app_container_grants grants))
      ≡ or_empty grants.deny_paths ++ (grants.read_paths ++ grants.write_paths)
unfolding format_app_container_grants
targets-format grants d r w =
    let denies = map (line (codes "deny")) (or_empty grants.deny_paths) in
    let reads = map (line (codes "read")) grants.read_paths in
    let writes = map (line (codes "write")) grants.write_paths in
    let one_line =
      All-append IsOneLine denies (reads ++ writes)
        (lines-IsOneLine (codes "deny") (or_empty grants.deny_paths) refl d)
        (All-append IsOneLine reads writes (lines-IsOneLine (codes "read") grants.read_paths refl r)
          (lines-IsOneLine (codes "write") grants.write_paths refl w)) in
    rw (split-ended_lines (denies ++ (reads ++ writes)) one_line)
      (targets_blocks (or_empty grants.deny_paths) grants.read_paths grants.write_paths)

prefix_kept :
    (name q s : Text)
    → all (λ c. not (c == b'.')) q ≡ true
    → starts_with (name ++ b'.' ∷ s) q ≡ true
    → starts_with name q ≡ true
unfolding starts_with
prefix_kept [] [] s h k = refl
prefix_kept [] (d ∷ q) s h k = absurd (ground arith)
prefix_kept (c ∷ name) [] s h k = refl
prefix_kept (c ∷ name) (d ∷ q) s h k = ground (arith, prefix_kept name q s)

suffix_taken :
    (entry : Text)
    → ends_with entry (codes ".grants") ≡ true
    → profile_of entry ++ codes ".grants" ≡ entry
unfolding ends_with profile_of
suffix_taken entry h =
    let (r, e) = starts_with_rest (reverse entry) (reverse (codes ".grants")) h in
    let back : entry ≡ reverse (reverse (codes ".grants") ++ r) =
      sym (reverse-reverse entry) ∙ ap reverse e in
    rw e (sym (back ∙ reverse-append (reverse (codes ".grants")) r))

-- The profile of a ledger entry has the prefix of this package.
profile_of-prefix :
    (entry : Text)
    → is_ledger_entry entry ≡ true
    → starts_with (profile_of entry) profile_prefix ≡ true
unfolding is_ledger_entry
profile_of-prefix entry h =
    let (begins, ends) =
      and_true (starts_with entry profile_prefix) (ends_with entry (codes ".grants")) h in
    prefix_kept (profile_of entry) profile_prefix (codes "grants") refl
      (rw (suffix_taken entry ends) begins)

-- What the janitor may do: profiles with the prefix of this package only, and the record of a
-- profile is removed only once the profile is deleted.
abbrev pub IsScoped : Ledger → SweepCall → Type 0
IsScoped ledger (remove_ace target name) = starts_with name profile_prefix ≡ true
IsScoped ledger (delete_profile name) = starts_with name profile_prefix ≡ true
IsScoped ledger (remove_entry entry) =
    (is_ledger_entry entry ≡ true) × (ledger.deletes (profile_of entry) ≡ true)

ace_calls-IsScoped :
    (ledger : Ledger) (name : Text) (ts : List Text)
    → starts_with name profile_prefix ≡ true
    → All (IsScoped ledger) (ace_calls name ts)
unfolding ace_calls
ace_calls-IsScoped ledger name [] h = tt
ace_calls-IsScoped ledger name (t ∷ ts) h = (h, ace_calls-IsScoped ledger name ts h)

sweep_text-IsScoped :
    (ledger : Ledger) (entry raw : Text)
    → is_ledger_entry entry ≡ true
    → All (IsScoped ledger) (sweep_text ledger entry raw).0
unfolding sweep_text
sweep_text-IsScoped ledger entry raw h =
    let name = profile_of entry in
    let own = profile_of-prefix entry h in
    let aces = ace_calls-IsScoped ledger name (targets (split b'\n' raw)) own in
    elim (Bool-cases (ledger.deletes name)) [
      | inl deleted ↦ rw deleted (
          All-append (IsScoped ledger) (ace_calls name (targets (split b'\n' raw)))
            (delete_profile name ∷ remove_entry entry ∷ []) aces (own, ((h, deleted), tt)))
      | inr failed ↦ rw failed (
          All-append (IsScoped ledger) (ace_calls name (targets (split b'\n' raw)))
            (delete_profile name ∷ []) aces (own, tt))
    ]

sweep_entry-IsScoped :
    (ledger : Ledger) (entry : Text) → All (IsScoped ledger) (sweep_entry ledger entry).0
unfolding sweep_entry
sweep_entry-IsScoped ledger entry = elim (Bool-cases (is_ledger_entry entry)) [
  | inl own ↦ elim (Option-cases (ledger.read entry)) [
    | inl unread ↦ rw own (rw unread tt)
    | inr (raw, there) ↦ rw own (rw there (sweep_text-IsScoped ledger entry raw own))
  ]
  | inr foreign ↦ rw foreign tt
]

sweep_entries-IsScoped :
    (ledger : Ledger) (entries : List Text) → All (IsScoped ledger) (sweep_entries ledger entries).0
unfolding sweep_entries
sweep_entries-IsScoped ledger [] = tt
sweep_entries-IsScoped ledger (entry ∷ entries) =
    All-append (IsScoped ledger) (sweep_entry ledger entry).0 (sweep_entries ledger entries).0
      (sweep_entry-IsScoped ledger entry) (sweep_entries-IsScoped ledger entries)

-- Whatever the ledger holds, the janitor revokes and deletes only for profiles whose name has this
-- package's prefix, and it removes the record of a profile only if the profile was deleted.
pub sweep-IsScoped :
    (bound : Bool) (ledger : Ledger)
    → All (IsScoped ledger) (sweep_orphaned_app_container_profiles bound ledger).0
unfolding sweep_orphaned_app_container_profiles
sweep-IsScoped false ledger = tt
sweep-IsScoped true ledger = elim (Option-cases ledger.entries) [
  | inl unread ↦ rw unread tt
  | inr (entries, there) ↦ rw there (sweep_entries-IsScoped ledger entries)
]
