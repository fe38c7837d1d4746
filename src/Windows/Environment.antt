-- ===== src/Windows/Environment.antt =====
-- native-windows.ts: `withAppContainerRequiredEnv`, what the launcher finds in its environment.
use convira_sandbox.Base.{
  Bool, true, false, Option, none, some, List, [], ◌∷◌, ◌++◌, ◌≡◌, refl, sym, inl, inr, arith,
  Bool-cases, Option-cases, ◌∙◌, ℕ, if◌then◌else◌, ap,
}
use convira_sandbox.Base.Text.{Text, codes, ◌===◌, ===_sound, ===_sym}
use convira_sandbox.DenyLeafKind.{lookup}
use convira_sandbox.Windows.Spawn.{with_app_container_required_env}

lookup-append_last :
    (k : Text) (env : List (Text × Text)) (e : Text × Text)
    → lookup k env ≡ none
    → lookup k (env ++ e ∷ []) ≡ lookup k (e ∷ [])
unfolding lookup
lookup-append_last k [] e h = refl
lookup-append_last k ((j, v) ∷ env) e h = ground (arith, lookup-append_last k env e)

lookup-append_kept :
    (k : Text) (env : List (Text × Text)) (e : Text × Text) (v : Text)
    → lookup k env ≡ some v
    → lookup k (env ++ e ∷ []) ≡ some v
unfolding lookup
lookup-append_kept k [] e v h = absurd (ground arith)
lookup-append_kept k ((j, u) ∷ env) e v h = ground (arith, lookup-append_kept k env e v)

-- LOCALAPPDATA of the process, if it has a value that is not empty.
abbrev pub non_empty : Option Text → Option Text
non_empty none = none
non_empty (some []) = none
non_empty (some (c ∷ s)) = some (c ∷ s)

-- A variable that the caller leaves out.
abbrev pub filled : Option Text → Text → Option Text
filled inherited k = if k === codes "LOCALAPPDATA" then non_empty inherited else none

abbrev pub or_else : Option Text → Option Text → Option Text
or_else none other = other
or_else (some v) other = some v

abbrev none_text : Option Text
none_text = none

if_same : (b : Bool) → (if b then none else none) ≡ none_text
if_same true = refl
if_same false = refl

or_else-none : (o : Option Text) → or_else o none ≡ o
or_else-none none = refl
or_else-none (some v) = refl

nothing_filled :
    (o : Option Text) (k : Text) → or_else o (if k === codes "LOCALAPPDATA" then none else none) ≡ o
nothing_filled o k = ap (or_else o) (if_same (k === codes "LOCALAPPDATA")) ∙ or_else-none o

lookup-added :
    (c : ℕ) (s : Text) (env : List (Text × Text)) (k : Text)
    → lookup k (env ++ (codes "LOCALAPPDATA", c ∷ s) ∷ [])
      ≡ or_else (lookup k env) (filled (some (c ∷ s)) k)
unfolding lookup
lookup-added c s env k = elim (Option-cases (lookup k env)) [
  | inl absent ↦
      rw (lookup-append_last k env (codes "LOCALAPPDATA", c ∷ s) absent)
        (rw absent (ap (λ b. if b then some (c ∷ s) else none) (===_sym (codes "LOCALAPPDATA") k)))
  | inr (v, there) ↦
      rw (lookup-append_kept k env (codes "LOCALAPPDATA", c ∷ s) v there) (rw there refl)
]

filled_absent :
    (inherited : Option Text) (env : List (Text × Text)) (k : Text)
    → lookup (codes "LOCALAPPDATA") env ≡ none
    → lookup k (with_app_container_required_env inherited env)
      ≡ or_else (lookup k env) (filled inherited k)
unfolding with_app_container_required_env
filled_absent none env k h =
    let same : with_app_container_required_env none env ≡ env =
      rw (with_app_container_required_env, h) refl in
    rw same (sym (nothing_filled (lookup k env) k))
filled_absent (some []) env k h =
    let same : with_app_container_required_env (some []) env ≡ env =
      rw (with_app_container_required_env, h) refl in
    rw same (sym (nothing_filled (lookup k env) k))
filled_absent (some (c ∷ s)) env k h =
    let same : with_app_container_required_env (some (c ∷ s)) env
        ≡ env ++ (codes "LOCALAPPDATA", c ∷ s) ∷ [] =
      rw (with_app_container_required_env, h) refl in
    rw same (lookup-added c s env k)

filled_given :
    (inherited : Option Text) (env : List (Text × Text)) (k value : Text)
    → lookup (codes "LOCALAPPDATA") env ≡ some value
    → lookup k env ≡ or_else (lookup k env) (filled inherited k)
unfolding lookup
filled_given inherited env k value h = elim (Option-cases (lookup k env)) [
  | inl absent ↦ elim (Bool-cases (k === codes "LOCALAPPDATA")) [
    | inl same ↦ absurd (cc (===_sound k (codes "LOCALAPPDATA") same))
    | inr differs ↦ rw absent (rw differs refl)
  ]
  | inr (v, there) ↦ rw there refl
]

-- The launcher's environment has every variable of the caller with its value, and beyond those only
-- LOCALAPPDATA of the process, if the caller gave none and the process has one that is not empty.
pub lookup-with_app_container_required_env :
    (inherited : Option Text) (env : List (Text × Text)) (k : Text)
    → lookup k (with_app_container_required_env inherited env)
      ≡ or_else (lookup k env) (filled inherited k)
unfolding with_app_container_required_env
lookup-with_app_container_required_env inherited env k =
    elim (Option-cases (lookup (codes "LOCALAPPDATA") env)) [
      | inl absent ↦ filled_absent inherited env k absent
      | inr (value, given) ↦
          let same : with_app_container_required_env inherited env ≡ env =
            rw (with_app_container_required_env, given) refl in
          rw same (filled_given inherited env k value given)
    ]
