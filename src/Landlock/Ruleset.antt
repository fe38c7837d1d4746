-- ===== src/Landlock/Ruleset.antt =====
-- landlock.ts: support, the access flags and the kernel calls of `applyLandlockRuleset`.
use convira_sandbox.Base.{
  ℕ, Bool, true, false, not, Option, none, some, List, [], ◌∷◌, ◌++◌, leb, ltb, if◌then◌else◌,
}
use convira_sandbox.Base.Text.{Text, codes}
use convira_sandbox.Base.Result.{Result, ok, throw, ◌>>=◌}
use convira_sandbox.Types.{LandlockRuleset}
use convira_sandbox.AppContainer.Loading.{cut_at}

-- The bits LANDLOCK_ACCESS_FS_* that the code names; a set of bits is the list of its members.
pub data Access : Type 0 where
  execute write_file read_file read_dir remove_dir remove_file make_char make_dir : Access
  make_reg make_sock make_fifo make_block make_sym refer truncate : Access

pub data KernelCall : Type 0 where
  create_ruleset : List Access → KernelCall
  add_rule : Text → List Access → KernelCall
  restrict_self : KernelCall

-- What the code meets: the platform, the active modules if they can be read, whether the binding
-- loads, the version it answers (nothing if the call throws), `fs.realpathSync` (nothing if it
-- throws), `path.posix.join` of the directory and the base name of a path, and which kernel calls
-- throw.
pub record Kernel : Type 0 where
  pub is_linux : Bool
  pub lsm_list : Option Text
  pub binding : Bool
  pub abi : Option ℕ
  pub realpath : Text → Option Text
  pub dirname : Text → Text
  pub basename : Text → Text
  pub join : Text → Text → Text
  pub throws : KernelCall → Bool

lacks_landlock : Option Text → Bool
lacks_landlock none = false
lacks_landlock (some lsm_list) = elim (cut_at (codes "landlock") lsm_list) [
  | none ↦ true
  | some found ↦ false
]

at_least_one : Option ℕ → Bool
at_least_one none = false
at_least_one (some abi) = leb 1 abi

unfoldable pub is_landlock_supported : Kernel → Bool
unfolding lacks_landlock at_least_one
is_landlock_supported kernel =
    if not kernel.is_linux
    then false
    else if lacks_landlock kernel.lsm_list
    then false
    else if not kernel.binding
    then false
    else at_least_one kernel.abi

-- `getLandlockAbiVersion`; nothing stands for -1.
unfoldable pub get_landlock_abi_version : Kernel → Option ℕ
get_landlock_abi_version kernel = if kernel.binding then kernel.abi else none

-- The two flags of later versions.
later_accesses : ℕ → List Access
later_accesses abi =
    (if leb 2 abi then refer ∷ [] else []) ++ (if leb 3 abi then truncate ∷ [] else [])

unfoldable pub build_handled_access_flags : ℕ → List Access
unfolding later_accesses
build_handled_access_flags abi =
    (execute ∷ write_file ∷ read_file ∷ read_dir ∷ remove_dir ∷ remove_file ∷ make_char ∷ make_dir
      ∷ make_reg ∷ make_sock ∷ make_fifo ∷ make_block ∷ make_sym ∷ [])
    ++ later_accesses abi

abbrev pub read_access : List Access
read_access = execute ∷ read_file ∷ read_dir ∷ []

unfoldable pub write_access : ℕ → List Access
unfolding later_accesses
write_access abi =
    (read_file ∷ read_dir ∷ write_file ∷ remove_dir ∷ remove_file ∷ make_char ∷ make_dir ∷ make_reg
      ∷ make_sock ∷ make_fifo ∷ make_block ∷ make_sym ∷ execute ∷ [])
    ++ later_accesses abi

-- The real path of the parent with the leaf.
parent_path : Kernel → Text → Option Text → Option Text
parent_path kernel p none = none
parent_path kernel p (some parent) = some (kernel.join parent (kernel.basename p))

unfoldable pub resolve_path : Kernel → Text → Option Text
unfolding parent_path
resolve_path kernel p = elim (kernel.realpath p) [
  | some real ↦ some real
  | none ↦ parent_path kernel p (kernel.realpath (kernel.dirname p))
]

-- The rule of a resolved path; an empty one counts as none.
rule_for : List Access → Option Text → List KernelCall
rule_for accesses none = []
rule_for accesses (some []) = []
rule_for accesses (some (c ∷ p)) = add_rule (c ∷ p) accesses ∷ []

unfoldable pub rules : Kernel → List Access → List Text → List KernelCall
unfolding rule_for
rules kernel accesses [] = []
rules kernel accesses (p ∷ ps) =
    rule_for accesses (resolve_path kernel p) ++ rules kernel accesses ps

-- The calls in order, up to the first that throws.
unfoldable pub make_calls : Kernel → List KernelCall → Result (List KernelCall)
make_calls kernel [] = ok []
make_calls kernel (call ∷ calls) =
    let rest = make_calls kernel calls in
    if kernel.throws call then throw (codes "landlock") else (rest >>= (λ made. ok (call ∷ made)))

unfoldable pub planned_calls : Kernel → LandlockRuleset → ℕ → List KernelCall
planned_calls kernel asked abi =
    create_ruleset (build_handled_access_flags abi)
    ∷ (rules kernel read_access asked.read_only
        ++ (rules kernel (write_access abi) asked.read_write ++ restrict_self ∷ []))

with_version : Kernel → LandlockRuleset → Option ℕ → Result (List KernelCall)
with_version kernel asked none = throw (codes "abi")
with_version kernel asked (some abi) =
    if ltb abi 1
    then throw (codes "Landlock ABI version too low (need >= 1)")
    else make_calls kernel (planned_calls kernel asked abi)

unfoldable pub apply_landlock_ruleset : Kernel → LandlockRuleset → Result (List KernelCall)
unfolding with_version
apply_landlock_ruleset kernel asked =
    if kernel.binding
    then with_version kernel asked kernel.abi
    else throw (codes "Landlock native binding not available")
