-- ===== src/Seccomp.antt =====
-- packages/sandbox-enforcer/src/seccomp.ts: the profile of allowed system calls and its compilation.
-- The native binding compiles a list of names to a file descriptor; JSON.parse of a profile's text is
-- an argument.
pub mod Laws
mod Examples
use convira_sandbox.Base.{
  ℕ, Bool, true, false, Option, none, some, List, [], ◌∷◌, ◌++◌, if◌then◌else◌,
}
use convira_sandbox.Base.Text.{Text, codes, ◌===◌, includes}
use convira_sandbox.Base.Result.{Result, ok, throw, ◌>>=◌}
use convira_sandbox.Types.{SeccompProfileName, gateway, execute_code}

pub record SyscallEntry : Type 0 where
  pub names : List Text
  pub action : Text

pub record SeccompProfile : Type 0 where
  pub default_action : Text
  pub architectures : Option (List Text)
  pub syscalls : List SyscallEntry

-- The calls of the native binding: `compileSeccompToFd` and `isSeccompSupported`, which may throw.
pub record SeccompNativeBinding : Type 0 where
  pub compile_seccomp_to_fd : List Text → Text → Result ℕ
  pub is_seccomp_supported : Result Bool

-- The platform, what `require` of the binding does (nothing if it throws), the content of a file, and
-- `JSON.parse` (a text that is no profile throws).
pub record SeccompHost : Type 0 where
  pub is_linux : Bool
  pub binding : Option SeccompNativeBinding
  pub read_file : Text → Result Text
  pub parse : Text → Result SeccompProfile
  pub profiles_dir : Text
  pub join : Text → Text → Text

-- `getBinding`; the memo of the module keeps its answer.
unfoldable pub get_binding : SeccompHost → Option SeccompNativeBinding
get_binding host = if host.is_linux then host.binding else none

-- The loop that collects `names`.
unfoldable pub collect_names : List SyscallEntry → List Text → List Text
collect_names [] names = names
collect_names (entry ∷ entries) names =
    if entry.action === codes "SCMP_ACT_ALLOW"
    then collect_names entries (names ++ entry.names)
    else collect_names entries names

-- `[...new Set(names)]`: each name at its first place. `seen` are the names before.
unfoldable pub distinct : List Text → List Text → List Text
distinct seen [] = []
distinct seen (name ∷ names) =
    if includes seen name then distinct seen names else name ∷ distinct (name ∷ seen) names

unfoldable pub extract_allowed_syscalls : SeccompProfile → List Text
extract_allowed_syscalls profile = distinct [] (collect_names profile.syscalls [])

abbrev or_unsupported : Result Bool → Bool
or_unsupported (throw message) = false
or_unsupported (ok supported) = supported

unfoldable pub is_seccomp_supported : SeccompHost → Bool
is_seccomp_supported host =
    if host.is_linux
    then elim (get_binding host) [
      | none ↦ false
      | some binding ↦ or_unsupported binding.is_seccomp_supported
    ]
    else false

-- With the binding loaded.
unfoldable pub compile_with : SeccompHost → Text → SeccompNativeBinding → Result ℕ
compile_with host profile_path binding = do
  raw ← host.read_file profile_path
  profile ← host.parse raw
  binding.compile_seccomp_to_fd (extract_allowed_syscalls profile) profile.default_action

unfoldable pub compile_seccomp_profile : SeccompHost → Text → Result ℕ
compile_seccomp_profile host profile_path = elim (get_binding host) [
  | none ↦ throw (codes "seccomp native binding not available — install libseccomp-dev and rebuild")
  | some binding ↦ compile_with host profile_path binding
]

abbrev pub profile_text : SeccompProfileName → Text
profile_text gateway = codes "gateway"
profile_text execute_code = codes "execute-code"

unfoldable pub profile_path : SeccompHost → SeccompProfileName → Text
profile_path host name = host.join host.profiles_dir (profile_text name ++ codes ".seccomp.json")

unfoldable pub get_seccomp_fd : SeccompHost → SeccompProfileName → Result ℕ
get_seccomp_fd host name = compile_seccomp_profile host (profile_path host name)

-- `loadProfile`, which `getSeccompProfile` passes on.
unfoldable pub load_profile : SeccompHost → SeccompProfileName → Result SeccompProfile
load_profile host name = do raw ← host.read_file (profile_path host name); host.parse raw

unfoldable pub get_allowed_syscalls : SeccompHost → SeccompProfileName → Result (List Text)
get_allowed_syscalls host name = do
  profile ← load_profile host name
  ok (extract_allowed_syscalls profile)
