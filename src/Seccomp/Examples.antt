-- ===== src/Seccomp/Examples.antt =====
-- seccomp.ts on a small profile.
use convira_sandbox.Base.{true, none, some, [], ◌∷◌, ◌++◌, ◌≡◌, refl}
use convira_sandbox.Base.Text.{codes, ◌===◌, includes}
use convira_sandbox.Base.Result.{ok}
use convira_sandbox.Types.{execute_code}
use convira_sandbox.Seccomp.{
  SeccompProfile, SeccompNativeBinding, SeccompHost, get_binding, collect_names, distinct,
  extract_allowed_syscalls, compile_with, compile_seccomp_profile, profile_path,
}
use convira_sandbox.Seccomp.Laws.{IsCompiled, compile_seccomp_profile-IsCompiled}

abbrev profile : SeccompProfile
profile = record {
  default_action = codes "SCMP_ACT_ERRNO";
  architectures = none;
  syscalls =
      record { names = codes "read" ∷ codes "write" ∷ []; action = codes "SCMP_ACT_ALLOW" }
      ∷ record { names = codes "socket" ∷ []; action = codes "SCMP_ACT_ERRNO" }
      ∷ record { names = codes "write" ∷ codes "close" ∷ []; action = codes "SCMP_ACT_ALLOW" }
      ∷ [];
}

extract_test : extract_allowed_syscalls profile ≡ codes "read" ∷ codes "write" ∷ codes "close" ∷ []
unfolding extract_allowed_syscalls collect_names distinct includes ◌===◌
extract_test = refl

abbrev binding : SeccompNativeBinding
binding = record { compile_seccomp_to_fd = λ names action. ok 7; is_seccomp_supported = ok true }

abbrev host : SeccompHost
host = record {
  is_linux = true;
  binding = some binding;
  read_file = λ path. ok path;
  parse = λ raw. ok profile;
  profiles_dir = codes "/p";
  join = λ a b. a ++ codes "/" ++ b;
}

profile_path_test : profile_path host execute_code ≡ codes "/p/execute-code.seccomp.json"
unfolding profile_path
profile_path_test = refl

compile_seccomp_profile-IsCompiled_example :
    IsCompiled host (codes "/p/execute-code.seccomp.json") 7
unfolding compile_seccomp_profile compile_with get_binding
compile_seccomp_profile-IsCompiled_example =
    compile_seccomp_profile-IsCompiled host (codes "/p/execute-code.seccomp.json") 7 refl
