-- ===== src/Macos/Legacy.antt =====
-- native-macos.ts: `legacyMacosProfile`.
use convira_sandbox.Base.{true, false, List, [], ◌∷◌, ◌++◌, ◌==◌, map, flat_map, if◌then◌else◌}
use mathlib.Core.List.{reverse}
use convira_sandbox.Base.Text.{Text, codes, join}
use convira_sandbox.Macos.Profile.{
  Filter, subpath, Item, plain, file_rule, own_line, last_line, read_write, data_volume, render,
}

abbrev pub legacy_macos_sensitive_home_dirs : List Text
legacy_macos_sensitive_home_dirs =
    codes ".ssh"
    ∷ codes ".gnupg"
    ∷ codes ".aws"
    ∷ codes ".azure"
    ∷ codes ".kube"
    ∷ codes ".docker"
    ∷ codes ".convira"
    ∷ []

abbrev pub legacy_macos_convira_read_floor : List Text
legacy_macos_convira_read_floor = codes ".convira/python-env" ∷ codes ".convira/exec-staging" ∷ []

drop_slashes : Text → Text
drop_slashes [] = []
drop_slashes (c ∷ s) = let rest = drop_slashes s in if c == b'/' then rest else c ∷ s

-- `homeDir.replace(/\/+$/, "")`.
unfoldable pub strip_slashes : Text → Text
unfolding drop_slashes
strip_slashes home = reverse (drop_slashes (reverse home))

abbrev pub below : Text → Text → Filter
below home d = subpath (home ++ codes "/" ++ d)

unfoldable pub legacy_items : Text → List Item
legacy_items home_dir =
    let home = strip_slashes home_dir in
    plain (codes "(version 1)")
    ∷ plain (codes "(allow default)")
    ∷ plain (codes "(deny network*)")
    ∷ file_rule false read_write
        (map (below home) legacy_macos_sensitive_home_dirs ++ data_volume ∷ []) last_line
    ∷ file_rule true read_write (map (below home) legacy_macos_convira_read_floor) own_line
    ∷ []

unfoldable pub legacy_macos_profile : Text → Text
legacy_macos_profile home_dir = join (codes "\n") (flat_map render (legacy_items home_dir))
