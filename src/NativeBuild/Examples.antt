-- ===== src/NativeBuild/Examples.antt =====
-- A first build of the native artifacts.
use convira_sandbox.Base.{none, some}
use convira_sandbox.Base.Text.{Text, codes}
use convira_sandbox.Base.Result.{ok}
use convira_sandbox.NativeBuild.{Artifacts, Compilation}

abbrev identity : Text → Text
identity content = content

abbrev nothing_built : Artifacts
nothing_built = record { binary = none; launcher = none; stamp = none }

abbrev compilation : Compilation
compilation = record { result = ok tt; binary = some (codes "b"); launcher = some (codes "l") }
