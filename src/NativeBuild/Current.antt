-- ===== src/NativeBuild/Current.antt =====
-- What a native build leaves behind when it returns.
use convira_sandbox.Base.Text.{Text}
