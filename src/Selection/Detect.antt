-- ===== src/Selection/Detect.antt =====
-- packages/sandbox-runtime/src/detect.ts.
use convira_sandbox.Base.{Bool, true, false, Option, none, some, List, [], ◌∷◌, ◌++◌, if◌then◌else◌}
use convira_sandbox.Base.Text.{Text, codes, to_lower}
use convira_sandbox.Base.Result.{Result, ok, throw}
use convira_sandbox.AppContainer.Loading.{cut_at}
use convira_sandbox.Types.{IsolationMode, auto, native, off}

-- `process.platform`.
pub data Platform : Type 0 where
  linux darwin win32 another : Platform

pub data Adapter : Type 0 where
  linux_adapter macos_adapter windows_adapter passthrough_adapter : Adapter

-- `available` is what `available()` of each adapter answers, `proc_version` the text of
-- /proc/version, or nothing if it cannot be read.
pub record Machine : Type 0 where
  pub platform : Platform
  pub platform_name : Text
  pub proc_version : Option Text
  pub available : Adapter → Bool

-- `/microsoft/i.test(version)`.
mentions_microsoft : Text → Bool
mentions_microsoft version = elim (cut_at (codes "microsoft") (to_lower version)) [
  | none ↦ false
  | some found ↦ true
]

unfoldable pub is_wsl : Machine → Bool
unfolding mentions_microsoft
is_wsl machine = elim machine.platform [
  | linux ↦ false
  | darwin ↦ false
  | win32 ↦ elim machine.proc_version [ none ↦ false | some version ↦ mentions_microsoft version ]
  | another ↦ false
]

hint_text : Option Text → Text
hint_text none = []
hint_text (some install_hint) = codes " Install with: " ++ install_hint

-- The message that goes to stderr.
unfoldable pub log_missing : Text → Option Text → Text
unfolding hint_text
log_missing tool install_hint =
    codes "[sandbox-runtime] "
    ++ tool
    ++ codes " not found on this system."
    ++ hint_text install_hint
    ++ codes " Falling back to passthrough (no OS-level sandbox).\n"

-- The switch over the platform.
unfoldable pub platform_adapter : Machine → Platform → Option Adapter × List Text
platform_adapter machine linux =
    if machine.available linux_adapter then (some linux_adapter, []) else (
      none,
      log_missing (codes "bubblewrap (bwrap)") (some (codes "apt install bubblewrap")) ∷ [],
    )
platform_adapter machine darwin =
    if machine.available macos_adapter
    then (some macos_adapter, [])
    else (none, log_missing (codes "sandbox-exec") none ∷ [])
platform_adapter machine win32 =
    if machine.available windows_adapter then (some windows_adapter, []) else (none, [])
platform_adapter machine another = (none, [])

-- The adapter and the messages written.
unfoldable pub select_native_adapter : Machine → Option Adapter × List Text
select_native_adapter machine =
    if is_wsl machine
    then (if machine.available linux_adapter
        then (some linux_adapter, [])
        else platform_adapter machine machine.platform)
    else platform_adapter machine machine.platform

unfoldable pub unavailable_text : Text → Text
unavailable_text name =
    codes "[sandbox-runtime] isolation mode \"native\" was requested (host knob "
    ++ codes "CONVIRA_SANDBOX_MODE) but no OS-level sandbox is available on "
    ++ name
    ++ codes ". "
    ++ codes "Install bubblewrap (Linux) or verify sandbox-exec (macOS). On Windows, ensure the "
    ++ codes "native addon compiled successfully."

without_native : Machine → IsolationMode → Result Adapter
without_native machine native = throw (unavailable_text machine.platform_name)
without_native machine auto = ok passthrough_adapter
without_native machine off = ok passthrough_adapter

-- Behind the test for "off".
chosen : Machine → IsolationMode → Option Adapter → Result Adapter
chosen machine mode (some adapter) = ok adapter
chosen machine mode none = without_native machine mode

unfoldable pub detect_adapter : Machine → IsolationMode → Result Adapter
unfolding chosen without_native
detect_adapter machine off = ok passthrough_adapter
detect_adapter machine auto = chosen machine auto (select_native_adapter machine).0
detect_adapter machine native = chosen machine native (select_native_adapter machine).0
