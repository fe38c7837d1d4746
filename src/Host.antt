-- ===== src/Host.antt =====
-- The host file system as a call sees it: what `fs.statSync`, `fs.existsSync`, `fs.realpathSync`
-- and `fs.readdirSync` answer. A call that throws answers nothing. One call of the program sees one
-- such state; races with other processes are left out.
use convira_sandbox.Base.{ℕ, Bool, true, false, Option, none, some, List}
use convira_sandbox.Base.Text.{Text}

pub record Stat : Type 0 where
  pub is_file : Bool
  pub is_directory : Bool
  pub is_character_device : Bool
  pub is_block_device : Bool
  pub mode : ℕ
  pub uid : ℕ

pub record Host : Type 0 where
  pub stat_sync : Text → Option Stat
  pub realpath_sync : Text → Option Text
  pub readdir_sync : Text → Option (List Text)

abbrev is_some : {A : Type 0} → Option A → Bool
is_some none = false
is_some (some a) = true

-- `fs.existsSync(p)`: whether `stat` succeeds.
unfoldable pub exists_sync : Host → Text → Bool
exists_sync host p = is_some (host.stat_sync p)

unfoldable pub is_directory : Option Stat → Bool
is_directory none = false
is_directory (some st) = st.is_directory
