-- ===== src/AppContainer/Recovery.antt =====
-- win-appcontainer.ts: the entry that a spawn leaves in the ledger, as the janitor reads it.
use convira_sandbox.Base.{◌++◌}
use convira_sandbox.Base.Text.{Text, codes}
use convira_sandbox.AppContainer.Prepare.{Files, profile_name}
use convira_sandbox.AppContainer.Sweep.{Ledger}

-- The name of the entry that a spawn writes into the ledger.
abbrev pub entry_of : Files → Text
entry_of files = profile_name files ++ codes ".grants"
