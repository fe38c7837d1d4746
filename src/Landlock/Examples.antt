-- ===== src/Landlock/Examples.antt =====
-- One ruleset on a kernel of version two.
use convira_sandbox.Base.{true, false, none, some, List, [], ◌∷◌, ◌++◌, if◌then◌else◌}
use convira_sandbox.Base.Text.{codes, ◌===◌}
use convira_sandbox.Types.{LandlockRuleset}
use convira_sandbox.Landlock.Ruleset.{
  Kernel, KernelCall, create_ruleset, add_rule, restrict_self, build_handled_access_flags,
  read_access, write_access,
}

abbrev asked : LandlockRuleset
asked = record {
  read_only = codes "/usr" ∷ codes "/gone/x" ∷ [];
  read_write = codes "/tmp/new" ∷ [];
}

-- Of the paths only /usr and /tmp are there.
abbrev kernel : Kernel
kernel = record {
  is_linux = true;
  lsm_list = none;
  binding = true;
  abi = some 2;
  realpath =
      λ p. if p === codes "/usr" then some p else if p === codes "/tmp" then some p else none;
  dirname = λ p. if p === codes "/tmp/new" then codes "/tmp" else codes "/gone";
  basename = λ p. codes "new";
  join = λ a b. a ++ codes "/" ++ b;
  throws = λ call. false;
}

abbrev made : List KernelCall
made =
    create_ruleset (build_handled_access_flags 2)
    ∷ add_rule (codes "/usr") read_access
    ∷ add_rule (codes "/tmp/new") (write_access 2)
    ∷ restrict_self
    ∷ []
