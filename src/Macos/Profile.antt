-- ===== src/Macos/Profile.antt =====
-- native-macos.ts: `generateSeatbeltProfile`, as the items of a profile and as its text.
use convira_sandbox.Base.{Bool, true, false, List, [], ◌∷◌, ◌++◌, map, flat_map, if◌then◌else◌}
use convira_sandbox.Base.Text.{Text, codes, join}
use convira_sandbox.Types.{SandboxSpawnConfig, Network}
use convira_sandbox.AppContainer.Grants.{or_empty}
use convira_sandbox.Macos.Escape.{escape_seatbelt_path}

pub data Filter : Type 0 where
  subpath literal : Text → Filter

pub data FileOp : Type 0 where
  file_read file_write : FileOp

-- Where the closing parenthesis of a rule with filters stands.
pub data Layout : Type 0 where
  own_line last_line one_line : Layout

-- A line without filters (a comment, a blank line, a rule for other operations), a rule for file
-- operations, or a rule for one remote or local endpoint: its operation, direction and address.
pub data Item : Type 0 where
  plain : Text → Item
  file_rule : Bool → List FileOp → List Filter → Layout → Item
  network_rule : Text → Text → Text → Item

quoted : Text → Text → Text
quoted kind p = codes "(" ++ kind ++ codes " \"" ++ escape_seatbelt_path p ++ codes "\")"

filter_text : Filter → Text
filter_text (subpath p) = quoted (codes "subpath") p
filter_text (literal p) = quoted (codes "literal") p

op_text : FileOp → Text
op_text file_read = codes " file-read*"
op_text file_write = codes " file-write*"

rule_head : Bool → List FileOp → Text
rule_head allow ops = (if allow then codes "(allow" else codes "(deny") ++ flat_map op_text ops

-- The filter lines, the last one with the closing parenthesis.
closed_lines : List Filter → List Text
closed_lines [] = []
closed_lines (f ∷ []) = (codes "  " ++ filter_text f ++ codes ")") ∷ []
closed_lines (f ∷ g ∷ fs) = (codes "  " ++ filter_text f) ∷ closed_lines (g ∷ fs)

rule_lines : Text → List Filter → Layout → List Text
rule_lines head filters own_line =
    head ∷ (map (λ f. codes "  " ++ filter_text f) filters ++ codes ")" ∷ [])
rule_lines head filters last_line = head ∷ closed_lines filters
rule_lines head filters one_line =
    (head ++ codes " " ++ flat_map filter_text filters ++ codes ")") ∷ []

-- The lines of an item.
unfoldable pub render : Item → List Text
unfolding quoted filter_text op_text rule_head closed_lines rule_lines
render (plain line) = line ∷ []
render (file_rule allow ops filters layout) = rule_lines (rule_head allow ops) filters layout
render (network_rule op direction address) =
    (codes "(allow " ++ op ++ codes " (" ++ direction ++ codes " \"" ++ address ++ codes "\"))")
    ∷ []

blank : Item
blank = plain []

abbrev pub read_only : List FileOp
read_only = file_read ∷ []

abbrev pub read_write : List FileOp
read_write = file_read ∷ file_write ∷ []

abbrev pub system_filters : List Filter
system_filters =
    literal (codes "/")
    ∷ subpath (codes "/usr")
    ∷ subpath (codes "/Library")
    ∷ subpath (codes "/System")
    ∷ subpath (codes "/private/var")
    ∷ subpath (codes "/private/etc")
    ∷ subpath (codes "/dev")
    ∷ subpath (codes "/bin")
    ∷ subpath (codes "/sbin")
    ∷ subpath (codes "/opt")
    ∷ subpath (codes "/etc")
    ∷ []

abbrev pub link_filters : List Filter
link_filters = literal (codes "/var") ∷ literal (codes "/tmp") ∷ literal (codes "/etc") ∷ []

abbrev pub temp_filters : List Filter
temp_filters =
    subpath (codes "/private/tmp")
    ∷ subpath (codes "/private/var/folders")
    ∷ subpath (codes "/var/folders")
    ∷ subpath (codes "/tmp")
    ∷ []

abbrev pub data_volume : Filter
data_volume = subpath (codes "/System/Volumes/Data")

-- The first lines.
unfoldable pub system_items : List Item
unfolding blank
system_items =
    plain (codes "(version 1)")
    ∷ plain (codes "(deny default)")
    ∷ blank
    ∷ plain (codes ";; System paths (read-only)")
    ∷ file_rule true read_only system_filters own_line
    ∷ blank
    ∷ plain (codes ";; Root symlinks (/var -> /private/var, /tmp -> /private/tmp, /etc ->")
    ∷ plain (codes ";; /private/etc). Path resolution reads the symlink VNODE ITSELF before")
    ∷ plain (codes ";; any subpath rule on the target can apply — without these literals a")
    ∷ plain (codes ";; (deny default) profile fails traversal of e.g. /var/folders/... with")
    ∷ plain (codes ";; EPERM (\"can't open file\"), even though /private/var/folders is allowed.")
    ∷ file_rule true read_only link_filters own_line
    ∷ blank
    ∷ plain (codes ";; Metadata (lstat/exists) is allowed everywhere: interpreters realpath")
    ∷ plain (codes ";; every component of a script path (node lstat's /private, /Users, ...)")
    ∷ plain (codes ";; and fail hard on EPERM. Metadata leaks existence/permissions only —")
    ∷ plain (codes ";; file CONTENTS stay deny-default via the read rules above. This is the")
    ∷ plain (codes ";; standard Seatbelt concession (Apple's own profiles do the same).")
    ∷ plain (codes "(allow file-read-metadata)")
    ∷ blank
    ∷ []

-- A block that stands only where there are paths.
unfoldable pub path_items : Text → List FileOp → List Text → List Item
unfolding blank
path_items comment ops [] = []
path_items comment ops (p ∷ ps) =
    plain comment ∷ file_rule true ops (map subpath (p ∷ ps)) own_line ∷ blank ∷ []

unfoldable pub temp_items : List Item
unfolding blank
temp_items =
    plain (codes ";; Temp directories")
    ∷ file_rule true read_write temp_filters last_line
    ∷ blank
    ∷ []

unfoldable pub process_items : List Item
unfolding blank
process_items =
    plain (codes ";; Process execution")
    ∷ plain (codes "(allow process-exec process-fork)")
    ∷ blank
    ∷ plain (codes "(allow system-socket)")
    ∷ []

loopback_items : List Item
loopback_items =
    network_rule (codes "network-outbound") (codes "remote tcp") (codes "localhost:*")
    ∷ network_rule (codes "network-bind") (codes "local tcp") (codes "localhost:*")
    ∷ []

outbound_items : Bool → List Item
outbound_items allow_loopback =
    plain (codes ";; Network — outbound allowed")
    ∷ network_rule (codes "network-outbound") (codes "remote tcp") (codes "*:443")
    ∷ network_rule (codes "network-outbound") (codes "remote tcp") (codes "*:80")
    ∷ ((if allow_loopback then loopback_items else [])
        ++ plain (codes ";; UDP is DNS-only (9.2 B3). getaddrinfo resolves via the")
          ∷ plain (codes ";; mDNSResponder mach service (already allowed above); this rule")
          ∷ plain (codes ";; covers c-ares-style resolvers that speak raw UDP :53. network*")
          ∷ plain (codes ";; (not just -outbound) so the ephemeral-port reply leg works.")
          ∷ plain (codes ";; Arbitrary UDP — QUIC, exfil side-channels, inbound binds —")
          ∷ plain (codes ";; stays denied.")
          ∷ network_rule (codes "network*") (codes "remote udp") (codes "*:53")
          ∷ [])

unfoldable pub network_items : Network → List Item
unfolding blank loopback_items outbound_items
network_items network =
    (if network.enabled
      then outbound_items network.allow_loopback
      else if network.allow_loopback
      then plain (codes ";; Network — loopback only (dev server); no DNS, no outbound internet")
        ∷ loopback_items
      else plain (codes ";; Network — outbound denied (system-socket allowed for libuv)") ∷ [])
    ++ blank ∷ []

unfoldable pub service_items : List Item
unfolding blank
service_items =
    plain (codes ";; Mach IPC and system services")
    ∷ plain (codes "(allow mach-lookup)")
    ∷ plain (codes "(allow ipc-posix-shm*)")
    ∷ plain (codes "(allow sysctl-read)")
    ∷ plain (codes "(allow signal)")
    ∷ plain (codes "(allow process-info*)")
    ∷ plain (codes "(allow file-ioctl)")
    ∷ blank
    ∷ []

unfoldable pub alias_items : List Item
alias_items =
    plain (codes ";; Close the data-volume home-directory alias (B18)")
    ∷ file_rule false read_only (data_volume ∷ []) one_line
    ∷ []

unfoldable pub deny_items : List Text → List Item
unfolding blank
deny_items [] = []
deny_items (p ∷ ps) =
    blank
    ∷ plain (codes ";; Explicit deny overlays (last-match-wins)")
    ∷ file_rule false read_write (map subpath (p ∷ ps)) own_line
    ∷ []

unfoldable pub profile_items : SandboxSpawnConfig → List Item
profile_items config =
    system_items
    ++ (path_items (codes ";; User-specified read paths") read_only config.filesystem.read_paths
        ++ (path_items (codes ";; User-specified write paths") read_write
              config.filesystem.write_paths
            ++ (temp_items
                ++ (process_items
                    ++ (network_items config.network
                        ++ (service_items
                            ++ (alias_items
                                ++ deny_items (or_empty config.filesystem.deny_paths))))))))

unfoldable pub generate_seatbelt_profile : SandboxSpawnConfig → Text
generate_seatbelt_profile config =
    join (codes "\n") (flat_map render (profile_items config)) ++ codes "\n"
