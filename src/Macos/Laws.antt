-- ===== src/Macos/Laws.antt =====
-- native-macos.ts: which files and endpoints a generated profile opens.
use convira_sandbox.Base.{
  Bool, false, not, ◌&&◌, ◌||◌, List, [], ◌∷◌, ◌++◌, ◌≡◌, refl, inl, inr, arith, map, Bool-cases,
}
use convira_sandbox.Base.Text.{Text, codes}
use convira_sandbox.Types.{SandboxSpawnConfig, Network}
use convira_sandbox.AppContainer.Grants.{or_empty}
use convira_sandbox.Macos.Profile.{
  Filter, subpath, FileOp, file_read, file_write, read_only, read_write, system_filters,
  link_filters, temp_filters, data_volume, system_items, path_items, temp_items, process_items,
  network_items, service_items, alias_items, deny_items, profile_items,
}
use convira_sandbox.Macos.Decides.{same_op, covers, decide, decide-append}

module _ (matches : Filter → Text → Bool) where
  abbrev pub under : List Text → Text → Bool
  under ps x = covers matches (map subpath ps) x

  path_items_read :
      (comment : Text) (ps : List Text) (x : Text) (before : Bool)
      → decide matches (path_items comment read_only ps) file_read x before ≡ under ps x || before
  unfolding path_items decide same_op under
  path_items_read comment [] x before = refl
  path_items_read comment (p ∷ ps) x before = ground arith

  path_items_read_write :
      (comment : Text) (ps : List Text) (op : FileOp) (x : Text) (before : Bool)
      → decide matches (path_items comment read_write ps) op x before ≡ under ps x || before
  unfolding path_items decide same_op under
  path_items_read_write comment [] op x before = refl
  path_items_read_write comment (p ∷ ps) file_read x before = ground arith
  path_items_read_write comment (p ∷ ps) file_write x before = ground arith

  path_items_write :
      (comment : Text) (ps : List Text) (x : Text) (before : Bool)
      → decide matches (path_items comment read_only ps) file_write x before ≡ before
  unfolding path_items decide same_op
  path_items_write comment [] x before = refl
  path_items_write comment (p ∷ ps) x before = refl

  deny_items_lem :
      (ps : List Text) (op : FileOp) (x : Text) (before : Bool)
      → decide matches (deny_items ps) op x before ≡ before && not (under ps x)
  unfolding deny_items decide same_op under
  deny_items_lem [] op x before = ground arith
  deny_items_lem (p ∷ ps) file_read x before = ground arith
  deny_items_lem (p ∷ ps) file_write x before = ground arith

  network_items_lem :
      (network : Network) (op : FileOp) (x : Text) (before : Bool)
      → decide matches (network_items network) op x before ≡ before
  unfolding network_items decide
  network_items_lem network op x before = elim (Bool-cases network.enabled) [
    | inl on ↦ elim (Bool-cases network.allow_loopback) [
      | inl loopback ↦ rw on (rw loopback refl)
      | inr no_loopback ↦ rw on (rw no_loopback refl)
    ]
    | inr off ↦ elim (Bool-cases network.allow_loopback) [
      | inl loopback ↦ rw off (rw loopback refl)
      | inr no_loopback ↦ rw off (rw no_loopback refl)
    ]
  ]

  system_items_read :
      (x : Text) (before : Bool)
      → decide matches system_items file_read x before
        ≡ covers matches link_filters x || (covers matches system_filters x || before)
  unfolding system_items decide same_op
  system_items_read x before = elim (Bool-cases (covers matches link_filters x)) [
    | inl link ↦ rw link refl
    | inr no_link ↦ rw no_link (elim (Bool-cases (covers matches system_filters x)) [
      | inl system ↦ rw system refl
      | inr no_system ↦ rw no_system refl
    ])
  ]

  system_items_write :
      (x : Text) (before : Bool) → decide matches system_items file_write x before ≡ before
  unfolding system_items decide same_op
  system_items_write x before = refl

  temp_items_lem :
      (op : FileOp) (x : Text) (before : Bool)
      → decide matches temp_items op x before ≡ covers matches temp_filters x || before
  unfolding temp_items decide same_op
  temp_items_lem file_read x before = elim (Bool-cases (covers matches temp_filters x)) [
    | inl temp ↦ rw temp refl
    | inr other ↦ rw other refl
  ]
  temp_items_lem file_write x before = elim (Bool-cases (covers matches temp_filters x)) [
    | inl temp ↦ rw temp refl
    | inr other ↦ rw other refl
  ]

  -- What the profile refuses at its end.
  abbrev pub is_refused : SandboxSpawnConfig → FileOp → Text → Bool
  is_refused config file_read x =
      matches data_volume x || under (or_empty config.filesystem.deny_paths) x
  is_refused config file_write x = under (or_empty config.filesystem.deny_paths) x

  -- What the profile opens.
  abbrev pub is_opened : SandboxSpawnConfig → FileOp → Text → Bool
  is_opened config file_read x =
      covers matches temp_filters x
      || (under config.filesystem.write_paths x
          || (under config.filesystem.read_paths x
              || (covers matches link_filters x || covers matches system_filters x)))
  is_opened config file_write x =
      covers matches temp_filters x || under config.filesystem.write_paths x

  alias_items_lem :
      (config : SandboxSpawnConfig) (op : FileOp) (x : Text) (before : Bool)
      → decide matches
          (alias_items ++ deny_items (or_empty config.filesystem.deny_paths))
          op
          x
          before
        ≡ before && not (is_refused config op x)
  unfolding alias_items decide same_op
  alias_items_lem config file_read x before =
      rw
        (decide-append matches alias_items (deny_items (or_empty config.filesystem.deny_paths))
          file_read x before)
        (rw (deny_items_lem (or_empty config.filesystem.deny_paths) file_read x _) (ground arith))
  alias_items_lem config file_write x before =
      rw
        (decide-append matches alias_items (deny_items (or_empty config.filesystem.deny_paths))
          file_write x before)
        (deny_items_lem (or_empty config.filesystem.deny_paths) file_write x before)

  -- The blocks behind the write paths change nothing but the temporary directories and the refusals.
  tail_items_lem :
      (config : SandboxSpawnConfig) (op : FileOp) (x : Text) (before : Bool)
      → decide matches
          (temp_items
            ++ (process_items
                ++ (network_items config.network
                    ++ (service_items
                        ++ (alias_items ++ deny_items (or_empty config.filesystem.deny_paths))))))
          op
          x
          before
        ≡ (covers matches temp_filters x || before) && not (is_refused config op x)
  unfolding process_items service_items decide
  tail_items_lem config op x before = rw (decide-append matches temp_items _ op x before) (
      rw (temp_items_lem op x before) (
        rw (decide-append matches process_items _ op x _) (
          rw (decide-append matches (network_items config.network) _ op x _) (
            rw (network_items_lem config.network op x _) (
              rw (decide-append matches service_items _ op x _) (alias_items_lem config op x _))))))

  -- Under last-match-wins, whatever Seatbelt's filters cover, a generated profile lets a path be
  -- written exactly when a temporary directory or a write path covers it and no denied path does; and
  -- read exactly when one of these, a read path or the system's list covers it, and neither a denied
  -- path nor the alias of the data volume does.
  pub decide-profile_items :
      (config : SandboxSpawnConfig) (op : FileOp) (x : Text)
      → decide matches (profile_items config) op x false
        ≡ is_opened config op x && not (is_refused config op x)
  unfolding profile_items
  decide-profile_items config file_write x =
      rw (decide-append matches system_items _ file_write x false) (
        rw (system_items_write x false) (
          rw
            (decide-append matches
              (path_items (codes ";; User-specified read paths") read_only
                config.filesystem.read_paths)
              _ file_write x false)
            (rw
              (path_items_write (codes ";; User-specified read paths") config.filesystem.read_paths
                x false)
              (rw
                (decide-append matches
                  (path_items (codes ";; User-specified write paths") read_write
                    config.filesystem.write_paths)
                  _ file_write x false)
                (rw
                  (path_items_read_write (codes ";; User-specified write paths")
                    config.filesystem.write_paths file_write x false)
                  (rw (tail_items_lem config file_write x _) (ground arith)))))))
  decide-profile_items config file_read x =
      rw (decide-append matches system_items _ file_read x false) (
        rw (system_items_read x false) (
          rw
            (decide-append matches
              (path_items (codes ";; User-specified read paths") read_only
                config.filesystem.read_paths)
              _ file_read x _)
            (rw
              (path_items_read (codes ";; User-specified read paths") config.filesystem.read_paths x
                _)
              (rw
                (decide-append matches
                  (path_items (codes ";; User-specified write paths") read_write
                    config.filesystem.write_paths)
                  _ file_read x _)
                (rw
                  (path_items_read_write (codes ";; User-specified write paths")
                    config.filesystem.write_paths file_read x _)
                  (rw (tail_items_lem config file_read x _) (ground arith)))))))
