-- ===== src/AppContainer/Prepare.antt =====
-- win-appcontainer.ts: `prepareAppContainerSpawn`, with the calls that it makes on the file system.
use convira_sandbox.Base.{Bool, List, [], ◌∷◌, ◌++◌}
use convira_sandbox.Base.Text.{Text, codes}
use convira_sandbox.Base.Result.{Result, ok, throw, ◌>>=◌}
use convira_sandbox.Types.{LeafKind}
use convira_sandbox.AppContainer.Grants.{
  WinAppContainerGrants, Materialized, filter_grants_to_existing_paths, format_app_container_grants,
}

-- `fs.mkdirSync(p, { recursive: true })`, `fs.writeFileSync(p, "", { flag: "wx" })` and
-- `fs.writeFileSync(p, text)`.
pub data FsCall : Type 0 where
  make_directory : Text → FsCall
  create_file : Text → FsCall
  write_file : Text → Text → FsCall

-- How a call ends: it is done, it throws EEXIST, or it throws something else.
pub data FsOutcome : Type 0 where
  done already_exists failed : FsOutcome

pub record PreparedAppContainerSpawn : Type 0 where
  pub profile_name : Text
  pub grants_file : Text

abbrev pub profile_prefix : Text
profile_prefix = codes "ConviraSbx"

-- `random` is the text of the random bytes, `join` and `dirname` are those of Node's `path`.
pub record Files : Type 0 where
  pub outcome : FsCall → FsOutcome
  pub exists : Text → Bool
  pub ledger_dir : Text
  pub random : Text
  pub join : Text → Text → Text
  pub dirname : Text → Text

module _ (files : Files) where
  -- A call that must succeed; the message is that of the enclosing handler.
  unfoldable pub must : FsOutcome → Text → Result (Unit {0})
  must done message = ok tt
  must already_exists message = throw message
  must failed message = throw message

  -- The exclusive creation of a file, where EEXIST is fine.
  unfoldable pub must_exist : FsOutcome → Text → Result (Unit {0})
  must_exist failed message = throw message
  must_exist done message = ok tt
  must_exist already_exists message = ok tt

  unfoldable pub refusal : Text → Text
  refusal p =
      codes "[sandbox-runtime] could not materialize deny path "
      ++ p
      ++ codes "; refusing to spawn rather than leave it writable through a broader grant"

  unfoldable pub materialize_leaf : Text → LeafKind → Result (List FsCall)
  materialize_leaf p LeafKind.dir = do
    u ← must (files.outcome (make_directory p)) (refusal p)
    ok (make_directory p ∷ [])
  materialize_leaf p LeafKind.file = do
    u ← must (files.outcome (make_directory (files.dirname p))) (refusal p)
    v ← must_exist (files.outcome (create_file p)) (refusal p)
    ok (make_directory (files.dirname p) ∷ create_file p ∷ [])

  unfoldable pub materialize_all : List Materialized → Result (List FsCall)
  materialize_all [] = ok []
  materialize_all (entry ∷ entries) = do
    first ← materialize_leaf entry.path entry.kind
    rest ← materialize_all entries
    ok (first ++ rest)

  unfoldable pub profile_name : Text
  profile_name = profile_prefix ++ codes "-" ++ files.random

  unfoldable pub grants_file : Text
  grants_file = files.join files.ledger_dir (profile_name ++ codes ".grants")

  -- The prepared spawn and the calls made, in order.
  unfoldable pub prepare_app_container_spawn :
      WinAppContainerGrants → Result (PreparedAppContainerSpawn × List FsCall)
  prepare_app_container_spawn grants = do
    u ← must (files.outcome (make_directory files.ledger_dir)) (codes "mkdir")
    filtered ← filter_grants_to_existing_paths grants files.exists
    created ← materialize_all filtered.materialize
    let text = format_app_container_grants filtered.grants
    v ← must (files.outcome (write_file grants_file text)) (codes "write")
    ok (
      record { profile_name = profile_name; grants_file = grants_file },
      make_directory files.ledger_dir ∷ (created ++ write_file grants_file text ∷ []),
    )
