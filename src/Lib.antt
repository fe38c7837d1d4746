-- ===== src/Lib.antt =====
-- The verification library of convira-sandbox, which starts commands under the confinement of the
-- operating system. A caller fills in a spawn configuration and asks detectAdapter for an adapter;
-- wrapSpawn of the adapter rewrites the command so that it runs inside bubblewrap, sandbox-exec or
-- an AppContainer launcher, or refuses. Boot probes decide what the adapters report, watchdogs
-- measure what the kernel cannot limit, and a ledger lets the next boot clean up after a crash.
-- Paths below are relative to packages/sandbox-runtime/src unless they name the other package.
--
-- * Base, Types, Host and NodePath are shared: tests on numbers, lists and texts (lists of code
--   points), decimal numbers, a result that throws, the records of types.ts, the file system that
--   the Linux adapter asks, and the functions of Node's path module that it uses (normalize,
--   dirname, join, basename), written from their documented behaviour on POSIX paths.
-- * Rlimit and ProbeCache model rlimit.ts: rlimitValuesFromResources, buildRlimitScript,
--   wrapWithRlimit, the functional probe, and the memo and override of a boot probe.
-- * DenyLeafKind models deny-leaf-kind.ts, which the Linux adapter and the AppContainer filter
--   share.
-- * Linux models adapters/native-linux.ts: Mounts (governingMount, deepestExistingDirBelow), Seal
--   (sealDirectory, the plan of seals, the overlays), Launcher (findBwrap, checkAvailable and its
--   cache), Spawn (wrapSpawn) and Capabilities. Governing is the reading of a mount sequence, where
--   the last mount at or above a path governs it.
-- * Macos models adapters/native-macos.ts: Escape (escapeSeatbeltPath), Profile
--   (generateSeatbeltProfile), Legacy (legacyMacosProfile), Spawn (wrapSpawn, the reports, the
--   stale sweep), PrivateFiles (writeProfileToPrivateTemp, the exit handler); Decides reads a
--   profile by the rule that the last match wins, for any reading of its filters.
-- * Windows models adapters/native-windows.ts, and AppContainer models win-appcontainer.ts: Grants
--   (the grants file and the filter to existing paths), Prepare (prepareAppContainerSpawn), Sweep
--   (the janitor), Loading (bindings and launcher), Launching (spawnViaLauncher and its clean-up),
--   Probing and Caging (the three boot probes).
-- * JobObject models win-job-object.ts: Loading (the addon, isAlive), Registry (jobs by process),
--   Spawning (spawnIntoJob and the clean-up), KillTree, and TwoLeg (the memory, process-count and
--   CPU probes). Probing and ProbePayload are what the Windows probes share: pollUntil,
--   readFileTrimmed, and probe-payload.ts with its handshake.
-- * Probes models probes.ts: Group (the detached group and the descendant-kill probe) and MemoryCap
--   (two allocations under the rlimit wrapper).
-- * Watchdog models rss-watchdog.ts and disk-watchdog.ts: the samplers, the interval handler, and
--   in Watchdog.Probing their boot probes.
-- * Boot puts the boot probes together: one memo for each of them, probeWinJobObjectReport,
--   probeWinAppContainerReport and capabilitiesV2 of the adapters as programs over the memos.
--   Boot.Stable says when the answers of such a program do not change, Boot.Evidence what the
--   probes have seen.
-- * Selection models detect.ts and adapters/passthrough.ts, and Running composes detectAdapter, the
--   availability of the adapters and wrapSpawn.
-- * BuildLock models withExclusiveBuildLock of
--   packages/sandbox-runtime/scripts/build-win-job-object-native.mjs as a step relation of
--   processes over one lock directory, and NativeBuild what that script does inside the lock.
-- * Landlock models packages/sandbox-enforcer/src/landlock.ts and enforcer.ts: the ruleset, the
--   accesses of its rules, the kernel calls in order, and the combined result. Seccomp models
--   packages/sandbox-enforcer/src/seccomp.ts.
--
-- Numbers are natural numbers; the budgets of a spawn are non-negative numbers with three decimals,
-- held in thousandths. A call that throws is a value of Result with its text, or a verdict that is
-- false where the source catches it; code that mutates is a function from the state before to the
-- state after with the calls that it makes, in order. The host is one state that does not change
-- during a function's run; the paths, processes and native calls that the code asks for are
-- arguments, for a probe a record of what it meets. In Boot what a probe meets may change from one
-- run to the next.
--
-- The climb of deepestExistingDirBelow runs on fuel of two more than the length of its path, which
-- is enough since every dirname is shorter or the last one; the printing of a decimal runs on one
-- more than the number. A loop over counted rounds is recursive on the rounds that the source
-- counts (50, 100 or 200). All other loops are recursive on a list. A poll until a deadline is the
-- list of the answers that its condition gives before the deadline.
--
-- Not modelled: the C and C++ bindings, bubblewrap, Seatbelt, Landlock, libseccomp and the kernels
-- themselves, which are arguments or the readings named above; messages to stderr other than those
-- of the selection, the timing of polls, test hooks other than the memo's, node-gyp, the smoke test
-- of the build, and tests.
pub mod Base
pub mod Types
pub mod ProbeCache
pub mod Rlimit
pub mod Host
pub mod NodePath
pub mod DenyLeafKind
pub mod Linux
pub mod Watchdog
pub mod AppContainer
pub mod Selection
pub mod Windows
pub mod JobObject
pub mod Macos
pub mod Landlock
pub mod Probing
pub mod ProbePayload
pub mod Probes
pub mod Boot
pub mod Seccomp
pub mod Running
pub mod BuildLock
pub mod NativeBuild
