-- ===== src/AppContainer/Evidence.antt =====
-- win-appcontainer.ts: the three probes of an AppContainer, and the evidence that each needs.
use convira_sandbox.Base.{Bool, List}
use convira_sandbox.AppContainer.Launching.{Effect}
use convira_sandbox.AppContainer.Probing.{
  FilesystemProbing, run_app_container_filesystem_probe, NetworkProbing,
  run_app_container_network_probe,
}
use convira_sandbox.AppContainer.Caging.{CagingProbing, run_app_container_spawn_caging_probe}
use convira_sandbox.AppContainer.FilesystemEvidence.{IsFilesystemProven}
use convira_sandbox.AppContainer.NetworkEvidence.{IsNetworkProven}
use convira_sandbox.AppContainer.CagingEvidence.{IsCagingProven}

pub data ContainerProbe : Type 0 where
  filesystem_probe network_probe caging_probe : ContainerProbe

-- What the three probes meet.
pub record Probings : Type 0 where
  pub filesystem : FilesystemProbing
  pub network : NetworkProbing
  pub caging : CagingProbing

unfoldable pub run_container_probe : ContainerProbe → Probings → Bool × List Effect
run_container_probe filesystem_probe p = run_app_container_filesystem_probe p.filesystem
run_container_probe network_probe p = run_app_container_network_probe p.network
run_container_probe caging_probe p = run_app_container_spawn_caging_probe p.caging

abbrev pub IsEvident : ContainerProbe → Probings → Type 0
IsEvident filesystem_probe p = IsFilesystemProven p.filesystem
IsEvident network_probe p = IsNetworkProven p.network
IsEvident caging_probe p = IsCagingProven p.caging (run_app_container_spawn_caging_probe p.caging).1
