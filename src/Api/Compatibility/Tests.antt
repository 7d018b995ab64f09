-- ===== src/Api/Compatibility/Tests.antt =====
-- A release that asks for a capability and a DAXFS format, and a host that has them.
use kernmux.Prelude.{◌≡◌, ◌↔◌, true, some, [], ◌∷◌}
use kernmux.Prelude.Text.{text}
use kernmux.Api.Host.{Capability}
use kernmux.Api.Compatibility.{HostCompatibilityEvidence, ReleaseCompatibilityManifest, evaluate}
use kernmux.Api.Compatibility.Evaluation.{IsCompatible, evaluate_iff}

abbrev manifest : ReleaseCompatibilityManifest
manifest = record {
  schema_version = 1;
  release_id = text "r1";
  os_id = text "debian";
  os_version_id = text "13";
  architecture = text "x86_64";
  kernel_release = text "7.0.0-mk";
  required_capabilities = Capability.multikernel ∷ [];
  kerf_version = text "0.2";
  kernmux_release = text "1.0";
  kernmux_api_major = 1;
  daxfs_format = some 3;
  state_schema = record { readable_min = 1; readable_max = 2; writable_min = 2; writable_max = 2 };
}

abbrev evidence : HostCompatibilityEvidence
evidence = record {
  os_id = text "debian";
  os_version_id = text "13";
  architecture = text "x86_64";
  kernel_release = text "7.0.0-mk";
  capabilities = Capability.console ∷ Capability.multikernel ∷ [];
  kerf_version = text "0.2";
  kernmux_release = text "1.0";
  kernmux_api_major = 1;
  daxfs_format = some 3;
  state_schema = 2;
}

evaluate_iff_example :
    ((evaluate manifest evidence).compatible ≡ true) ↔ IsCompatible manifest evidence
evaluate_iff_example = evaluate_iff manifest evidence
