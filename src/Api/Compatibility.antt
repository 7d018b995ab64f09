-- ===== src/Api/Compatibility.antt =====
-- Release compatibility: `ReleaseCompatibilityManifest::evaluate` of v1.rs.
pub mod Evaluation
mod Tests
use kernmux.Prelude.{
  ℕ, Bool, true, false, not, ◌&&◌, Option, none, some, List, [], ◌∷◌, ◌++◌, map, all, any, leb,
  ◌==◌, if◌then◌else◌,
}
use kernmux.Prelude.Text.{Text, text, decimal}
use kernmux.Prelude.Order.{bytes_ord, same}
use kernmux.Api.Host.{Capability}

-- State versions that a release can safely read and write.
pub record StateSchemaCompatibility : Type 0 where
  pub readable_min : ℕ
  pub readable_max : ℕ
  pub writable_min : ℕ
  pub writable_max : ℕ

-- Compatibility contract shipped with one atomic Kernmux release.
pub record ReleaseCompatibilityManifest : Type 0 where
  pub schema_version : ℕ
  pub release_id : Text
  pub os_id : Text
  pub os_version_id : Text
  pub architecture : Text
  pub kernel_release : Text
  pub required_capabilities : List Capability
  pub kerf_version : Text
  pub kernmux_release : Text
  pub kernmux_api_major : ℕ
  pub daxfs_format : Option ℕ
  pub state_schema : StateSchemaCompatibility

-- Read-only evidence collected from a running host.
pub record HostCompatibilityEvidence : Type 0 where
  pub os_id : Text
  pub os_version_id : Text
  pub architecture : Text
  pub kernel_release : Text
  pub capabilities : List Capability
  pub kerf_version : Text
  pub kernmux_release : Text
  pub kernmux_api_major : ℕ
  pub daxfs_format : Option ℕ
  pub state_schema : ℕ

-- One stable, machine-readable compatibility assertion.
pub record CompatibilityCheck : Type 0 where
  pub name : Text
  pub passed : Bool
  pub expected : Text
  pub observed : Text

-- Result of evaluating one running host against a release contract.
pub record HostCompatibilityReport : Type 0 where
  pub schema_version : ℕ
  pub release_id : Text
  pub compatible : Bool
  pub checks : List CompatibilityCheck

abbrev capability_tag : Capability → ℕ
capability_tag Capability.multikernel = 0
capability_tag Capability.instance_lifecycle = 1
capability_tag Capability.dynamic_resources = 2
capability_tag Capability.transaction_rollback = 3
capability_tag Capability.console = 4
capability_tag Capability.device_assignment = 5
capability_tag Capability.shared_memory = 6
capability_tag Capability.unknown = 7

-- `==` on capabilities, and `contains`.
unfoldable pub same_capability : Capability → Capability → Bool
same_capability a b = capability_tag a == capability_tag b

unfoldable pub has_capability : List Capability → Capability → Bool
unfolding same_capability
has_capability capabilities c = any (λ x. same_capability x c) capabilities

abbrev pub is_known : Capability → Bool
is_known Capability.unknown = false
is_known _ = true

unfoldable pub capability_name : Capability → Text
capability_name Capability.multikernel = text "multikernel"
capability_name Capability.instance_lifecycle = text "instance_lifecycle"
capability_name Capability.dynamic_resources = text "dynamic_resources"
capability_name Capability.transaction_rollback = text "transaction_rollback"
capability_name Capability.console = text "console"
capability_name Capability.device_assignment = text "device_assignment"
capability_name Capability.shared_memory = text "shared_memory"
capability_name Capability.unknown = text "unknown"

-- The macro `exact!`, on the printed values.
abbrev pub exact : Text → Text → Text → CompatibilityCheck
exact name expected observed = record {
  name = name;
  passed = same expected observed;
  expected = expected;
  observed = observed;
}

abbrev pub capability_check : HostCompatibilityEvidence → Capability → CompatibilityCheck
capability_check evidence c = record {
  name = text "capability:" ++ capability_name c;
  passed = is_known c && has_capability evidence.capabilities c;
  expected = text "present";
  observed =
      if not (is_known c)
      then text "unsupported"
      else if has_capability evidence.capabilities c
      then text "present"
      else text "absent";
}

abbrev is_some_of : Option ℕ → ℕ → Bool
is_some_of none n = false
is_some_of (some m) n = m == n

abbrev format_or_absent : Option ℕ → Text
format_or_absent none = text "absent"
format_or_absent (some n) = decimal n

abbrev pub daxfs_checks : Option ℕ → HostCompatibilityEvidence → List CompatibilityCheck
daxfs_checks none evidence = []
daxfs_checks (some required) evidence =
    record {
      name = text "daxfs_format";
      passed = is_some_of evidence.daxfs_format required;
      expected = decimal required;
      observed = format_or_absent evidence.daxfs_format;
    }
    ∷ []

abbrev pub schema_check : Text → ℕ → ℕ → HostCompatibilityEvidence → CompatibilityCheck
schema_check name min max evidence = record {
  name = name;
  passed = leb min evidence.state_schema && leb evidence.state_schema max;
  expected = decimal min ++ text "..=" ++ decimal max;
  observed = decimal evidence.state_schema;
}

abbrev pub exact_checks :
    ReleaseCompatibilityManifest → HostCompatibilityEvidence → List CompatibilityCheck
exact_checks m evidence =
    exact (text "manifest_schema") (decimal 1) (decimal m.schema_version)
    ∷ exact (text "os_id") m.os_id evidence.os_id
    ∷ exact (text "os_version_id") m.os_version_id evidence.os_version_id
    ∷ exact (text "architecture") m.architecture evidence.architecture
    ∷ exact (text "kernel_release") m.kernel_release evidence.kernel_release
    ∷ exact (text "kerf_version") m.kerf_version evidence.kerf_version
    ∷ exact (text "kernmux_release") m.kernmux_release evidence.kernmux_release
    ∷ exact (text "kernmux_api_major") (decimal m.kernmux_api_major)
        (decimal evidence.kernmux_api_major)
    ∷ []

abbrev pub schema_checks :
    StateSchemaCompatibility → HostCompatibilityEvidence → List CompatibilityCheck
schema_checks schema evidence =
    schema_check (text "state_schema_readable") schema.readable_min schema.readable_max evidence
    ∷ schema_check (text "state_schema_writable") schema.writable_min schema.writable_max evidence
    ∷ []

-- `ReleaseCompatibilityManifest::evaluate`.
unfoldable pub evaluate :
    ReleaseCompatibilityManifest → HostCompatibilityEvidence → HostCompatibilityReport
evaluate m evidence =
    let checks =
      exact_checks m evidence
      ++ map (capability_check evidence) m.required_capabilities
      ++ daxfs_checks m.daxfs_format evidence
      ++ schema_checks m.state_schema evidence in
    record {
      schema_version = 1;
      release_id = m.release_id;
      compatible = all (λ check. check.passed) checks;
      checks = checks;
    }
