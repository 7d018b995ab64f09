-- ===== src/Api/Compatibility/Evaluation.antt =====
-- When a host is compatible with a release.
use kernmux.Prelude.{
  ℕ, ◌≡◌, ◌≢◌, ◌≤◌, ◌↔◌, refl, sym, ap, Bool, true, ◌&&◌, Option, none, some, List, [], ◌∷◌, ◌++◌,
  map, all, All, Any, Any-map_lem, any_iff, arith,
}
use kernmux.Prelude.Text.{decimal, decimal-injective}
use kernmux.Prelude.Order.{bytes_ord, same, same_iff}
use kernmux.Api.Host.{Capability}
use kernmux.Api.Compatibility.{
  CompatibilityCheck, HostCompatibilityEvidence, ReleaseCompatibilityManifest, capability_check,
  daxfs_checks, evaluate, exact_checks, has_capability, is_known, same_capability, schema_checks,
}

-- What a release asks of a host.
pub record IsCompatible (m : ReleaseCompatibilityManifest) (host : HostCompatibilityEvidence)
    : Type 0 where
  pub schema : m.schema_version ≡ 1
  pub os : (m.os_id ≡ host.os_id) × (m.os_version_id ≡ host.os_version_id)
  pub platform : (m.architecture ≡ host.architecture) × (m.kernel_release ≡ host.kernel_release)
  pub tools : (m.kerf_version ≡ host.kerf_version) × (m.kernmux_release ≡ host.kernmux_release)
  pub api : m.kernmux_api_major ≡ host.kernmux_api_major
  pub capabilities :
      All
        (λ c. (c ≢ Capability.unknown) × Any (λ x. x ≡ c) host.capabilities)
        m.required_capabilities
  pub daxfs : (n : ℕ) → m.daxfs_format ≡ some n → host.daxfs_format ≡ some n
  pub readable :
      (m.state_schema.readable_min ≤ host.state_schema)
      × (host.state_schema ≤ m.state_schema.readable_max)
  pub writable :
      (m.state_schema.writable_min ≤ host.state_schema)
      × (host.state_schema ≤ m.state_schema.writable_max)

-- All checks of a list pass.
abbrev passes : List CompatibilityCheck → Bool
passes = all (λ check. check.passed)

passes-append : (xs ys : List CompatibilityCheck) → passes (xs ++ ys) ≡ (passes xs && passes ys)
passes-append [] ys = refl
passes-append (x ∷ xs) ys = ground (arith, passes-append xs ys)

same-decimal_iff : (m n : ℕ) → (same (decimal m) (decimal n) ≡ true) ↔ (m ≡ n)
same-decimal_iff m n = (
  λ h. decimal-injective m n ((same_iff (decimal m) (decimal n)).0 h),
  λ e. (same_iff (decimal m) (decimal n)).1 (ap decimal e),
)

same_capability_iff : (a b : Capability) → (same_capability a b ≡ true) ↔ (a ≡ b)
unfolding same_capability
same_capability_iff a b = ground arith

is_known_iff : (c : Capability) → (is_known c ≡ true) ↔ (c ≢ Capability.unknown)
is_known_iff c = ground arith

has_capability_iff :
    (cs : List Capability) (c : Capability) → (has_capability cs c ≡ true) ↔ Any (λ x. x ≡ c) cs
unfolding has_capability
has_capability_iff cs c = (
  λ h. Any-map_lem _ _ cs (λ x. (same_capability_iff x c).0) ((any_iff _ cs).0 h),
  λ h. (any_iff _ cs).1 (Any-map_lem _ _ cs (λ x. (same_capability_iff x c).1) h),
)

capabilities_iff :
    (host : HostCompatibilityEvidence) (cs : List Capability)
    → (passes (map (capability_check host) cs) ≡ true)
      ↔ All (λ c. (c ≢ Capability.unknown) × Any (λ x. x ≡ c) host.capabilities) cs
capabilities_iff host [] = (λ _. tt, λ _. refl)
capabilities_iff host (c ∷ cs) =
    let known = is_known_iff c in
    let has = has_capability_iff host.capabilities c in
    let rest = capabilities_iff host cs in
    (
      λ h. ((known.0 (ground arith), has.0 (ground arith)), rest.0 (ground arith)),
      λ h. ground (arith, known.1 h.0.0, has.1 h.0.1, rest.1 h.1),
    )

daxfs_iff :
    (required : Option ℕ) (host : HostCompatibilityEvidence)
    → (passes (daxfs_checks required host) ≡ true)
      ↔ ((n : ℕ) → required ≡ some n → host.daxfs_format ≡ some n)
daxfs_iff none host = (λ _ n e. absurd (cc), λ _. refl)
daxfs_iff (some r) host = (λ h n e. ground arith, λ h. ground (arith, h r refl))

evaluate-passes :
    (m : ReleaseCompatibilityManifest) (host : HostCompatibilityEvidence)
    → (evaluate m host).compatible ≡ (
        passes (exact_checks m host)
        && passes (map (capability_check host) m.required_capabilities)
        && passes (daxfs_checks m.daxfs_format host)
        && passes (schema_checks m.state_schema host))
unfolding evaluate
evaluate-passes m host =
    let es = exact_checks m host in
    let cs = map (capability_check host) m.required_capabilities in
    let ds = daxfs_checks m.daxfs_format host in
    let ss = schema_checks m.state_schema host in
    ground
      (arith, passes-append es cs, passes-append (es ++ cs) ds, passes-append (es ++ cs ++ ds) ss)

-- A host is reported compatible exactly if it is what the release asks for. Equal printed numbers
-- are equal numbers, a capability the release does not know is never accepted, and a DAXFS format
-- counts only if the release names one.
pub evaluate_iff :
    (m : ReleaseCompatibilityManifest) (host : HostCompatibilityEvidence)
    → ((evaluate m host).compatible ≡ true) ↔ IsCompatible m host
evaluate_iff m host =
    let split = evaluate-passes m host in
    let capabilities = capabilities_iff host m.required_capabilities in
    let daxfs = daxfs_iff m.daxfs_format host in
    let schema = same-decimal_iff 1 m.schema_version in
    let api = same-decimal_iff m.kernmux_api_major host.kernmux_api_major in
    let os = same_iff m.os_id host.os_id in
    let version = same_iff m.os_version_id host.os_version_id in
    let machine = same_iff m.architecture host.architecture in
    let kernel = same_iff m.kernel_release host.kernel_release in
    let kerf = same_iff m.kerf_version host.kerf_version in
    let release = same_iff m.kernmux_release host.kernmux_release in
    (
      λ h. record {
        schema = sym (schema.0 (ground (arith, split)));
        os = (os.0 (ground (arith, split)), version.0 (ground (arith, split)));
        platform = (machine.0 (ground (arith, split)), kernel.0 (ground (arith, split)));
        tools = (kerf.0 (ground (arith, split)), release.0 (ground (arith, split)));
        api = api.0 (ground (arith, split));
        capabilities = capabilities.0 (ground (arith, split));
        daxfs = daxfs.0 (ground (arith, split));
        readable = ground (arith, split);
        writable = ground (arith, split);
      },
      λ h. ground (
        arith,
        split,
        schema.1 (sym h.schema),
        os.1 h.os.0,
        version.1 h.os.1,
        machine.1 h.platform.0,
        kernel.1 h.platform.1,
        kerf.1 h.tools.0,
        release.1 h.tools.1,
        api.1 h.api,
        capabilities.1 h.capabilities,
        daxfs.1 h.daxfs,
        h.readable,
        h.writable,
      ),
    )
