-- ===== src/Lifecycle/Checks.antt =====
-- The checks of an id, a name and a CPU list in lifecycle.rs.
use kernmux.Prelude.{
  ℕ, ◌≤◌, ◌≡◌, ◌≢◌, ◌↔◌, ◌⊎◌, inl, inr, refl, Bool, true, false, not, ◌&&◌, ◌||◌, List, [], ◌∷◌,
  length, all, All, all_iff, All-map_lem, arith, leb, ◌==◌, Result, ok, reject_if,
}
use kernmux.Prelude.Text.{Text, text}
use kernmux.Prelude.Order.{nat_ord}
use kernmux.Prelude.TreeSet.{collect, distinct, length-collect_iff}
use kernmux.Api.{InstanceId}
use kernmux.Lifecycle.Requests.{LifecyclePlanError}

abbrev pub is_empty {ℓ} : {A : Type ℓ} → List A → Bool
is_empty [] = true
is_empty (x ∷ xs) = false

unfoldable pub validate_id : InstanceId → Result (Unit {0}) LifecyclePlanError
validate_id id =
    reject_if (not (leb 1 id && leb id 511))
      (LifecyclePlanError.invalid_request (text "instance ID must be between 1 and 511"))

-- `u8::is_ascii_alphanumeric`.
abbrev pub is_alphanumeric : ℕ → Bool
is_alphanumeric c =
    (leb b'0' c && leb c b'9') || (leb b'A' c && leb c b'Z') || (leb b'a' c && leb c b'z')

abbrev pub is_name_byte : ℕ → Bool
is_name_byte c = is_alphanumeric c || c == b'.' || c == b'_' || c == b'-'

abbrev starts_alphanumeric : Text → Bool
starts_alphanumeric [] = false
starts_alphanumeric (c ∷ cs) = is_alphanumeric c

unfoldable pub is_valid_name : Text → Bool
is_valid_name name =
    not (is_empty name) && leb (length name) 63 && all is_name_byte name && starts_alphanumeric name

unfoldable pub validate_name : Text → Result (Unit {0}) LifecyclePlanError
unfolding is_valid_name
validate_name name =
    reject_if (not (is_valid_name name))
      (LifecyclePlanError.invalid_request (text "instance name contains unsupported characters"))

unfoldable pub validate_cpus : List ℕ → Result (Unit {0}) LifecyclePlanError
unfolding collect
validate_cpus cpus = reject_if (is_empty cpus || not (length (collect cpus) == length cpus)) (
    LifecyclePlanError.invalid_request
      (text "CPU allocation must be non-empty and contain no duplicates"))

-- An accepted name is short, is not read as an option, and has no byte that a path, a list or a
-- shell would read otherwise.
pub record IsSafeName (name : Text) : Type 0 where
  pub short : length name ≤ 63
  pub initial : ℕ
  pub rest : Text
  pub starts : name ≡ initial ∷ rest
  pub not_option : initial ≢ b'-'
  pub no_dot_first : initial ≢ b'.'
  pub plain : All (λ c. (c ≢ b'/') × (c ≢ b',') × (c ≢ b'=') × (33 ≤ c) × (c ≤ 122)) name

plain_byte :
    (c : ℕ) → is_name_byte c ≡ true → (c ≢ b'/') × (c ≢ b',') × (c ≢ b'=') × (33 ≤ c) × (c ≤ 122)
plain_byte c h = ground arith

not_punctuation : (c : ℕ) → is_alphanumeric c ≡ true → (c ≡ b'-') ⊎ (c ≡ b'.') → ⊥
not_punctuation c h k = ground arith

-- An accepted instance name has 1 to 63 bytes, starts with neither a dash nor a dot, and has no
-- slash, comma, equals sign, blank or control byte.
pub validate_name-IsSafeName : (name : Text) → validate_name name ≡ ok tt → IsSafeName name
unfolding is_valid_name validate_name
validate_name-IsSafeName [] h = absurd (cc)
validate_name-IsSafeName (c ∷ cs) h =
    let bytes : all is_name_byte (c ∷ cs) ≡ true = ground arith in
    let first : is_alphanumeric c ≡ true = ground arith in
    record {
      short = ground arith;
      initial = c;
      rest = cs;
      starts = refl;
      not_option = λ e. not_punctuation c first (inl e);
      no_dot_first = λ e. not_punctuation c first (inr e);
      plain = All-map_lem _ _ (c ∷ cs) plain_byte ((all_iff is_name_byte (c ∷ cs)).0 bytes);
    }

pub validate_id_iff : (id : InstanceId) → (validate_id id ≡ ok tt) ↔ ((1 ≤ id) × (id ≤ 511))
unfolding validate_id
validate_id_iff id = ground arith

pub validate_cpus_iff :
    (cpus : List ℕ) → (validate_cpus cpus ≡ ok tt) ↔ ((cpus ≢ []) × (distinct cpus ≡ true))
unfolding validate_cpus
validate_cpus_iff [] = ground arith
validate_cpus_iff (x ∷ xs) = ground (arith, length-collect_iff (x ∷ xs))
