-- ===== src/Credentials.antt =====
-- src/credentials.rs and src/credential_refresh.rs: leased credentials, and when they are renewed.
-- The RFC 3339 parser and the digest of a secret are parameters; an account is known by its id.
mod Coordinator
mod Rotation
mod Claims
mod Deadlines
mod Waiting
mod Flight
mod Renewed
mod Tests
use kinetix.Base.{
  ℕ, ◌+◌, ◌-◌, ◌*◌, ◌/◌, ◌^◌, min, max, Bool, true, false, Option, none, some, String, ◌&&◌, ◌||◌,
  not, ltb, leb, ◌==◌, if◌then◌else◌, ◌↔◌, ◌≡◌, arith, str_eq, seconds, and_then, or_option, Result,
  unwrap_or,
}
use kinetix.Base.Keyed.{KeyEq, string_eq}

pub record ResolvedCredential : Type 0 where
  pub secret : String
  pub expires_at : Option String
  pub refresh_after : Option String
  pub rotated : Bool

pub record CredentialRotationError : Type 0 where
  pub code : String
  pub message : String
  pub retryable : Bool
  pub retry_after_secs : Option ℕ

unfoldable pub invalid_credential : CredentialRotationError → Bool
invalid_credential e =
    not e.retryable
    && (str_eq e.code "credential_expired"
        || str_eq e.code "unauthorized"
        || str_eq e.code "auth_error")

-- `resolve` and `rotate` for one account, on the state that they keep.
pub record CredentialStrategy (S : Type 0) : Type 0 where
  pub resolve : S → Result CredentialRotationError ResolvedCredential × S
  pub rotate : S → Result {0, 0} CredentialRotationError Unit × S

pub record CredentialKey : Type 0 where
  pub provider_id : String
  pub account_id : String

unfoldable pub same_key : CredentialKey → CredentialKey → Bool
same_key a b = str_eq a.provider_id b.provider_id && str_eq a.account_id b.account_id

pub same_key_iff : (a b : CredentialKey) → (same_key a b ≡ true) ↔ (a ≡ b)
unfolding same_key
same_key_iff a b = ground (
  arith,
  string_eq.beq_iff a.provider_id b.provider_id,
  string_eq.beq_iff a.account_id b.account_id,
)

instance abbrev pub credential_key_eq : KeyEq CredentialKey
credential_key_eq = record { beq = same_key; beq_iff = same_key_iff }

abbrev pub default_refresh_lead_secs : ℕ
default_refresh_lead_secs = 5 * 60

abbrev pub min_retry_secs : ℕ
min_retry_secs = 5

abbrev pub max_retry_secs : ℕ
max_retry_secs = 5 * 60

abbrev pub claim_grace_secs : ℕ
claim_grace_secs = 60

abbrev pub min_successful_refresh_interval_secs : ℕ
min_successful_refresh_interval_secs = 60

pub record LeaseIdentity : Type 0 where
  pub expires_at : Option ℕ
  pub refresh_after : Option ℕ
  pub secret_fingerprint : String

pub record LeaseSchedule : Type 0 where
  pub next_attempt_at : ℕ
  pub failures : ℕ
  pub lease_identity : LeaseIdentity
  pub claim_until : Option ℕ

abbrev pub u32_max : ℕ
u32_max = 4294967295

-- A failure count is a `u32`.
unfoldable pub exponential_backoff_secs : ℕ → ℕ
exponential_backoff_secs failures =
    let shift = min (failures - 1) 6 in min (min_retry_secs * 2 ^ shift) max_retry_secs

-- When a lease that expires at `expires` is renewed of its own accord.
unfoldable pub derived_refresh : ℕ → ℕ → ℕ
derived_refresh now expires =
    let remaining_secs = (expires - now) / seconds 1 in
    let lead_secs = min (remaining_secs / 2) default_refresh_lead_secs in
    expires - seconds lead_secs

unfoldable pub requested : LeaseIdentity → ℕ → Option ℕ
requested i now =
    or_option i.refresh_after
      (and_then i.expires_at (λ expires. some (derived_refresh now expires)))

module _ (parse_dt : String → Option ℕ) (digest : String → String) where
  unfoldable pub parse_time : Option String → Option ℕ
  parse_time value = and_then value parse_dt

  unfoldable pub lease_identity_of : ResolvedCredential → LeaseIdentity
  lease_identity_of c = record {
    expires_at = parse_time c.expires_at;
    refresh_after = parse_time c.refresh_after;
    secret_fingerprint = digest c.secret;
  }

  unfoldable pub schedule_from_credential : ResolvedCredential → ℕ → Option LeaseSchedule
  schedule_from_credential c now =
      let i = lease_identity_of c in
      and_then (requested i now) (λ at. some (record {
        next_attempt_at = max at now;
        failures = 0;
        lease_identity = i;
        claim_until = none;
      }))
