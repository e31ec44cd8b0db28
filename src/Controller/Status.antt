-- ===== src/Controller/Status.antt =====
-- What the reconcilers of main.rs report: the claims, and statuses compared as `PartialEq` does.
pub mod Order
use Prim.Native.Char.{code}
use kasmcloud.Prelude.{
  ℤ, ℕ, String, Bool, true, false, Option, none, some, List, [], ◌∷◌, as_i64, int_eq, unwrap_or,
  ltb, nat_eq, ◌==◌, ◌&&◌, if◌then◌else◌,
}
use kasmcloud.Map.{Map}
use kasmcloud.External.{Claims, ActorMetadata, ProviderMetadata}
use kasmcloud.External.Clock.{Clock}
use kasmcloud.Apis.{ActorStatus, ProviderStatus, Claims as Reported}

abbrev pub same_list : List String → List String → Bool
same_list [] [] = true
same_list (x ∷ xs) (y ∷ ys) = x == y && same_list xs ys
same_list _ _ = false

abbrev pub same_option {ℓ} : {A : Type ℓ} → (A → A → Bool) → Option A → Option A → Bool
same_option same none none = true
same_option same (some x) (some y) = same x y
same_option same _ _ = false

abbrev pub same_string : String → String → Bool
same_string s t = s == t

abbrev pub same_claims : Reported → Reported → Bool
same_claims c d =
    c.issuer == d.issuer
    && c.subject == d.subject
    && c.issued_at == d.issued_at
    && same_option same_string c.not_before d.not_before
    && same_option same_string c.expires d.expires

abbrev pub same_actor_status : ActorStatus → ActorStatus → Bool
same_actor_status s t =
    s.public_key == t.public_key
    && same_option same_string s.descriptive_name t.descriptive_name
    && same_option same_list s.caps t.caps
    && same_option same_list s.capability_provider t.capability_provider
    && same_option same_string s.call_alias t.call_alias
    && same_claims s.claims t.claims
    && same_option same_string s.version t.version
    && same_option int_eq s.reversion t.reversion
    && same_list s.conditions t.conditions
    && int_eq s.replicas t.replicas
    && int_eq s.available_replicas t.available_replicas

abbrev pub same_provider_status : ProviderStatus → ProviderStatus → Bool
same_provider_status s t =
    s.public_key == t.public_key
    && s.contract_id == t.contract_id
    && same_option same_string s.descriptive_name t.descriptive_name
    && same_claims s.claims t.claims
    && same_list s.architecture_targets t.architecture_targets
    && s.vendor == t.vendor
    && same_option same_string s.version t.version
    && same_option int_eq s.reversion t.reversion
    && same_list s.conditions t.conditions
    && s.instance_id == t.instance_id

-- `str::cmp`, and `sort_by` with it; the keys of a map are distinct, so their order is unique
unfoldable pub text_leb : String → String → Bool
text_leb String.[] t = true
text_leb (String.◌∷◌ c s) String.[] = false
text_leb (String.◌∷◌ c s) (String.◌∷◌ d t) =
    if ltb (code c) (code d) then true else if nat_eq (code c) (code d) then text_leb s t else false

unfoldable pub put_in_order : String → List String → List String
unfolding text_leb
put_in_order s [] = s ∷ []
put_in_order s (t ∷ ts) = if text_leb s t then s ∷ t ∷ ts else t ∷ put_in_order s ts

unfoldable pub sort : List String → List String
unfolding put_in_order
sort [] = []
sort (s ∷ ss) = put_in_order s (sort ss)

abbrev pub keys : {V : Type 0} → Map V → List String
keys [] = []
keys ((k, _) ∷ m) = k ∷ keys m

module _ (T : Clock) where
  abbrev pub to_time : ℕ → String
  to_time t = unwrap_or (T.timestamp_opt (as_i64 t)) T.min_utc

  abbrev pub time_if : Option ℕ → Option String
  time_if none = none
  time_if (some t) = some (to_time t)

  abbrev pub report : {M : Type 0} → Claims M → Reported
  report claims = record {
    issuer = claims.issuer;
    subject = claims.subject;
    issued_at = to_time claims.issued_at;
    not_before = time_if claims.not_before;
    expires = time_if claims.expires;
  }

  abbrev pub bare_actor_status : ℤ → Claims ActorMetadata → ActorStatus
  bare_actor_status replicas claims = record {
    public_key = claims.subject;
    descriptive_name = none;
    caps = none;
    capability_provider = none;
    call_alias = none;
    claims = report claims;
    version = none;
    reversion = none;
    conditions = [];
    replicas = replicas;
    available_replicas = replicas;
  }

  abbrev pub with_metadata : Option ActorMetadata → ActorStatus → ActorStatus
  with_metadata none s = s
  with_metadata (some m) s = record s {
    descriptive_name = m.name;
    caps = if m.provider then m.caps else s.caps;
    capability_provider = if m.provider then s.capability_provider else m.caps;
    reversion = m.rev;
    version = m.ver;
    call_alias = m.call_alias;
  }

  abbrev pub actor_status_of : ℤ → Claims ActorMetadata → ActorStatus
  actor_status_of replicas claims =
      with_metadata claims.metadata (bare_actor_status replicas claims)

  abbrev pub bare_provider_status : Claims ProviderMetadata → ProviderStatus
  bare_provider_status claims = record {
    public_key = claims.subject;
    contract_id = "";
    descriptive_name = none;
    claims = report claims;
    architecture_targets = [];
    vendor = "";
    version = none;
    reversion = none;
    conditions = [];
    instance_id = "";
  }

  abbrev pub with_provider_metadata : Option ProviderMetadata → ProviderStatus → ProviderStatus
  with_provider_metadata none s = s
  with_provider_metadata (some m) s = record s {
    descriptive_name = m.name;
    reversion = m.rev;
    version = m.ver;
    vendor = m.vendor;
    contract_id = m.capid;
    architecture_targets = sort (keys m.target_hashes);
  }

  abbrev pub provider_status_of : Claims ProviderMetadata → ProviderStatus
  provider_status_of claims = with_provider_metadata claims.metadata (bare_provider_status claims)
