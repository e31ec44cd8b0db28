-- ===== src/Controller/Workloads/Reports.antt =====
-- What the actor and provider reconcilers bring about and report.
use kasmcloud.Prelude.{
  ℤ, pos, negsuc, ℕ, String, ◌≡◌, refl, sym, ap, ◌∙◌, true, Option, none, some, List, [], ◌∷◌,
  Result, ok, Error, arith, nat_eq, as_usize, int_eq, eq_refl,
}
use kasmcloud.External.{Claims, ActorMetadata, ProviderMetadata}
use kasmcloud.External.Platform.{Platform}
use kasmcloud.External.Clock.{Clock}
use kasmcloud.Map.{Map}
use kasmcloud.Map.Orders.{Reordered}
use kasmcloud.Controller.Status.Order.{sort-keys-Reordered}
use kasmcloud.Apis.{Actor, Provider, ProviderStatus, Claims as Reported}
use kasmcloud.Host.{Host}
use kasmcloud.Host.Actors as HostActors
use kasmcloud.Host.Actors.Scaling.{replicas}
use kasmcloud.Host.Providers.{start_provider}
use kasmcloud.Controller.{Ctx}
use kasmcloud.Controller.Status.{
  same_list, same_option, same_string, same_claims, same_provider_status, actor_status_of,
  provider_status_of,
}
use kasmcloud.Controller.Workloads.{report_provider, reconcile_actor, reconcile_provider}

same_list_refl : (xs : List String) → same_list xs xs ≡ true
same_list_refl [] = refl
same_list_refl (x ∷ xs) = rw (eq_refl x, same_list_refl xs)

same_string_refl : (o : Option String) → same_option same_string o o ≡ true
same_string_refl none = refl
same_string_refl (some s) = eq_refl s

nat_eq_refl : (n : ℕ) → nat_eq n n ≡ true
nat_eq_refl n = ground arith

int_eq_refl : (i : ℤ) → int_eq i i ≡ true
int_eq_refl (pos n) = nat_eq_refl n
int_eq_refl (negsuc n) = nat_eq_refl n

same_int_refl : (o : Option ℤ) → same_option int_eq o o ≡ true
same_int_refl none = refl
same_int_refl (some i) = int_eq_refl i

same_claims_refl : (c : Reported) → same_claims c c ≡ true
same_claims_refl c =
    rw (eq_refl c.issuer, eq_refl c.subject, eq_refl c.issued_at, same_string_refl c.not_before)
      (same_string_refl c.expires)

same_provider_status_refl : (s : ProviderStatus) → same_provider_status s s ≡ true
same_provider_status_refl s =
    rw
      (
        eq_refl s.public_key,
        eq_refl s.contract_id,
        same_string_refl s.descriptive_name,
        same_claims_refl s.claims,
        same_list_refl s.architecture_targets,
        eq_refl s.vendor,
        same_string_refl s.version,
        same_int_refl s.reversion,
        same_list_refl s.conditions,
      )
      (eq_refl s.instance_id)

report_provider_settled :
    (provider : Provider) (status : ProviderStatus) (ctx : Ctx)
    → provider.status ≡ some status
    → report_provider provider status ctx ≡ ctx
unfolding report_provider
report_provider_settled provider status ctx e = rw (e, same_provider_status_refl status)

-- the claims, with the map of target hashes iterated in another order
abbrev pub iterated :
    Claims ProviderMetadata → ProviderMetadata → Map String → Claims ProviderMetadata
iterated claims m hashes = record claims { metadata = some (record m { target_hashes = hashes }) }

provider_status_of-Reordered :
    (T : Clock) (claims : Claims ProviderMetadata) (m : ProviderMetadata) (hashes : Map String)
    → claims.metadata ≡ some m
    → Reordered m.target_hashes hashes
    → provider_status_of T claims ≡ provider_status_of T (iterated claims m hashes)
provider_status_of-Reordered T claims m hashes known order =
    rw (known, sort-keys-Reordered order) refl

module _ (P : Platform) (T : Clock) (width : ℕ) (ctx : Ctx) where
  -- the actor with the status that is due
  abbrev pub with_status : Actor → Claims ActorMetadata → Actor
  with_status actor claims = record actor {
    status = some (actor_status_of T actor.spec.replicas claims);
  }

  -- the outcome of a reconciliation by the host
  abbrev pub reconciled : Actor → Host → Result Error (Claims ActorMetadata) × Host
  reconciled actor h =
      HostActors.reconcile_actor P actor.name actor.spec.image (as_usize width actor.spec.replicas)
        h

  -- When the host starts a provider, or finds it running, and the resource already has the status
  -- that was made of the same claims with their map of target hashes iterated in any other order,
  -- no status is sent: the order of iteration of a HashMap never causes one.
  pub reconcile_provider_quiet :
      (provider : Provider) (claims : Claims ProviderMetadata) (m : ProviderMetadata)
      (hashes : Map String)
      → (start_provider P provider.spec.link provider.spec.image ctx.host).0 ≡ ok claims
      → claims.metadata ≡ some m
      → Reordered m.target_hashes hashes
      → provider.status ≡ some (provider_status_of T (iterated claims m hashes))
      → (reconcile_provider P T width provider ctx).1.patches ≡ ctx.patches
  unfolding reconcile_provider
  reconcile_provider_quiet provider claims m hashes done known order settled =
      rw
        (
          done,
          reconcile_provider,
          report_provider_settled provider (provider_status_of T claims)
              (record ctx {
                host = (start_provider P provider.spec.link provider.spec.image ctx.host).1;
              })
              (settled
                ∙ ap some (sym (provider_status_of-Reordered T claims m hashes known order))),
        )
        refl
