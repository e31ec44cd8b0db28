-- ===== src/Controller/Workloads.antt =====
-- `reconcile_actor`, `delete_actor`, `reconcile_provider`, `delete_provider` and
-- `update_host_status` of main.rs.
pub mod Reports
use kasmcloud.Prelude.{
  ℕ, String, Bool, true, false, Option, none, some, List, [], ◌∷◌, Result, ok, err, Error, as_usize,
  is_empty, if◌then◌else◌,
}
use kasmcloud.External.{Claims, ActorMetadata, ProviderMetadata}
use kasmcloud.External.Platform.{Platform}
use kasmcloud.External.Clock.{Clock}
use kasmcloud.Apis.{Actor, Provider, ActorStatus, ProviderStatus, KasmCloudHostStatus}
use kasmcloud.Host.{Host}
use kasmcloud.Host.Actors as HostActors
use kasmcloud.Host.Actors.{stats}
use kasmcloud.Host.Providers.{start_provider, stop_provider}
use kasmcloud.Controller.{
  Next, await_change, requeue, Patch, actor_status, provider_status, host_status, Ctx,
}
use kasmcloud.Controller.Status.{
  same_option, same_actor_status, same_provider_status, actor_status_of, provider_status_of,
}

-- A status is sent unless the resource has it already; whether it arrives only decides what is
-- logged.
abbrev pub is_reported : {S : Type 0} → (S → S → Bool) → Option S → S → Bool
is_reported same none status = false
is_reported same (some s) status = same s status

unfoldable pub report_actor : Actor → ActorStatus → Ctx → Ctx
report_actor actor status ctx =
    if is_reported same_actor_status actor.status status
    then ctx
    else record ctx { patches = actor_status actor.name status ∷ ctx.patches }

unfoldable pub report_provider : Provider → ProviderStatus → Ctx → Ctx
report_provider provider status ctx =
    if is_reported same_provider_status provider.status status
    then ctx
    else record ctx { patches = provider_status provider.name status ∷ ctx.patches }

-- `node` is the variable KUBERNETES_NODE_NAME.
unfoldable pub host_status_of : String → Host → KasmCloudHostStatus
host_status_of node h = record {
  kube_node_name = node;
  public_key = h.host_key.public_key;
  cluster_public_key = h.cluster_key.public_key;
  cluster_issuers = h.cluster_issuers;
  pre_instance = "";
  instance = "";
  providers = record { count = (stats h).provider_count };
  actors = record {
    count = (stats h).actor_count;
    instance_count = (stats h).actor_instance_count;
  };
}

unfoldable pub update_host_status : String → Ctx → Ctx
unfolding host_status_of
update_host_status node ctx = record ctx {
  patches = host_status ctx.host.name (host_status_of node ctx.host) ∷ ctx.patches;
}

-- `width` is the number of bits of a usize.
module _ (P : Platform) (T : Clock) (width : ℕ) where
  unfoldable pub reconcile_actor : Actor → Ctx → Next × Ctx
  reconcile_actor actor ctx =
      let (r, host) =
        HostActors.reconcile_actor P actor.name actor.spec.image
          (as_usize width actor.spec.replicas) ctx.host in
      elim r [
        | err _ ↦ (await_change, record ctx { host = host })
        | ok claims ↦ (
          await_change,
          report_actor actor (actor_status_of T actor.spec.replicas claims)
              (record ctx { host = host }),
        )
      ]

  unfoldable pub reconcile_provider : Provider → Ctx → Next × Ctx
  reconcile_provider provider ctx =
      let (r, host) = start_provider P provider.spec.link provider.spec.image ctx.host in
      elim r [
        | err _ ↦ (await_change, record ctx { host = host })
        | ok claims ↦ (
          await_change,
          report_provider provider (provider_status_of T claims) (record ctx { host = host }),
        )
      ]

unfoldable pub delete_actor : Actor → Ctx → Next × Ctx
delete_actor actor ctx =
    let (r, host) = HostActors.remove_actor actor.name ctx.host in
    elim r [
      | err _ ↦ (requeue 60, record ctx { host = host })
      | ok _ ↦ (await_change, record ctx { host = host })
    ]

abbrev pub stop_status : Platform → Provider → ProviderStatus → Ctx → Next × Ctx
stop_status P provider status ctx =
    let (r, host) = stop_provider P provider.spec.link status.public_key ctx.host in
    elim r [
      | err _ ↦ (requeue 10, record ctx { host = host })
      | ok _ ↦ (await_change, record ctx { host = host })
    ]

unfoldable pub delete_provider : Platform → Provider → Ctx → Next × Ctx
delete_provider P provider ctx = elim provider.status [
  | none ↦ (await_change, ctx)
  | some status ↦
      if is_empty status.public_key then (await_change, ctx) else stop_status P provider status ctx
]
