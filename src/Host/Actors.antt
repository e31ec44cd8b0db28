-- ===== src/Host/Actors.antt =====
-- `fetch_actor`, `reconcile_actor`, `remove_actor`, `start_actor`, `instantiate_actor` and `stats`
-- of lib.rs.
pub mod Cases
pub mod Scaling
pub mod Changes
pub mod Keys
pub mod Groups
pub mod Removal
pub mod Rollout
pub mod Settled
pub mod Accounting
use kasmcloud.Prelude.{
  ℕ, zero, suc, ◌+◌, ◌-◌, String, Bool, true, false, Option, none, some, List, [], ◌∷◌, ◌++◌,
  Result, ok, err, Error, anyhow, Action, pure, raise, lift, ask, modify, context, context_none,
  with_context, ◌>>=◌, ◌>>◌, length, drop, take, leb, format, ◌==◌, if◌then◌else◌,
}
use kasmcloud.Map.{Map, lookup, insert, remove}
use kasmcloud.External.{Bytes, Claims, ActorMetadata}
use kasmcloud.External.Effects.{Trace, Effect, perform}
use kasmcloud.External.Platform.{Platform}
use kasmcloud.Handler.{Handler, entity_of_key}
use kasmcloud.Actor.{ActorInstance}
use kasmcloud.Host.{Host, Actor, ActorGroup, Provider, outside}
use kasmcloud.Host.Links.{get_actor_links}

-- The handler of an actor that is started; its links are those of its group.
abbrev pub new_handler : Host → Claims ActorMetadata → Handler
new_handler h claims = record {
  lattice_prefix = h.lattice_prefix;
  cluster_key = h.cluster_key;
  host_key = h.host_key;
  claims = claims;
  origin = entity_of_key claims.subject;
}

-- `calls.abort()` of each instance
unfoldable pub abort_all : List ActorInstance → Trace → Trace
abort_all [] t = t
abort_all (i ∷ is) t = abort_all is (Effect.aborted i.id ∷ t)

abbrev pub in_group : String → Option ActorGroup → Option Actor
in_group name none = none
in_group name (some group) = lookup name group.actors

abbrev pub find_actor : String → String → Map ActorGroup → Option Actor
find_actor key name actors = in_group name (lookup key actors)

-- `group.actors.entry(name).insert(actor)`, and a change of an actor behind its `Arc`
unfoldable pub set_actor : String → String → Actor → Map ActorGroup → Map ActorGroup
set_actor key name actor actors = elim (lookup key actors) [
  | none ↦ actors
  | some group ↦ insert key (record group { actors = insert name actor group.actors }) actors
]

unfoldable pub register_key : String → String → Host → Host
register_key name subject h = elim (lookup name h.actor_keys) [
  | none ↦ record h { actor_keys = insert name subject h.actor_keys }
  | some _ ↦ h
]

abbrev pub new_group : String → Host → ActorGroup
new_group subject h = record {
  public_key = subject;
  actors = [];
  links = get_actor_links subject h.links;
}

unfoldable pub ensure_group : String → Host → Host
ensure_group subject h = elim (lookup subject h.actors) [
  | none ↦ record h { actors = insert subject (new_group subject h) h.actors }
  | some _ ↦ h
]

module _ (P : Platform) where
  -- One round of `instantiate_actor`'s stream.
  unfoldable pub instantiate_one : String → Handler → List String → Action Trace Error ActorInstance
  instantiate_one topic handler valid_issuers = do
    perform (Effect.subscribed topic)
        λ t. context "failed to subscribe to actor call queue" (P.queue_subscribe topic t)
    id ← ask λ t. ok (P.new_ulid t)
    perform (Effect.serving id)
        λ t. ok (record { id = id; handler = handler; valid_issuers = valid_issuers })

  -- `try_collect`: an error drops the instances before it.
  unfoldable pub instantiate_many :
      ℕ → String → Handler → List String → Action Trace Error (List ActorInstance)
  instantiate_many zero topic handler valid_issuers = pure []
  instantiate_many (suc n) topic handler valid_issuers = do
    instance ← instantiate_one topic handler valid_issuers
    rest ← instantiate_many n topic handler valid_issuers
    pure (instance ∷ rest)

  unfoldable pub instantiate_actor :
      Claims ActorMetadata → ℕ → Handler → Action Host Error (List ActorInstance)
  instantiate_actor claims count handler h =
      let topic = format ("wasmbus.rpc." ∷ h.lattice_prefix ∷ "." ∷ claims.subject ∷ []) in
      outside
        (with_context "failed to instantiate actor"
          (instantiate_many count topic handler h.cluster_issuers))
        h

  unfoldable pub start_actor : Option (Claims ActorMetadata) → String → ℕ → Action Host Error Actor
  start_actor actor actor_ref replica = do
    claims ← lift (context_none "claims missing" actor)
    handler ← ask λ h. ok (new_handler h claims)
    instances ←
        with_context "failed to instantiate actor" (instantiate_actor claims replica handler)
    pure (record {
      image_ref = actor_ref;
      handler = handler;
      pool_size = replica;
      instances = instances;
    })

  -- The vacant entry: nothing is started for no replicas.
  unfoldable pub start_missing :
      Claims ActorMetadata → String → String → ℕ → Action Host Error (Unit {0})
  start_missing claims name actor_ref zero = pure tt
  start_missing claims name actor_ref (suc n) = do
    actor ← with_context "failed to start actor" (start_actor (some claims) actor_ref (suc n))
    modify λ h. record h { actors = set_actor claims.subject name actor h.actors }

  -- The occupied entry.
  unfoldable pub scale_up : Claims ActorMetadata → String → Actor → ℕ → Action Host Error (Unit {0})
  scale_up claims name actor zero = pure tt
  scale_up claims name actor (suc n) = do
    delta ←
        with_context "failed to instantiate actor" (instantiate_actor claims (suc n) actor.handler)
    modify λ h. record h {
      actors =
          set_actor claims.subject name (record actor { instances = actor.instances ++ delta })
            h.actors;
    }

  unfoldable pub scale_down :
      Claims ActorMetadata → String → Actor → ℕ → Action Host Error (Unit {0})
  scale_down claims name actor delta = modify λ h. record h {
    actors =
        set_actor claims.subject name (record actor { instances = drop delta actor.instances })
          h.actors;
    trace = abort_all (take delta actor.instances) h.trace;
  }

  unfoldable pub resize : Claims ActorMetadata → String → Actor → ℕ → Action Host Error (Unit {0})
  resize claims name actor replica =
      if leb (length actor.instances) replica
      then scale_up claims name actor (replica - length actor.instances)
      else scale_down claims name actor (length actor.instances - replica)

  unfoldable pub scale_actor :
      Claims ActorMetadata → String → String → ℕ → Action Host Error (Unit {0})
  scale_actor claims name actor_ref replica h = elim (find_actor claims.subject name h.actors) [
    | none ↦ start_missing claims name actor_ref replica h
    | some actor ↦ resize claims name actor replica h
  ]

  unfoldable pub fetch_actor : String → Action Host Error (Option (Claims ActorMetadata))
  fetch_actor actor_ref = do
    file ← ask λ h. context "failed to fetch actor" (P.fetch_actor actor_ref h.trace)
    lift (context "failed to initialize actor" (P.new_actor file))

  -- A name that is known under another public key is refused.
  unfoldable pub check_key : String → String → Host → Result Error (Unit {0})
  check_key name subject h = elim (lookup name h.actor_keys) [
    | none ↦ ok tt
    | some key ↦ if key == subject then ok tt else err (anyhow "actor public key is change")
  ]

  unfoldable pub reconcile_actor : String → String → ℕ → Action Host Error (Claims ActorMetadata)
  reconcile_actor name actor_ref replica = do
    actor ← fetch_actor actor_ref
    claims ← lift (context_none "claims missing" actor)
    ask (check_key name claims.subject)
    modify (register_key name claims.subject)
    modify (ensure_group claims.subject)
    scale_actor claims name actor_ref replica
    pure claims

-- The actor is taken out of its group, with its instances stopped.
unfoldable pub without_actor : String → ActorGroup → ActorGroup
without_actor name group = elim (lookup name group.actors) [
  | none ↦ group
  | some _ ↦ record group { actors = remove name group.actors }
]

unfoldable pub stop_actor : String → ActorGroup → Trace → Trace
stop_actor name group t = elim (lookup name group.actors) [
  | none ↦ t
  | some actor ↦ abort_all actor.instances t
]

-- A group with no actors left is dropped.
unfoldable pub put_group : String → ActorGroup → Map ActorGroup → Map ActorGroup
put_group key group actors = elim group.actors [
  | [] ↦ remove key actors
  | _ ∷ _ ↦ insert key group actors
]

unfoldable pub leave_group : String → String → Host → Host
leave_group key name h = elim (lookup key h.actors) [
  | none ↦ h
  | some group ↦ record h {
    actors = put_group key (without_actor name group) h.actors;
    trace = stop_actor name group h.trace;
  }
]

unfoldable pub remove_actor : String → Action Host Error (Unit {0})
remove_actor name h = elim (lookup name h.actor_keys) [
  | none ↦ (ok tt, h)
  | some key ↦
      let left = leave_group key name h in
      (ok tt, record left { actor_keys = remove name left.actor_keys })
]

pub record HostStats : Type 0 where
  pub provider_count : ℕ
  pub actor_count : ℕ
  pub actor_instance_count : ℕ

unfoldable pub count_instances : Map Actor → ℕ
count_instances [] = 0
count_instances ((_, actor) ∷ rest) = length actor.instances + count_instances rest

unfoldable pub count_groups : Map ActorGroup → ℕ
unfolding count_instances
count_groups [] = 0
count_groups ((_, group) ∷ rest) = count_instances group.actors + count_groups rest

unfoldable pub stats : Host → HostStats
unfolding count_groups
stats h = record {
  provider_count = length h.providers;
  actor_count = length h.actors;
  actor_instance_count = count_groups h.actors;
}
