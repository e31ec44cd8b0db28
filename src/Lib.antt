-- ===== src/Lib.antt =====
-- kasmcloud: a Kubernetes operator that runs wasmCloud actors and capability providers as custom
-- resources. This library models its Rust code and states what makes it correct.
--
-- Parts. The controllers (src/main.rs) watch Actor, Provider and Link resources (crates/apis) and
-- bring a host (crates/host/src/lib.rs) to what the resources ask for. The host keeps actor groups
-- with their instances, provider processes and link definitions. An actor instance
-- (crates/host/src/actor.rs) serves the invocations of its queue on the lattice, and its handler
-- (crates/host/src/handler.rs) makes the actor's own calls, along the links of its group.
--
-- Which file models what.
--   Prelude, Map: results with anyhow's contexts, actions on a state, and HashMap as an
--     association list.
--   External: the types of other crates that the program uses, by the fields that it uses, and the
--     services behind them as records of functions: Lattice (NATS, chunking, codecs, invocations),
--     Platform (registries, hashing, processes), Runtime (the actor runtime), Compat and
--     Blobs (the messages of providers), Clock (times), Startup (keys, URLs, connections and
--     the API server, as the start of the program uses them). The definitions take these as
--     arguments. External/Effects is the history of what was done to the outside; an
--     answer of a service is a function of that history.
--   Handler (crates/host/src/handler.rs): Capability is ensure_actor_capability, Target is
--     resolve_target, Invoke is call_operation_with_payload and call_operation, Bus is
--     identify_wasmbus_target, set_target, call and call_sync; KeyValue, Blobstore, Messaging and
--     Logging are the interfaces of those names, and Response is decode_provider_response.
--   Actor (crates/host/src/actor.rs): handle_invocation, handle_call and handle_message; Buffer is
--     AsyncBytesMut.
--   Host (crates/host/src/lib.rs and provider.rs): Links is add_linkdef, delete_linkdef,
--     get_actor_links and linkdef_hash; Actors is fetch_actor, reconcile_actor, remove_actor,
--     start_actor, instantiate_actor and stats; Providers is start_provider and stop_provider;
--     Startup is Host::new and connect_nats. Interleaving has the sections of the link operations and
--     of the creation of groups between which tasks may be interleaved.
--   Apis (crates/apis/src/v1alpha1): the specifications and statuses of the resources.
--   Controller (src/main.rs): Links is add_link and delete_link; Workloads is reconcile_actor,
--     delete_actor, reconcile_provider, delete_provider and update_host_status, with the statuses
--     in Status; Events is the controllers of main, one step for each event; Program is
--     KasmCloudConfig, get_hostname and main up to the start of the controllers.
--   Tests: small concrete services and hosts, and an instance of each theorem on them.
--
-- State and errors. An operation is a function from its state to a result and the new state, and a
-- failure keeps the changes made before it. A method of the host is one step of the controllers;
-- Host/Interleaving takes the operations on link definitions and groups apart at their locks, with
-- the locks that a task keeps while it waits for another, and has the other changes of a host
-- between any two sections. Link tasks take turns there, as the lock on the controller's links
-- makes them. Logging is left out but where an actor asks for it.
--
-- Bounds. Lengths and counts are natural numbers; the conversions that the code checks (a content
-- length to usize, a timeout in milliseconds to u64) are modelled with their failures, and its
-- casts (replicas to usize, seconds to i64) with their wrap-around; the largest usize and the width
-- of a usize are parameters. Loops over maps, interfaces and instances are recursions on
-- lists, so no fuel is needed.
--
-- Not modelled: the reading of the configuration and of the command line; the registry settings,
-- which stay empty; the finalizers and queues of kube-rs, which decide the order of events; the Go
-- admission webhooks; the deployment files.
pub mod Prelude
pub mod Map
pub mod External
pub mod Handler
pub mod Actor
pub mod Host
pub mod Apis
pub mod Controller
mod Tests
