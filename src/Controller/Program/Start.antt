-- ===== src/Controller/Program/Start.antt =====
-- What a program that has started starts from, and all that its controllers can reach from there.
use kasmcloud.Prelude.{
  ℕ, ◌+◌, String, ◌≡◌, refl, [], ◌∷◌, Result, ok, err, inl, inr, arith, Result-cases,
}
use kasmcloud.Map.{lookup}
use kasmcloud.External.{KeyPairType}
use kasmcloud.External.Lattice.{Lattice}
use kasmcloud.External.Platform.{Platform}
use kasmcloud.External.Clock.{Clock}
use kasmcloud.External.Startup.{Startup}
use kasmcloud.Host.{Host, HostConfig}
use kasmcloud.Host.Startup.{Started, new}
use kasmcloud.Host.Startup.Keys.{new-IsBare, WellMade, new-WellMade}
use kasmcloud.Host.Tables.{IsSound}
use kasmcloud.Host.Actors.{stats}
use kasmcloud.Host.Actors.Accounting.{served, stopped}
use kasmcloud.Host.Actors.Accounting.Balance.{held, IsBalanced, Subscribes}
use kasmcloud.Controller.Events.Accounted.{Reaches-accounted}
use kasmcloud.Controller.{Ctx, host_status}
use kasmcloud.Controller.Workloads.{host_status_of, update_host_status}
use kasmcloud.Controller.Events.Kept.{Reaches}
use kasmcloud.Controller.Events.Sound.{Reaches-IsSound}
use kasmcloud.Controller.Program.{
  KasmCloudConfig, ◌then?◌, get_hostname, host_config, create_host_resource, start,
}

then-eq-ok :
    {E A B : Type 0} (r : Result E A) (f : A → Result E B) {b : B}
    → (r then? f) ≡ ok b
    → (a : A) × (r ≡ ok a) × (f a ≡ ok b)
then-eq-ok (ok a) f h = (a, refl, h)
then-eq-ok (err e) f h = absurd (cc)

empty-IsSound : (P : Platform) (h : Host) → h.links ≡ [] → h.actors ≡ [] → IsSound P h
unfolding lookup
empty-IsSound P h links actors = record {
  consistent = record {
    distinct = rw links tt;
    hashed = rw links tt;
    in_step = λ k c l g e. absurd (ground (arith, actors, e));
  };
  matching = record { placed = λ k n a e. absurd (ground (arith, actors, e)) };
}

empty-IsBalanced : (mark : String → ℕ) (h : Host) → h.actors ≡ [] → h.trace ≡ [] → IsBalanced mark h
unfolding lookup
empty-IsBalanced mark h actors trace = record {
  distinct = rw actors tt;
  each = λ k g e. absurd (ground (arith, actors, e));
  balance = rw (actors, trace) (omega arith);
}

module _ (S : Startup) (node : String) (config : KasmCloudConfig) (s : Started) (ctx : Ctx) where
  -- The name and settings that the configuration gives, the host made of them, and the context that
  -- has reported that host's status and holds nothing else.
  pub record Begins : Type 0 where
    pub hostname : String
    pub settings : HostConfig
    pub is_named : get_hostname S config ≡ ok hostname
    pub is_set : host_config S config ≡ ok settings
    pub is_made : new S hostname settings ≡ ok s
    pub holds : ctx.host ≡ s.host
    pub no_links : ctx.links ≡ []
    pub reported : ctx.patches ≡ host_status hostname (host_status_of node s.host) ∷ []

  pub start-Begins : start S node config ≡ ok (s, ctx) → Begins
  unfolding start update_host_status
  start-Begins h = elim (Result-cases (get_hostname S config)) [
    | inl (e, p) ↦ absurd (ground arith)
    | inr (hostname, p) ↦ elim (Result-cases (host_config S config)) [
      | inl (e, q) ↦ absurd (ground arith)
      | inr (settings, q) ↦ elim (Result-cases (new S hostname settings)) [
        | inl (e, r) ↦ absurd (ground arith)
        | inr (started, r) ↦ elim (Result-cases S.try_default) [
          | inl (e, t) ↦ absurd (ground arith)
          | inr (u, t) ↦ elim (Result-cases (create_host_resource S hostname)) [
            | inl (e, v) ↦ absurd (ground arith)
            | inr (w, v) ↦ elim (Result-cases (S.patch_status started.host.name)) [
              | inl (e, x) ↦ absurd (ground arith)
              | inr (y, x) ↦
                  let same : started ≡ s = ground arith in
                  let begun : update_host_status node
                        (record { host = started.host; links = []; patches = [] })
                      ≡ ctx =
                    ground arith in
                  rw (← begun, ← same)
                    (record {
                      hostname = hostname;
                      settings = settings;
                      is_named = p;
                      is_set = q;
                      is_made = r;
                      holds = refl;
                      no_links = refl;
                      reported = rw ((new-IsBare S hostname settings started r).named) refl;
                    })
            ]
          ]
        ]
      ]
    ]
  ]

  -- Given that a new key is of the kind asked for, a program that starts has the name and the
  -- settings that its configuration gives, a host made of them whose keys are a server key and a
  -- cluster key, that trusts its own cluster key and every configured issuer, whose connections
  -- follow their configurations and authenticate with exactly the token and key given, and that
  -- holds nothing yet; and it has reported the status of that host.
  pub start-WellMade :
      ((t : KeyPairType) → (S.new_key t).key_pair_type ≡ t)
      → start S node config ≡ ok (s, ctx)
      → (b : Begins) × WellMade b.hostname b.settings s
  start-WellMade fresh h =
      let b = start-Begins h in (b, new-WellMade S b.hostname b.settings s fresh b.is_made)

  -- From the context of a program that has started, whatever events the controllers handle,
  -- applied or cleaned-up links, actors and providers in any order, with any answers of the API
  -- server: they reach only sound hosts, whose link definitions are stored under their hashes with
  -- distinct keys, whose actor groups are in step with them, and whose actors are in the groups of
  -- their registered keys.
  pub start-Reaches-IsSound :
      (L : Lattice) (P : Platform) (T : Clock) (width : ℕ) (ctx' : Ctx)
      → start S node config ≡ ok (s, ctx)
      → Reaches L P T width node ctx ctx'
      → IsSound P ctx'.host
  start-Reaches-IsSound L P T width ctx' h r =
      let b = start-Begins h in
      let bare = new-IsBare S b.hostname b.settings s b.is_made in
      Reaches-IsSound L P T width node r
        (rw b.holds (empty-IsSound P s.host bare.no_links bare.no_actors))

  -- Given that subscriptions to the queues of actors succeed, in every context that the
  -- controllers reach from a program that has started, handling each event to its end before the
  -- next: whatever numbers the ids of instances are marked with, the marks of the instances that
  -- were ever set to serve add up to those of the instances that the host holds and those of the
  -- instances that were stopped, so that for each id as many serve as are held; and the instances
  -- held are as many as stats counts.
  pub start-Reaches-accounted :
      (L : Lattice) (P : Platform) (T : Clock) (width : ℕ) (ctx' : Ctx) (mark : String → ℕ)
      → Subscribes P
      → start S node config ≡ ok (s, ctx)
      → Reaches L P T width node ctx ctx'
      → (served mark ctx'.host.trace ≡ held mark ctx'.host + stopped mark ctx'.host.trace)
        × ((stats ctx'.host).actor_instance_count ≡ held (λ _. 1) ctx'.host)
  start-Reaches-accounted L P T width ctx' mark subscribes h r =
      let b = start-Begins h in
      let bare = new-IsBare S b.hostname b.settings s b.is_made in
      Reaches-accounted L P T width node subscribes mark r
        (rw b.holds (empty-IsBalanced mark s.host bare.no_actors bare.no_effects))
