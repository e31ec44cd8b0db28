-- ===== src/Tests/Accord.antt =====
-- A witness for the theorem on the links that the controller counts.
use kasmcloud.Prelude.{
  ◌≡◌, refl, sym, ap, ◌∙◌, ◌↔◌, inl, inr, ◌⊎◌, none, [], ◌∷◌, Result, ok, err, eq_iff, false, true,
  ◌==◌,
}
use kasmcloud.External.{LinkDefinition}
use kasmcloud.Apis.{Link}
use kasmcloud.Host.Links.{hash_of, linkdef_hash}
use kasmcloud.Controller.{Ctx, Next}
use kasmcloud.Controller.Links.{
  id_of, resolve_link, from_spec, from_status, find_actor_id, find_provider_id, link_id,
}
use kasmcloud.Controller.Links.Accord.{Announces, InAccord}
use kasmcloud.Controller.Events.{Event, apply, cleanup, on_link}
use kasmcloud.Controller.Events.Accorded.{Turn, Turns}
use kasmcloud.Controller.Program.Accord.{start-Turns-InAccord}
use kasmcloud.Tests.Events.{echo}
use kasmcloud.Tests.Fixture.{lattice, platform, clock, http_link}
use kasmcloud.Tests.Program.{startup, config, started, first_ctx, starts, with_actor}
use kasmcloud.Tests.Resources.{cluster, spec, first_link, second_link}

abbrev cache_link : LinkDefinition
cache_link = record http_link { contract_id = "wasmcloud:keyvalue" }

-- a link to the same provider under another contract
abbrev third_link : Link
third_link = record {
  name = "third";
  spec = record spec { contract_id = "wasmcloud:keyvalue" };
  status = none;
}

-- the two definitions that the links resolve to
abbrev Either : LinkDefinition → Type 0
Either ld = (http_link ≡ ld) ⊎ (cache_link ≡ ld)

hash-apart : (hash_of platform http_link == hash_of platform cache_link) ≡ false
unfolding linkdef_hash
hash-apart = refl

id-apart : (id_of http_link == id_of cache_link) ≡ false
unfolding link_id
id-apart = refl

apart :
    (hash_of platform http_link ≡ hash_of platform cache_link)
    ↔ (id_of http_link ≡ id_of cache_link)
apart = (
  λ e. let m : true ≡ false = sym ((eq_iff _ _).1 e) ∙ hash-apart in cc,
  λ e. let m : true ≡ false = sym ((eq_iff _ _).1 e) ∙ id-apart in cc,
)

told_apart :
    (ld d : LinkDefinition)
    → Either ld
    → Either d
    → (hash_of platform ld ≡ hash_of platform d) ↔ (id_of ld ≡ id_of d)
told_apart ld d (inl e) (inl f) =
    (λ _. ap id_of (sym e ∙ f), λ _. ap (hash_of platform) (sym e ∙ f))
told_apart ld d (inr e) (inr f) =
    (λ _. ap id_of (sym e ∙ f), λ _. ap (hash_of platform) (sym e ∙ f))
told_apart ld d (inl e) (inr f) = rw (sym e, sym f) apart
told_apart ld d (inr e) (inl f) =
    rw (sym e, sym f) (λ m. sym (apart.0 (sym m)), λ m. sym (apart.1 (sym m)))

announces : Announces lattice platform
announces = record { encodes = λ ld. (1 ∷ [], refl); publishes = λ topic b t. refl }

ok_inj : (x y : LinkDefinition) (r : Result Next LinkDefinition) → r ≡ ok x → r ≡ ok y → x ≡ y
ok_inj x y r e f = ap (λ r. elim r [ ok z ↦ z | err _ ↦ x ]) (sym e ∙ f)

abbrev turned : Event Link → Ctx → Ctx
turned e ctx = (on_link lattice platform clock 64 "node" cluster e ctx).1

-- an actor is scaled, then three links are applied, two of them to one definition, and the first
-- of these is cleaned up
abbrev after_first : Ctx
after_first = turned (apply first_link) with_actor

abbrev after_second : Ctx
after_second = turned (apply second_link) after_first

abbrev after_third : Ctx
after_third = turned (apply third_link) after_second

abbrev after_deletion : Ctx
after_deletion = turned (cleanup first_link) after_third

turns : Turns lattice platform clock 64 "node" Either first_ctx after_deletion
unfolding resolve_link from_spec from_status find_actor_id find_provider_id
turns =
    Turns.after
      (Turns.after
        (Turns.after
          (Turns.after (Turns.after Turns.here (Turn.actor_event (apply echo) first_ctx)) (
            Turn.link_applied cluster first_link with_actor
              (λ ld e. inl (ok_inj http_link ld _ refl e))))
          (Turn.link_applied cluster second_link after_first
            (λ ld e. inl (ok_inj http_link ld _ refl e))))
        (Turn.link_applied cluster third_link after_second
          (λ ld e. inr (ok_inj cache_link ld _ refl e))))
      (Turn.link_cleaned_up cluster first_link after_third)

start-Turns-InAccord_example :
    InAccord platform Either after_deletion.host.links after_deletion.links
start-Turns-InAccord_example =
    start-Turns-InAccord startup "node" config started first_ctx lattice platform clock 64 Either
      after_deletion announces told_apart starts turns
