-- ===== src/Host/Providers/Stop.antt =====
-- What `stop_provider` does to the providers and to the process.
use kasmcloud.Prelude.{
  String, ◌≡◌, refl, inl, inr, none, [], ◌∷◌, arith, Option-cases, ◌==◌, ◌&&◌, eq_iff,
  if◌then◌else◌,
}
use kasmcloud.Map.{Map, lookup, remove}
use kasmcloud.Map.Laws.{lookup-insert, lookup-remove}
use kasmcloud.External.Platform.{Platform}
use kasmcloud.Host.{Host, Provider, ProviderInstance}
use kasmcloud.Host.Providers.{
  find_instance, put_provider, request_shutdown, stop_instance, stop_provider,
}

find_instance-put_provider :
    (key k l : String) (p : Provider) (held : Map ProviderInstance) (providers : Map Provider)
    → p.instances ≡ held
    → find_instance k l (put_provider key p providers)
      ≡ (if key == k then lookup l p.instances else find_instance k l providers)
unfolding put_provider lookup
find_instance-put_provider key k l p [] providers e = ground (arith, lookup-remove key k providers)
find_instance-put_provider key k l p (x ∷ xs) providers e =
    ground (arith, lookup-insert key k p providers)

module _ (P : Platform) (link_name key : String) (h : Host) where
  providers-stop_instance :
      (i : ProviderInstance) → (stop_instance P key link_name i h).providers ≡ h.providers
  unfolding stop_instance request_shutdown
  providers-stop_instance i = ground arith

  -- Stopping the link of a provider takes away its instance, and leaves every other instance, of
  -- this provider and of all others, as it was.
  pub find_instance-stop_provider :
      (k l : String)
      → find_instance k l (stop_provider P link_name key h).1.providers
        ≡ (if key == k && link_name == l then none else find_instance k l h.providers)
  unfolding stop_provider
  find_instance-stop_provider k l = elim (Option-cases (lookup key h.providers)) [
    | inl e ↦ rw (e, stop_provider) (ground (arith, eq_iff key k))
    | inr (p, e) ↦ elim (Option-cases (lookup link_name p.instances)) [
      | inl f ↦
          rw (e, stop_provider, f)
            (ground (
              arith,
              eq_iff key k,
              eq_iff link_name l,
              find_instance-put_provider key k l p p.instances h.providers refl,
            ))
      | inr (i, f) ↦
          rw (e, stop_provider, f)
            (rw (providers-stop_instance i) (
              ground (
                arith,
                eq_iff key k,
                lookup-remove link_name l p.instances,
                find_instance-put_provider key k l
                    (record p { instances = remove link_name p.instances }) _ h.providers refl,
              )))
    ]
  ]
