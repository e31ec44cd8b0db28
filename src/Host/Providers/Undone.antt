-- ===== src/Host/Providers/Undone.antt =====
-- What stopping a provider undoes of its start.
use kasmcloud.Prelude.{
  String, ◌≡◌, ◌∙◌, inl, inr, false, none, ok, arith, ◌==◌, ◌&&◌, eq_iff, Bool-cases, Result-cases,
}
use kasmcloud.External.{Claims, ProviderMetadata}
use kasmcloud.External.Platform.{Platform}
use kasmcloud.Host.{Host}
use kasmcloud.Host.Providers.{find_instance, start_provider, stop_provider}
use kasmcloud.Host.Providers.Start.{
  fetched, find_instance-ensure_provider, find_instance-set_instance, ensure_provider-entry,
  start_provider-Outcome,
}
use kasmcloud.Host.Providers.Stop.{find_instance-stop_provider}

module _ (P : Platform) (link_name ref : String) (h : Host) (claims : Claims ProviderMetadata)
    (done : (start_provider P link_name ref h).0 ≡ ok claims) where
  -- the other instances, after a start
  start_provider-others :
      (k l : String)
      → claims.subject == k && link_name == l ≡ false
      → find_instance k l (start_provider P link_name ref h).1.providers
        ≡ find_instance k l h.providers
  unfolding start_provider
  start_provider-others k l other = elim (Result-cases (fetched P link_name ref h)) [
    | inl (x, p) ↦ absurd (ground arith)
    | inr (f, p) ↦
        let (q, there) = ensure_provider-entry f.1 ref h in
        let before = find_instance-ensure_provider f.1 ref k l h in
        elim (start_provider-Outcome P link_name ref h f.0 f.1 p) [
          | inl (j, found, r, same) ↦ rw same before
          | inr (inl (x, r, same)) ↦ absurd (ground (arith, r))
          | inr (inr (j, missing, born, r, set)) ↦
              let c : f.1 ≡ claims = ground (arith, r) in
              let other' : f.1.subject == k && link_name == l ≡ false = rw c other in
              rw (set, find_instance-set_instance f.1.subject link_name k l j _ q there)
                (ground (arith, before, other'))
        ]
  ]

  -- When a provider that had no instance under a link name is started under it, and the start
  -- returns its claims, stopping it under that link name brings every instance of every provider
  -- back to what it was before.
  pub start_provider-stop_provider :
      (k l : String)
      → find_instance claims.subject link_name h.providers ≡ none
      → find_instance k l
          (stop_provider P link_name claims.subject
            (start_provider P link_name ref h).1).1.providers
        ≡ find_instance k l h.providers
  start_provider-stop_provider k l missing =
      find_instance-stop_provider P link_name claims.subject (start_provider P link_name ref h).1 k
        l
      ∙ (elim (Bool-cases (claims.subject == k && link_name == l)) [
        | inl here ↦ rw here (ground (arith, missing, eq_iff claims.subject k, eq_iff link_name l))
        | inr other ↦ rw other (start_provider-others k l other)
      ])
