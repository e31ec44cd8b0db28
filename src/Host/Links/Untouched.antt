-- ===== src/Host/Links/Untouched.antt =====
-- What the operations on actors and providers leave of the stored link definitions.
use kasmcloud.Prelude.{ℕ, String, ◌≡◌, refl, ◌∙◌, inl, inr, Option-cases}
use kasmcloud.Map.{lookup}
use kasmcloud.External.Platform.{Platform}
use kasmcloud.Host.{Host}
use kasmcloud.Host.Actors.{register_key, ensure_group, reconcile_actor, remove_actor}
use kasmcloud.Host.Actors.Cases.{prepared, reconcile_actor_cases}
use kasmcloud.Host.Actors.Changes.{finished-Adjusts}
use kasmcloud.Host.Actors.Groups.{links-leave_group}

links-ensure_group : (subject : String) (h : Host) → (ensure_group subject h).links ≡ h.links
unfolding ensure_group
links-ensure_group subject h = elim (Option-cases (lookup subject h.actors)) [
  | inl e ↦ rw (e, ensure_group) refl
  | inr (g, e) ↦ rw (e, ensure_group) refl
]

links-register_key :
    (name subject : String) (h : Host) → (register_key name subject h).links ≡ h.links
unfolding register_key
links-register_key name subject h = elim (Option-cases (lookup name h.actor_keys)) [
  | inl e ↦ rw (e, register_key) refl
  | inr (k, e) ↦ rw (e, register_key) refl
]

pub links-reconcile_actor :
    (P : Platform) (name actor_ref : String) (n : ℕ) (h : Host)
    → (reconcile_actor P name actor_ref n h).1.links ≡ h.links
links-reconcile_actor P name actor_ref n h = elim (reconcile_actor_cases P name actor_ref n h) [
  | inl (e, p) ↦ rw p refl
  | inr (c, _, p) ↦ rw p (
      (finished-Adjusts P c name actor_ref n (prepared name c.subject h)).links
      ∙ links-ensure_group c.subject (register_key name c.subject h)
      ∙ links-register_key name c.subject h)
]

pub links-remove_actor : (name : String) (h : Host) → (remove_actor name h).1.links ≡ h.links
unfolding remove_actor
links-remove_actor name h = elim (Option-cases (lookup name h.actor_keys)) [
  | inl e ↦ rw (e, remove_actor) refl
  | inr (k, e) ↦ rw (e, remove_actor) (links-leave_group k name h)
]
