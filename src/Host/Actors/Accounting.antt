-- ===== src/Host/Actors/Accounting.antt =====
-- How many instances are serving, by the history of the host.
pub mod Balance
pub mod Reconciled
pub mod Removed
pub mod Elsewhere
use kasmcloud.Prelude.{
  ℕ, zero, suc, ◌+◌, String, ◌≡◌, refl, List, [], ◌∷◌, ok, ap, Result, Error, err, ◌++◌, take, drop,
  arith, length, some, bind-eq-ok, context-eq-ok, with_context, Result-cases, inl, inr,
}
use kasmcloud.External.{Claims, ActorMetadata}
use kasmcloud.External.Effects.{Trace, Effect}
use kasmcloud.External.Platform.{Platform}
use kasmcloud.Handler.{Handler}
use kasmcloud.Actor.{ActorInstance}
use kasmcloud.Host.{Host, Actor}
use kasmcloud.Host.Actors.{
  abort_all, new_handler, instantiate_one, instantiate_many, instantiate_actor, start_actor,
}

-- the instances that were ever set to serve
abbrev pub servings : Trace → ℕ
servings [] = 0
servings (Effect.serving _ ∷ t) = suc (servings t)
servings (_ ∷ t) = servings t

-- the instances that were stopped
abbrev pub aborts : Trace → ℕ
aborts [] = 0
aborts (Effect.aborted _ ∷ t) = suc (aborts t)
aborts (_ ∷ t) = aborts t

-- so many more serving, and none stopped
abbrev pub Serves : ℕ → Trace → Trace → Type 0
Serves n t t' = (servings t' ≡ n + servings t) × (aborts t' ≡ aborts t)

module _ (P : Platform) where
  instantiate_one-Serves :
      (topic : String) (handler : Handler) (issuers : List String) (t : Trace) (i : ActorInstance)
      → (instantiate_one P topic handler issuers t).0 ≡ ok i
      → Serves 1 t (instantiate_one P topic handler issuers t).1
  unfolding instantiate_one
  instantiate_one-Serves topic handler issuers t i e =
      elim (Result-cases (P.queue_subscribe topic t)) [
        | inl (x, p) ↦ absurd (ground arith)
        | inr (u, p) ↦ rw p (omega arith, refl)
      ]

  instantiate_many-Serves :
      (n : ℕ) (topic : String) (handler : Handler) (issuers : List String) (t : Trace)
      (is : List ActorInstance)
      → (instantiate_many P n topic handler issuers t).0 ≡ ok is
      → Serves n t (instantiate_many P n topic handler issuers t).1
  unfolding instantiate_many
  instantiate_many-Serves zero topic handler issuers t is e = (omega arith, refl)
  instantiate_many-Serves (suc n) topic handler issuers t is e =
      let (i, p, q) = bind-eq-ok (instantiate_one P topic handler issuers) _ t e in
      let (rest, r, s) = bind-eq-ok (instantiate_many P n topic handler issuers) _ _ q in
      let (a, b) = instantiate_one-Serves topic handler issuers t i p in
      let (c, d) = instantiate_many-Serves n topic handler issuers _ rest r in
      rw (p, r) (omega (arith, a, c), omega (arith, b, d))

  pub instantiate_actor-Serves :
      (claims : Claims ActorMetadata) (n : ℕ) (handler : Handler) (h : Host)
      (is : List ActorInstance)
      → (instantiate_actor P claims n handler h).0 ≡ ok is
      → Serves n h.trace (instantiate_actor P claims n handler h).1.trace
  unfolding instantiate_actor
  instantiate_actor-Serves claims n handler h is e =
      instantiate_many-Serves n _ handler h.cluster_issuers h.trace is
        (context-eq-ok "failed to instantiate actor" _ e)

  pub start_actor-Serves :
      (claims : Claims ActorMetadata) (actor_ref : String) (n : ℕ) (h : Host) (a : Actor)
      → (start_actor P (some claims) actor_ref n h).0 ≡ ok a
      → Serves n h.trace (start_actor P (some claims) actor_ref n h).1.trace
  unfolding start_actor
  start_actor-Serves claims actor_ref n h a e =
      let (is, p, q) =
        bind-eq-ok
          (with_context "failed to instantiate actor"
            (instantiate_actor P claims n (new_handler h claims)))
          _ h e in
      let started =
        instantiate_actor-Serves claims n (new_handler h claims) h is
          (context-eq-ok "failed to instantiate actor" _ p) in
      rw
        (context-eq-ok "failed to instantiate actor"
          (instantiate_actor P claims n (new_handler h claims) h).0 p)
        started

-- With a mark for each id: what was ever set to serve, what was stopped, and what a list holds.
module _ (mark : String → ℕ) where
  abbrev pub served : Trace → ℕ
  served [] = 0
  served (Effect.serving id ∷ t) = mark id + served t
  served (_ ∷ t) = served t

  abbrev pub stopped : Trace → ℕ
  stopped [] = 0
  stopped (Effect.aborted id ∷ t) = mark id + stopped t
  stopped (_ ∷ t) = stopped t

  abbrev pub marks : List ActorInstance → ℕ
  marks [] = 0
  marks (i ∷ is) = mark i.id + marks is

  pub marks-append : (is js : List ActorInstance) → marks (is ++ js) ≡ marks is + marks js
  marks-append [] js = omega arith
  marks-append (i ∷ is) js = omega (arith, marks-append is js)

  pub marks-parted :
      (n : ℕ) (is : List ActorInstance) → marks (take n is) + marks (drop n is) ≡ marks is
  marks-parted zero is = omega arith
  marks-parted (suc n) [] = omega arith
  marks-parted (suc n) (i ∷ is) = omega (arith, marks-parted n is)

  pub abort_all-marks :
      (is : List ActorInstance) (t : Trace)
      → (served (abort_all is t) ≡ served t) × (stopped (abort_all is t) ≡ marks is + stopped t)
  unfolding abort_all
  abort_all-marks [] t = (refl, omega arith)
  abort_all-marks (i ∷ is) t =
      let (s, a) = abort_all-marks is (Effect.aborted i.id ∷ t) in (s, omega (arith, a))

  -- these were set to serve, and none was stopped
  abbrev pub Gains : List ActorInstance → Trace → Trace → Type 0
  Gains is t t' = (served t' ≡ marks is + served t) × (stopped t' ≡ stopped t)

  module _ (P : Platform) where
    instantiate_one-Gains :
        (topic : String) (handler : Handler) (issuers : List String) (t : Trace) (i : ActorInstance)
        → (instantiate_one P topic handler issuers t).0 ≡ ok i
        → Gains (i ∷ []) t (instantiate_one P topic handler issuers t).1
    unfolding instantiate_one
    instantiate_one-Gains topic handler issuers t i e =
        elim (Result-cases (P.queue_subscribe topic t)) [
          | inl (x, p) ↦ absurd (ground arith)
          | inr (u, p) ↦
              let same : P.new_ulid (Effect.subscribed topic ∷ t) ≡ i.id =
                ap (λ (r : Result Error ActorInstance). elim r [ ok j ↦ j.id | err _ ↦ i.id ])
                  (rw p at e) in
              rw p (rw same (omega arith), refl)
        ]

    instantiate_many-Gains :
        (n : ℕ) (topic : String) (handler : Handler) (issuers : List String) (t : Trace)
        (is : List ActorInstance)
        → (instantiate_many P n topic handler issuers t).0 ≡ ok is
        → Gains is t (instantiate_many P n topic handler issuers t).1
    unfolding instantiate_many
    instantiate_many-Gains zero topic handler issuers t [] e = (omega arith, refl)
    instantiate_many-Gains zero topic handler issuers t (i ∷ is) e = absurd (ground arith)
    instantiate_many-Gains (suc n) topic handler issuers t is e =
        let (i, p, q) = bind-eq-ok (instantiate_one P topic handler issuers) _ t e in
        let (rest, r, s) = bind-eq-ok (instantiate_many P n topic handler issuers) _ _ q in
        let (a, b) = instantiate_one-Gains topic handler issuers t i p in
        let (c, d) = instantiate_many-Gains n topic handler issuers _ rest r in
        let same : marks (i ∷ rest) ≡ marks is =
          ap (λ (x : Result Error (List ActorInstance)). elim x [ ok js ↦ marks js | err _ ↦ 0 ])
            s in
        rw (p, r) (omega (arith, a, c, same), omega (arith, b, d))

    pub instantiate_actor-Gains :
        (claims : Claims ActorMetadata) (n : ℕ) (handler : Handler) (h : Host)
        (is : List ActorInstance)
        → (instantiate_actor P claims n handler h).0 ≡ ok is
        → Gains is h.trace (instantiate_actor P claims n handler h).1.trace
    unfolding instantiate_actor
    instantiate_actor-Gains claims n handler h is e =
        instantiate_many-Gains n _ handler h.cluster_issuers h.trace is
          (context-eq-ok "failed to instantiate actor" _ e)

    pub start_actor-Gains :
        (claims : Claims ActorMetadata) (actor_ref : String) (n : ℕ) (h : Host) (a : Actor)
        → (start_actor P (some claims) actor_ref n h).0 ≡ ok a
        → Gains a.instances h.trace (start_actor P (some claims) actor_ref n h).1.trace
    unfolding start_actor
    start_actor-Gains claims actor_ref n h a e =
        let (is, p, q) =
          bind-eq-ok
            (with_context "failed to instantiate actor"
              (instantiate_actor P claims n (new_handler h claims)))
            _ h e in
        let started =
          instantiate_actor-Gains claims n (new_handler h claims) h is
            (context-eq-ok "failed to instantiate actor" _ p) in
        let same : is ≡ a.instances =
          ap (λ (x : Result Error Actor). elim x [ ok b ↦ b.instances | err _ ↦ is ]) q in
        rw
          (context-eq-ok "failed to instantiate actor"
            (instantiate_actor P claims n (new_handler h claims) h).0 p)
          (rw (← same) started)
