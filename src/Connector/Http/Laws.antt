-- ===== src/Connector/Http/Laws.antt =====
-- The back-off and the errors of the connector's client (connector/http.go).
use hermes_cluster.Base.{
  ℕ, subst, sym, ◌+◌, ◌∙◌, List, [], ◌∷◌, String, ◌==◌, ◌≤◌, ◌≡◌, ◌↔◌, inl, inr, refl, false, none,
  arith, suc,
}
use hermes_cluster.Base.Int.{pos, ◌+ℤ◌, ◌<ℤ◌, ◌≤ℤ◌}
use hermes_cluster.Base.Text.{length}
use hermes_cluster.Base.Errors.{sentinel, throttled}
use hermes_cluster.Base.Exec.{Exec, pure, ok, err, Result-cases, continue, ◌>>=◌}
use hermes_cluster.Clock.{add}
use hermes_cluster.Connector.{InstancePatch, ProvisionRequest, Route}
use hermes_cluster.Connector.Http.{
  HttpClient, HttpState, Outgoing, Reply, judge, settle, request, command, decoded, provision,
  list_instances, list_routes, http_client, back_off, admin, routes_path, provisioning_request,
}

-- the call fails with ErrThrottled and leaves the network alone
abbrev pub IsHeld : {S A : Type 0} → Exec (HttpState S) A → HttpState S → Type 0
IsHeld f s = ((f s).0 ≡ err (sentinel throttled)) × ((f s).1.network ≡ s.network)

module _ {S : Type 0} (c : HttpClient S) where
  -- the network once the request was sent
  abbrev pub sent : Outgoing → HttpState S → S
  sent r s = (c.web.send r s.network).1

  -- the window is open at the next reading of the clock
  abbrev pub IsThrottled : HttpState S → Type 0
  IsThrottled s = s.clock.now_at s.clock.reads <ℤ s.throttled_until

  -- While the window is open, a call fails with ErrThrottled and sends nothing.
  request_throttled :
      (r : Outgoing) (s : HttpState S)
      → IsThrottled s
      → ((request c r s).0 ≡ err (sentinel throttled)) × ((request c r s).1.network ≡ s.network)
  unfolding request
  request_throttled r s h = ground arith

  bind-IsHeld :
      {A B : Type 0} (f : Exec (HttpState S) A) (g : A → Exec (HttpState S) B) (s : HttpState S)
      → IsHeld f s
      → IsHeld (f >>= g) s
  bind-IsHeld f g s (failed, same) = rw (failed, continue) (refl, same)

  command_throttled : (r : Outgoing) (s : HttpState S) → IsThrottled s → IsHeld (command c r) s
  unfolding command
  command_throttled r s h = bind-IsHeld (request c r) (λ _. pure tt) s (request_throttled r s h)

  -- A call that is not held back by the window succeeds exactly when an answer came with a status of
  -- the two hundreds.
  pub request-ok_iff :
      (r : Outgoing) (s : HttpState S) (text : String)
      → s.throttled_until ≤ℤ s.clock.now_at s.clock.reads
      → ((request c r s).0 ≡ ok text) ↔ (
          (reply : Reply) × ((c.web.send r s.network).0 ≡ ok reply)
          × (200 ≤ reply.code)
          × (reply.code ≤ 299)
          × (reply.text ≡ text))
  unfolding request settle judge back_off
  request-ok_iff r s text clear = elim (Result-cases (c.web.send r s.network).0) [
    | inl (reply, answered) ↦ (
      λ h. (reply, answered, ground arith, ground arith, ground arith),
      λ (got, same, low, high, read). ground arith,
    )
    | inr (e, failed) ↦
        (λ h. absurd (ground arith), λ (got, same, low, high, read). absurd (ground arith))
  ]

  -- the state after some calls, one after the other
  abbrev pub after_calls : List Outgoing → HttpState S → HttpState S
  after_calls [] s = s
  after_calls (q ∷ qs) s = after_calls qs (request c q s).1

  -- A call that is refused leaves the window, and reads the clock once.
  request_refused :
      (q : Outgoing) (s : HttpState S)
      → IsThrottled s
      → (request c q s).1
        ≡ record s { clock = record { now_at = s.clock.now_at; reads = suc s.clock.reads } }
  unfolding request
  request_refused q s h = ground arith

  -- While every reading of the clock falls in the window, all calls are refused.
  calls_refused :
      (qs : List Outgoing) (q : Outgoing) (s : HttpState S)
      → ((i : ℕ) → i ≤ length qs → s.clock.now_at (s.clock.reads + i) <ℤ s.throttled_until)
      → IsHeld (request c q) (after_calls qs s) × ((after_calls qs s).network ≡ s.network)
  calls_refused [] q s h =
      let start : s.clock.reads + 0 ≡ s.clock.reads = omega arith in
      (request_throttled q s (rw start at (h 0 (omega arith))), refl)
  calls_refused (p ∷ qs) q s h =
      let start : s.clock.reads + 0 ≡ s.clock.reads = omega arith in
      let here : IsThrottled s = rw start at (h 0 (omega arith)) in
      let s₁ : HttpState S = record s {
        clock = record { now_at = s.clock.now_at; reads = suc s.clock.reads };
      } in
      let step : (request c p s).1 ≡ s₁ = request_refused p s here in
      let later = calls_refused qs q s₁ (λ i fits.
        let shift : s.clock.reads + suc i ≡ suc s.clock.reads + i = omega arith in
        rw shift at (h (suc i) (omega arith))) in
      subst
        (λ x. IsHeld (request c q) (after_calls qs x) × ((after_calls qs x).network ≡ s.network))
        (sym step) later

  -- What an answer 429 leaves: the window ends 65 seconds after it came.
  request_busy :
      (r : Outgoing) (s : HttpState S) (reply : Reply)
      → s.throttled_until ≤ℤ s.clock.now_at s.clock.reads
      → (c.web.send r s.network).0 ≡ ok reply
      → reply.code ≡ 429
      → ((request c r s).0 ≡ err (sentinel throttled))
        × ((request c r s).1.network ≡ sent r s)
        × ((request c r s).1.throttled_until
            ≡ s.clock.now_at (suc s.clock.reads) +ℤ pos 65000000000)
        × ((request c r s).1.clock.now_at ≡ s.clock.now_at)
        × ((request c r s).1.clock.reads ≡ suc (suc s.clock.reads))
  unfolding request settle judge back_off add
  request_busy r s reply clear answered busy = ground arith

  -- After an answer 429 the window is open for 65 seconds from then: of the calls that follow, however
  -- many they are and whatever they ask for, every one whose reading of the clock, like the readings
  -- of the calls before it, falls within them fails with ErrThrottled and sends nothing.
  pub request-backs_off :
      (r : Outgoing) (qs : List Outgoing) (q : Outgoing) (s : HttpState S) (reply : Reply)
      → s.throttled_until ≤ℤ s.clock.now_at s.clock.reads
      → (c.web.send r s.network).0 ≡ ok reply
      → reply.code ≡ 429
      → ((i : ℕ)
          → i ≤ length qs
          → s.clock.now_at (suc (suc s.clock.reads) + i)
            <ℤ s.clock.now_at (suc s.clock.reads) +ℤ pos 65000000000)
      → ((request c r s).0 ≡ err (sentinel throttled))
        × IsHeld (request c q) (after_calls qs (request c r s).1)
        × ((after_calls qs (request c r s).1).network ≡ sent r s)
  request-backs_off r qs q s reply clear answered busy early =
      let (refused, network, window, clock, reads) = request_busy r s reply clear answered busy in
      let held =
        calls_refused qs q (request c r s).1 (λ i fits. rw (clock, reads, window) (early i fits)) in
      (refused, held.0, held.1 ∙ network)

  -- While the window is open every operation of the client but Reachable, which is no call through
  -- `do`, fails with ErrThrottled and sends nothing, given that a provision token is configured.
  pub http_client-throttled :
      (id platform : String) (patch : InstancePatch) (req : ProvisionRequest) (route : Route)
      (s : HttpState S)
      → IsThrottled s
      → (c.provision_token == "") ≡ false
      → let client = http_client c in
        IsHeld (client.provision req) s
        × IsHeld client.list_instances s
        × IsHeld (client.patch_instance id patch) s
        × IsHeld (client.revoke id) s
        × IsHeld (client.delete_instance id) s
        × IsHeld (client.set_route route) s
        × IsHeld (client.list_routes id) s
        × IsHeld (client.delete_route platform id) s
  unfolding provision list_instances list_routes
  http_client-throttled id platform patch req route s h token =
      let provisioning = provisioning_request c req in
      let listing = admin c "GET" "/admin/v1/instances" none in
      let routes = admin c "GET" (routes_path c id) none in
      (
        rw token (
            bind-IsHeld (request c provisioning)
              (λ text. decoded c provisioning (c.web.decode_provision text)) s
              (request_throttled provisioning s h)),
        bind-IsHeld (request c listing) (λ text. decoded c listing (c.web.decode_instances text)) s
            (request_throttled listing s h),
        command_throttled _ s h,
        command_throttled _ s h,
        command_throttled _ s h,
        command_throttled _ s h,
        bind-IsHeld (request c routes) (λ text. decoded c routes (c.web.decode_routes text)) s
            (request_throttled routes s h),
        command_throttled _ s h,
      )
