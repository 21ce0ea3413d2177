-- ===== src/Base/Errors.antt =====
-- Go errors as values: the sentinels of the packages (k8s/client.go, connector/client.go,
-- session/session.go, lifecycle/manager.go, agent/http.go), connector.APIError, an error of any
-- other kind, and `fmt.Errorf("...: %w", err)`. A context that
-- quotes its argument (`%q`) is the argument alone. `errors_is` is `errors.Is`.
use hermes_cluster.Base.{ℕ, String, ◌≡◌, refl, Bool, true, false, arith, eqb}

pub data Sentinel : Type 0 where
  -- session.ErrInvalidID, lifecycle.ErrConnectorDisabled
  invalid_id connector_disabled : Sentinel
  -- k8s.ErrNotFound, k8s.ErrAlreadyExists
  not_found already_exists : Sentinel
  -- connector.ErrDisabled, connector.ErrThrottled, connector.ErrNotFound
  disabled throttled no_instance : Sentinel
  -- agent.ErrDisabled
  agent_disabled : Sentinel

pub data Err : Type 0 where
  sentinel : Sentinel → Err
  api_error : ℕ → String → Err
  other : String → Err
  wrap : String → Err → Err

abbrev sentinel_index : Sentinel → ℕ
sentinel_index invalid_id = 0
sentinel_index connector_disabled = 1
sentinel_index not_found = 2
sentinel_index already_exists = 3
sentinel_index disabled = 4
sentinel_index throttled = 5
sentinel_index no_instance = 6
sentinel_index agent_disabled = 7

-- errors.Is(err, target)
unfoldable pub errors_is : Err → Sentinel → Bool
errors_is (sentinel s) t = eqb (sentinel_index s) (sentinel_index t)
errors_is (api_error status message) t = false
errors_is (other message) t = false
errors_is (wrap context e) t = errors_is e t

-- Wrapping an error with context keeps what `errors.Is` says of it.
pub errors_is-wrap :
    (context : String) (e : Err) (t : Sentinel) → errors_is (wrap context e) t ≡ errors_is e t
unfolding errors_is
errors_is-wrap context e t = refl

-- An error is at most one of the sentinels.
pub errors_is_unique :
    (e : Err) (s t : Sentinel) → errors_is e s ≡ true → errors_is e t ≡ true → s ≡ t
unfolding errors_is
errors_is_unique (sentinel r) s t p q = ground arith
errors_is_unique (api_error n m) s t p q = ground arith
errors_is_unique (other m) s t p q = ground arith
errors_is_unique (wrap m e) s t p q = errors_is_unique e s t p q
