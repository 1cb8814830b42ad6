-- ===== src/Client/Clientset/Laws.antt =====
-- The configuration that the clients are built from.
use kubecon.Prelude.{◌≡◌, refl, some, is_none, arith, ◌&&◌, if◌then◌else◌}
use kubecon.Client.Result.{ok}
use kubecon.Client.Clientset.{
  RestLibrary, ConfigOf, Clientset, set_config_defaults, typed_for_config, with_limiter,
  new_for_config,
}

module _ {E : Type 0} (R : RestLibrary E) (c : ConfigOf R) where
  limiter : (with_limiter R c).rate_limiter ≡ (
      if is_none c.rate_limiter && R.is_positive c.qps
      then some (R.new_limiter c.qps c.burst)
      else c.rate_limiter)
  unfolding with_limiter
  limiter = ground arith

  -- Both clients of a clientset are built from one configuration with one rate limiter: the caller's
  -- own, or a new one where it has none and asks for a rate.
  new_for_config_shares :
      (s : Clientset R)
      → new_for_config R c ≡ ok s
      → (R.rest_client_for (set_config_defaults R (with_limiter R c)) ≡ ok s.rest_client)
        × (R.discovery_for (with_limiter R c) ≡ ok s.discovery)
        × ((set_config_defaults R (with_limiter R c)).rate_limiter
            ≡ (with_limiter R c).rate_limiter)
        × ((with_limiter R c).rate_limiter ≡ (
            if is_none c.rate_limiter && R.is_positive c.qps
            then some (R.new_limiter c.qps c.burst)
            else c.rate_limiter))
  unfolding new_for_config typed_for_config set_config_defaults
  new_for_config_shares s h = (ground arith, ground arith, refl, limiter)
