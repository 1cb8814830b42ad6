-- ===== src/Client/Clientset/OrDie.antt =====
-- NewForConfigOrDie of clientset.go against NewForConfig.
use kubecon.Prelude.{◌≡◌, ◌≢◌, ap, sym, ◌∙◌, false, none, ◌⊎◌, inl, inr, arith}
use kubecon.Client.Result.{Result, ok, err, or_panic, value}
use kubecon.Client.Clientset.{
  RestLibrary, ConfigOf, Clientset, typed_for_config, with_limiter, new_for_config, typed_or_die,
  new_for_config_or_die,
}

module _ {E : Type 0} (R : RestLibrary E) where
  -- The discovery client's own variant panics with the error that the other returns.
  abbrev DiscoveryPanics : Type 0
  DiscoveryPanics = (c : ConfigOf R) → R.discovery_or_die c ≡ or_panic (R.discovery_for c)

  -- A configuration that NewForConfig uses as it is: it has a rate limiter, or asks for no rate.
  abbrev UsedAsIs : ConfigOf R → Type 0
  UsedAsIs c = (c.rate_limiter ≢ none) ⊎ (R.is_positive c.qps ≡ false)

  with_limiter-UsedAsIs : (c : ConfigOf R) → UsedAsIs c → with_limiter R c ≡ c
  unfolding with_limiter
  with_limiter-UsedAsIs c (inl h) = ground arith
  with_limiter-UsedAsIs c (inr h) = ground arith

  module _ (D : DiscoveryPanics) (c : ConfigOf R) where
    -- what NewForConfig does once the configuration has its rate limiter
    abbrev build : ConfigOf R → Result E (Clientset R)
    build x = elim (typed_for_config R x) [
      | err e ↦ err e
      | ok client ↦ elim (R.discovery_for x) [
        | err e ↦ err e
        | ok discovery ↦ ok (record { discovery = discovery; rest_client = client })
      ]
    ]

    or_die-build : new_for_config_or_die R c ≡ or_panic (build c)
    unfolding new_for_config_or_die typed_or_die
    or_die-build = ground (arith, D c)

    -- Where the configuration has a rate limiter or asks for no rate, NewForConfigOrDie gives the clients
    -- that NewForConfig gives, and panics with the error that NewForConfig returns.
    new_for_config_or_die-agrees :
        UsedAsIs c → new_for_config_or_die R c ≡ or_panic (new_for_config R c)
    unfolding new_for_config
    new_for_config_or_die-agrees h =
        or_die-build ∙ ap (λ x. or_panic (build x)) (sym (with_limiter-UsedAsIs c h))

    -- In the other configurations its two clients are built without a rate limiter.
    or_die_unlimited :
        (s : Clientset R)
        → new_for_config_or_die R c ≡ value s
        → (typed_for_config R c ≡ ok s.rest_client) × (R.discovery_for c ≡ ok s.discovery)
    unfolding new_for_config_or_die typed_or_die
    or_die_unlimited s h = let g = sym or_die-build ∙ h in (ground arith, ground arith)
