-- ===== src/Healthchecker.antt =====
-- controllers/healthchecker/healthcheck.go: the controller that keeps the condition `Ready`.
pub mod Laws
use kubecon.Prelude.{String, Option, none, some, not, if◌then◌else◌}
use kubecon.Api.{Cluster, ready, provisioned}
use kubecon.Platform.{Platform, ok, err, error_of}
use kubecon.Client.Clientset.{new_for_config}
use kubecon.World.{M, Address, outside, do_condition}
use kubecon.World.Retry.{retry}

-- getName
abbrev pub healthchecker_name : String
healthchecker_name = "healthchecker"

module _ (E : Platform) where
  -- validateHealthcheck, with the kubeconfig's path at hand
  unfoldable pub contact : String → M E (Option E.Error)
  contact config_path w = elim (E.build_config config_path w.outside) [
    | err e ↦ (some e, w)
    | ok rest_config ↦ elim (new_for_config E.rest rest_config) [
      | err e ↦ (some e, w)
      | ok client ↦
          let (version, w1) = outside E (E.server_version client.discovery) w in
          (error_of version, w1)
    ]
  ]

  unfoldable pub validate_healthcheck : Cluster → M E (Option E.Error)
  validate_healthcheck c w =
      let (r, w1) = outside E (E.kubeconfigs.get c.metadata.name) w in
      elim r [
        | err e ↦ (if E.is_not_found e then none else some e, w1)
        | ok kubeconfig ↦ contact kubeconfig.spec.config_path w1
      ]

  -- sync, behind the test of `Provisioned`; the errors of the check and of the writes are logged
  unfoldable pub check : Address → M E (Unit {0})
  check p w =
      let (_, w1) = do_condition E ready p (λ v. validate_healthcheck (v.heap.cell p) v) w in
      let (_, w2) = outside E (retry 3 (E.clusters.update (w1.heap.cell p)) none) w1 in (tt, w2)

  unfoldable pub sync : Address → M E (Unit {0})
  sync p w = if not (E.is_true provisioned (w.heap.cell p)) then (tt, w) else check p w

  -- handleClusterUpdate
  unfoldable pub handle_cluster_update : Address → Address → M E (Unit {0})
  handle_cluster_update obj updated = sync updated
