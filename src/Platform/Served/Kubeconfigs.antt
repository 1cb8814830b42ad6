-- ===== src/Platform/Served/Kubeconfigs.antt =====
-- The config generator's client of Kubeconfigs: the typed client of pkg/client over the API server's
-- requests.
use kubecon.Prelude.{String, ◌≡◌, ap, ◌∙◌, Option, some}
use kubecon.Api.{Kubeconfig}
use kubecon.Client.Typed.{Rest, typed_resource, kubeconfigs}
use kubecon.Client.Typed.Laws.{
  ServesObjects, CreatesObjects, KeepsObjects-typed_resource, create-stores,
}
use kubecon.Platform.{Platform}
use kubecon.Platform.Laws.{KeepsKubeconfigs, kubeconfig_content}
use kubecon.Platform.Served.{Part, client_on_part, KeepsObjects-client_on_part}

module _ (E : Platform) (T : Rest E.Error Kubeconfig) (S : Part E.Outside T.Outside)
    (options : T.GetOptions) where
  -- The platform with the typed client of Kubeconfigs.
  abbrev pub configs_served : Platform
  configs_served = record E {
    kubeconfigs = client_on_part S (typed_resource T kubeconfigs options);
  }

  -- Where the API server keeps and creates the Kubeconfigs as its requests tell, each under the name
  -- that it bears, a platform whose client of Kubeconfigs is the typed client keeps Kubeconfigs as the
  -- config generator's theorems ask for.
  pub KeepsKubeconfigs-configs_served :
      {view : T.Outside → String → Option Kubeconfig}
      → ServesObjects T "kubeconfigs" (λ k. some (kubeconfig_content k)) kubeconfig_content view
      → CreatesObjects T "kubeconfigs"
          (λ k. k.metadata.name)
          (λ k. some (kubeconfig_content k))
          view
      → ((o : T.Outside) (n : String) (k : Kubeconfig) → view o n ≡ some k → k.metadata.name ≡ n)
      → KeepsKubeconfigs configs_served (λ o. view (S.part_of o))
  KeepsKubeconfigs-configs_served {view} V C named =
      let K =
        KeepsObjects-client_on_part S (typed_resource T kubeconfigs options)
          (KeepsObjects-typed_resource T kubeconfigs V options) in
      record {
        objects = K;
        found_name =
            λ name o k h. named (S.part_of o) name (kubeconfig_content k) (K.get_found name o k h);
        create_accepted = λ k o h n.
            ap (λ p. view p n) (S.read_written _ o)
            ∙ create-stores T kubeconfigs C k (S.part_of o) h n;
      }
