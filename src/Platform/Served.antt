-- ===== src/Platform/Served.antt =====
-- The controllers' client of clusters, as main.go has it made: the typed client of pkg/client over
-- the API server's requests, which the API server answers in its part of the world outside.
pub mod Kubeconfigs
use kubecon.Prelude.{String, ◌≡◌, ap, ◌∙◌, Option}
use kubecon.Prelude.Exec.{Exec}
use kubecon.Api.{Cluster}
use kubecon.Client.Objects.{ResourceClient, KeepsObjects}
use kubecon.Client.Typed.{Rest, typed_resource, clusters}
use kubecon.Client.Typed.Laws.{ServesObjects, KeepsObjects-typed_resource}
use kubecon.Platform.{Platform}
use kubecon.Platform.Laws.{KeepsClusters, OthersKeep, stored, cluster_content}

-- A part of a state, by how it is read and written; what has been written is read.
pub record Part (O P : Type 0) : Type 0 where
  pub part_of : O → P
  pub with_part : P → O → O
  pub read_written : (p : P) (o : O) → part_of (with_part p o) ≡ p

module _ {O P : Type 0} (S : Part O P) where
  abbrev on_part : {A : Type 0} → Exec P A → Exec O A
  on_part m o = let (a, p) = m (S.part_of o) in (a, S.with_part p o)

  -- A client that works on the part.
  abbrev pub client_on_part : {E A : Type 0} → ResourceClient E P A → ResourceClient E O A
  client_on_part R = record {
    get = λ n. on_part (R.get n);
    create = λ a. on_part (R.create a);
    update = λ a. on_part (R.update a);
  }

  pub KeepsObjects-client_on_part :
      {E A : Type 0} (R : ResourceClient E P A) {name : A → String} {kept : A → Option A}
      {seen : A → A} {view : P → String → Option A}
      → KeepsObjects R name kept seen view
      → KeepsObjects (client_on_part R) name kept seen (λ o. view (S.part_of o))
  KeepsObjects-client_on_part R {view} K = record {
    update_accepted =
        λ a o h n. ap (λ p. view p n) (S.read_written _ o) ∙ K.update_accepted a (S.part_of o) h n;
    update_refused = λ a o e h n.
        ap (λ p. view p n) (S.read_written _ o) ∙ K.update_refused a (S.part_of o) e h n;
    get_found = λ n o a h. K.get_found n (S.part_of o) a h;
    get_keeps = λ n o m. ap (λ p. view p m) (S.read_written _ o) ∙ K.get_keeps n (S.part_of o) m;
  }

module _ (E : Platform) (T : Rest E.Error Cluster) (S : Part E.Outside T.Outside)
    (options : T.GetOptions) where
  -- The platform with the typed client of clusters.
  abbrev pub served : Platform
  served = record E { clusters = client_on_part S (typed_resource T clusters options) }

  -- Where the API server keeps the clusters as its requests tell, and the other calls leave them
  -- alone, a platform whose client of clusters is the typed client keeps clusters as the
  -- controllers' theorems ask for.
  pub KeepsClusters-served :
      {view : T.Outside → String → Option Cluster}
      → ServesObjects T "clusters" stored cluster_content view
      → OthersKeep E (λ o. view (S.part_of o))
      → KeepsClusters served (λ o. view (S.part_of o))
  KeepsClusters-served V K = record {
    objects =
        KeepsObjects-client_on_part S (typed_resource T clusters options)
          (KeepsObjects-typed_resource T clusters V options);
    others = record {
      exec_keeps = K.exec_keeps;
      get_kubeconfig_keeps = K.get_kubeconfig_keeps;
      server_version_keeps = K.server_version_keeps;
    };
  }
