-- ===== src/Controller/Voters.antt =====
-- The quorum's voters, in the start commands of both roles and in the status.
use automq_operator.Base.{
  String, some, List, [], ◌∷◌, map, ◌≡◌, ◌↔◌, refl, sym, ap, ◌∙◌, inl, inr, In, ◌<>◌,
}
use automq_operator.Base.Int.{ℤ, pos, range}
use automq_operator.Base.Decimal.{show}
use automq_operator.Kube.Objects.{Service, ServicePort}
use automq_operator.Kube.Env.{Env}
use automq_operator.Api.Types.{AutoMq}
use automq_operator.Controller.Names.{
  controller_role, get_auto_mq_name, index_labels, voter, controller_voters,
}
use automq_operator.Controller.Requests.{new_service, mutate_service}
use automq_operator.Controller.Controllers.{controller_ports}

of_In-map :
    (f : ℤ → String) (v : String) (l : List ℤ) → In v (map f l) → (i : ℤ) × In i l × (v ≡ f i)
of_In-map f v [] m = absurd m
of_In-map f v (i ∷ l) (inl e) = (i, inl refl, e)
of_In-map f v (i ∷ l) (inr m) = let (j, n, e) = of_In-map f v l m in (j, inr n, e)

In-map : (f : ℤ → String) (v : String) (i : ℤ) (l : List ℤ) → In i l → v ≡ f i → In v (map f l)
In-map f v i [] m e = m
In-map f v i (j ∷ l) (inl same) e = inl (e ∙ ap f same)
In-map f v i (j ∷ l) (inr m) e = inr (In-map f v i l m e)

module _ {W : Type 0} (env : Env W) where
  -- The service that `syncControllerService` asks for in place of a new one.
  abbrev pub controller_service : AutoMq → ℤ → Service
  controller_service obj i =
      let labels = index_labels obj.metadata.name controller_role i in
      mutate_service labels (controller_ports env) "ClusterIP"
        (new_service obj.metadata.namespace (get_auto_mq_name controller_role (some i)) labels)

  -- The address of a service's port in the cluster.
  abbrev pub address_in_cluster : Service → ServicePort → String
  address_in_cluster svc port =
      svc.metadata.name <> "." <> svc.metadata.namespace <> ".svc:" <> show port.port

  same_voter :
      (obj : AutoMq) (i : ℤ) (port : ServicePort)
      → In port (controller_service obj i).ports
      → show i <> "@" <> address_in_cluster (controller_service obj i) port
        ≡ voter obj.metadata.namespace i
  unfolding mutate_service voter
  same_voter obj i port (inl same) =
      ap (λ p. show i <> "@" <> address_in_cluster (controller_service obj i) p) same
  same_voter obj i port (inr m) = absurd m

  -- The voters are, for every specified controller and no other, its node id, an "@", and the address
  -- of a port of the service that is written for it.
  pub controller_voters_iff :
      (obj : AutoMq) (v : String)
      → In v (controller_voters obj) ↔ (
          (i : ℤ) × (port : ServicePort) × In i (range (pos 0) obj.spec.controller.replicas)
          × In port (controller_service obj i).ports
          × (v ≡ show i <> "@" <> address_in_cluster (controller_service obj i) port))
  unfolding controller_voters mutate_service
  controller_voters_iff obj v = (
    λ m.
        let (i, n, e) = of_In-map (voter obj.metadata.namespace) v _ m in
        let first : ServicePort = record {
          name = controller_role;
          port = pos 9093;
          target_port = controller_role;
          protocol = "TCP";
          node_port = pos 0;
        } in
        (i, first, n, inl refl, e ∙ sym (same_voter obj i first (inl refl))),
    λ (i, port, n, p, e).
        In-map (voter obj.metadata.namespace) v i _ n (e ∙ same_voter obj i port p),
  )
