-- ===== src/Controller/Names.antt =====
-- Names, labels and addresses: the helpers at the end of internal/controller/automq_controller.go,
-- and `controllerVoters` of automq_controller_c.go.
use automq_operator.Base.{String, Option, none, some, List, [], ◌∷◌, map, ◌==◌, ◌<>◌, if◌then◌else◌}
use automq_operator.Base.Int.{ℤ, pos, range}
use automq_operator.Base.Decimal.{show}
use automq_operator.Kube.Objects.{Dict, put}
use automq_operator.Api.Types.{AutoMq}

abbrev pub broker_role : String
broker_role = "broker"

abbrev pub controller_role : String
controller_role = "controller"

abbrev pub auto_mq_index_key : String
auto_mq_index_key = "app.kubernetes.io/index"

unfoldable pub get_auto_mq_label_map : String → String → Dict
get_auto_mq_label_map name role =
    if role == ""
    then ("app.kubernetes.io/owner-by", "automq")
      ∷ ("app.kubernetes.io/component", "autpmq-operator")
      ∷ ("app.kubernetes.io/instance", name)
      ∷ []
    else ("app.kubernetes.io/owner-by", "automq")
      ∷ ("app.kubernetes.io/component", "autpmq-operator")
      ∷ ("app.kubernetes.io/instance", name)
      ∷ ("app.kubernetes.io/role", role)
      ∷ []

unfoldable pub get_auto_mq_name : String → Option ℤ → String
get_auto_mq_name role none = "automq-" <> role
get_auto_mq_name role (some index) = "automq-" <> role <> "-" <> show index

-- `labelMap[autoMQIndexKey] = fmt.Sprintf("%d", index)` on the labels of a role.
unfoldable pub index_labels : String → String → ℤ → Dict
unfolding get_auto_mq_label_map put
index_labels name role index = put auto_mq_index_key (show index) (get_auto_mq_label_map name role)

-- `int32(i)` is `i`: the loop stops below a value of `int32`.
unfoldable pub voter : String → ℤ → String
unfolding get_auto_mq_name
voter namespace i =
    show i
    <> "@"
    <> get_auto_mq_name controller_role (some i)
    <> "."
    <> namespace
    <> ".svc:"
    <> show (pos 9093)

unfoldable pub controller_voters : AutoMq → List String
unfolding voter
controller_voters obj =
    map (voter obj.metadata.namespace) (range (pos 0) obj.spec.controller.replicas)
