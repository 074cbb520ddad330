-- ===== src/Controller/Replicas.antt =====
-- The names of the resources and the node ids do not collide within one cluster.
use automq_operator.Base.{
  String, Option, none, some, List, [], ◌∷◌, ◌≡◌, refl, ap, ◌≢◌, ◌↔◌, ◌==◌, ◌<>◌, if◌then◌else◌,
  arith, In, ℕ, ◌^◌,
}
use automq_operator.Base.Int.{
  ℤ, pos, range, IsInt32, In-range, wrap32_of_IsInt32, add32, ◌<ℤ◌, ◌+ℤ◌, ◌≤ℤ◌, +ℤ_parts,
  eq_of_parts, pos_part, neg_part,
}
use automq_operator.Base.Decimal.{show, show-injective, show-ne-bootstrap}
use automq_operator.Api.Types.{AutoMq}
use automq_operator.Controller.Names.{broker_role, controller_role, get_auto_mq_name}
use automq_operator.Controller.BrokerDeploy.{broker_cmds}
use automq_operator.Controller.ControllerDeploy.{controller_cmds}
use text.Mathlib.TextLemmas.{append_cancel_left, cons-append}
use Prim.Native.Char.{Char, code}

indexed-injective :
    (role : String) (i j : ℤ)
    → get_auto_mq_name role (some i) ≡ get_auto_mq_name role (some j)
    → i ≡ j
unfolding get_auto_mq_name
indexed-injective role i j e =
    show-injective i j (
      append_cancel_left "-" _ _ (append_cancel_left role _ _ (append_cancel_left "automq-" _ _ e)))

abbrev first : String → ℕ
first String.[] = 0
first (String.◌∷◌ c s) = code c

first-append : (c : Char) (s t : String) → first ((String.◌∷◌ c s) <> t) ≡ code c
first-append c s t = rw cons-append

broker-ne-controller :
    (i j : ℤ) → get_auto_mq_name broker_role (some i) ≢ get_auto_mq_name controller_role (some j)
unfolding get_auto_mq_name
broker-ne-controller i j e = omega (
  arith,
  first-append "b" "roker" ("-" <> show i),
  first-append "c" "ontroller" ("-" <> show j),
  ap first (append_cancel_left "automq-" _ _ e),
)

abbrev pub bootstrap_name : String
bootstrap_name = get_auto_mq_name (broker_role <> "-bootstrap") none

broker-ne-bootstrap : (i : ℤ) → get_auto_mq_name broker_role (some i) ≢ bootstrap_name
unfolding get_auto_mq_name
broker-ne-bootstrap i e = show-ne-bootstrap i (
    append_cancel_left "-" _ "bootstrap" (
      append_cancel_left "broker" _ "-bootstrap"
        (append_cancel_left "automq-" _ "broker-bootstrap" e)))

controller-ne-bootstrap : (i : ℤ) → get_auto_mq_name controller_role (some i) ≢ bootstrap_name
unfolding get_auto_mq_name
controller-ne-bootstrap i e = omega (
  arith,
  first-append "c" "ontroller" ("-" <> show i),
  ap first (append_cancel_left "automq-" _ "broker-bootstrap" e),
)

-- Two replicas of a role have different resource names, a broker's is never a controller's, and the
-- bootstrap service's is neither's.
pub names_distinct :
    (i j : ℤ)
    → ((get_auto_mq_name broker_role (some i) ≡ get_auto_mq_name broker_role (some j)) ↔ (i ≡ j))
      × ((get_auto_mq_name controller_role (some i) ≡ get_auto_mq_name controller_role (some j))
          ↔ (i ≡ j))
      × (get_auto_mq_name broker_role (some i) ≢ get_auto_mq_name controller_role (some j))
      × (get_auto_mq_name broker_role (some i) ≢ bootstrap_name)
      × (get_auto_mq_name controller_role (some i) ≢ bootstrap_name)
names_distinct i j = (
  (indexed-injective broker_role i j, λ e. rw e),
  (indexed-injective controller_role i j, λ e. rw e),
  broker-ne-controller i j,
  broker-ne-bootstrap i,
  controller-ne-bootstrap i,
)

-- The value that follows a flag on a command line.
pub argument : String → List String → Option String
argument flag [] = none
argument flag (s ∷ []) = none
argument flag (s ∷ t ∷ rest) = if s == flag then some t else argument flag (t ∷ rest)

node_id_broker :
    (obj : AutoMq) (i : ℤ)
    → argument "--node.id" (broker_cmds obj i) ≡ some (show (add32 i obj.spec.controller.replicas))
unfolding argument broker_cmds
node_id_broker obj i = refl

node_id_controller :
    (obj : AutoMq) (i : ℤ) → argument "--node.id" (controller_cmds obj i) ≡ some (show i)
unfolding argument controller_cmds
node_id_controller obj i = refl

-- A sum of a counter and a count below 2^31 does not wrap.
add32_exact :
    (j c b : ℤ)
    → (pos 0 ≤ℤ c) × (pos 0 ≤ℤ j) × (j <ℤ b)
    → c +ℤ b <ℤ pos (2 ^ 31)
    → add32 j c ≡ j +ℤ c
unfolding add32
add32_exact j c b h room = wrap32_of_IsInt32 (j +ℤ c) (small (j +ℤ c) below)
  where
    small : (a : ℤ) → (pos 0 ≤ℤ a) × (a <ℤ pos (2 ^ 31)) → IsInt32 a
    small (pos n) k = omega arith
    small (ℤ.negsuc n) k = omega arith

    below : (pos 0 ≤ℤ (j +ℤ c)) × ((j +ℤ c) <ℤ pos (2 ^ 31))
    below = omega (arith, +ℤ_parts j c, +ℤ_parts c b)

same_id : (i j : ℤ) → some (show i) ≡ some (show j) → i ≡ j
same_id i j e = show-injective i j (cc)

-- If the two replica counts add up to less than 2^31, no two nodes of a cluster are started with one
-- node id: the brokers' differ from one another and from the controllers'.
pub node_ids_distinct :
    (obj : AutoMq) (i j k : ℤ)
    → obj.spec.controller.replicas +ℤ obj.spec.broker.replicas <ℤ pos (2 ^ 31)
    → In i (range (pos 0) obj.spec.controller.replicas)
    → In j (range (pos 0) obj.spec.broker.replicas)
    → In k (range (pos 0) obj.spec.broker.replicas)
    → (argument "--node.id" (broker_cmds obj j) ≢ argument "--node.id" (controller_cmds obj i))
      × ((argument "--node.id" (broker_cmds obj j) ≡ argument "--node.id" (broker_cmds obj k))
          ↔ (j ≡ k))
node_ids_distinct obj i j k room hi hj hk =
    let c = obj.spec.controller.replicas in
    let b = obj.spec.broker.replicas in
    let at_i = (In-range (pos 0) c i).0 hi in
    let at_j = (In-range (pos 0) b j).0 hj in
    let at_k = (In-range (pos 0) b k).0 hk in
    let id_j = add32_exact j c b (omega arith, at_j.0, at_j.1) room in
    let id_k = add32_exact k c b (omega arith, at_k.0, at_k.1) room in
    rw (node_id_broker obj j, node_id_broker obj k, node_id_controller obj i, id_j, id_k)
      (
        λ e. omega (
          arith,
          +ℤ_parts j c,
          ap pos_part (same_id (j +ℤ c) i e),
          ap neg_part (same_id (j +ℤ c) i e),
        ),
        (
          λ e.
              let same = same_id (j +ℤ c) (k +ℤ c) e in
              eq_of_parts j k
                (omega (arith, +ℤ_parts j c, +ℤ_parts k c, ap pos_part same, ap neg_part same)),
          λ e. rw e,
        ),
      )
