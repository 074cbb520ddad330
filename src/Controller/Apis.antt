-- ===== src/Controller/Apis.antt =====
-- internal/controller/automq_apis.go: the handler of GET /api/v1/nodes/:name.
pub mod Node
use automq_operator.Base.{ℕ, String, List, [], ◌∷◌, ◌==◌, if◌then◌else◌}
use automq_operator.Kube.Objects.{NodeAddress, Result, ok, err}
use automq_operator.Kube.Env.{Env}

pub data Response : Type 0 where
  json_message : (status : ℕ) (message : String) → Response
  text : (status : ℕ) (body : String) → Response

-- The address of the first entry of type InternalIP, or "".
internal_ip : List NodeAddress → String
internal_ip [] = ""
internal_ip (a ∷ rest) = if a.type == "InternalIP" then a.address else internal_ip rest

respond : Result (List NodeAddress) → Response
unfolding internal_ip
respond (err e) = json_message 500 e.message
respond (ok addresses) =
    if internal_ip addresses == ""
    then json_message 500 "node ip not found"
    else text 200 (internal_ip addresses)

unfoldable pub get_node : {W : Type 0} → Env W → String → W → Response × W
unfolding respond
get_node env name w = let (got, w') = env.get_node_addresses name w in (respond got, w')
