-- ===== src/Notifier/Gateway.antt =====
-- services/notifier/src/notifier/gateway.py: what an answer of NotifyGate comes to. The exchange
-- over HTTP is not modelled: it ends with no answer, or with a status code and the id in the body,
-- if the body has one.
use slot.Prelude.{ℕ, String, Option, none, some, ◌||◌, ◌==◌, if◌then◌else◌, Result, ok, err}

pub data GatewayAnswer : Type 0 where
  no_response : GatewayAnswer
  response : ℕ → Option String → GatewayAnswer

-- What `send` may raise: `GatewayUnavailableError`, or the error of a body with no id.
pub data SendError : Type 0 where
  gateway_unavailable bad_body : SendError

unfoldable pub send_answer : GatewayAnswer → Result SendError String
send_answer no_response = err gateway_unavailable
send_answer (response code body) =
    if code == 200 || code == 201
    then elim body [ none ↦ err bad_body | some i ↦ ok i ]
    else err gateway_unavailable
