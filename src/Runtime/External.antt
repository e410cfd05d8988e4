-- ===== src/Runtime/External.antt =====
-- `ExternalEventHandler` of core/external_event_handler.go: the clients that hear of external events,
-- and the events that they send in. A client is the number that tells it from the others. A factory
-- stands with the decoding of its event from JSON, a library, which may fail.
use interact_kit_sdk.Prelude.{
  ℕ, String, Option, none, some, List, [], ◌∷◌, map, ◌==◌, if◌then◌else◌,
}
use interact_kit_sdk.Prelude.Dict.{lookup, insert}
use interact_kit_sdk.Text.{Text}
use interact_kit_sdk.Events.{Event, Packet, top_service, new_event_packet}

abbrev pub InputFactory : Type 0
InputFactory = Text → Option Event

pub record ExternalEventHandler : Type 0 where
  pub clients : List ℕ
  pub input_registry : List (String × InputFactory)

abbrev pub new_external_event_handler : ExternalEventHandler
new_external_event_handler = record { clients = []; input_registry = [] }

unfoldable pub register_input_event :
    String → InputFactory → ExternalEventHandler → ExternalEventHandler
unfolding insert
register_input_event id factory e = record e { input_registry = insert id factory e.input_registry }

-- `handleWS` when a client comes, and when it goes
unfoldable pub client_comes : ℕ → ExternalEventHandler → ExternalEventHandler
client_comes conn e = record e { clients = conn ∷ e.clients }

unfoldable pub without_client : ℕ → List ℕ → List ℕ
without_client conn [] = []
without_client conn (c ∷ cs) =
    let rest = without_client conn cs in if c == conn then rest else c ∷ rest

unfoldable pub client_goes : ℕ → ExternalEventHandler → ExternalEventHandler
unfolding without_client
client_goes conn e = record e { clients = without_client conn e.clients }

-- `broadcast`: what is written to whom; a write that fails is logged only
unfoldable pub broadcast : Text → ExternalEventHandler → List (ℕ × Text)
broadcast wire e = map (λ conn. (conn, wire)) e.clients

-- `SendInput`, where the context is not done
unfoldable pub send_input : Event → String → Packet
unfolding new_event_packet
send_input event relayer = new_event_packet event top_service relayer

-- the body of the loop of `handleWS`: the packet that a message of a client makes, if any
unfoldable pub on_wire_event : String → Text → ExternalEventHandler → Option Packet
unfolding lookup send_input
on_wire_event id payload e = elim (lookup id e.input_registry) [
  | none ↦ none
  | some factory ↦ elim (factory payload) [
    | none ↦ none
    | some event ↦ some (send_input event "external-ws")
  ]
]
