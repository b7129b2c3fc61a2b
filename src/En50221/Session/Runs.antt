-- ===== src/En50221/Session/Runs.antt =====
-- Concrete sessions over the transport layer.
use dvb_apps.Common.{
  ℕ, ◌≡◌, refl, ◌≢◌, ◌⊎◌, inl, inr, true, false, none, some, List, [], ◌∷◌, ◌++◌, arith, get_elem?,
  ok, Returns,
}
use dvb_apps.En50221.Transport.{Timeval, Connection, ConnectionState, t_data_last, change}
use dvb_apps.En50221.Transport.Layer.{Layer, tl_send_data, on_slot}
use dvb_apps.En50221.Transport.Sending.{slot_send_data, data_message, queue_message}
use dvb_apps.En50221.Transport.Receive.{parse_tpdu}
use dvb_apps.En50221.Session.{
  SessionState, idle, active, in_creation, in_deletion, Session, apdu, found, Upper, SessionLayer,
  st_session_number, st_create_session_res, st_close_session_req,
}
use dvb_apps.En50221.Session.Calls.{destroy_session, send_data}
use dvb_apps.En50221.Session.Handlers.{close_response}
use dvb_apps.En50221.Session.Receive.{
  apdu_length, data_received, connection_closing, transport_callback,
}
use dvb_apps.En50221.Link.OfLayer.{layer_link, waiting}
use dvb_apps.En50221.Asn1.{asn_1_encode, write}
use dvb_apps.En50221.Session.Isolation.{transport_callback-Here}
use dvb_apps.En50221.Session.Delivery.{transport_callback-message_bytes}
use dvb_apps.En50221.Session.Below.{send_data-parse_tpdu}
use dvb_apps.En50221.Session.Close.{
  transport_callback-connection_closing, destroy_session-close_response,
  transport_callback-create_response,
}

abbrev time : Timeval
time = record { tv_sec = 9; tv_usec = 0 }

abbrev open_connection : Connection
open_connection = record {
  state = ConnectionState.active;
  tx_time = time;
  last_poll_time = time;
  chain_buffer = none;
  chain_freed = false;
  send_queue = [];
}

-- One slot, whose connections 0 and 1 are active.
abbrev layer : Layer
layer = record {
  max_slots = 1;
  max_connections_per_slot = 2;
  slots =
      record {
        ca_hndl = some 3;
        slot = 0;
        connections = open_connection ∷ open_connection ∷ [];
        delays = record { response_timeout = 1000; poll_delay = 100 };
      }
      ∷ [];
  slot_pollfds = some 3 ∷ [];
  slots_changed = false;
  error = none;
  error_slot = none;
  events = [];
}

-- A host that has no resource.
abbrev upper : Upper
upper = record { lookup = none; session = true; busy = λ _ _ _. false; unset = 0 }

abbrev session : SessionState → ℕ → ℕ → Session
session a slot c = record {
  state = a;
  resource_id = 0x10041;
  slot_id = slot;
  connection_id = c;
  callback = some 5;
}

abbrev sessions : SessionLayer Layer
sessions = record {
  sessions =
      session idle 0 0 ∷ session active 0 1 ∷ session active 1 1 ∷ session in_creation 0 1 ∷ [];
  tl = layer;
  error = none;
  events = [];
}

taken_lem : (send_data layer_link 1 (7 ∷ []) sessions).0 ≡ true
unfolding send_data tl_send_data on_slot slot_send_data data_message asn_1_encode write
    queue_message change
taken_lem = refl

closing_lem : (destroy_session layer_link 1 sessions).0 ≡ true
unfolding destroy_session tl_send_data on_slot slot_send_data data_message asn_1_encode write
    queue_message change
closing_lem = refl

-- A close request for session 1 from slot 1, to which it does not belong.
transport_callback-Here_example :
    Returns
      (λ sl'. get_elem? (sl'.sessions) 1 ≡ some (session active 0 1))
      (transport_callback layer_link upper
        (data_received (st_close_session_req ∷ 2 ∷ 0 ∷ 1 ∷ []))
        1
        1
        sessions)
transport_callback-Here_example =
    transport_callback-Here layer_link upper 1 (session active 0 1)
      (st_close_session_req ∷ 2 ∷ 0 ∷ 1 ∷ []) 1 1 sessions refl (λ e. ground (arith, e))
      (inl (λ e. absurd (omega (arith, e))))

-- Two messages, and one byte behind them.
transport_callback-message_bytes_example :
    transport_callback layer_link upper
      (data_received (
        st_session_number ∷ 2 ∷ 0 ∷ 1 ∷ 0x9f ∷ 0x80 ∷ 0x30 ∷ 0 ∷ 0x9f ∷ 0x80 ∷ 0x31 ∷ 1 ∷ 7 ∷ 0
        ∷ []))
      0
      1
      sessions
    ≡ ok (record sessions {
      events =
          apdu 5 0 1 0x10041 (0x9f ∷ 0x80 ∷ 0x30 ∷ 0 ∷ [])
          ∷ apdu 5 0 1 0x10041 (0x9f ∷ 0x80 ∷ 0x31 ∷ 1 ∷ 7 ∷ [])
          ∷ [];
    })
unfolding mathlib.Core.List.flatten apdu_length
transport_callback-message_bytes_example =
    transport_callback-message_bytes layer_link upper 1 5
      (((0x9f, 0x80, 0x30), []) ∷ ((0x9f, 0x80, 0x31), 7 ∷ []) ∷ []) (0 ∷ []) (session active 0 1)
      sessions (omega arith) refl refl refl (omega arith) (inr refl)

send_data-parse_tpdu_example :
    (msg : List ℕ) × (waiting ((send_data layer_link 1 (7 ∷ []) sessions).1.tl) 0 1
      ≡ [] ++ (msg ∷ []))
    × (parse_tpdu (msg ++ [])
        ≡ ok (record {
          tag = t_data_last;
          connection_id = 1;
          body = st_session_number ∷ 2 ∷ 0 ∷ 1 ∷ 7 ∷ [];
          rest = [];
        }))
    × ((i c : ℕ)
        → (0 ≢ i) ⊎ (1 ≢ c)
        → waiting ((send_data layer_link 1 (7 ∷ []) sessions).1.tl) i c ≡ waiting layer i c)
send_data-parse_tpdu_example =
    send_data-parse_tpdu layer_link 1 (session active 0 1) sessions (7 ∷ []) [] (omega arith) refl
      refl taken_lem

transport_callback-connection_closing_example :
    Returns
      (λ sl'. get_elem? (sl'.sessions) 2 ≡ some (session idle 1 1))
      (transport_callback layer_link upper connection_closing 0 1 sessions)
transport_callback-connection_closing_example =
    transport_callback-connection_closing layer_link upper 0 1 2 (session active 1 1) sessions refl

destroy_session-close_response_example :
    (get_elem? ((destroy_session layer_link 1 sessions).1.sessions) 1
      ≡ some (session in_deletion 0 1))
    × (transport_callback layer_link upper
          (data_received (close_response 0 1))
          0
          1
          ((destroy_session layer_link 1 sessions).1)
        ≡ ok ((destroy_session layer_link 1 sessions).1))
destroy_session-close_response_example =
    destroy_session-close_response layer_link upper 1 0 1 0 1 [] (session active 0 1) sessions refl
      refl closing_lem

transport_callback-create_response_example :
    Returns
      (λ sl'. get_elem? (sl'.sessions) 3 ≡ some (session in_creation 0 1))
      (transport_callback layer_link upper
        (data_received (st_create_session_res ∷ 7 ∷ 0 ∷ 0 ∷ 1 ∷ 0 ∷ 0x41 ∷ 0 ∷ 3 ∷ []))
        0
        1
        sessions)
transport_callback-create_response_example =
    transport_callback-create_response layer_link upper 3 0 0x10041 0 1 (session in_creation 0 1)
      sessions refl (λ e. absurd (omega (arith, e)))

-- A host that has every resource that is asked for.
abbrev willing : Upper
willing = record {
  lookup = some (λ _ resource. record {
    status = found;
    callback = some 4;
    connected_resource_id = resource;
  });
  session = true;
  busy = λ _ _ _. false;
  unset = 0;
}

abbrev free : SessionLayer Layer
free = record {
  sessions = session idle 0 0 ∷ session active 0 1 ∷ session idle 1 1 ∷ [];
  tl = layer;
  error = none;
  events = [];
}
