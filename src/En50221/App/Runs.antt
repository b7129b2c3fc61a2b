-- ===== src/En50221/App/Runs.antt =====
-- Concrete answers, profiles and tables.
use dvb_apps.Common.{
  ℕ, ◌^◌, ◌<◌, ◌≡◌, refl, inl, true, false, none, some, List, [], ◌∷◌, ◌++◌, arith, drop, ok, fault,
  Returns, Safe,
}
use dvb_apps.En50221.Session.Apdus.{apdu_bytes, message_bytes}
use mathlib.Core.List.{flatten}
use dvb_apps.En50221.App.Ca.Format.{
  Stream, Pmt, extract_descriptors, same_bytes, same_descriptors, all_same, try_move, ca_layout,
  sum_lengths, streams_length, descriptor_bytes, stream_bytes, pmt_bytes, format_pmt,
}
use dvb_apps.En50221.App.Mmi.Delivered.{handed_up, transport_callback-shown_bytes}
use dvb_apps.En50221.App.Mmi.Register.{register_menu_callback}
use dvb_apps.En50221.App.Mmi.{Mmi, create, nothing, calls, menu_call, find}
use dvb_apps.En50221.App.Mmi.Fragments.{pending}
use dvb_apps.En50221.App.Mmi.Texts.{Text}
use dvb_apps.En50221.App.Mmi.Shows.{shown_of}
use dvb_apps.En50221.App.Mmi.Dialogue.{messages, dialogue}
use dvb_apps.En50221.Session.Receive.{data_received, transport_callback}
use dvb_apps.En50221.Session.{active, Session, SessionLayer, Upper, st_session_number}
use mathlib.Core.List.{flatten}
use dvb_apps.En50221.App.Lowspeed as LowspeedApp
use dvb_apps.En50221.App.Lowspeed.Chained as LowspeedChained
use dvb_apps.En50221.App.Lowspeed.{Lowspeed, LowspeedReply, sent}
use dvb_apps.En50221.App.Lowspeed.Commands.{parse_command-Safe}
use dvb_apps.En50221.App.Lowspeed.Chained.{answer, chained, messages-answer}
use dvb_apps.En50221.Transport.{Timeval, Connection, ConnectionState}
use dvb_apps.En50221.Transport.Layer.{Layer}
use dvb_apps.En50221.Link.OfLayer.{layer_link}
use dvb_apps.En50221.App.OverSession.{session_functions, Queued}
use dvb_apps.En50221.App.Rm as ResourceManager
use dvb_apps.En50221.App.Rm.{Rm, reply_call, reply}
use dvb_apps.En50221.App.Rm.Profile.{profile, reply-message}
use dvb_apps.En50221.App.Ca as ConditionalAccess
use dvb_apps.En50221.App.Ca.{Ca, ca_pmt_reply_call}
use dvb_apps.En50221.App.Ca.Replies.{reply_bytes, message-table_bytes, message_one_more}
use dvb_apps.En50221.App.Mmi.Send.{answ, DisplayReplyDetails, display_reply}
use dvb_apps.En50221.App.Mmi.Answers.{answ-Queued, display_reply-pixdepths}

abbrev time : Timeval
time = record { tv_sec = 9; tv_usec = 0 }

abbrev open_connection : Connection
open_connection = record {
  state = ConnectionState.active;
  tx_time = time;
  last_poll_time = time;
  chain_buffer = none;
  chain_freed = false;
  send_queue = [];
}

-- A host that has no resource.
abbrev upper : Upper
upper = record { lookup = none; session = true; busy = λ _ _ _. false; unset = 0 }

-- One slot with one active connection.
abbrev layer : Layer
layer = record {
  max_slots = 1;
  max_connections_per_slot = 1;
  slots =
      record {
        ca_hndl = some 3;
        slot = 0;
        connections = open_connection ∷ [];
        delays = record { response_timeout = 1000; poll_delay = 100 };
      }
      ∷ [];
  slot_pollfds = some 3 ∷ [];
  slots_changed = false;
  error = none;
  error_slot = none;
  events = [];
}

abbrev session : Session
session = record {
  state = active;
  resource_id = 0x10041;
  slot_id = 0;
  connection_id = 0;
  callback = some 5;
}

abbrev sessions : SessionLayer Layer
sessions = record { sessions = session ∷ []; tl = layer; error = none; events = [] }

answ-Queued_example :
    Returns
      (Queued layer_link 0 session sessions ((0x9f, 0x88, 0x08), 1 ∷ 49 ∷ 50 ∷ []))
      (answ (session_functions layer_link) 0 1 (49 ∷ 50 ∷ []) sessions)
answ-Queued_example =
    answ-Queued layer_link 0 1 (49 ∷ 50 ∷ []) session sessions (omega arith) refl refl

abbrev depths : DisplayReplyDetails
depths = record {
  mmi_mode = 0;
  table = [];
  gfx = record {
    width = 720;
    height = 576;
    aspect_ratio = 2;
    gfx_relation_to_video = 7;
    multiple_depths = 0;
    display_bytes = 0;
    composition_buffer_bytes = 0;
    object_cache_bytes = 0;
    pixel_depths = record { display_depth = 2; pixels_per_byte = 1; region_overhead = 0 } ∷ [];
  };
}

display_reply-pixdepths_example :
    display_reply (session_functions layer_link) 0 4 depths sessions ≡ fault
display_reply-pixdepths_example =
    display_reply-pixdepths (session_functions layer_link) 0 4 depths sessions (inl refl)
      (omega arith) (omega arith)

abbrev replying : Rm
replying = record { enq = false; reply = true; changed = false }

reply-message_example :
    Returns
      (Queued layer_link 0 session sessions (profile (0x10041 ∷ 0x400041 ∷ [])))
      (reply (session_functions layer_link) 0 (0x10041 ∷ 0x400041 ∷ []) sessions)
    × (ResourceManager.message replying 1 2 (message_bytes (profile (0x10041 ∷ 0x400041 ∷ [])))
        ≡ ok (some (reply_call 1 2 (0x10041 ∷ 0x400041 ∷ []))))
reply-message_example =
    reply-message layer_link 0 (0x10041 ∷ 0x400041 ∷ []) session sessions replying 1 2
      (ground arith) (omega arith) refl refl refl

abbrev listening : Ca
listening = record { ca_info = false; ca_pmt_reply = true }

message-table_bytes_example :
    ConditionalAccess.message listening 0 1
      (apdu_bytes (0x9f, 0x80, 0x33) (reply_bytes 1 2 3 0x81 (4 ∷ 5 ∷ 0x81 ∷ [])))
    ≡ ok (some (ca_pmt_reply_call 0 1 (reply_bytes 2 1 3 0x81 (5 ∷ 4 ∷ 0x81 ∷ []))))
message-table_bytes_example =
    message-table_bytes listening 0 1 1 2 3 0x81 ((4, 5, 0x81) ∷ []) (omega arith)

message_one_more_example :
    ConditionalAccess.message listening 0 1
      (apdu_bytes (0x9f, 0x80, 0x33) (reply_bytes 1 2 3 0x81 (7 ∷ [])))
    ≡ fault
message_one_more_example = message_one_more listening 0 1 1 2 3 0x81 7 [] (omega arith)

-- Two streams under the same conditional access.
abbrev scrambled : Stream
scrambled = record {
  stream_type = 2;
  pid = 0x100;
  descriptors = (9 ∷ 1 ∷ 7 ∷ []) ∷ (5 ∷ 0 ∷ []) ∷ [];
}

abbrev table : Pmt
table = record {
  program_number = 1;
  version_number = 3;
  current_next_indicator = 1;
  descriptors = [];
  streams = scrambled ∷ scrambled ∷ [];
}

moved :
    format_pmt table 20 true 3 1
    ≡ ok (3 ∷ 0 ∷ 1 ∷ 7 ∷ 0 ∷ 4 ∷ 1 ∷ 9 ∷ 1 ∷ 7 ∷ 2 ∷ 1 ∷ 0 ∷ 0 ∷ 0 ∷ 2 ∷ 1 ∷ 0 ∷ 0 ∷ 0 ∷ [])
unfolding format_pmt ca_layout extract_descriptors try_move all_same same_descriptors same_bytes
    sum_lengths streams_length pmt_bytes descriptor_bytes stream_bytes mathlib.Core.List.flatten
moved = refl

-- A menu of one item, in two messages of one package.
abbrev title : List ℕ
title = 0x9f ∷ 0x88 ∷ 0x03 ∷ 2 ∷ 72 ∷ 105 ∷ []

abbrev empty : List ℕ
empty = 0x9f ∷ 0x88 ∷ 0x03 ∷ 0 ∷ []

abbrev hi : Text
hi = ([], 72 ∷ 105 ∷ [])

abbrev no_text : Text
no_text = ([], [])

abbrev two_messages : List (List ℕ)
two_messages = dialogue false ((1 ∷ title) ∷ []) (empty ++ empty ++ title)

abbrev with_menu : Mmi
with_menu = register_menu_callback true create

transport_callback-shown_bytes_example :
    Returns
      (λ sl1.
        Returns
          (λ r.
            r.0 ≡ nothing ∷ calls (menu_call 0 0 (shown_of 1 hi no_text no_text (hi ∷ []) [])) ∷ [])
          (messages with_menu 0 0 (handed_up 5 (drop 0 (sl1.events)))))
      (transport_callback layer_link upper
        (data_received (st_session_number ∷ 2 ∷ 0 ∷ 0 ∷ flatten two_messages))
        0
        0
        sessions)
unfolding create pending find mathlib.Core.List.flatten
transport_callback-shown_bytes_example =
    transport_callback-shown_bytes layer_link upper 0 5 session sessions false 1 hi no_text no_text
      (hi ∷ []) [] ((1 ∷ title) ∷ []) (empty ++ empty ++ title) with_menu (omega arith) refl refl
      refl (inl (refl, omega arith)) (ground arith) refl (ground arith) (omega arith) refl refl

abbrev modem : Lowspeed
modem = record { command_callback = false; send_callback = true; sessions = [] }

messages-answer_example :
    Returns
      (λ r.
        (r.0 ≡ LowspeedReply.nothing ∷ answer 0 4 1 (7 ∷ 8 ∷ []) ∷ [])
        × (3 < 2 ^ 16 → r.0 ≡ LowspeedReply.nothing ∷ sent 0 4 1 (7 ∷ 8 ∷ []) ∷ []))
      (LowspeedChained.messages modem 0 4 (chained ((1 ∷ 7 ∷ []) ∷ []) (8 ∷ [])))
unfolding LowspeedApp.find mathlib.Core.List.flatten
messages-answer_example =
    messages-answer 0 4 1 (7 ∷ 8 ∷ []) ((1 ∷ 7 ∷ []) ∷ []) (8 ∷ []) modem (ground arith) refl
      (omega arith) refl refl

-- A connection on cable channel 9, with three tries and a timeout of ten.
abbrev connect : List ℕ
connect = 10 ∷ 1 ∷ 0x9f ∷ 0x8c ∷ 1 ∷ 2 ∷ 2 ∷ 9 ∷ 3 ∷ 10 ∷ 0 ∷ []

parse_command-Safe_example : Safe (λ r. Unit) (LowspeedApp.parse_command modem 0 4 connect)
parse_command-Safe_example = parse_command-Safe modem 0 4 connect
