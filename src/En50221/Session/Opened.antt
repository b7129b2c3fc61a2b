-- ===== src/En50221/Session/Opened.antt =====
-- A session that a module opens.
use dvb_apps.Common.{ℕ}
use dvb_apps.En50221.Session.{in_creation, Session, Lookup}

-- A session as `en50221_sl_alloc_new_session` sets it up for the resource that a lookup found.
abbrev taken : Lookup → ℕ → ℕ → Session
taken answer slot c = record {
  state = in_creation;
  resource_id = answer.connected_resource_id;
  slot_id = slot;
  connection_id = c;
  callback = answer.callback;
}
