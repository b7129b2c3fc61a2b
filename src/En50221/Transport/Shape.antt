-- ===== src/En50221/Transport/Shape.antt =====
-- The layer as a whole, and the sizes of its tables.
use dvb_apps.Common.{ℕ, ◌≡◌, length, All}
use dvb_apps.En50221.Transport.Layer.{CamSlot, Layer}

-- Every slot of the table has its number of connections.
abbrev HasConnections : ℕ → CamSlot → Type 0
HasConnections n p = length (p.connections) ≡ n

module _ (size width : ℕ) where
  -- A layer of `size` slots, each with `width` connections.
  abbrev pub IsLayer : Layer → Type 0
  IsLayer tl =
      (length (tl.slots) ≡ size)
      × All (HasConnections width) (tl.slots)
      × (tl.max_slots ≡ size)
      × (tl.max_connections_per_slot ≡ width)
