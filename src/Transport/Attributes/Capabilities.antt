-- ===== src/Transport/Attributes/Capabilities.antt =====
-- SCTP capabilities: src/sctp_capabilities. They are their one field, the maximum message size.
use rawrtc_data_channel.Base.{ℕ, none, some}
use rawrtc_data_channel.Base.Code.{no_memory, Result, ok, err}
use rawrtc_data_channel.External.{Libre}

unfoldable pub capabilities_create : Libre → ℕ → ℕ → Result ℕ
capabilities_create lib t max_message_size = elim (lib.zalloc t) [
  | none ↦ err no_memory
  | some _ ↦ ok max_message_size
]

unfoldable pub get_max_message_size : ℕ → Result ℕ
get_max_message_size capabilities = ok capabilities
