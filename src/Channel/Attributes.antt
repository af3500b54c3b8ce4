-- ===== src/Channel/Attributes.antt =====
-- The handlers of a channel and what else src/data_channel/attributes.c sets and gets. The channel
-- is not NULL. The argument of the handlers is not kept, so nothing is said of it.
mod Laws
use rawrtc_data_channel.Base.{Bool, true, false, ℕ}
use rawrtc_data_channel.Base.Code.{Code, success, no_value, not_implemented, Result, ok, err}
use rawrtc_data_channel.Parameters.{Parameters}
use rawrtc_data_channel.Channel.{Channel, ChannelState}

-- A getter of a handler: the handler, or RAWRTC_CODE_NO_VALUE if none is set.
abbrev pub if_set : Bool → Result Bool
if_set true = ok true
if_set false = err no_value

unfoldable pub get_state : Channel → Result ChannelState
get_state c = ok c.state

unfoldable pub get_parameters : Channel → Result Parameters
get_parameters c = ok c.parameters

unfoldable pub get_buffered_amount : Channel → Result ℕ
get_buffered_amount c = err not_implemented

unfoldable pub set_buffered_amount_low_threshold : Channel → ℕ → Code × Channel
set_buffered_amount_low_threshold c n = (not_implemented, c)

unfoldable pub get_buffered_amount_low_threshold : Channel → Result ℕ
get_buffered_amount_low_threshold c = err not_implemented

unfoldable pub unset_handlers : Channel → Code × Channel
unset_handlers c = (
  success,
  record c {
    message_handler = false;
    close_handler = false;
    error_handler = false;
    buffered_amount_low_handler = false;
    open_handler = false;
  },
)

unfoldable pub set_open_handler : Channel → Bool → Code × Channel
set_open_handler c handler = (success, record c { open_handler = handler })

unfoldable pub get_open_handler : Channel → Result Bool
get_open_handler c = if_set c.open_handler

unfoldable pub set_buffered_amount_low_handler : Channel → Bool → Code × Channel
set_buffered_amount_low_handler c handler =
    (success, record c { buffered_amount_low_handler = handler })

unfoldable pub get_buffered_amount_low_handler : Channel → Result Bool
get_buffered_amount_low_handler c = if_set c.buffered_amount_low_handler

unfoldable pub set_error_handler : Channel → Bool → Code × Channel
set_error_handler c handler = (success, record c { error_handler = handler })

unfoldable pub get_error_handler : Channel → Result Bool
get_error_handler c = if_set c.error_handler

unfoldable pub set_close_handler : Channel → Bool → Code × Channel
set_close_handler c handler = (success, record c { close_handler = handler })

unfoldable pub get_close_handler : Channel → Result Bool
get_close_handler c = if_set c.close_handler

unfoldable pub set_message_handler : Channel → Bool → Code × Channel
set_message_handler c handler = (success, record c { message_handler = handler })

unfoldable pub get_message_handler : Channel → Result Bool
get_message_handler c = if_set c.message_handler
