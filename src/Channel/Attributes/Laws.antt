-- ===== src/Channel/Attributes/Laws.antt =====
-- The getters of the handlers of a channel after its setters.
use rawrtc_data_channel.Base.{◌≡◌, refl, Bool}
use rawrtc_data_channel.Base.Code.{no_value, err}
use rawrtc_data_channel.Channel.{Channel}
use rawrtc_data_channel.Channel.Attributes.{
  if_set, unset_handlers, set_open_handler, get_open_handler, set_buffered_amount_low_handler,
  get_buffered_amount_low_handler, set_error_handler, get_error_handler, set_close_handler,
  get_close_handler, set_message_handler, get_message_handler,
}

-- Each getter returns what its setter has set.
setters-getters :
    (c : Channel) (b : Bool)
    → (get_open_handler (set_open_handler c b).1 ≡ if_set b)
      × (get_buffered_amount_low_handler (set_buffered_amount_low_handler c b).1 ≡ if_set b)
      × (get_error_handler (set_error_handler c b).1 ≡ if_set b)
      × (get_close_handler (set_close_handler c b).1 ≡ if_set b)
      × (get_message_handler (set_message_handler c b).1 ≡ if_set b)
unfolding set_open_handler get_open_handler set_buffered_amount_low_handler
    get_buffered_amount_low_handler set_error_handler get_error_handler set_close_handler
    get_close_handler set_message_handler get_message_handler
setters-getters c b = (refl, refl, refl, refl, refl)

-- No getter finds a handler that has been unset.
unset_handlers-getters :
    (c : Channel)
    → (get_open_handler (unset_handlers c).1 ≡ err no_value)
      × (get_buffered_amount_low_handler (unset_handlers c).1 ≡ err no_value)
      × (get_error_handler (unset_handlers c).1 ≡ err no_value)
      × (get_close_handler (unset_handlers c).1 ≡ err no_value)
      × (get_message_handler (unset_handlers c).1 ≡ err no_value)
unfolding unset_handlers get_open_handler get_buffered_amount_low_handler get_error_handler
    get_close_handler get_message_handler
unset_handlers-getters c = (refl, refl, refl, refl, refl)
