-- ===== src/Transport/Reset/Association.antt =====
-- Notifications and the state of the transport: a change of the association may change it.
use rawrtc_data_channel.Base.{ℕ, not, ◌||◌, ◌==◌, ltb, Bool-cases, inl, inr}
use rawrtc_data_channel.External.{Libre}
use rawrtc_data_channel.Transport.{Transport, Sctp}
use rawrtc_data_channel.Transport.Reset.{
  Notification, assoc_change, partial_delivery, sender_dry, stream_reset, by_type,
  handle_notification,
}
use rawrtc_data_channel.Transport.Reset.Life.{
  partial_delivery-Keeps, sender_dry-Keeps, stream_reset-Keeps,
}
use rawrtc_data_channel.Transport.Lifecycle.{Keeps, Keeps-refl}
use rawrtc_data_channel.Transport.Lifecycle.Changes.{Proceeds, Keeps-Proceeds, association-Proceeds}

module _ (lib : Libre) (sctp : Sctp) (on_low : ℕ → Transport → Transport)
    (low : (g : ℕ) (y : Transport) → Keeps y (on_low g y)) where
  typed-Proceeds : (x : Transport) (n : Notification) → Proceeds x (by_type lib sctp on_low x n)
  unfolding by_type
  typed-Proceeds x (assoc_change s) = association-Proceeds lib sctp x s
  typed-Proceeds x (partial_delivery stream) = Keeps-Proceeds (partial_delivery-Keeps x stream)
  typed-Proceeds x sender_dry = Keeps-Proceeds (sender_dry-Keeps lib sctp on_low low x)
  typed-Proceeds x (stream_reset event) = Keeps-Proceeds (stream_reset-Keeps lib sctp x event)
  typed-Proceeds x _ = Keeps-Proceeds (Keeps-refl x)

  pub notification-Proceeds :
      (x : Transport) (end sn_length : ℕ) (n : Notification)
      → Proceeds x (handle_notification lib sctp on_low x end sn_length n)
  unfolding handle_notification
  notification-Proceeds x end sn_length n =
      elim (Bool-cases (ltb 4294967295 end || not (sn_length == end))) [
        | inl bad ↦ rw bad (Keeps-Proceeds (Keeps-refl x))
        | inr good ↦ rw good (typed-Proceeds x n)
      ]
