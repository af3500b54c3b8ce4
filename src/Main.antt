-- ===== src/Main.antt =====
-- Starting and stopping the library: src/main/main.c. The globals that the SCTP transport changes
-- are those of Transport/Create.
use rawrtc_data_channel.Base.{
  ℕ, ◌≡◌, refl, ◌%◌, ◌^◌, Bool, true, false, not, List, ◌∷◌, if◌then◌else◌, ◌==◌,
}
use rawrtc_data_channel.Base.Code.{Code, success, invalid_argument, initialise_fail}
use rawrtc_data_channel.Transport.Create.{Globals}

-- Calls of libre, of the choice of a CRC32-C routine, and of `usrsctp_handle_timers` with the 32
-- bits of its argument.
data MainCall : Type 0 where
  re_initialised re_closed crc32c_initialised : MainCall
  timers_handled : ℕ → MainCall

record Process : Type 0 where
  globals : Globals
  has_timer_handler : Bool
  main_calls : List MainCall

record_call : MainCall → Process → Process
record_call c p = record p { main_calls = c ∷ p.main_calls }

-- Initialise CRC32-C, set timer handler and the counter of users of usrsctp.
unfoldable initialised : Process → Process
unfolding record_call
initialised p =
    let q = record_call crc32c_initialised p in
    record q { has_timer_handler = true; globals = record q.globals { usrsctp_initialized = 0 } }

-- `error` is what `libre_init` returns.
unfoldable init : ℕ → Bool → Bool → Process → Code × Process
unfolding initialised record_call
init error init_re has_handler p =
    if not has_handler
    then (invalid_argument, p)
    else if init_re
    then (let q = record_call re_initialised p in
        if not (error == 0) then (initialise_fail, q) else (success, initialised q))
    else (success, initialised p)

unfoldable close : Bool → Process → Code × Process
unfolding record_call
close close_re p =
    let q = record p { has_timer_handler = false } in
    (success, if close_re then record_call re_closed q else q)

-- `UINT16_MAX > INT_MAX` is false for the host, where an int has 32 bits.
unfoldable timer_tick : ℕ → Process → Process
unfolding record_call
timer_tick delta p = record_call (timers_handled (delta % 2 ^ 32)) p

-- An initialisation that succeeds leaves no user of usrsctp and a timer handler, which a close
-- takes away again.
init-close :
    (init_re close_re : Bool) (p : Process)
    → let q = (init 0 init_re true p).1 in
      (q.globals.usrsctp_initialized ≡ 0)
      × (q.has_timer_handler ≡ true)
      × ((close close_re q).1.has_timer_handler ≡ false)
unfolding init close
init-close true true p = (refl, refl, refl)
init-close true false p = (refl, refl, refl)
init-close false true p = (refl, refl, refl)
init-close false false p = (refl, refl, refl)
