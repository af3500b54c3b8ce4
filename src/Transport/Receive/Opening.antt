-- ===== src/Transport/Receive/Opening.antt =====
-- The stream identifier of a channel that one peer opens and the other accepts.
use rawrtc_data_channel.Base.{ℕ, ◌%◌, ◌≡◌, true, false, some, arith}
use rawrtc_data_channel.External.Dtls.{DtlsRole, client, server, other_role}
use rawrtc_data_channel.Transport.{Transport}
use rawrtc_data_channel.Transport.Channels.{first_of_role, find_free_sid}
use rawrtc_data_channel.Transport.Channels.Sids.{find_free_sid_least}
use rawrtc_data_channel.Transport.Receive.{sid_fits}

-- The role of the other peer.
abbrev pub peer : DtlsRole → DtlsRole
peer client = server
peer server = client
peer other_role = other_role

fits_by_parity :
    (r : DtlsRole) (i sid : ℕ)
    → first_of_role r ≡ some i
    → sid % 2 ≡ i % 2
    → (sid_fits (peer r) sid ≡ true) × (sid_fits r sid ≡ false)
fits_by_parity client i sid e p = ground arith
fits_by_parity server i sid e p = ground arith
fits_by_parity other_role i sid e p = absurd (cc)

-- A SID that a peer finds for a channel, starting from the one of its role, is one that the check
-- of the other peer's open message handler lets pass, and its own does not: the two never choose
-- the same one.
pub found_sid_accepted :
    (rounds : ℕ) (x : Transport) (r : DtlsRole) (i sid : ℕ)
    → first_of_role r ≡ some i
    → find_free_sid rounds x i ≡ some sid
    → (sid_fits (peer r) sid ≡ true) × (sid_fits r sid ≡ false)
found_sid_accepted rounds x r i sid e h =
    let (a, b, c, parity, d) = find_free_sid_least rounds x i sid h in
    fits_by_parity r i sid e parity
