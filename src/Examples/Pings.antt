-- ===== src/Examples/Pings.antt =====
-- The theorem on pings, at a socket that hears a stranger before the reply.
use network_enumerator.Common.{
  ◌≡◌, refl, true, false, none, some, [], ◌∷◌, Text, text, text_eq, All,
}
use network_enumerator.Discovery.Icmp.{
  Socket, Packet, Ping, Pinger, new_pinger, begin_ping, read_packet, end_ping, dispatch, opened,
  begins, reads, ends,
}
use network_enumerator.Discovery.Icmp.Genuine.{Heard, reached-Heard}

abbrev raw : Socket
raw = record { using_udp = false; id = 77 }

abbrev gateway : Text
gateway = text "10.0.0.1"

abbrev stranger : Packet
stranger = record { is_echo_reply = true; id = 12; seq = 1; peer = gateway }

abbrev reply : Packet
reply = record { is_echo_reply = true; id = 77; seq = 1; peer = gateway }

-- The call after the reply.
abbrev answered : Ping
answered = record { number = 0; ip = gateway; seq = 1; signalled = true; result = none }

abbrev waiting : Pinger
waiting = read_packet raw reply (read_packet raw stranger (begin_ping gateway new_pinger))

abbrev finished : Pinger
finished = end_ping answered true waiting

reached-Heard_example :
    All (λ (g : Ping). g.result ≡ some true → Heard raw (reply ∷ stranger ∷ []) g) finished.pings
unfolding read_packet begin_ping dispatch text_eq
reached-Heard_example = reached-Heard raw (reply ∷ stranger ∷ []) finished (
    ends (reply ∷ stranger ∷ []) waiting answered true refl (
      reads (stranger ∷ []) (read_packet raw stranger (begin_ping gateway new_pinger)) reply
        (reads [] (begin_ping gateway new_pinger) stranger (begins [] new_pinger gateway opened))))
