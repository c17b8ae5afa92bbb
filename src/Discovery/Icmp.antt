-- ===== src/Discovery/Icmp.antt =====
-- internal/discovery/icmp.go: the pings that share one socket, as a step relation. The goroutine of
-- `readLoop` and those of `Ping` meet in the map of waiters, which is changed under its mutex.
pub mod Genuine
use network_enumerator.Common.{
  ℕ, suc, ◌+◌, ◌%◌, ◌^◌, ◌≡◌, Bool, true, false, ◌&&◌, ◌||◌, not, Option, none, some, List, [], ◌∷◌,
  map, ◌==◌, Text, text_eq, find_if, keep, if◌then◌else◌,
}

-- The kind of the socket, and the id of the process: they do not change.
pub record Socket : Type 0 where
  pub using_udp : Bool
  pub id : ℕ

-- A message that `icmp.ParseMessage` accepts, with the address of the sender. `is_echo_reply` says that
-- it is one, with the body of one.
pub record Packet : Type 0 where
  pub is_echo_reply : Bool
  pub id : ℕ
  pub seq : ℕ
  pub peer : Text

-- A call of `Ping`: its local variables, whether its channel holds a signal, and what it returned.
pub record Ping : Type 0 where
  pub number : ℕ
  pub ip : Text
  pub seq : ℕ
  pub signalled : Bool
  pub result : Option Bool

-- An entry of `waiters`: `pendingPing` with its key. The channel is known by the call.
pub record Waiter : Type 0 where
  pub seq : ℕ
  pub ip : Text
  pub ping : ℕ

-- `next` is the number of the next call.
pub record Pinger : Type 0 where
  pub seq : ℕ
  pub waiters : List Waiter
  pub pings : List Ping
  pub next : ℕ

abbrev pub new_pinger : Pinger
new_pinger = record { seq = 0; waiters = []; pings = []; next = 0 }

abbrev pub for_seq : ℕ → Waiter → Bool
for_seq seq w = w.seq == seq

-- The first lines of `Ping`: the counter is a uint32, and the echo has its lower 16 bits.
unfoldable pub begin_ping : Text → Pinger → Pinger
begin_ping ip p =
    let counter = (p.seq + 1) % 2 ^ 32 in
    let seq = counter % 2 ^ 16 in
    record {
      seq = counter;
      waiters =
          record { seq = seq; ip = ip; ping = p.next } ∷ keep (λ w. not (for_seq seq w)) p.waiters;
      pings =
          record { number = p.next; ip = ip; seq = seq; signalled = false; result = none }
          ∷ p.pings;
      next = suc p.next;
    }

-- `pending.ch <- struct{}{}`, if the channel has room.
abbrev pub signal : ℕ → Ping → Ping
signal number g = if g.number == number then record g { signalled = true } else g

-- What `readLoop` does by the entry of the sequence number.
unfoldable pub dispatch : Packet → Option Waiter → Pinger → Pinger
dispatch packet none p = p
dispatch packet (some w) p =
    if text_eq w.ip packet.peer then record p { pings = map (signal w.ping) p.pings } else p

-- One round of `readLoop`.
unfoldable pub read_packet : Socket → Packet → Pinger → Pinger
unfolding dispatch
read_packet socket packet p =
    if not packet.is_echo_reply
    then p
    else if not socket.using_udp && not (packet.id == socket.id)
    then p
    else dispatch packet (find_if (for_seq packet.seq) p.waiters) p

-- The end of a call: `select` takes the signal, if there is one and `picks` says so, or the timeout; a
-- message that cannot be sent ends it as the timeout does. The deferred function deletes the entry.
abbrev pub ended : ℕ → Bool → Ping → Ping
ended number picks g =
    if g.number == number then record g { result = some (picks && g.signalled) } else g

unfoldable pub end_ping : Ping → Bool → Pinger → Pinger
end_ping g picks p = record p {
  waiters = keep (λ w. not (for_seq g.seq w)) p.waiters;
  pings = map (ended g.number picks) p.pings;
}

-- The states that are reached, with the packets that were read, the latest first.
pub data Reached (socket : Socket) : List Packet → Pinger → Type 0 where
  opened : Reached socket [] new_pinger
  begins :
      (packets : List Packet) (p : Pinger) (ip : Text)
      → Reached socket packets p
      → Reached socket packets (begin_ping ip p)
  reads :
      (packets : List Packet) (p : Pinger) (packet : Packet)
      → Reached socket packets p
      → Reached socket (packet ∷ packets) (read_packet socket packet p)
  ends :
      (packets : List Packet) (p : Pinger) (g : Ping) (picks : Bool)
      → find_if (λ (x : Ping). x.number == g.number) p.pings ≡ some g
      → Reached socket packets p
      → Reached socket packets (end_ping g picks p)
