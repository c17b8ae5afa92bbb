-- ===== src/Api/Hub.antt =====
-- internal/api/sse.go: the hub that fans events out to the browsers, as a step relation. Every step
-- that touches the map of clients holds the mutex; a channel is a queue of 32 events.
pub mod Delivery
use network_enumerator.Common.{
  ℕ, suc, ◌≡◌, Bool, true, false, ◌&&◌, List, [], ◌∷◌, ◌++◌, map, ltb, ◌==◌, length, if◌then◌else◌,
}
use network_enumerator.Store.Table.{where_do}
use network_enumerator.Store.Schema.{EventRow}

abbrev pub capacity : ℕ
capacity = 32

-- Where the goroutine of a request stands: in the loop of `ServeHTTP`, or between the two halves of
-- `unsubscribe`, or past them.
pub data Phase : Type 0 where
  serving leaving gone : Phase

-- A channel, with whether it is in the map `clients`. The last two fields are no part of the program:
-- they record what was broadcast while it was there, and what the browser was sent.
pub record Client : Type 0 where
  pub id : ℕ
  pub phase : Phase
  pub member : Bool
  pub closed : Bool
  pub buffer : List EventRow
  pub offered : List EventRow
  pub received : List EventRow

pub record Hub : Type 0 where
  pub clients : List Client
  pub next : ℕ

abbrev pub new_hub : Hub
new_hub = record { clients = []; next = 0 }

-- The `select` of `Broadcast`: the event is dropped if the queue is full.
abbrev pub offer : EventRow → Client → Client
offer ev c = record c {
  buffer = if ltb (length c.buffer) capacity then c.buffer ++ ev ∷ [] else c.buffer;
  offered = c.offered ++ ev ∷ [];
}

unfoldable pub broadcast : EventRow → Hub → Hub
broadcast ev h = record h { clients = map (where_do (λ c. c.member) (offer ev)) h.clients }

unfoldable pub subscribe : Hub → Hub
subscribe h = record {
  clients =
      record {
        id = h.next;
        phase = serving;
        member = true;
        closed = false;
        buffer = [];
        offered = [];
        received = [];
      }
      ∷ h.clients;
  next = suc h.next;
}

abbrev pub is_serving : Phase → Bool
is_serving serving = true
is_serving _ = false

abbrev pub is_leaving : Phase → Bool
is_leaving leaving = true
is_leaving _ = false

-- The steps of the goroutine of a request. `leave` and `close` are the two halves of `unsubscribe`,
-- and `receive` is a round of the loop of `ServeHTTP`, with the queue as it finds it.
abbrev pub leave : Client → Client
leave c = if is_serving c.phase then record c { phase = leaving; member = false } else c

abbrev pub close : Client → Client
close c = if is_leaving c.phase then record c { phase = gone; closed = true } else c

abbrev pub receive_from : Client → List EventRow → Client
receive_from c [] = c
receive_from c (ev ∷ rest) = record c { buffer = rest; received = c.received ++ ev ∷ [] }

abbrev pub receive : Client → Client
receive c = if is_serving c.phase then receive_from c c.buffer else c

-- A step of the request with the channel `id`.
abbrev pub at_client : ℕ → (Client → Client) → Hub → Hub
at_client id f h = record h { clients = map (where_do (λ c. c.id == id) f) h.clients }

pub data Step : Hub → Hub → Type 0 where
  broadcasts : (ev : EventRow) (h : Hub) → Step h (broadcast ev h)
  subscribes : (h : Hub) → Step h (subscribe h)
  receives : (id : ℕ) (h : Hub) → Step h (at_client id receive h)
  leaves : (id : ℕ) (h : Hub) → Step h (at_client id leave h)
  closes : (id : ℕ) (h : Hub) → Step h (at_client id close h)

pub data Reached : Hub → Type 0 where
  started : Reached new_hub
  stepped : (h h' : Hub) → Reached h → Step h h' → Reached h'
