-- ===== src/Discovery/Icmp/Genuine.antt =====
-- Only a genuine reply makes `Ping` of internal/discovery/icmp.go return true.
use network_enumerator.Common.{
  ℕ, ◌<◌, ◌≡◌, refl, Bool, true, false, ◌&&◌, ◌||◌, not, Option, none, some, List, ◌∷◌, map, ◌==◌,
  subst, Text, ==_iff, text_eq, any, All, find_if, if◌then◌else◌, arith, Bool-cases, inl, inr, sym,
  ◌∙◌,
}
use network_enumerator.Store.Table.Laws.{All-imp, All-map, All-keep}
use network_enumerator.Store.Table.Find.{find_if-holds, All-both, All-find_if}
use network_enumerator.Discovery.Icmp.{
  Socket, Packet, Ping, Waiter, Pinger, for_seq, begin_ping, signal, dispatch, read_packet, ended,
  end_ping, Reached, opened, begins, reads, ends,
}

-- The packet is an echo reply to the ping: with the id of the process, unless the kernel sorts the
-- replies, with the sequence number of the ping, and from its address.
abbrev pub is_answer : Socket → Ping → Packet → Bool
is_answer socket g packet =
    packet.is_echo_reply
    && ((socket.using_udp || (packet.id == socket.id))
        && ((packet.seq == g.seq) && text_eq g.ip packet.peer))

abbrev pub Heard : Socket → List Packet → Ping → Type 0
Heard socket packets g = any (is_answer socket g) packets ≡ true

-- A waiter and a ping of one call have the same number and address.
abbrev Fits : Waiter → Ping → Type 0
Fits w g = g.number ≡ w.ping → (g.seq ≡ w.seq) × (g.ip ≡ w.ip)

abbrev Sound : Socket → List Packet → ℕ → Ping → Type 0
Sound socket packets next g =
    (g.number < next)
    × (g.signalled ≡ true → Heard socket packets g)
    × (g.result ≡ some true → g.signalled ≡ true)

record Invariant (socket : Socket) (packets : List Packet) (p : Pinger) : Type 0 where
  waiting : All (λ w. (w.ping < p.next) × All (Fits w) p.pings) p.waiters
  sound : All (Sound socket packets p.next) p.pings

-- What both branches have, an `if` has.
either :
    {A : Type 0} (P : A → Type 0) (b : Bool) (x y : A)
    → (b ≡ true → P x)
    → (b ≡ false → P y)
    → P (if b then x else y)
either P true x y k l = k refl
either P false x y k l = l refl

module _ (socket : Socket) (packets : List Packet) (p : Pinger) where
  begin_ping-Invariant :
      (ip : Text) → Invariant socket packets p → Invariant socket packets (begin_ping ip p)
  unfolding begin_ping
  begin_ping-Invariant ip i = record {
    waiting = (
      (
        omega arith,
        (
          (λ e. (refl, refl)),
          All-imp (Sound socket packets p.next) _ p.pings
              (λ g (low, heard, done) e. let no : ⊥ = omega arith in elim no [ ]) i.sound,
        ),
      ),
      All-keep (λ w. (w.ping < p.next) × All (Fits w) p.pings) _ _ p.waiters
          (λ w kept (low, fits).
            (omega arith, ((λ e. let no : ⊥ = omega arith in elim no [ ]), fits)))
          i.waiting,
    );
    sound = (
      (omega arith, (λ e. cc e), (λ e. cc e)),
      All-imp _ _ p.pings (λ g (low, heard, done). (omega arith, heard, done)) i.sound,
    );
  }

  -- A ping that keeps its call, number and address still fits.
  Fits-same :
      (w : Waiter) (f : Ping → Ping)
      → ((g : Ping) → ((f g).number ≡ g.number) × ((f g).seq ≡ g.seq) × ((f g).ip ≡ g.ip))
      → All (Fits w) p.pings
      → All (Fits w) (map f p.pings)
  Fits-same w f same =
      All-map (Fits w) (Fits w) f p.pings
        λ g fits e. let (n, s, a) = same g in let (es, ea) = fits (sym n ∙ e) in (s ∙ es, a ∙ ea)

  signal-same :
      (n : ℕ) (g : Ping)
      → ((signal n g).number ≡ g.number) × ((signal n g).seq ≡ g.seq) × ((signal n g).ip ≡ g.ip)
  signal-same n g = elim (Bool-cases (g.number == n)) [
    | inl c ↦ rw c (refl, refl, refl)
    | inr c ↦ rw c (refl, refl, refl)
  ]

  ended-same :
      (n : ℕ) (picks : Bool) (g : Ping)
      → ((ended n picks g).number ≡ g.number)
        × ((ended n picks g).seq ≡ g.seq)
        × ((ended n picks g).ip ≡ g.ip)
  ended-same n picks g = elim (Bool-cases (g.number == n)) [
    | inl c ↦ rw c (refl, refl, refl)
    | inr c ↦ rw c (refl, refl, refl)
  ]

  louder : (packet : Packet) (g : Ping) → Heard socket packets g → Heard socket (packet ∷ packets) g
  louder packet g heard = ground (arith, heard)

  -- A packet more does no harm.
  later : (packet : Packet) → Invariant socket packets p → Invariant socket (packet ∷ packets) p
  later packet i = record {
    waiting = i.waiting;
    sound =
        All-imp _ _ p.pings (λ g (low, heard, done). (low, (λ e. louder packet g (heard e)), done))
          i.sound;
  }

  signal-Sound :
      (packet : Packet) (w : Waiter) (g : Ping)
      → packet.is_echo_reply ≡ true
      → (socket.using_udp || (packet.id == socket.id)) ≡ true
      → for_seq packet.seq w ≡ true
      → text_eq w.ip packet.peer ≡ true
      → Fits w g
      → Sound socket packets p.next g
      → Sound socket (packet ∷ packets) p.next (signal w.ping g)
  signal-Sound packet w g reply ours seq peer fits (low, heard, done) =
      either (Sound socket (packet ∷ packets) p.next) (g.number == w.ping) _ _
        (λ c.
          let (es, ea) = fits ((==_iff g.number w.ping).0 c) in
          let same_seq : (packet.seq == g.seq) ≡ true = ground (arith, es, seq) in
          let same_ip : text_eq g.ip packet.peer ≡ true =
            subst (λ a. text_eq a packet.peer ≡ true) (sym ea) peer in
          (low, (λ e. ground (arith, reply, ours, same_seq, same_ip)), (λ e. refl)))
        (λ c. (low, (λ e. louder packet g (heard e)), done))

  dispatch-Invariant :
      (packet : Packet)
      → packet.is_echo_reply ≡ true
      → (socket.using_udp || (packet.id == socket.id)) ≡ true
      → (o : Option Waiter) → find_if (for_seq packet.seq) p.waiters ≡ o
      → Invariant socket packets p
      → Invariant socket (packet ∷ packets) (dispatch packet o p)
  unfolding dispatch
  dispatch-Invariant packet reply ours none found i = later packet i
  dispatch-Invariant packet reply ours (some w) found i =
      elim (Bool-cases (text_eq w.ip packet.peer)) [
        | inr c ↦ rw c (later packet i)
        | inl c ↦
            let fits = All-find_if _ (for_seq packet.seq) p.waiters found i.waiting in
            let seq = find_if-holds (for_seq packet.seq) p.waiters found in
            rw c (record {
              waiting =
                  All-imp _ _ p.waiters
                    (λ v (low, fit). (low, Fits-same v (signal w.ping) (signal-same w.ping) fit))
                    i.waiting;
              sound =
                  All-map _ _ (signal w.ping) p.pings
                    (λ g (fit, sound). signal-Sound packet w g reply ours seq c fit sound)
                    (All-both (Fits w) (Sound socket packets p.next) p.pings fits.1 i.sound);
            })
      ]

  read_packet-Invariant :
      (packet : Packet)
      → Invariant socket packets p
      → Invariant socket (packet ∷ packets) (read_packet socket packet p)
  unfolding read_packet
  read_packet-Invariant packet i =
      either (Invariant socket (packet ∷ packets)) (not packet.is_echo_reply) _ _
        (λ c. later packet i)
        λ c.
          either (Invariant socket (packet ∷ packets))
            (not socket.using_udp && not (packet.id == socket.id)) _ _ (λ d. later packet i)
            (λ d. dispatch-Invariant packet (ground arith) (ground arith) _ refl i)

  ended-Sound :
      (n : ℕ) (picks : Bool) (g : Ping)
      → Sound socket packets p.next g
      → Sound socket packets p.next (ended n picks g)
  ended-Sound n picks g (low, heard, done) =
      either (Sound socket packets p.next) (g.number == n) _ _
        (λ c. (low, heard, (λ e. let b : (picks && g.signalled) ≡ true = cc e in ground arith)))
        (λ c. (low, heard, done))

  end_ping-Invariant :
      (g : Ping) (picks : Bool)
      → Invariant socket packets p
      → Invariant socket packets (end_ping g picks p)
  unfolding end_ping
  end_ping-Invariant g picks i = record {
    waiting =
        All-keep (λ w. (w.ping < p.next) × All (Fits w) p.pings) _ _ p.waiters
          (λ w kept (low, fit).
            (low, Fits-same w (ended g.number picks) (ended-same g.number picks) fit))
          i.waiting;
    sound = All-map _ _ (ended g.number picks) p.pings (ended-Sound g.number picks) i.sound;
  }

reached-Invariant :
    (socket : Socket) (packets : List Packet) (p : Pinger)
    → Reached socket packets p
    → Invariant socket packets p
reached-Invariant socket packets p opened = record { waiting = tt; sound = tt }
reached-Invariant socket packets p (begins _ q ip r) =
    begin_ping-Invariant socket packets q ip (reached-Invariant socket packets q r)
reached-Invariant socket packets p (reads before q packet r) =
    read_packet-Invariant socket before q packet (reached-Invariant socket before q r)
reached-Invariant socket packets p (ends _ q g picks found r) =
    end_ping-Invariant socket packets q g picks (reached-Invariant socket packets q r)

-- Whatever packets arrive and however the calls interleave, a call of `Ping` that returned true has
-- heard a genuine reply: an echo reply with the id of the process (on the socket where the kernel does
-- not sort the replies), with the sequence number of the call, and from the address that it pinged.
pub reached-Heard :
    (socket : Socket) (packets : List Packet) (p : Pinger)
    → Reached socket packets p
    → All (λ (g : Ping). g.result ≡ some true → Heard socket packets g) p.pings
reached-Heard socket packets p r =
    All-imp _ _ p.pings (λ g (low, heard, done) e. heard (done e))
      (reached-Invariant socket packets p r).sound
