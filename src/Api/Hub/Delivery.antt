-- ===== src/Api/Hub/Delivery.antt =====
-- What a browser gets from the hub of internal/api/sse.go.
use network_enumerator.Common.{
  suc, ◌≤◌, ◌<◌, ◌≡◌, refl, ap, sym, subst, ◌∙◌, Bool, true, false, ◌⊎◌, inl, inr, List, [], ◌∷◌,
  ◌++◌, map, ltb, ltb→lt, ◌==◌, length, length-append, All, arith, Bool-cases,
}
use mathlib.Core.List.{append_assoc}
use network_enumerator.Store.Table.{where_do}
use network_enumerator.Store.Schema.{EventRow}
use network_enumerator.Api.Hub.{
  Hub, Client, Phase, serving, leaving, gone, capacity, offer, broadcast, subscribe, is_serving,
  is_leaving, leave, close, receive_from, receive, Step, broadcasts, subscribes, receives, leaves,
  closes, Reached, started, stepped,
}

-- The first list is the second with some elements left out.
abbrev pub LeavesOut : List EventRow → List EventRow → Type 0
LeavesOut xs [] = xs ≡ []
LeavesOut xs (y ∷ ys) = LeavesOut xs ys ⊎ ((zs : List EventRow) × (xs ≡ y ∷ zs) × LeavesOut zs ys)

LeavesOut-drop :
    (xs ys : List EventRow) (ev : EventRow) → LeavesOut xs ys → LeavesOut xs (ys ++ ev ∷ [])
LeavesOut-drop xs [] ev h = inl h
LeavesOut-drop xs (y ∷ ys) ev (inl h) = inl (LeavesOut-drop xs ys ev h)
LeavesOut-drop xs (y ∷ ys) ev (inr (zs, e, h)) = inr (zs, e, LeavesOut-drop zs ys ev h)

LeavesOut-add :
    (xs ys : List EventRow) (ev : EventRow)
    → LeavesOut xs ys
    → LeavesOut (xs ++ ev ∷ []) (ys ++ ev ∷ [])
LeavesOut-add xs [] ev h = inr ([], ap (λ l. l ++ ev ∷ []) h, refl)
LeavesOut-add xs (y ∷ ys) ev (inl h) = inl (LeavesOut-add xs ys ev h)
LeavesOut-add xs (y ∷ ys) ev (inr (zs, e, h)) =
    inr (zs ++ ev ∷ [], ap (λ l. l ++ ev ∷ []) e, LeavesOut-add zs ys ev h)

-- A channel in the map is open, and only the goroutine that left the map may close it. The queue is
-- no longer than its capacity. What was sent and what is queued is what was broadcast, in order, with
-- some events left out.
pub record IsSound (c : Client) : Type 0 where
  pub in_map : c.member ≡ is_serving c.phase
  pub open_in_map : c.member ≡ true → c.closed ≡ false
  pub closed_once : is_leaving c.phase ≡ true → c.closed ≡ false
  pub bounded : length c.buffer ≤ capacity
  pub in_order : LeavesOut (c.received ++ c.buffer) c.offered

offer-IsSound : (ev : EventRow) (c : Client) → IsSound c → IsSound (offer ev c)
offer-IsSound ev c s = elim (Bool-cases (ltb (length c.buffer) capacity)) [
  | inl k ↦
      let room : length c.buffer < capacity = ltb→lt _ _ k in
      record {
        in_map = s.in_map;
        open_in_map = s.open_in_map;
        closed_once = s.closed_once;
        bounded = rw k (omega (arith, length-append c.buffer (ev ∷ [])));
        in_order = rw k (
            subst (λ l. LeavesOut l (c.offered ++ ev ∷ []))
              (append_assoc c.received c.buffer (ev ∷ []))
              (LeavesOut-add (c.received ++ c.buffer) c.offered ev s.in_order));
      }
  | inr k ↦ record {
    in_map = s.in_map;
    open_in_map = s.open_in_map;
    closed_once = s.closed_once;
    bounded = rw k s.bounded;
    in_order = rw k (LeavesOut-drop (c.received ++ c.buffer) c.offered ev s.in_order);
  }
]

receive_from-IsSound :
    (c : Client) (queue : List EventRow)
    → c.buffer ≡ queue
    → IsSound c
    → IsSound (receive_from c queue)
receive_from-IsSound c [] e s = s
receive_from-IsSound c (ev ∷ rest) e s = record {
  in_map = s.in_map;
  open_in_map = s.open_in_map;
  closed_once = s.closed_once;
  bounded =
      let whole : length c.buffer ≡ suc (length rest) = ap length e in
      let old : length c.buffer ≤ capacity = s.bounded in omega arith;
  in_order =
      subst (λ l. LeavesOut l c.offered) (sym (append_assoc c.received (ev ∷ []) rest))
        (subst (λ q. LeavesOut (c.received ++ q) c.offered) e s.in_order);
}

receive-IsSound : (c : Client) → IsSound c → IsSound (receive c)
receive-IsSound c s = elim (Bool-cases (is_serving c.phase)) [
  | inl k ↦ rw k (receive_from-IsSound c c.buffer refl s)
  | inr k ↦ rw k s
]

leave-IsSound : (c : Client) → IsSound c → IsSound (leave c)
leave-IsSound c s = elim (Bool-cases (is_serving c.phase)) [
  | inr k ↦ rw k s
  | inl k ↦ rw k (record {
    in_map = refl;
    open_in_map = λ no. cc;
    closed_once = λ _. s.open_in_map (s.in_map ∙ k);
    bounded = s.bounded;
    in_order = s.in_order;
  })
]

left_map : (p : Phase) → is_leaving p ≡ true → is_serving p ≡ false
left_map serving h = cc
left_map leaving h = refl
left_map gone h = cc

close-IsSound : (c : Client) → IsSound c → IsSound (close c)
close-IsSound c s = elim (Bool-cases (is_leaving c.phase)) [
  | inr k ↦ rw k s
  | inl k ↦
      let out : c.member ≡ false = s.in_map ∙ left_map c.phase k in
      rw k (record {
        in_map = out;
        open_in_map = λ yes. cc;
        closed_once = λ no. cc;
        bounded = s.bounded;
        in_order = s.in_order;
      })
]

All-IsSound :
    (p : Client → Bool) (f : Client → Client) (clients : List Client)
    → ((c : Client) → IsSound c → IsSound (f c))
    → All IsSound clients
    → All IsSound (map (where_do p f) clients)
All-IsSound p f [] h a = tt
All-IsSound p f (c ∷ clients) h (s, a) = elim (Bool-cases (p c)) [
  | inl k ↦ rw k (h c s, All-IsSound p f clients h a)
  | inr k ↦ rw k (s, All-IsSound p f clients h a)
]

Step-IsSound : {h h' : Hub} → Step h h' → All IsSound h.clients → All IsSound h'.clients
unfolding broadcast subscribe
Step-IsSound (broadcasts ev h) a =
    All-IsSound (λ c. c.member) (offer ev) h.clients (offer-IsSound ev) a
Step-IsSound (subscribes h) a = (
  record {
    in_map = refl;
    open_in_map = λ _. refl;
    closed_once = λ _. refl;
    bounded = omega arith;
    in_order = refl;
  },
  a,
)
Step-IsSound (receives id h) a = All-IsSound (λ c. c.id == id) receive h.clients receive-IsSound a
Step-IsSound (leaves id h) a = All-IsSound (λ c. c.id == id) leave h.clients leave-IsSound a
Step-IsSound (closes id h) a = All-IsSound (λ c. c.id == id) close h.clients close-IsSound a

-- In every state that the hub reaches: a channel in the map of clients is open, so `Broadcast` never
-- sends on a closed channel; a channel is closed at most once; no queue holds more than 32 events;
-- and what a browser was sent, followed by what is queued for it, is what was broadcast while it was
-- subscribed, in order, with some events left out.
pub hub-IsSound : {h : Hub} → Reached h → All IsSound h.clients
hub-IsSound started = tt
hub-IsSound (stepped h0 h r s) = Step-IsSound s (hub-IsSound r)
