-- ===== src/Socket/Ownership.antt =====
-- Which socket the client listens to, and which closed sockets count as expected.
use geoduels.Base.{
  ◌↔◌, false, ℕ, suc, ◌<◌, ◌≡◌, refl, sym, subst, ◌≢◌, ◌⊎◌, inr, true, false, none, some, [], ◌∷◌,
  arith, nat_eq,
}
use geoduels.Socket.{
  SocketClient, ReadyState, connecting, ready, closed, SocketEvent, opened, errored, was_closed,
  received, on_close, fresh_client, close, connect, on_event, update,
}

-- What the browser may report of a socket in a state: a new one opens, an open one delivers, and
-- the end is reported once.
abbrev pub IsPossible : SocketEvent → ReadyState → Type 0
IsPossible opened s = s ≡ connecting
IsPossible (received m) s = s ≡ ready
IsPossible errored s = s ≢ closed
IsPossible was_closed s = s ≢ closed

-- What the client does, or the browser reports.
pub data Step (c : SocketClient) (d : SocketClient) : Type 0 where
  connects : d ≡ connect c → Step c d
  closes : d ≡ close c true → Step c d
  reports :
      (i : ℕ) (e : SocketEvent)
      → i < c.next
      → IsPossible e (c.sockets i).ready_state
      → d ≡ (on_event c i e).0
      → Step c d

pub data Reach : SocketClient → Type 0 where
  start : {c : SocketClient} → c ≡ fresh_client → Reach c
  next : {c d : SocketClient} → Reach c → Step c d → Reach d

-- A socket that the client has let go of was closed by the client or has reported its own end;
-- the current one was not closed by the client; sockets are numbered below `next`.
pub record Inv (c : SocketClient) : Type 0 where
  pub current_below : (i : ℕ) → c.socket ≡ some i → i < c.next
  pub current_wanted : (i : ℕ) → c.socket ≡ some i → (c.sockets i).expected_close ≡ false
  pub others_done :
      (i : ℕ)
      → i < c.next
      → c.socket ≢ some i
      → ((c.sockets i).expected_close ≡ true) ⊎ ((c.sockets i).ready_state ≡ closed)

fresh_client-Inv : Inv fresh_client
unfolding fresh_client
fresh_client-Inv = record {
  current_below = λ i h. cc;
  current_wanted = λ i h. cc;
  others_done = λ i b h. inr refl;
}

close-Inv : (c : SocketClient) → Inv c → Inv (close c true)
unfolding close
close-Inv c v = record {
  current_below = λ i h. grind (arith, v.current_below i);
  current_wanted = λ i h. grind (arith, v.current_wanted i);
  others_done = λ i b h. grind (arith, v.others_done i);
}

socket-close : (c : SocketClient) → (close c true).socket ≡ none
unfolding close
socket-close c = ground arith

open_fresh-Inv :
    (c : SocketClient)
    → Inv c
    → c.socket ≡ none
    → Inv (record {
      socket = some c.next;
      sockets =
          update c.sockets c.next (record { ready_state = connecting; expected_close = false });
      next = suc c.next;
    })
open_fresh-Inv c v e = record {
  current_below = λ i h. grind arith;
  current_wanted = λ i h. grind arith;
  others_done = λ i b h. grind (arith, v.others_done i);
}

connect-Inv : (c : SocketClient) → Inv c → Inv (connect c)
unfolding connect
connect-Inv c v = open_fresh-Inv (close c true) (close-Inv c v) (socket-close c)

on_event-Inv :
    (c : SocketClient) (i : ℕ) (e : SocketEvent)
    → i < c.next
    → IsPossible e (c.sockets i).ready_state
    → Inv c
    → Inv (on_event c i e).0
unfolding on_event
on_event-Inv c i opened b p v = record {
  current_below = λ j h. v.current_below j h;
  current_wanted = λ j h. grind (arith, v.current_wanted j);
  others_done = λ j k h. grind (arith, v.others_done j);
}
on_event-Inv c i errored b p v = v
on_event-Inv c i (received m) b p v = v
on_event-Inv c i was_closed b p v = record {
  current_below = λ j h. grind (arith, v.current_below j);
  current_wanted = λ j h. grind (arith, v.current_wanted j);
  others_done = λ j k h. grind (arith, v.others_done j);
}

-- Every client that calls and events lead to keeps the invariant.
pub Reach-Inv : {c : SocketClient} → Reach c → Inv c
Reach-Inv (start e) = subst Inv (sym e) fresh_client-Inv
Reach-Inv (next {c} r (connects e)) = subst Inv (sym e) (connect-Inv c (Reach-Inv r))
Reach-Inv (next {c} r (closes e)) = subst Inv (sym e) (close-Inv c (Reach-Inv r))
Reach-Inv (next {c} r (reports i ev b p e)) =
    subst Inv (sym e) (on_event-Inv c i ev b p (Reach-Inv r))

old_socket_silent :
    (c : SocketClient) (i : ℕ) (e : SocketEvent)
    → Inv c
    → i < c.next
    → IsPossible e (c.sockets i).ready_state
    → c.socket ≢ some i
    → ((on_event c i e).0.socket ≡ c.socket)
      × (((on_event c i e).1 ≡ []) ⊎ ((on_event c i e).1 ≡ on_close true ∷ []))
unfolding on_event
old_socket_silent c i opened v b p n = grind arith
old_socket_silent c i errored v b p n = grind arith
old_socket_silent c i (received m) v b p n = grind arith
old_socket_silent c i was_closed v b p n = grind (arith, v.others_done i)

unexpected_close :
    (c : SocketClient) (i : ℕ) (e : SocketEvent)
    → Inv c
    → i < c.next
    → IsPossible e (c.sockets i).ready_state
    → (((on_event c i e).1 ≡ on_close false ∷ []) ↔ ((e ≡ was_closed) × (c.socket ≡ some i)))
unfolding on_event
unexpected_close c i opened v b p = grind arith
unexpected_close c i errored v b p = grind arith
unexpected_close c i (received m) v b p = ground arith
unexpected_close c i was_closed v b p = grind (arith, v.others_done i, v.current_wanted i)

-- For a client that any calls and browser events lead to: an unexpected close is reported exactly
-- when the current socket ends, and a socket that the client has let go of leaves the current one
-- alone and makes no call but of an expected close.
pub unexpected_close_iff :
    {c : SocketClient} (i : ℕ) (e : SocketEvent)
    → Reach c
    → i < c.next
    → IsPossible e (c.sockets i).ready_state
    → (((on_event c i e).1 ≡ on_close false ∷ []) ↔ ((e ≡ was_closed) × (c.socket ≡ some i)))
      × (c.socket ≢ some i
          → ((on_event c i e).0.socket ≡ c.socket)
            × (((on_event c i e).1 ≡ []) ⊎ ((on_event c i e).1 ≡ on_close true ∷ [])))
unexpected_close_iff {c} i e r b p =
    (unexpected_close c i e (Reach-Inv r) b p, old_socket_silent c i e (Reach-Inv r) b p)
