-- ===== src/Socket/Memory.antt =====
-- A websocket in memory that keeps the laws of Socket.antt, for the tests of both adapters.
use grpc_tunnel.Prelude.{
  ℕ, ◌≡◌, refl, sym, ◌∙◌, Option, none, some, List, [], ◌∷◌, ◌++◌, arith, length, take, drop,
  length-take, take-append-drop, ◌≤◌,
}
use grpc_tunnel.Prelude.Text.{lit}
use grpc_tunnel.Socket.{
  Socket, SocketLaws, ConnError, err_closed, eof, Next, failed, message, Message, Starts, AtEnd,
  EofOnly,
}

-- A connection in memory: the messages to come, the rest of the one that is read, and those sent.
pub record Memory : Type 0 where
  pub inbox : List Message
  pub current : List ℕ
  pub outbox : List Message

pub data TheReader : Type 0 where
  the_reader : TheReader

pub data NoFault : Type 0 where
  no_fault : NoFault

abbrev next_of : Memory → List Message → Next TheReader NoFault × Memory
next_of m [] = (failed err_closed, m)
next_of m ((t, p) ∷ ms) = (message t the_reader, record m { inbox = ms; current = p })

abbrev read_of : Memory → List ℕ → ℕ → List ℕ × Option (ConnError NoFault) × Memory
read_of m [] n = ([], some eof, m)
read_of m (b ∷ bs) n = (take n (b ∷ bs), none, record m { current = drop n (b ∷ bs) })

abbrev pub memory : Socket
memory = record {
  Conn = Memory;
  Reader = TheReader;
  Fault = NoFault;
  next_reader = λ m. next_of m m.inbox;
  read = λ m r n. read_of m m.current n;
  write_message = λ m t p. (none, record m { outbox = m.outbox ++ (t, p) ∷ [] });
  close = λ m. (none, m);
  set_read_deadline = λ m t. (none, m);
  set_write_deadline = λ m t. (none, m);
  local_addr = λ m. lit "local";
  remote_addr = λ m. lit "remote";
}

pub memory-Starts :
    (m : Memory) (ms : List Message)
    → m.inbox ≡ ms
    → Starts memory (λ c. c.inbox) (λ c r. c.current) m (next_of m ms)
memory-Starts m [] e = tt
memory-Starts m ((t, p) ∷ ms) e = e

pub memory_fits : (m : Memory) (bs : List ℕ) (n : ℕ) → length (read_of m bs n).0 ≤ n
memory_fits m [] n = omega arith
memory_fits m (b ∷ bs) n = ground (arith, length-take n (b ∷ bs))

pub memory_rest :
    (m : Memory) (bs : List ℕ) (n : ℕ)
    → m.current ≡ bs
    → m.current ≡ (read_of m bs n).0 ++ (read_of m bs n).2.current
memory_rest m [] n e = refl
memory_rest m (b ∷ bs) n e = e ∙ sym (take-append-drop n (b ∷ bs))

pub memory_inbox : (m : Memory) (bs : List ℕ) (n : ℕ) → (read_of m bs n).2.inbox ≡ m.inbox
memory_inbox m [] n = refl
memory_inbox m (b ∷ bs) n = refl

pub memory_eof :
    (m : Memory) (bs : List ℕ) (n : ℕ)
    → m.current ≡ bs
    → AtEnd (EofOnly (read_of m bs n).2.current) (read_of m bs n).1
memory_eof m [] n e = e
memory_eof m (b ∷ bs) n e = tt

-- The socket in memory keeps what is asked of a socket.
abbrev pub memory_laws : SocketLaws memory
memory_laws = record {
  inbox = λ m. m.inbox;
  rest = λ m r. m.current;
  outbox = λ m. m.outbox;
  next_starts = λ m. memory-Starts m m.inbox refl;
  read_fits = λ m r n. memory_fits m m.current n;
  read_rest = λ m r n. memory_rest m m.current n refl;
  read_inbox = λ m r n. memory_inbox m m.current n;
  read_eof = λ m r n. memory_eof m m.current n refl;
  write_sends = λ m t p h. refl;
}
