-- ===== src/BrowserConn/Connection/Reading.antt =====
-- `Read` of pkg/wasm/dialer/websocket_conn.go: it comes to an end or waits, and loses no byte.
use mathlib.Core.List.{flatten}
use grpc_tunnel.Prelude.{
  ℕ, ◌≤◌, ◌≡◌, refl, sym, ap, ◌∙◌, Bool, none, some, List, [], ◌∷◌, ◌++◌, append_assoc, ltb,
  if◌then◌else◌, length, take, drop, take-append-drop, length-take, drop_all, arith, Bool-cases,
  inl, inr,
}
use grpc_tunnel.BrowserConn.{Queue, BrowserError}
use grpc_tunnel.BrowserConn.Fifo.{waiting, IsValid, shift_refines}
use grpc_tunnel.BrowserConn.Connection.Rule.{read_rule, with_signal}
use grpc_tunnel.BrowserConn.Connection.{
  Connection, ReadOutcome, returns, waits, deliver, take_error, read,
}

-- The bytes that have come in and have not been read.
abbrev pub unread : Connection → List ℕ
unread c = c.read_buffer ++ flatten (waiting c.queue)

-- What an outcome owes to the connection that it starts from.
abbrev pub Owes : Connection → ℕ → ReadOutcome → Type 0
Owes c n (returns bs none c') = (length bs ≤ n) × (unread c ≡ bs ++ unread c')
Owes c n (returns bs (some e) c') = (bs ≡ []) × (unread c' ≡ unread c)
Owes c n (waits c') = unread c' ≡ unread c

-- What `copy` leaves over is the tail that is kept.
kept_tail : (n : ℕ) (m b : List ℕ) → b ≡ [] → (if ltb n (length m) then drop n m else b) ≡ drop n m
kept_tail n m b h = elim (Bool-cases (ltb n (length m))) [
  | inl more ↦ rw more
  | inr whole ↦ rw whole (h ∙ sym (drop_all n m (ground arith)))
]

deliver-Owes :
    (c : Connection) (n : ℕ) (m : List ℕ) (q : Queue)
    → c.read_buffer ≡ []
    → waiting c.queue ≡ m ∷ waiting q
    → Owes c n (deliver n c (m, q))
unfolding flatten
deliver-Owes c n m q h w = (
  omega (arith, length-take n m),
  rw (kept_tail n m c.read_buffer h, h, w)
      (ap (λ xs. xs ++ flatten (waiting q)) (sym (take-append-drop n m))
        ∙ append_assoc (take n m) (drop n m) (flatten (waiting q))),
)

take_error-Owes :
    (c : Connection) (signal : Bool) (n : ℕ) (es : List BrowserError)
    → Owes c n (take_error (with_signal c signal) es)
take_error-Owes c signal n [] = (refl, refl)
take_error-Owes c signal n (e ∷ es) = (refl, refl)

-- A `Read` that returns no error fits its buffer and takes the next unread bytes; one that returns
-- an error returns no byte with it, and one that waits takes none: both leave every byte unread.
pub read-Owes :
    (choice : Bool) (n : ℕ) (c : Connection) (out : ReadOutcome)
    → IsValid c.queue
    → read choice n c ≡ some out
    → Owes c n out
read-Owes choice n c out v e =
    read_rule (Owes c n) choice n c
      (λ empty. record {
        delivers = λ signal m q h. deliver-Owes c n m q empty (shift_refines c.queue q m v h).0;
        fails = λ signal h. take_error-Owes c signal n c.errors;
        sleeps = λ h f. refl;
      })
      (λ o. (
        omega (arith, length-take n c.read_buffer),
        ap (λ ys. ys ++ flatten (waiting c.queue)) (sym (take-append-drop n c.read_buffer))
            ∙ append_assoc (take n c.read_buffer) (drop n c.read_buffer)
                (flatten (waiting c.queue)),
      ))
      out (λ o. (refl, refl)) e
