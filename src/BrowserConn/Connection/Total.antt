-- ===== src/BrowserConn/Connection/Total.antt =====
-- `Read` of pkg/wasm/dialer/websocket_conn.go comes to an outcome.
use grpc_tunnel.Prelude.{
  ℕ, suc, ◌≡◌, refl, Bool, true, false, ◌&&◌, ◌||◌, not, Option, none, some, List, [], ◌∷◌, arith,
  Bool-cases, inl, inr, ◌⊎◌,
}
use grpc_tunnel.BrowserConn.{Queue, err_closed, shift}
use grpc_tunnel.BrowserConn.Connection.{
  Connection, ReadOutcome, returns, waits, take_error, has_error, select, drain, read_loop,
  read_buffered, read,
}

select-total :
    (choice : Bool) (again : Connection → Option ReadOutcome) (c : Connection)
    → ((c.message_signal ≡ false)
        ⊎ ((out : ReadOutcome) × (again (record c { message_signal = false }) ≡ some out)))
    → (out : ReadOutcome) × (select choice again c ≡ some out)
select-total choice again c next =
    elim (Bool-cases (has_error c && (choice || not c.message_signal))) [
      | inl failed ↦ (take_error c c.errors, rw failed)
      | inr open_ ↦ elim (Bool-cases c.message_signal) [
        | inr quiet ↦ (waits (record c { is_reading = true }), ground arith)
        | inl signal ↦ elim next [
          | inl quiet ↦ absurd (ground arith)
          | inr (out, e) ↦ (out, ground arith)
        ]
      ]
    ]

drain-total :
    (wait : Connection → Option ReadOutcome) (n : ℕ) (c : Connection) (s : Option (List ℕ × Queue))
    → ((out : ReadOutcome) × (wait c ≡ some out))
    → (out : ReadOutcome) × (drain wait n c s ≡ some out)
drain-total wait n c none w = w
drain-total wait n c (some (m, q)) w = (_, refl)

quiet_loop-total :
    (choice : Bool) (fuel n : ℕ) (c : Connection)
    → c.message_signal ≡ false
    → (out : ReadOutcome) × (read_loop choice (suc fuel) n c ≡ some out)
unfolding read_loop
quiet_loop-total choice fuel n c h =
    drain-total (select choice (λ c'. read_loop choice fuel n c')) n c (shift c.queue)
      (select-total choice (λ c'. read_loop choice fuel n c') c (inl h))

read_loop-total :
    (choice : Bool) (n : ℕ) (c : Connection)
    → (out : ReadOutcome) × (read_loop choice 2 n c ≡ some out)
unfolding read_loop
read_loop-total choice n c =
    drain-total (select choice (λ c'. read_loop choice 1 n c')) n c (shift c.queue) (
      select-total choice (λ c'. read_loop choice 1 n c') c
        (inr (quiet_loop-total choice 0 n (record c { message_signal = false }) refl)))

read_buffered-total :
    (choice : Bool) (n : ℕ) (c : Connection) (b : List ℕ)
    → (out : ReadOutcome) × (read_buffered choice n c b ≡ some out)
read_buffered-total choice n c [] = read_loop-total choice n c
read_buffered-total choice n c (x ∷ xs) = (_, refl)

-- A `Read` comes to an outcome, whatever `select` chooses: two rounds are enough, since the signal
-- is taken in the first.
pub read_terminates :
    (choice : Bool) (n : ℕ) (c : Connection) → (out : ReadOutcome) × (read choice n c ≡ some out)
unfolding read
read_terminates choice n c = elim (Bool-cases c.is_closed) [
  | inl shut ↦ (returns [] (some err_closed) (record c { is_reading = false }), ground arith)
  | inr open_ ↦ let total = read_buffered-total choice n c c.read_buffer in (total.0, ground arith)
]
