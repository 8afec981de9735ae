-- ===== src/BrowserConn/Fifo.antt =====
-- The queue of pkg/wasm/dialer/websocket_conn.go as a bounded first-in first-out queue.
use grpc_tunnel.Prelude.{
  ℕ, ◌+◌, ◌≤◌, ◌<◌, ◌≡◌, ◌↔◌, ◌⊎◌, sym, ap, ap₂, subst, leb, ◌∙◌, false, none, some, List, [], ◌∷◌,
  ◌++◌, length, get_or, set, drop, arith, Bool-cases, inl, inr, length-append, length-drop,
  length-set, drop-append, drop-set, drop-get_or, drop_all,
}
use native.Mathlib.Numerals.{add-one}
use grpc_tunnel.BrowserConn.{
  Queue, clear_head, push, shift, append_message, shifted, settle, depth, empty_queue,
  would_overflow, limit_queued_bytes, limit_queued_messages,
}

-- The messages that wait, oldest first.
abbrev pub waiting : Queue → List (List ℕ)
waiting q = drop q.shift_start q.messages

unfoldable pub total_bytes : List (List ℕ) → ℕ
total_bytes [] = 0
total_bytes (m ∷ ms) = length m + total_bytes ms

-- The accounts agree with the contents, and the contents are within the limits.
pub record IsValid (q : Queue) : Type 0 where
  pub start_in : q.shift_start ≤ length q.messages
  pub bytes_counted : q.bytes_size ≡ total_bytes (waiting q)
  pub few : length (waiting q) ≤ limit_queued_messages
  pub small : total_bytes (waiting q) ≤ limit_queued_bytes

pub empty_queue-IsValid : IsValid empty_queue
unfolding total_bytes
empty_queue-IsValid = omega arith

depth-waiting : (q : Queue) → depth q ≡ length (waiting q)
depth-waiting q = omega (arith, length-drop q.shift_start q.messages)

total_bytes-append :
    (ms ns : List (List ℕ)) → total_bytes (ms ++ ns) ≡ total_bytes ms + total_bytes ns
unfolding total_bytes
total_bytes-append [] ns = omega arith
total_bytes-append (m ∷ ms) ns = omega (arith, total_bytes-append ms ns)

-- Compaction moves the messages that wait, and loses none.
pub clear_head-waiting :
    (q : Queue) → (waiting (clear_head q) ≡ waiting q) × ((clear_head q).bytes_size ≡ q.bytes_size)
unfolding clear_head
clear_head-waiting q = (ground arith, ground arith)

clear_head-start_in :
    (q : Queue)
    → q.shift_start ≤ length q.messages
    → (clear_head q).shift_start ≤ length (clear_head q).messages
unfolding clear_head
clear_head-start_in q h = ground arith

clear_head-IsValid : (q : Queue) → IsValid q → IsValid (clear_head q)
clear_head-IsValid q v =
    let kept = clear_head-waiting q in
    record {
      start_in = clear_head-start_in q v.start_in;
      bytes_counted = kept.1 ∙ (v.bytes_counted ∙ ap total_bytes (sym kept.0));
      few = rw kept.0 v.few;
      small = rw kept.0 v.small;
    }

module _ (grow : ℕ → ℕ → ℕ) where
  append_message-waiting :
      (q : Queue) (m : List ℕ) → IsValid q → waiting (append_message grow q m) ≡ waiting q ++ m ∷ []
  append_message-waiting q m v = drop-append q.shift_start q.messages (m ∷ []) v.start_in

  append_message-IsValid :
      (q : Queue) (m : List ℕ)
      → IsValid q
      → length (waiting q) < limit_queued_messages
      → total_bytes (waiting q) + length m ≤ limit_queued_bytes
      → IsValid (append_message grow q m)
  unfolding total_bytes
  append_message-IsValid q m v few small =
      let added = append_message-waiting q m v in
      let total = total_bytes-append (waiting q) (m ∷ []) in
      record {
        start_in = omega (arith, v.start_in, length-append q.messages (m ∷ []));
        bytes_counted =
            ap (λ n. n + length m) v.bytes_counted ∙ omega (arith, total, ap total_bytes added);
        few = omega (arith, length-append (waiting q) (m ∷ []), ap length added);
        small = omega (arith, total, ap total_bytes added);
      }

  push-none :
      (q : Queue) (m : List ℕ)
      → would_overflow q m ≡ false
      → IsValid q
      → (length (waiting q) < limit_queued_messages)
        × (total_bytes (waiting q) + length m ≤ limit_queued_bytes)
  push-none q m h v = (ground (arith, depth-waiting q), ground (arith, v.bytes_counted))

  -- Either the queue is at a limit and refuses the message, or the message is queued behind the
  -- others, which stay; a valid queue stays valid.
  pub push_refines :
      (q q' : Queue) (m : List ℕ)
      → IsValid q
      → push grow q m ≡ some q'
      → (waiting q' ≡ waiting q ++ m ∷ []) × IsValid q'
  unfolding push
  push_refines q q' m v h = elim (Bool-cases (would_overflow q m)) [
    | inl over ↦ absurd (ground arith)
    | inr fits ↦
        let kept = clear_head-waiting q in
        let room = push-none q m fits v in
        let valid = clear_head-IsValid q v in
        let same : append_message grow (clear_head q) m ≡ q' = ground arith in
        subst (λ r. (waiting r ≡ waiting q ++ m ∷ []) × IsValid r) same
          (
            append_message-waiting (clear_head q) m valid ∙ ap (λ ms. ms ++ m ∷ []) kept.0,
            append_message-IsValid (clear_head q) m valid (rw kept.0 room.0) (rw kept.0 room.1),
          )
  ]

  pub push_refuses :
      (q : Queue) (m : List ℕ)
      → IsValid q
      → (push grow q m ≡ none) ↔ (
          (limit_queued_messages ≤ length (waiting q))
          ⊎ (limit_queued_bytes < total_bytes (waiting q) + length m))
  unfolding push
  push_refuses q m v = (
    λ h. ground (arith, depth-waiting q, v.bytes_counted),
    λ h. ground (arith, depth-waiting q, v.bytes_counted),
  )

abbrev oldest : Queue → List ℕ
oldest q = get_or q.messages q.shift_start []

shifted-waiting :
    (q : Queue)
    → q.shift_start < length q.messages
    → waiting q ≡ oldest q ∷ waiting (shifted q (oldest q))
shifted-waiting q h =
    drop-get_or q.shift_start q.messages [] h
    ∙ ap (◌∷◌ (oldest q)) (
        sym (drop-set q.shift_start q.messages [])
        ∙ ap (λ i. drop i (set q.messages q.shift_start [])) (sym (add-one q.shift_start)))

shifted-IsValid :
    (q : Queue) → q.shift_start < length q.messages → IsValid q → IsValid (shifted q (oldest q))
unfolding total_bytes
shifted-IsValid q h v =
    let split = shifted-waiting q h in
    record {
      start_in = omega (arith, length-set q.messages q.shift_start []);
      bytes_counted = omega (arith, v.bytes_counted, ap total_bytes split);
      few = omega (arith, v.few, ap length split);
      small = omega (arith, v.small, ap total_bytes split);
    }

emptied-IsValid :
    (q : Queue)
    → length q.messages ≤ q.shift_start
    → IsValid q
    → IsValid (record q { messages = []; shift_start = 0 })
unfolding total_bytes
emptied-IsValid q h v =
    let gone = drop_all q.shift_start q.messages h in
    record {
      start_in = omega arith;
      bytes_counted = v.bytes_counted ∙ ap total_bytes gone;
      few = omega arith;
      small = omega arith;
    }

settle-IsValid : (q : Queue) → IsValid q → (waiting (settle q) ≡ waiting q) × IsValid (settle q)
settle-IsValid q v = elim (Bool-cases (leb (length q.messages) q.shift_start)) [
  | inl empty ↦
      rw empty
        (sym (drop_all q.shift_start q.messages (ground arith)), emptied-IsValid q (ground arith) v)
  | inr more ↦ rw more ((clear_head-waiting q).0, clear_head-IsValid q v)
]

pub shift_refines :
    (q q' : Queue) (m : List ℕ)
    → IsValid q
    → shift q ≡ some (m, q')
    → (waiting q ≡ m ∷ waiting q') × IsValid q'
unfolding shift
shift_refines q q' m v h = elim (Bool-cases (leb (length q.messages) q.shift_start)) [
  | inl empty ↦ absurd (ground arith)
  | inr more ↦
      let within : q.shift_start < length q.messages = ground arith in
      let settled = settle-IsValid (shifted q (oldest q)) (shifted-IsValid q within v) in
      let first : oldest q ≡ m = ground arith in
      let next : settle (shifted q (oldest q)) ≡ q' = ground arith in
      (
        shifted-waiting q within ∙ ap₂ ◌∷◌ first (sym settled.0 ∙ ap waiting next),
        subst IsValid next settled.1,
      )
]

pub shift_empty : (q : Queue) → (shift q ≡ none) ↔ (waiting q ≡ [])
unfolding shift
shift_empty q = (
  λ h. ground (arith, drop_all q.shift_start q.messages),
  λ h. ground (arith, ap length h, length-drop q.shift_start q.messages),
)
