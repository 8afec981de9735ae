-- ===== src/BrowserConn/Refine.antt =====
-- The queue of pkg/wasm/dialer/websocket_conn.go against a list with a limit: no history tells them
-- apart.
use grpc_tunnel.Prelude.{
  ℕ, ◌+◌, ◌≡◌, refl, ◌||◌, Option, none, some, List, [], ◌∷◌, ◌++◌, leb, ltb, length, if◌then◌else◌,
  arith, Option-cases, inl, inr, ap, ap₂, ◌∙◌,
}
use grpc_tunnel.BrowserConn.{Queue, push, shift, limit_queued_bytes, limit_queued_messages}
use grpc_tunnel.BrowserConn.Fifo.{
  waiting, total_bytes, IsValid, push_refines, push_refuses, shift_refines, shift_empty,
}

-- What callbacks and readers ask of the queue, and what they see.
pub data Op : Type 0 where
  put : List ℕ → Op
  get : Op

pub data Reply : Type 0 where
  stored refused nothing : Reply
  taken : List ℕ → Reply

-- The specification: messages oldest first, within the limits.
unfoldable pub spec_put : List (List ℕ) → List ℕ → Reply × List (List ℕ)
spec_put ms m =
    if leb limit_queued_messages (length ms) || ltb limit_queued_bytes (total_bytes ms + length m)
    then (refused, ms)
    else (stored, ms ++ m ∷ [])

unfoldable pub spec_get : List (List ℕ) → Reply × List (List ℕ)
spec_get [] = (nothing, [])
spec_get (m ∷ ms) = (taken m, ms)

pub spec_run : List (List ℕ) → List Op → List Reply
spec_run ms [] = []
spec_run ms (put m ∷ ops) = let (r, ms') = spec_put ms m in r ∷ spec_run ms' ops
spec_run ms (get ∷ ops) = let (r, ms') = spec_get ms in r ∷ spec_run ms' ops

abbrev put_reply : Queue → Option Queue → Reply × Queue
put_reply q none = (refused, q)
put_reply q (some q') = (stored, q')

abbrev get_reply : Queue → Option (List ℕ × Queue) → Reply × Queue
get_reply q none = (nothing, q)
get_reply q (some (m, q')) = (taken m, q')

module _ (grow : ℕ → ℕ → ℕ) where
  unfoldable pub run : Queue → List Op → List Reply
  run q [] = []
  run q (put m ∷ ops) = let (r, q') = put_reply q (push grow q m) in r ∷ run q' ops
  run q (get ∷ ops) = let (r, q') = get_reply q (shift q) in r ∷ run q' ops

  -- A message is refused exactly where the specification refuses it, and queued otherwise.
  put-refines :
      (q : Queue) (m : List ℕ)
      → IsValid q
      → let (r, q') = put_reply q (push grow q m) in
        ((r, waiting q') ≡ spec_put (waiting q) m) × IsValid q'
  unfolding spec_put
  put-refines q m v = elim (Option-cases (push grow q m)) [
    | inl e ↦ rw e (ground (arith, (push_refuses grow q m v).0 e), v)
    | inr (q', e) ↦
        let kept = push_refines grow q q' m v e in
        rw e (ground (arith, kept, (push_refuses grow q m v).1), kept.1)
  ]

  get-refines :
      (q : Queue)
      → IsValid q
      → let (r, q') = get_reply q (shift q) in ((r, waiting q') ≡ spec_get (waiting q)) × IsValid q'
  unfolding spec_get
  get-refines q v = elim (Option-cases (shift q)) [
    | inl e ↦ rw e (rw ((shift_empty q).0 e) refl, v)
    | inr ((m, q'), e) ↦ let kept = shift_refines q q' m v e in rw e (rw (kept.0) refl, kept.1)
  ]

  -- Whatever callbacks and readers do, in any order, a valid queue answers as the specification does
  -- on the messages that wait in it.
  pub run_refines : (ops : List Op) (q : Queue) → IsValid q → run q ops ≡ spec_run (waiting q) ops
  unfolding run spec_run
  run_refines [] q v = refl
  run_refines (put m ∷ ops) q v =
      let one = put-refines q m v in
      let (r, q') = put_reply q (push grow q m) in
      ap₂ ◌∷◌ (ap (λ a. a.0) one.0) (run_refines ops q' one.1 ∙ ap (λ a. spec_run a.1 ops) one.0)
  run_refines (get ∷ ops) q v =
      let one = get-refines q v in
      let (r, q') = get_reply q (shift q) in
      ap₂ ◌∷◌ (ap (λ a. a.0) one.0) (run_refines ops q' one.1 ∙ ap (λ a. spec_run a.1 ops) one.0)
