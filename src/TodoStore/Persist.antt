-- ===== src/TodoStore/Persist.antt =====
-- The persist worker of examples/grpc-server/main.go beside the requests: each request holds the lock,
-- the worker waits for a signal, lets a timer run that later signals start again, takes a snapshot
-- under the lock and writes it. Every interleaving is a sequence of steps.
use grpc_tunnel.Prelude.{
  ◌≡◌, refl, sym, subst, Bool, true, false, ◌||◌, Option, Option-cases, List, ◌⊎◌, inl, inr,
}
use grpc_tunnel.Prelude.Dict.{lookup}
use grpc_tunnel.TodoStore.{
  Todo, TodoServer, build_todo_store, build_todos_snapshot, create_todo, update_todo, delete_todo,
  signal_todos_persist,
}
use grpc_tunnel.TodoStore.Consistent.{IsConsistent}
use grpc_tunnel.TodoStore.Firsts.{build_todo_store-keeps}
use grpc_tunnel.TodoStore.Refine.{
  Request, create, list, update, delete, Fresh, serve_request, serve_request-Serves,
}

-- Where the worker is: before its receive, in its select, or writing a snapshot.
pub data Phase : Type 0 where
  idle : Phase
  debouncing : Phase
  saving : List Todo → Phase

-- The server, its worker and the todos that the file holds.
pub record Process : Type 0 where
  pub server : TodoServer
  pub phase : Phase
  pub saved : List Todo

abbrev pub receive : TodoServer → TodoServer
receive s = record s { persist_signal = false }

-- One step. `failed` is a write that returns an error.
pub data Step (p : Process) (q : Process) : Type 0 where
  request :
      (r : Request)
      → Fresh r (build_todos_snapshot p.server)
      → q ≡ record p { server = (serve_request r p.server).0 }
      → Step p q
  take_signal :
      p.phase ≡ idle
      → p.server.persist_signal ≡ true
      → q ≡ record p { server = receive p.server; phase = debouncing }
      → Step p q
  restart_timer :
      p.phase ≡ debouncing
      → p.server.persist_signal ≡ true
      → q ≡ record p { server = receive p.server }
      → Step p q
  fire :
      p.phase ≡ debouncing
      → q ≡ record p { phase = saving (build_todos_snapshot p.server) }
      → Step p q
  file_written :
      (ts : List Todo) → p.phase ≡ saving ts → q ≡ record p { phase = idle; saved = ts } → Step p q
  failed : (ts : List Todo) → p.phase ≡ saving ts → q ≡ record p { phase = idle } → Step p q

-- Whether a change was signalled since the start or the last failed write, a signal that is pending
-- included.
abbrev pub changed_after : {p q : Process} → Bool → Step p q → Bool
changed_after {p} {q} changed (request r f e) = changed || q.server.persist_signal
changed_after changed (take_signal i s e) = true
changed_after changed (restart_timer i s e) = true
changed_after changed (fire i e) = changed
changed_after changed (file_written ts i e) = changed
changed_after {p} {q} changed (failed ts i e) = p.server.persist_signal

-- The histories of a server that starts with some todos, whatever the file holds.
pub data Reach : Bool → Process → Type 0 where
  start :
      {p : Process} {changed : Bool} (todos : List (Option Todo)) (saved : List Todo)
      → p ≡ record { server = build_todo_store todos; phase = idle; saved = saved }
      → changed ≡ false
      → Reach changed p
  next :
      {p q : Process} {before after : Bool}
      → Reach before p
      → (step : Step p q) → after ≡ changed_after before step
      → Reach after q

-- A signal is pending, or the snapshot is yet to be taken, is being written or is written.
abbrev Covered : Process → Type 0
Covered p =
    (p.server.persist_signal ≡ true)
    ⊎ ((p.phase ≡ debouncing)
        ⊎ ((p.phase ≡ saving (build_todos_snapshot p.server))
            ⊎ ((p.phase ≡ idle) × (p.saved ≡ build_todos_snapshot p.server))))

serve_request-signals :
    (r : Request) (s : TodoServer)
    → IsConsistent s
    → ((serve_request r s).0 ≡ s) ⊎ ((serve_request r s).0.persist_signal ≡ true)
unfolding serve_request
serve_request-signals (create new_id text) s c = unfold create_todo signal_todos_persist in inr refl
serve_request-signals list s c = inl refl
serve_request-signals (update id text done) s c = elim (Option-cases (lookup id s.by_id)) [
  | inl l ↦ inl (unfold update_todo in rw l)
  | inr (e, l) ↦
      let (m, t, v, i) = c.mapped id e l in
      inr (unfold update_todo signal_todos_persist in rw (l, v))
]
serve_request-signals (delete id) s c = elim (Option-cases (lookup id s.by_id)) [
  | inl l ↦ inl (unfold delete_todo in rw l)
  | inr (e, l) ↦ inr (unfold delete_todo signal_todos_persist in rw l)
]

-- What one step keeps: the store is consistent, and changes that were signalled are covered.
record Holds (changed : Bool) (p : Process) : Type 0 where
  consistent : IsConsistent p.server
  covered : changed ≡ true → Covered p

receive-IsConsistent : (s : TodoServer) → IsConsistent s → IsConsistent (receive s)
receive-IsConsistent s c = record { linked = c.linked; mapped = c.mapped }

still-Covered :
    (changed : Bool) (p : Process)
    → Holds changed p
    → (changed || p.server.persist_signal) ≡ true
    → Covered p
still-Covered true p h was = h.covered refl
still-Covered false p h was = inl was

request-Covered :
    (changed : Bool) (r : Request) (p : Process)
    → Holds changed p
    → Fresh r (build_todos_snapshot p.server)
    → Holds
        (changed || (serve_request r p.server).0.persist_signal)
        (record p { server = (serve_request r p.server).0 })
request-Covered changed r p h f = record {
  consistent = (serve_request-Serves r p.server h.consistent f).0;
  covered = λ was. elim (serve_request-signals r p.server h.consistent) [
    | inl same ↦
        subst
          (λ (s : TodoServer).
            (changed || s.persist_signal) ≡ true → Covered (record p { server = s }))
          (sym same) (still-Covered changed p h) was
    | inr signalled ↦ inl signalled
  ];
}

file_written-Covered :
    (p : Process) (ts : List Todo)
    → p.phase ≡ saving ts
    → Covered p
    → Covered (record p { phase = idle; saved = ts })
file_written-Covered p ts i (inl pending) = inl pending
file_written-Covered p ts i (inr (inl d)) = cc
file_written-Covered p ts i (inr (inr (inl s))) = inr (inr (inr (refl, cc)))
file_written-Covered p ts i (inr (inr (inr (n, s)))) = cc

step-Holds :
    (changed : Bool) (p q : Process) (step : Step p q)
    → Holds changed p
    → Holds (changed_after changed step) q
step-Holds changed p q (request r f e) h =
    subst (λ (x : Process). Holds (changed || x.server.persist_signal) x) (sym e)
      (request-Covered changed r p h f)
step-Holds changed p q (take_signal i s e) h = subst (Holds true) (sym e) (record {
  consistent = receive-IsConsistent p.server h.consistent;
  covered = λ was. inr (inl refl);
})
step-Holds changed p q (restart_timer i s e) h = subst (Holds true) (sym e) (record {
  consistent = receive-IsConsistent p.server h.consistent;
  covered = λ was. inr (inl i);
})
step-Holds changed p q (fire i e) h =
    subst (Holds changed) (sym e)
      (record { consistent = h.consistent; covered = λ was. inr (inr (inl refl)) })
step-Holds changed p q (file_written ts i e) h = subst (Holds changed) (sym e) (record {
  consistent = h.consistent;
  covered = λ was. file_written-Covered p ts i (h.covered was);
})
step-Holds changed p q (failed ts i e) h =
    subst (Holds p.server.persist_signal) (sym e)
      (record { consistent = h.consistent; covered = λ pending. inl pending })

Reach-Holds : (changed : Bool) (p : Process) → Reach changed p → Holds changed p
Reach-Holds changed p (start todos saved e c) =
    subst (Holds changed) (sym e)
      (record { consistent = (build_todo_store-keeps todos).0; covered = λ was. cc })
Reach-Holds changed q (next {p = p} {before = before} reach step a) =
    subst (λ (b : Bool). Holds b q) (sym a)
      (step-Holds before p q step (Reach-Holds before p reach))

-- In every history of requests and of the worker, once a change was signalled since the start or the
-- last failed write: when the worker waits and no signal is pending, the file holds exactly the store's
-- todos in their order.
pub Reach-IsSaved :
    (p : Process)
    → Reach true p
    → p.phase ≡ idle
    → p.server.persist_signal ≡ false
    → p.saved ≡ build_todos_snapshot p.server
Reach-IsSaved p reach i none_pending = elim ((Reach-Holds true p reach).covered refl) [
  | inl pending ↦ cc
  | inr (inl d) ↦ cc
  | inr (inr (inl s)) ↦ cc
  | inr (inr (inr (n, s))) ↦ s
]
