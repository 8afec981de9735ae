-- ===== src/TodoStore/Firsts.antt =====
-- Which todos buildTodoStore keeps of a list, and that it keeps a snapshot as it is.
use grpc_tunnel.Prelude.{
  ℕ, ◌≡◌, refl, ap, false, Option, Option-cases, none, some, List, [], ◌∷◌, ◌++◌, append_assoc,
  append-nil, is_none, if◌then◌else◌, Bool-cases, inl, inr, arith,
}
use grpc_tunnel.Prelude.Text.{Text, is_empty, text_eq_iff}
use grpc_tunnel.Prelude.Dict.{lookup}
use grpc_tunnel.TodoStore.{
  Todo, TodoServer, append_todo, append_todos, build_todo_store, empty_server, push_back,
  snapshot_of, present, build_todos_snapshot,
}
use grpc_tunnel.TodoStore.Consistent.{Linked, IsConsistent, has_byte-append}
use grpc_tunnel.TodoStore.Snapshot.{find, snapshot-push, find-snapshot, snapshot-missing}
use grpc_tunnel.TodoStore.Requests.{push_back-IsConsistent}

-- The todos that a store keeps of a list: each that is there, has an identifier and is the first
-- under it.
abbrev keep_first : Option Todo → List Todo → List Todo
keep_first none ts = ts
keep_first (some t) ts =
    if is_empty t.id then ts else if is_none (find t.id ts) then ts ++ t ∷ [] else ts

unfoldable pub firsts : List Todo → List (Option Todo) → List Todo
unfolding keep_first
firsts ts [] = ts
firsts ts (t ∷ rest) = firsts (keep_first t ts) rest

find-of_lookup :
    (s : TodoServer) (id : Text)
    → IsConsistent s
    → is_none (find id (build_todos_snapshot s)) ≡ is_none (lookup id s.by_id)
unfolding build_todos_snapshot
find-of_lookup s id c = elim (Option-cases (lookup id s.by_id)) [
  | inl l ↦
      let (f, r, w) = snapshot-missing s.value s.by_id s.next s.order id [] false c.linked l in
      rw (l, f)
  | inr (e, l) ↦
      let (m, t, v, i) = c.mapped id e l in
      let f = find-snapshot s.value s.by_id s.next s.order e t c.linked (rw i l) v m in
      ground (arith, f)
]

-- One round of the loop.
append_todo-keeps :
    (t : Option Todo) (s : TodoServer)
    → IsConsistent s
    → IsConsistent (append_todo t s)
      × (build_todos_snapshot (append_todo t s) ≡ keep_first t (build_todos_snapshot s))
unfolding append_todo
append_todo-keeps none s c = (c, refl)
append_todo-keeps (some t) s c = elim (Bool-cases (is_empty t.id)) [
  | inl blank ↦ rw blank (c, refl)
  | inr named ↦
      rw (named, find-of_lookup s t.id c)
        (elim (Option-cases (lookup t.id s.by_id)) [
          | inl l ↦ rw l (
            push_back-IsConsistent t s c l named,
            unfold build_todos_snapshot push_back in
                snapshot-push s.value s.by_id s.next s.order t c.linked,
          )
          | inr (e, l) ↦ rw l (c, refl)
        ])
]

append_todos-keeps :
    (todos : List (Option Todo)) (s : TodoServer)
    → IsConsistent s
    → IsConsistent (append_todos todos s)
      × (build_todos_snapshot (append_todos todos s) ≡ firsts (build_todos_snapshot s) todos)
unfolding append_todos firsts
append_todos-keeps [] s c = (c, refl)
append_todos-keeps (t ∷ todos) s c =
    let (c', same) = append_todo-keeps t s c in
    let (c'', rest) = append_todos-keeps todos (append_todo t s) c' in (c'', rw same at rest)

empty_server-IsConsistent : IsConsistent empty_server
unfolding empty_server
empty_server-IsConsistent = record { linked = tt; mapped = λ id e l. unfold lookup in cc }

-- A store built from any list is consistent, and its snapshot is the list without the entries that are
-- nil, have no identifier or repeat an earlier one's.
pub build_todo_store-keeps :
    (todos : List (Option Todo))
    → IsConsistent (build_todo_store todos)
      × (build_todos_snapshot (build_todo_store todos) ≡ firsts [] todos)
unfolding build_todo_store
build_todo_store-keeps todos =
    let (c, same) = append_todos-keeps todos empty_server empty_server-IsConsistent in
    (c, unfold build_todos_snapshot empty_server snapshot_of in same)

abbrev pub all_some : List Todo → List (Option Todo)
all_some [] = []
all_some (t ∷ ts) = some t ∷ all_some ts

keep_first-new :
    (t : Todo) (ts : List Todo)
    → is_empty t.id ≡ false
    → find t.id ts ≡ none
    → keep_first (some t) ts ≡ ts ++ t ∷ []
keep_first-new t ts n f = rw (n, f)

firsts-new :
    (t : Todo) (ts us : List Todo)
    → is_empty t.id ≡ false
    → find t.id ts ≡ none
    → firsts ts (all_some (t ∷ us)) ≡ firsts (ts ++ t ∷ []) (all_some us)
unfolding firsts
firsts-new t ts us n f =
    ap (λ (kept : List Todo). firsts kept (all_some us)) (keep_first-new t ts n f)

present-append : (t : Option Todo) (ts us : List Todo) → present t (ts ++ us) ≡ present t ts ++ us
present-append none ts us = refl
present-append (some t) ts us = refl

module _ (value : ℕ → Option Todo) (by_id : List (Text × ℕ)) (next : ℕ) where
  snapshot-append :
      (xs ys : List ℕ) → snapshot_of value (xs ++ ys) ≡ snapshot_of value xs ++ snapshot_of value ys
  unfolding snapshot_of
  snapshot-append [] ys = refl
  snapshot-append (x ∷ xs) ys = rw (snapshot-append xs ys) (present-append (value x) _ _)

  snapshot_cons :
      (e : ℕ) (es : List ℕ) (t : Todo)
      → value e ≡ some t
      → snapshot_of value (e ∷ es) ≡ t ∷ snapshot_of value es
  unfolding snapshot_of
  snapshot_cons e es t v = rw v

  snapshot_single : (e : ℕ) (t : Todo) → value e ≡ some t → snapshot_of value (e ∷ []) ≡ t ∷ []
  unfolding snapshot_of
  snapshot_single e t v = rw v

  Linked-at :
      (before : List ℕ) (e : ℕ) (es : List ℕ)
      → Linked value by_id next (before ++ e ∷ es)
      → (t : Todo) × (value e ≡ some t) × (lookup t.id by_id ≡ some e) × (is_empty t.id ≡ false)
  Linked-at [] e es (t, v, l, n, u, lt, rest) = (t, v, l, n)
  Linked-at (x ∷ before) e es (t, v, l, n, u, lt, rest) = Linked-at before e es rest

  find-before :
      (before : List ℕ) (e : ℕ) (es : List ℕ) (t : Todo)
      → Linked value by_id next (before ++ e ∷ es)
      → lookup t.id by_id ≡ some e
      → find t.id (snapshot_of value before) ≡ none
  unfolding find snapshot_of
  find-before [] e es t h l = refl
  find-before (x ∷ before) e es t (t', v', l', n, u, lt, rest) l = ground (
    arith,
    find-before before e es t rest l,
    text_eq_iff t'.id t.id,
    has_byte-append before (e ∷ es) x,
  )

  -- A list that is the snapshot of a consistent store is kept as it is.
  firsts-snapshot :
      (es before : List ℕ)
      → Linked value by_id next (before ++ es)
      → firsts (snapshot_of value before) (all_some (snapshot_of value es))
        ≡ snapshot_of value (before ++ es)
  firsts-snapshot [] before h = unfold firsts snapshot_of in rw append-nil
  firsts-snapshot (e ∷ es) before h =
      let (t, v, l, n) = Linked-at before e es h in
      let later = firsts-snapshot es (before ++ e ∷ []) (rw append_assoc h) in
      rw
        (
          snapshot_cons e es t v,
          firsts-new t (snapshot_of value before) _ n (find-before before e es t h l),
        )
        (rw (snapshot-append before (e ∷ []), snapshot_single e t v, append_assoc) at later)

-- A store built from the snapshot of a consistent store has that snapshot.
pub build_todo_store-again :
    (s : TodoServer)
    → IsConsistent s
    → build_todos_snapshot (build_todo_store (all_some (build_todos_snapshot s)))
      ≡ build_todos_snapshot s
build_todo_store-again s c = rw ((build_todo_store-keeps (all_some (build_todos_snapshot s))).1) (
    unfold build_todos_snapshot snapshot_of in
    firsts-snapshot s.value s.by_id s.next s.order [] c.linked)
