-- ===== src/TodoStore/Refine.antt =====
-- Requests to a consistent todo store are answered, and change its snapshot, as if the store were the
-- list of its todos.
use grpc_tunnel.Prelude.{
  ℕ, ◌≡◌, refl, sym, ap₂, subst, Bool, true, false, Option, Option-cases, none, some, List, [], ◌∷◌,
  ◌++◌, is_none, not, inl, inr, arith,
}
use grpc_tunnel.Prelude.Text.{Text, lit, is_empty, has_byte}
use grpc_tunnel.Prelude.Dict.{lookup}
use grpc_tunnel.TodoStore.{
  Todo, TodoServer, push_back, build_todos_snapshot, create_todo, update_todo, delete_todo,
  list_todos, signal_todos_persist,
}
use grpc_tunnel.TodoStore.Consistent.{IsConsistent, Linked-nonempty}
use grpc_tunnel.TodoStore.Snapshot.{
  find, edit, edit_found, replaced, without, snapshot-push, snapshot-assign, snapshot-remove,
  find-snapshot, snapshot-missing,
}
use grpc_tunnel.TodoStore.Requests.{
  push_back-IsConsistent, signal-IsConsistent, assign-IsConsistent, drop_element-IsConsistent,
}

pub data Request : Type 0 where
  create : (new_id text : Text) → Request
  list : Request
  update : (id text : Text) (done : Bool) → Request
  delete : (id : Text) → Request

pub data Response : Type 0 where
  created : Todo → Response
  listed : List Todo → Response
  updated : Option Todo → Response
  deleted : Bool → Response

unfoldable pub serve_request : Request → TodoServer → TodoServer × Response
unfolding create_todo list_todos update_todo delete_todo
serve_request (create new_id text) s =
    let (s', todo) = create_todo new_id text s in (s', created todo)
serve_request list s = (s, listed (list_todos s))
serve_request (update id text done) s =
    let (s', todo) = update_todo id text done s in (s', updated todo)
serve_request (delete id) s = let (s', success) = delete_todo id s in (s', deleted success)

-- The same request to a list of todos.
unfoldable pub serve_list : Request → List Todo → List Todo × Response
unfolding find replaced without
serve_list (create new_id text) ts =
    let todo : Todo = record { id = new_id; text = text; done = false } in
    (ts ++ todo ∷ [], created todo)
serve_list list ts = (ts, listed ts)
serve_list (update id text done) ts =
    (replaced id text done ts, updated (edit_found text done (find id ts)))
serve_list (delete id) ts = (without id ts, deleted (not (is_none (find id ts))))

-- A new identifier is not empty and none of the list's.
abbrev pub Fresh : Request → List Todo → Type 0
Fresh (create new_id text) ts = (is_empty new_id ≡ false) × (find new_id ts ≡ none)
Fresh list ts = Unit {0}
Fresh (update id text done) ts = Unit {0}
Fresh (delete id) ts = Unit {0}

-- One request keeps the store consistent, changes the snapshot as the list and answers as it does.
abbrev pub Serves : Request → TodoServer → TodoServer × Response → Type 0
Serves r s (s', answer) =
    IsConsistent s'
    × (build_todos_snapshot s' ≡ (serve_list r (build_todos_snapshot s)).0)
    × (answer ≡ (serve_list r (build_todos_snapshot s)).1)

pub lookup-of_find :
    (s : TodoServer) (id : Text)
    → IsConsistent s
    → find id (build_todos_snapshot s) ≡ none
    → lookup id s.by_id ≡ none
unfolding build_todos_snapshot
lookup-of_find s id c f = elim (Option-cases (lookup id s.by_id)) [
  | inl l ↦ l
  | inr (e, l) ↦
      let (m, t, v, i) = c.mapped id e l in
      cc (find-snapshot s.value s.by_id s.next s.order e t c.linked (rw i l) v m)
]

create-Serves :
    (new_id text : Text) (s : TodoServer)
    → IsConsistent s
    → Fresh (create new_id text) (build_todos_snapshot s)
    → Serves (create new_id text) s (serve_request (create new_id text) s)
unfolding serve_request create_todo serve_list build_todos_snapshot
create-Serves new_id text s c (named, fresh) =
    let todo : Todo = record { id = new_id; text = text; done = false } in
    let l = lookup-of_find s new_id c fresh in
    (
      signal-IsConsistent (lit "create") (push_back todo s)
          (push_back-IsConsistent todo s c l named),
      unfold push_back signal_todos_persist in
          snapshot-push s.value s.by_id s.next s.order todo c.linked,
      refl,
    )

update-missing :
    (id text : Text) (done : Bool) (s : TodoServer)
    → IsConsistent s
    → lookup id s.by_id ≡ none
    → Serves (update id text done) s (serve_request (update id text done) s)
unfolding serve_request update_todo serve_list build_todos_snapshot
update-missing id text done s c l =
    let (f, r, w) = snapshot-missing s.value s.by_id s.next s.order id text done c.linked l in
    rw l (c, sym r, ground (arith, f))

update-found :
    (t : Todo) (text : Text) (done : Bool) (s : TodoServer) (e : ℕ)
    → IsConsistent s
    → lookup t.id s.by_id ≡ some e
    → s.value e ≡ some t
    → has_byte s.order e ≡ true
    → Serves (update t.id text done) s (serve_request (update t.id text done) s)
unfolding serve_request update_todo serve_list build_todos_snapshot signal_todos_persist
update-found t text done s e c l v m =
    let named = Linked-nonempty s.value s.by_id s.next s.order e t c.linked m v in
    let kept = assign-IsConsistent s e t (edit text done t) c l v refl named in
    rw (l, v)
      (
        record { linked = kept.linked; mapped = kept.mapped },
        snapshot-assign s.value s.by_id s.next s.order e t text done c.linked l v,
        ground (arith, find-snapshot s.value s.by_id s.next s.order e t c.linked l v m),
      )

delete-missing :
    (id : Text) (s : TodoServer)
    → IsConsistent s
    → lookup id s.by_id ≡ none
    → Serves (delete id) s (serve_request (delete id) s)
unfolding serve_request delete_todo serve_list build_todos_snapshot
delete-missing id s c l =
    let (f, r, w) = snapshot-missing s.value s.by_id s.next s.order id [] false c.linked l in
    rw l (c, sym w, ground (arith, f))

delete-found :
    (t : Todo) (s : TodoServer) (e : ℕ)
    → IsConsistent s
    → lookup t.id s.by_id ≡ some e
    → s.value e ≡ some t
    → has_byte s.order e ≡ true
    → Serves (delete t.id) s (serve_request (delete t.id) s)
unfolding serve_request delete_todo serve_list build_todos_snapshot signal_todos_persist
delete-found t s e c l v m =
    let kept = drop_element-IsConsistent s e t c l v in
    rw l (
      record { linked = kept.linked; mapped = kept.mapped },
      snapshot-remove s.value s.by_id s.next s.order e t c.linked l v,
      ground (arith, find-snapshot s.value s.by_id s.next s.order e t c.linked l v m),
    )

-- One request to a consistent store.
pub serve_request-Serves :
    (r : Request) (s : TodoServer)
    → IsConsistent s
    → Fresh r (build_todos_snapshot s)
    → Serves r s (serve_request r s)
serve_request-Serves (create new_id text) s c f = create-Serves new_id text s c f
serve_request-Serves list s c f = unfold serve_request serve_list list_todos in (c, refl, refl)
serve_request-Serves (update id text done) s c f = elim (Option-cases (lookup id s.by_id)) [
  | inl l ↦ update-missing id text done s c l
  | inr (e, l) ↦
      let (m, t, v, i) = c.mapped id e l in
      subst (λ (k : Text). Serves (update k text done) s (serve_request (update k text done) s)) i
        (update-found t text done s e c (rw i l) v m)
]
serve_request-Serves (delete id) s c f = elim (Option-cases (lookup id s.by_id)) [
  | inl l ↦ delete-missing id s c l
  | inr (e, l) ↦
      let (m, t, v, i) = c.mapped id e l in
      subst (λ (k : Text). Serves (delete k) s (serve_request (delete k) s)) i
        (delete-found t s e c (rw i l) v m)
]

unfoldable pub serve_all : List Request → TodoServer → TodoServer × List Response
unfolding serve_request
serve_all [] s = (s, [])
serve_all (r ∷ rs) s =
    let (s', answer) = serve_request r s in
    let (s'', answers) = serve_all rs s' in (s'', answer ∷ answers)

unfoldable pub serve_all_list : List Request → List Todo → List Todo × List Response
unfolding serve_list
serve_all_list [] ts = (ts, [])
serve_all_list (r ∷ rs) ts =
    let (ts', answer) = serve_list r ts in
    let (ts'', answers) = serve_all_list rs ts' in (ts'', answer ∷ answers)

-- Every new identifier is new when its request comes.
abbrev pub AllFresh : List Request → List Todo → Type 0
AllFresh [] ts = Unit {0}
AllFresh (r ∷ rs) ts = Fresh r ts × AllFresh rs (serve_list r ts).0

-- A consistent store answers every sequence of requests whose new identifiers are new as the list of
-- its todos does, and ends consistent with the list's todos as its snapshot.
pub serve_all_refines :
    (rs : List Request) (s : TodoServer)
    → IsConsistent s
    → AllFresh rs (build_todos_snapshot s)
    → IsConsistent (serve_all rs s).0
      × (build_todos_snapshot (serve_all rs s).0 ≡ (serve_all_list rs (build_todos_snapshot s)).0)
      × ((serve_all rs s).1 ≡ (serve_all_list rs (build_todos_snapshot s)).1)
unfolding serve_all serve_all_list
serve_all_refines [] s c f = (c, refl, refl)
serve_all_refines (r ∷ rs) s c (f, fs) =
    let (c', same, answer) = serve_request-Serves r s c f in
    let (c'', same', answers) = serve_all_refines rs (serve_request r s).0 c' (rw same fs) in
    (c'', rw same at same', ap₂ ◌∷◌ answer (rw same at answers))
