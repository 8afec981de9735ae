-- ===== src/TodoStore.antt =====
-- The todo store of examples/direct-bridge/main.go, which examples/grpc-server/main.go repeats: an
-- insertion-order list.List, a map from identifiers to its elements, and the requests on them. An
-- element is a number, `value` is its Value field, `none` where it holds no *proto.Todo, and `next`
-- is an element that was never handed out.
pub mod Consistent
pub mod Snapshot
pub mod Requests
pub mod Refine
pub mod Firsts
pub mod Startup
pub mod Persist
pub mod Origin
mod Tests
use grpc_tunnel.Prelude.{
  ℕ, suc, ◌+◌, Bool, true, false, ◌||◌, Option, none, some, List, [], ◌∷◌, ◌++◌, ◌==◌, is_none, not,
  if◌then◌else◌,
}
use grpc_tunnel.Prelude.Text.{Text, lit, is_empty, text_eq}
use grpc_tunnel.Prelude.Dict.{lookup, insert, delete}

-- `proto.Todo`
pub record Todo : Type 0 where
  pub id : Text
  pub text : Text
  pub done : Bool

-- `todoServer`. `persist_signal` is whether the channel of capacity 1 is full.
pub record TodoServer : Type 0 where
  pub order : List ℕ
  pub value : ℕ → Option Todo
  pub by_id : List (Text × ℕ)
  pub next : ℕ
  pub persist_signal : Bool
  pub persist_action : Text

unfoldable pub empty_server : TodoServer
empty_server = record {
  order = [];
  value = λ e. none;
  by_id = [];
  next = 0;
  persist_signal = false;
  persist_action = [];
}

abbrev pub assign : (ℕ → Option Todo) → ℕ → Option Todo → ℕ → Option Todo
assign value e v x = if x == e then v else value x

-- list.List's Remove
unfoldable pub remove_element : ℕ → List ℕ → List ℕ
remove_element e [] = []
remove_element e (x ∷ xs) = let rest = remove_element e xs in if x == e then rest else x ∷ rest

-- `storeByID[id] = store.PushBack(todo)`
unfoldable pub push_back : Todo → TodoServer → TodoServer
unfolding insert
push_back todo s = record s {
  order = s.order ++ s.next ∷ [];
  value = assign s.value s.next (some todo);
  by_id = insert todo.id s.next s.by_id;
  next = suc s.next;
}

abbrev pub append_todo : Option Todo → TodoServer → TodoServer
unfolding push_back lookup
append_todo none s = s
append_todo (some todo) s =
    if is_empty todo.id then s else if is_none (lookup todo.id s.by_id) then push_back todo s else s

-- `buildTodoStore`, the loop from a store that holds the todos before.
unfoldable pub append_todos : List (Option Todo) → TodoServer → TodoServer
unfolding append_todo
append_todos [] s = s
append_todos (todo ∷ todos) s = append_todos todos (append_todo todo s)

unfoldable pub build_todo_store : List (Option Todo) → TodoServer
unfolding append_todos empty_server
build_todo_store todos = append_todos todos empty_server

abbrev pub present : Option Todo → List Todo → List Todo
present none rest = rest
present (some todo) rest = todo ∷ rest

unfoldable pub snapshot_of : (ℕ → Option Todo) → List ℕ → List Todo
snapshot_of value [] = []
snapshot_of value (e ∷ es) = present (value e) (snapshot_of value es)

unfoldable pub build_todos_snapshot : TodoServer → List Todo
unfolding snapshot_of
build_todos_snapshot s = snapshot_of s.value s.order

unfoldable pub signal_todos_persist : Text → TodoServer → TodoServer
signal_todos_persist action s = record s { persist_signal = true; persist_action = action }

-- A request to `CreateTodo`, with the identifier that uuid.New gives.
unfoldable pub create_todo : Text → Text → TodoServer → TodoServer × Todo
unfolding push_back signal_todos_persist
create_todo new_id text s =
    let todo : Todo = record { id = new_id; text = text; done = false } in
    (signal_todos_persist (lit "create") (push_back todo s), todo)

unfoldable pub list_todos : TodoServer → List Todo
unfolding build_todos_snapshot
list_todos s = build_todos_snapshot s

abbrev pub drop_element : Text → ℕ → TodoServer → TodoServer
unfolding remove_element delete
drop_element id e s = record s { order = remove_element e s.order; by_id = delete id s.by_id }

-- The rest of `UpdateTodo`, from the value of the element that the map names.
abbrev pub update_element :
    Text → Text → Bool → ℕ → Option Todo → TodoServer → TodoServer × Option Todo
unfolding drop_element signal_todos_persist
update_element id text done e none s = (drop_element id e s, none)
update_element id text done e (some current) s =
    let updated : Todo = record { id = current.id; text = text; done = done } in
    (
      signal_todos_persist (lit "update") (record s { value = assign s.value e (some updated) }),
      some updated,
    )

abbrev pub update_found : Text → Text → Bool → Option ℕ → TodoServer → TodoServer × Option Todo
unfolding update_element
update_found id text done none s = (s, none)
update_found id text done (some e) s = update_element id text done e (s.value e) s

unfoldable pub update_todo : Text → Text → Bool → TodoServer → TodoServer × Option Todo
unfolding update_found lookup
update_todo id text done s = update_found id text done (lookup id s.by_id) s

abbrev pub delete_found : Text → Option ℕ → TodoServer → TodoServer × Bool
unfolding drop_element signal_todos_persist
delete_found id none s = (s, false)
delete_found id (some e) s = (signal_todos_persist (lit "delete") (drop_element id e s), true)

unfoldable pub delete_todo : Text → TodoServer → TodoServer × Bool
unfolding delete_found lookup
delete_todo id s = delete_found id (lookup id s.by_id) s
