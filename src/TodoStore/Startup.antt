-- ===== src/TodoStore/Startup.antt =====
-- loadTodos, saveTodos and newTodoServer of examples/direct-bridge/main.go: what a server starts with.
-- The file system's answers are given in a record; json.Unmarshal and json.Marshal are parameters.
use grpc_tunnel.Prelude.{
  ◌≡◌, Bool, true, false, Option, none, some, List, [], ◌∷◌, ◌++◌, not, if◌then◌else◌, ◌⊎◌, inl,
  inr,
}
use grpc_tunnel.Prelude.Text.{Text, lit, is_empty}
use grpc_tunnel.TodoStore.{Todo, TodoServer, build_todo_store, build_todos_snapshot}
use grpc_tunnel.TodoStore.Consistent.{IsConsistent}
use grpc_tunnel.TodoStore.Firsts.{all_some, build_todo_store-keeps, build_todo_store-again}

-- What the file system answers: whether the file is there, whether the directory and the file can be
-- made, and what is read, or `none` where reading fails.
pub record Files : Type 0 where
  pub exists : Bool
  pub directory_made : Bool
  pub file_made : Bool
  pub content : Option Text

pub data LoadError : Type 0 where
  create_directory : LoadError
  create_file : LoadError
  read_file : LoadError

-- The list that is loaded, or the error, and what is written to the file.
abbrev pub Loaded : Type 0
Loaded = (LoadError ⊎ List (Option Todo)) × List Text

abbrev unmarshalled : List Text → Option (List (Option Todo)) → Loaded
unmarshalled writes none = (inr [], writes ++ lit "[]" ∷ [])
unmarshalled writes (some todos) = (inr todos, writes)

abbrev read_content : (Text → Option (List (Option Todo))) → List Text → Option Text → Loaded
unfolding unmarshalled
read_content unmarshal writes none = (inl read_file, writes)
read_content unmarshal writes (some content) =
    if is_empty content then (inr [], writes) else unmarshalled writes (unmarshal content)

unfoldable pub load_todos : (Text → Option (List (Option Todo))) → Files → Loaded
unfolding read_content
load_todos unmarshal files =
    if files.exists
    then read_content unmarshal [] files.content
    else if not files.directory_made
    then (inl create_directory, [])
    else if not files.file_made
    then (inl create_file, [])
    else read_content unmarshal (lit "[]" ∷ []) files.content

abbrev server_of : LoadError ⊎ List (Option Todo) → LoadError ⊎ TodoServer
unfolding build_todo_store
server_of (inl e) = inl e
server_of (inr todos) = inr (build_todo_store todos)

-- `newTodoServer`
unfoldable pub new_todo_server :
    (Text → Option (List (Option Todo))) → Files → LoadError ⊎ TodoServer
unfolding load_todos server_of
new_todo_server unmarshal files = server_of (load_todos unmarshal files).0

-- `saveTodos`: what is written, or `none` where the todos cannot be marshalled.
unfoldable pub save_todos : (List Todo → Option Text) → List Todo → Option Text
save_todos marshal ts = marshal ts

-- If unmarshalling undoes marshalling and marshalled todos are not empty, then a server that starts
-- from what the worker wrote of a consistent store comes up consistent with the same todos in the same
-- order.
pub new_todo_server-restarts :
    (marshal : List Todo → Option Text) (unmarshal : Text → Option (List (Option Todo)))
    → ((ts : List Todo) (text : Text)
        → marshal ts ≡ some text
        → (unmarshal text ≡ some (all_some ts)) × (is_empty text ≡ false))
    → (s : TodoServer) (text : Text) (files : Files) → IsConsistent s
    → save_todos marshal (build_todos_snapshot s) ≡ some text
    → files.exists ≡ true
    → files.content ≡ some text
    → (s' : TodoServer) × (new_todo_server unmarshal files ≡ inr s')
      × IsConsistent s'
      × (build_todos_snapshot s' ≡ build_todos_snapshot s)
unfolding new_todo_server load_todos save_todos
new_todo_server-restarts marshal unmarshal undoes s text files c saved e same =
    let (parsed, full) = undoes (build_todos_snapshot s) text saved in
    let again = all_some (build_todos_snapshot s) in
    (
      build_todo_store again,
      rw (e, same, full, parsed),
      (build_todo_store-keeps again).0,
      build_todo_store-again s c,
    )
