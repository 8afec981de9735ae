-- ===== src/TodoStore/Tests.antt =====
-- The todo store on concrete requests, and the theorems of the children there.
use grpc_tunnel.Prelude.{
  ◌≡◌, refl, true, false, not, ◌||◌, Option, none, some, List, [], ◌∷◌, ◌==◌, if◌then◌else◌, inr,
  arith,
}
use grpc_tunnel.Prelude.Text.{Text, lit, is_empty, text_eq}
use grpc_tunnel.TodoStore.{Todo, TodoServer, build_todo_store, build_todos_snapshot}
use grpc_tunnel.TodoStore.Consistent.{IsConsistent}
use grpc_tunnel.TodoStore.Firsts.{all_some, build_todo_store-keeps}
use grpc_tunnel.TodoStore.Refine.{
  Request, create, list, update, delete, serve_request, serve_all, serve_all_list,
  serve_all_refines,
}
use grpc_tunnel.TodoStore.Snapshot.{find}
use grpc_tunnel.TodoStore.Startup.{Files, new_todo_server, save_todos, new_todo_server-restarts}
use grpc_tunnel.TodoStore.Persist.{
  Process, Phase, Reach, start, next, request, take_signal, fire, file_written, idle, receive,
  Reach-IsSaved,
}

abbrev milk : Todo
milk = record { id = lit "1"; text = []; done = false }

-- A nil entry, one without an identifier and a repeated one.
abbrev file_todos : List (Option Todo)
file_todos =
    some milk ∷ none ∷ some (record milk { id = [] }) ∷ some (record milk { done = true }) ∷ []

abbrev stored : TodoServer
unfolding build_todo_store
stored = build_todo_store file_todos

abbrev requests : List Request
requests =
    create (lit "2") (lit "tea")
    ∷ update (lit "1") (lit "oat milk") true
    ∷ delete (lit "3")
    ∷ delete (lit "2")
    ∷ list
    ∷ []

build_test : build_todos_snapshot stored ≡ milk ∷ []
unfolding stored build_todos_snapshot text_eq
build_test = refl

requests_test :
    build_todos_snapshot (serve_all requests stored).0
    ≡ record { id = lit "1"; text = lit "oat milk"; done = true } ∷ []
unfolding stored serve_all build_todos_snapshot text_eq
requests_test = refl

stored-IsConsistent : IsConsistent stored
stored-IsConsistent = unfold stored in (build_todo_store-keeps file_todos).0

serve_all_refines_example :
    IsConsistent (serve_all requests stored).0
    × (build_todos_snapshot (serve_all requests stored).0
        ≡ (serve_all_list requests (build_todos_snapshot stored)).0)
    × ((serve_all requests stored).1 ≡ (serve_all_list requests (build_todos_snapshot stored)).1)
serve_all_refines_example =
    serve_all_refines requests stored stored-IsConsistent
      ((refl, unfold stored build_todos_snapshot find text_eq in refl), (tt, (tt, (tt, (tt, tt)))))

-- An encoding of the empty list and of a single todo without text, and its inverse.
abbrev sample_marshal : List Todo → Option Text
sample_marshal [] = some (b'0' ∷ [])
sample_marshal (t ∷ []) = if t.done || not (is_empty t.text) then none else some (b'1' ∷ t.id)
sample_marshal (t ∷ u ∷ ts) = none

abbrev sample_unmarshal : Text → Option (List (Option Todo))
sample_unmarshal [] = none
sample_unmarshal (c ∷ s) =
    if c == b'0' then some [] else some (some (record { id = s; text = []; done = false }) ∷ [])

is_empty-eq : (s : Text) → is_empty s ≡ true → s ≡ []
is_empty-eq [] h = refl
is_empty-eq (c ∷ s) h = cc

sample_undoes :
    (ts : List Todo) (text : Text)
    → sample_marshal ts ≡ some text
    → (sample_unmarshal text ≡ some (all_some ts)) × (is_empty text ≡ false)
sample_undoes [] [] h = cc
sample_undoes [] (c ∷ s) h = (ground arith, refl)
sample_undoes (t ∷ []) [] h = absurd (ground arith)
sample_undoes (t ∷ []) (c ∷ s) h = (ground (arith, is_empty-eq t.text), refl)
sample_undoes (t ∷ u ∷ ts) text h = cc

abbrev sample_files : Files
sample_files = record {
  exists = true;
  directory_made = true;
  file_made = true;
  content = some (lit "11");
}

new_todo_server-restarts_example :
    (s' : TodoServer) × (new_todo_server sample_unmarshal sample_files ≡ inr s')
    × IsConsistent s'
    × (build_todos_snapshot s' ≡ build_todos_snapshot stored)
new_todo_server-restarts_example =
    new_todo_server-restarts sample_marshal sample_unmarshal sample_undoes stored (lit "11")
      sample_files stored-IsConsistent
      (unfold stored save_todos build_todos_snapshot text_eq in refl) refl refl

abbrev process : TodoServer → Phase → List Todo → Process
process s phase saved = record { server = s; phase = phase; saved = saved }

abbrev created : TodoServer
unfolding serve_request build_todo_store
created = (serve_request (create (lit "1") (lit "tea")) (build_todo_store [])).0

-- One todo is created, and the worker writes it.
history : Reach true (process (receive created) idle (build_todos_snapshot (receive created)))
unfolding created serve_request build_todo_store
history =
    next
      (next
        (next
          (next (start [] [] refl refl)
            (request (create (lit "1") (lit "tea"))
              (refl, unfold build_todos_snapshot build_todo_store find in refl) refl)
            refl)
          (take_signal refl refl refl) refl)
        (fire refl refl) refl)
      (file_written _ refl refl) refl

Reach-IsSaved_example :
    build_todos_snapshot (receive created) ≡ build_todos_snapshot (receive created)
unfolding created serve_request build_todo_store
Reach-IsSaved_example =
    Reach-IsSaved (process (receive created) idle (build_todos_snapshot (receive created))) history
      refl refl
