-- ===== src/TodoStore/Requests.antt =====
-- Requests to the todo store keep its invariant, and are answered as a list of todos answers them.
use grpc_tunnel.Prelude.{
  ℕ, ◌≡◌, refl, false, none, some, [], ◌∷◌, ◌==◌, Bool-cases, inl, inr, arith,
}
use grpc_tunnel.Prelude.Text.{Text, is_empty, text_eq, text_eq_iff}
use grpc_tunnel.Prelude.Dict.{lookup, lookup-insert, lookup-delete}
use grpc_tunnel.TodoStore.{Todo, TodoServer, assign, push_back, drop_element, signal_todos_persist}
use grpc_tunnel.TodoStore.Consistent.{
  IsConsistent, Linked-lt, Linked-push, Linked-assign, Linked-remove, has_byte-append,
  has_byte-remove_element,
}

pub push_back-IsConsistent :
    (todo : Todo) (s : TodoServer)
    → IsConsistent s
    → lookup todo.id s.by_id ≡ none
    → is_empty todo.id ≡ false
    → IsConsistent (push_back todo s)
unfolding push_back
push_back-IsConsistent todo s c fresh named = record {
  linked = Linked-push s.value s.by_id s.next s.order todo c.linked fresh named;
  mapped = λ id e l. elim (Bool-cases (text_eq todo.id id)) [
    | inl same ↦
        let e' : e ≡ s.next = ground (arith, lookup-insert todo.id id s.next s.by_id) in
        (
          rw (has_byte-append s.order (s.next ∷ []) e) (ground arith),
          todo,
          ground arith,
          (text_eq_iff todo.id id).0 same,
        )
    | inr other ↦
        let l' : lookup id s.by_id ≡ some e =
          ground (arith, lookup-insert todo.id id s.next s.by_id) in
        let (m, t, v, i) = c.mapped id e l' in
        (
          rw (has_byte-append s.order (s.next ∷ []) e) (ground arith),
          t,
          ground (arith, Linked-lt s.value s.by_id s.next s.order e c.linked m),
          i,
        )
  ];
}

pub signal-IsConsistent :
    (action : Text) (s : TodoServer) → IsConsistent s → IsConsistent (signal_todos_persist action s)
unfolding signal_todos_persist
signal-IsConsistent action s c = record { linked = c.linked; mapped = c.mapped }

pub assign-IsConsistent :
    (s : TodoServer) (e : ℕ) (t u : Todo)
    → IsConsistent s
    → lookup t.id s.by_id ≡ some e
    → s.value e ≡ some t
    → u.id ≡ t.id
    → is_empty t.id ≡ false
    → IsConsistent (record s { value = assign s.value e (some u) })
assign-IsConsistent s e t u c l v same named = record {
  linked = Linked-assign s.value s.by_id s.next s.order e u c.linked (ground arith) (ground arith);
  mapped = λ id e' l'.
      let (m, t', v', i) = c.mapped id e' l' in
      elim (Bool-cases (e' == e)) [
        | inl here ↦ (m, u, ground arith, ground arith)
        | inr there ↦ (m, t', ground arith, i)
      ];
}

pub drop_element-IsConsistent :
    (s : TodoServer) (e : ℕ) (t : Todo)
    → IsConsistent s
    → lookup t.id s.by_id ≡ some e
    → s.value e ≡ some t
    → IsConsistent (drop_element t.id e s)
unfolding drop_element
drop_element-IsConsistent s e t c l v = record {
  linked = Linked-remove s.value s.by_id s.next s.order t.id e t c.linked l v refl;
  mapped = λ id e' l'.
      let kept : (text_eq t.id id ≡ false) × (lookup id s.by_id ≡ some e') = (
        ground (arith, lookup-delete t.id id s.by_id),
        ground (arith, lookup-delete t.id id s.by_id),
      ) in
      let (m, t', v', i) = c.mapped id e' kept.1 in
      (rw (has_byte-remove_element e s.order e') (ground (arith, text_eq_iff t.id id)), t', v', i);
}
