-- ===== src/TodoStore/Consistent.antt =====
-- The invariant of the todo store: the list and the map name the same elements, each of which holds a
-- todo under the identifier that the map has for it.
use grpc_tunnel.Prelude.{
  ℕ, suc, ◌<◌, ◌≡◌, refl, true, false, ◌||◌, Option, none, some, List, [], ◌∷◌, ◌++◌, ◌==◌,
  if◌then◌else◌, Bool-cases, inl, inr, arith,
}
use grpc_tunnel.Prelude.Text.{Text, is_empty, text_eq_iff, has_byte}
use grpc_tunnel.Prelude.Dict.{lookup, insert, delete, lookup-insert, lookup-delete}
use grpc_tunnel.TodoStore.{Todo, TodoServer, assign, remove_element}

-- Every element of the list is older than `next`, occurs once, and holds a todo with an identifier
-- that is not empty, for which the map has this element.
abbrev pub Linked : (ℕ → Option Todo) → List (Text × ℕ) → ℕ → List ℕ → Type 0
Linked value by_id next [] = Unit {0}
Linked value by_id next (e ∷ es) =
    (todo : Todo) × (value e ≡ some todo)
    × (lookup todo.id by_id ≡ some e)
    × (is_empty todo.id ≡ false)
    × (has_byte es e ≡ false)
    × (e < next)
    × Linked value by_id next es

pub record IsConsistent (s : TodoServer) : Type 0 where
  pub linked : Linked s.value s.by_id s.next s.order
  pub mapped :
      (id : Text) (e : ℕ)
      → lookup id s.by_id ≡ some e
      → (has_byte s.order e ≡ true) × (todo : Todo) × (s.value e ≡ some todo) × (todo.id ≡ id)

pub has_byte-append :
    (xs ys : List ℕ) (x : ℕ) → has_byte (xs ++ ys) x ≡ (has_byte xs x || has_byte ys x)
has_byte-append [] ys x = refl
has_byte-append (y ∷ xs) ys x = ground (arith, has_byte-append xs ys x)

pub has_byte-remove_element :
    (e : ℕ) (xs : List ℕ) (x : ℕ)
    → has_byte (remove_element e xs) x ≡ (if x == e then false else has_byte xs x)
unfolding remove_element
has_byte-remove_element e [] x = ground arith
has_byte-remove_element e (y ∷ xs) x = ground (arith, has_byte-remove_element e xs x)

pub Linked-lt :
    (value : ℕ → Option Todo) (by_id : List (Text × ℕ)) (next : ℕ) (es : List ℕ) (e : ℕ)
    → Linked value by_id next es
    → has_byte es e ≡ true
    → e < next
Linked-lt value by_id next [] e h m = cc
Linked-lt value by_id next (x ∷ es) e (todo, v, l, n, u, lt, rest) m = elim (Bool-cases (x == e)) [
  | inl same ↦ ground arith
  | inr other ↦ Linked-lt value by_id next es e rest (ground arith)
]

pub Linked-push :
    (value : ℕ → Option Todo) (by_id : List (Text × ℕ)) (next : ℕ) (es : List ℕ) (todo : Todo)
    → Linked value by_id next es
    → lookup todo.id by_id ≡ none
    → is_empty todo.id ≡ false
    → Linked
        (assign value next (some todo))
        (insert todo.id next by_id)
        (suc next)
        (es ++ next ∷ [])
Linked-push value by_id next [] todo h fresh named = (
  todo,
  ground arith,
  rw (lookup-insert todo.id todo.id next by_id) (ground (arith, text_eq_iff todo.id todo.id)),
  named,
  refl,
  omega arith,
  tt,
)
Linked-push value by_id next (e ∷ es) todo (t, v, l, n, u, lt, rest) fresh named = (
  t,
  ground arith,
  rw (lookup-insert todo.id t.id next by_id) (ground (arith, text_eq_iff todo.id t.id)),
  n,
  rw (has_byte-append es (next ∷ []) e) (ground arith),
  omega arith,
  Linked-push value by_id next es todo rest fresh named,
)

pub Linked-assign :
    (value : ℕ → Option Todo) (by_id : List (Text × ℕ)) (next : ℕ) (es : List ℕ) (e : ℕ)
    (todo : Todo)
    → Linked value by_id next es
    → lookup todo.id by_id ≡ some e
    → is_empty todo.id ≡ false
    → Linked (assign value e (some todo)) by_id next es
Linked-assign value by_id next [] e todo h l n = tt
Linked-assign value by_id next (x ∷ es) e todo (t, v, l', n', u, lt, rest) l n =
    let ih = Linked-assign value by_id next es e todo rest l n in
    elim (Bool-cases (x == e)) [
      | inl same ↦ (todo, ground arith, ground arith, n, u, lt, ih)
      | inr other ↦ (t, ground arith, l', n', u, lt, ih)
    ]

pub Linked-remove :
    (value : ℕ → Option Todo) (by_id : List (Text × ℕ)) (next : ℕ) (es : List ℕ) (id : Text) (e : ℕ)
    (todo : Todo)
    → Linked value by_id next es
    → lookup id by_id ≡ some e
    → value e ≡ some todo
    → todo.id ≡ id
    → Linked value (delete id by_id) next (remove_element e es)
unfolding remove_element
Linked-remove value by_id next [] id e todo h l v i = tt
Linked-remove value by_id next (x ∷ es) id e todo (t, v', l', n, u, lt, rest) l v i =
    let ih = Linked-remove value by_id next es id e todo rest l v i in
    elim (Bool-cases (x == e)) [
      | inl same ↦ rw same ih
      | inr other ↦ rw other (
        t,
        v',
        rw (lookup-delete id t.id by_id) (ground (arith, text_eq_iff id t.id)),
        n,
        rw (has_byte-remove_element e es x) (ground arith),
        lt,
        ih,
      )
    ]

pub Linked-nonempty :
    (value : ℕ → Option Todo) (by_id : List (Text × ℕ)) (next : ℕ) (es : List ℕ) (e : ℕ)
    (todo : Todo)
    → Linked value by_id next es
    → has_byte es e ≡ true
    → value e ≡ some todo
    → is_empty todo.id ≡ false
Linked-nonempty value by_id next [] e todo h m v = cc
Linked-nonempty value by_id next (x ∷ es) e todo (t, v', l, n, u, lt, rest) m v =
    elim (Bool-cases (x == e)) [
      | inl same ↦ ground arith
      | inr other ↦ Linked-nonempty value by_id next es e todo rest (ground arith) v
    ]
