-- ===== src/TodoStore/Snapshot.antt =====
-- The snapshot of a consistent store, and what the changes of the store do to it.
use grpc_tunnel.Prelude.{
  ℕ, ◌≡◌, refl, Bool, true, Option, none, some, List, [], ◌∷◌, ◌++◌, if◌then◌else◌, arith,
}
use grpc_tunnel.Prelude.Text.{Text, text_eq, text_eq_iff, has_byte}
use grpc_tunnel.Prelude.Dict.{lookup}
use grpc_tunnel.TodoStore.{Todo, assign, remove_element, snapshot_of}
use grpc_tunnel.TodoStore.Consistent.{Linked}

-- The store as a list of todos.
unfoldable pub find : Text → List Todo → Option Todo
find id [] = none
find id (t ∷ ts) = let rest = find id ts in if text_eq t.id id then some t else rest

abbrev pub edit : Text → Bool → Todo → Todo
edit text done t = record t { text = text; done = done }

abbrev pub edit_found : Text → Bool → Option Todo → Option Todo
edit_found text done none = none
edit_found text done (some t) = some (edit text done t)

unfoldable pub replaced : Text → Text → Bool → List Todo → List Todo
replaced id text done [] = []
replaced id text done (t ∷ ts) =
    (if text_eq t.id id then edit text done t else t) ∷ replaced id text done ts

unfoldable pub without : Text → List Todo → List Todo
without id [] = []
without id (t ∷ ts) = let rest = without id ts in if text_eq t.id id then rest else t ∷ rest

module _ (value : ℕ → Option Todo) (by_id : List (Text × ℕ)) (next : ℕ) where
  pub snapshot-push :
      (es : List ℕ) (todo : Todo)
      → Linked value by_id next es
      → snapshot_of (assign value next (some todo)) (es ++ next ∷ [])
        ≡ snapshot_of value es ++ todo ∷ []
  unfolding snapshot_of
  snapshot-push [] todo h = ground arith
  snapshot-push (e ∷ es) todo (t, v, l, n, u, lt, rest) = ground (arith, snapshot-push es todo rest)

  pub snapshot-assign :
      (es : List ℕ) (e : ℕ) (t : Todo) (text : Text) (done : Bool)
      → Linked value by_id next es
      → lookup t.id by_id ≡ some e
      → value e ≡ some t
      → snapshot_of (assign value e (some (edit text done t))) es
        ≡ replaced t.id text done (snapshot_of value es)
  unfolding snapshot_of replaced
  snapshot-assign [] e t text done h l v = refl
  snapshot-assign (x ∷ es) e t text done (t', v', l', n, u, lt, rest) l v =
      ground (arith, snapshot-assign es e t text done rest l v, text_eq_iff t'.id t.id)

  pub snapshot-remove :
      (es : List ℕ) (e : ℕ) (t : Todo)
      → Linked value by_id next es
      → lookup t.id by_id ≡ some e
      → value e ≡ some t
      → snapshot_of value (remove_element e es) ≡ without t.id (snapshot_of value es)
  unfolding snapshot_of remove_element without
  snapshot-remove [] e t h l v = refl
  snapshot-remove (x ∷ es) e t (t', v', l', n, u, lt, rest) l v =
      ground (arith, snapshot-remove es e t rest l v, text_eq_iff t'.id t.id)

  pub find-snapshot :
      (es : List ℕ) (e : ℕ) (t : Todo)
      → Linked value by_id next es
      → lookup t.id by_id ≡ some e
      → value e ≡ some t
      → has_byte es e ≡ true
      → find t.id (snapshot_of value es) ≡ some t
  unfolding snapshot_of find
  find-snapshot [] e t h l v m = cc
  find-snapshot (x ∷ es) e t (t', v', l', n, u, lt, rest) l v m =
      ground (arith, find-snapshot es e t rest l v, text_eq_iff t'.id t.id)

  pub snapshot-missing :
      (es : List ℕ) (id : Text) (text : Text) (done : Bool)
      → Linked value by_id next es
      → lookup id by_id ≡ none
      → (find id (snapshot_of value es) ≡ none)
        × (replaced id text done (snapshot_of value es) ≡ snapshot_of value es)
        × (without id (snapshot_of value es) ≡ snapshot_of value es)
  unfolding snapshot_of find replaced without
  snapshot-missing [] id text done h l = (refl, refl, refl)
  snapshot-missing (x ∷ es) id text done (t', v', l', n, u, lt, rest) l =
      let (a, b, c) = snapshot-missing es id text done rest l in
      (
        ground (arith, text_eq_iff t'.id id),
        ground (arith, text_eq_iff t'.id id),
        ground (arith, text_eq_iff t'.id id),
      )
