-- ===== src/Crdt/Materialize/Arrival.antt =====
-- The `Materializer` (materialize.rs) retains ops by id: it ends with the same ops whatever the
-- order in which they arrive, and an op that arrives again changes nothing.
use splittr.Prelude.{List, ◌≡◌, ◌≢◌, sym, ap, ◌∙◌, arith, inl, inr}
use splittr.Prelude.Ord.{bytes_ord}
use splittr.Prelude.Folds.{Apart, foldl-perm}
use splittr.BTree.Laws.{insert_comm}
use splittr.BTree.Commute.{key-cases, get-insert_ne}
use splittr.Crdt.Op.{Op}
use splittr.Crdt.Materialize.{Materializer, retain_op, apply_all, projection}
use mathlib.Core.List.{Permᴰ}
use Prim.Native.Nat.Ordering.{eq}

-- An id names one op.
abbrev pub IdNames : Op → Op → Type 0
IdNames a b = a.id ≡ b.id → a ≡ b

pub IdNames-sym : (a b : Op) → IdNames a b → IdNames b a
IdNames-sym a b h e = sym (h (sym e))

other_ids_comm :
    (m : Materializer) (a b : Op)
    → bytes_ord.cmp a.id b.id ≢ eq
    → retain_op (retain_op m a) b ≡ retain_op (retain_op m b) a
unfolding retain_op
other_ids_comm m a b ne = ground (
  arith,
  get-insert_ne a.id b.id b m.ops ne,
  get-insert_ne b.id a.id a m.ops (λ h. ne (ground (arith, bytes_ord.cmp_flip b.id a.id))),
  insert_comm a.id b.id a b m.ops ne,
)

retain_comm :
    (m : Materializer) (a b : Op)
    → IdNames a b
    → retain_op (retain_op m a) b ≡ retain_op (retain_op m b) a
retain_comm m a b names = elim (key-cases a.id b.id) [
  | inl e ↦
      ap (λ x. retain_op (retain_op m x) b) (names e)
      ∙ ap (λ x. retain_op (retain_op m b) x) (sym (names e))
  | inr ne ↦ other_ids_comm m a b ne
]

-- A materializer that is given ops in two orders, of which no two different ones have one id, has
-- the same projection in the end. The ops' clocks may agree.
pub projection-arrival :
    (m : Materializer) {xs ys : List Op}
    → Permᴰ xs ys
    → Apart IdNames xs
    → projection (apply_all m xs) ≡ projection (apply_all m ys)
unfolding apply_all
projection-arrival m p names =
    ap projection (foldl-perm IdNames IdNames-sym retain_op retain_comm p names m)
