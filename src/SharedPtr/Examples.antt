-- ===== src/SharedPtr/Examples.antt =====
-- Short programs over SharedPtr: tests of the operations, and the theorem at one of them.
use cpp_util.Util.{◌≡◌, refl, [], ◌∷◌, some, none, List}
use cpp_util.Container.Outcome.{ok, throw, Error}
use cpp_util.SharedPtr.{
  non_atomic, atomic, start, alive, deleted, variable, member, retain_count, release_count,
  object_at, retain, release, release_all, pointer_in, get, set_null, release_current, move_all,
  adopt, copy_construct, move_construct, is_same, copy_assign, move_assign, Op, adopt_new, copy_new,
  move_new, destroy, assign_null, copy_to, move_to, step, run,
}

-- A node over a leaf, a walk from the node to the leaf, and the end of the node, which ends its member.
abbrev walks : List Op
walks =
    adopt_new []
    ∷ adopt_new (0 ∷ [])
    ∷ copy_new (variable 1)
    ∷ copy_to 2 (member 1 0)
    ∷ destroy 1
    ∷ []

leaf_left :
    run non_atomic start walks
    ≡ ok (record { objects = alive 1 [] ∷ deleted ∷ []; variables = none ∷ none ∷ some 0 ∷ [] })
unfolding run step adopt move_all pointer_in copy_construct copy_assign is_same release_current get
    retain release release_all object_at retain_count release_count
leaf_left = refl

-- The end of a node ends the leaf under it.
both_deleted :
    run atomic start (adopt_new [] ∷ adopt_new (0 ∷ []) ∷ assign_null 1 ∷ [])
    ≡ ok (record { objects = deleted ∷ deleted ∷ []; variables = none ∷ none ∷ [] })
unfolding run step adopt move_all pointer_in release_current release release_all object_at
    release_count
both_deleted = refl

-- An assignment deletes the object that loses its last pointer, and a move deletes none.
one_deleted :
    run atomic start (
      adopt_new []
      ∷ adopt_new []
      ∷ copy_to 0 (variable 1)
      ∷ move_new (variable 0)
      ∷ move_to 1 (variable 2)
      ∷ [])
    ≡ ok (record { objects = deleted ∷ alive 1 [] ∷ []; variables = none ∷ some 1 ∷ none ∷ [] })
unfolding run step adopt move_all pointer_in copy_assign move_construct move_assign set_null is_same
    release_current get retain release release_all object_at retain_count release_count
one_deleted = refl

-- A pointer that is assigned to itself keeps its object.
keeps :
    run atomic start (adopt_new [] ∷ copy_to 0 (variable 0) ∷ move_to 0 (variable 0) ∷ [])
    ≡ ok (record { objects = alive 1 [] ∷ []; variables = some 0 ∷ [] })
unfolding run step adopt move_all copy_assign move_assign is_same
keeps = refl

-- The one pointer to a node is assigned a member of that node, which is gone when it is read.
source_deleted :
    (run atomic start (adopt_new [] ∷ adopt_new (0 ∷ []) ∷ copy_to 1 (member 1 0) ∷ [])
      ≡ throw Error.dangling)
    × (run atomic start (adopt_new [] ∷ adopt_new (0 ∷ []) ∷ move_to 1 (member 1 0) ∷ [])
        ≡ throw Error.dangling)
unfolding run step adopt move_all pointer_in copy_assign move_assign is_same release_current get
    retain release release_all object_at retain_count release_count
source_deleted = (refl, refl)
