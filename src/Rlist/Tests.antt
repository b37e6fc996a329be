-- ===== src/Rlist/Tests.antt =====
-- util.h on a list with one node and a node of its own.
use tiny_os_project.Prelude.{◌+◌, refl, arith, [], ◌∷◌, ◌==◌, if◌then◌else◌}
use tiny_os_project.Rlist.{Ptr, Heap, rlist_remove}
use tiny_os_project.Rlist.Links.{IsRing}
use tiny_os_project.Rlist.Remove.{remove-IsRing}

-- The list 1 holds the node 2; the node 3 stands alone.
abbrev other : Ptr → Ptr
other n = if n == 1 then 2 else if n == 2 then 1 else n

abbrev nodes : Heap
nodes = record { obj = λ n. n + 5; prev = other; next = other }

list-IsRing : IsRing nodes 1 (2 ∷ [])
list-IsRing = record { links = (refl, refl, (refl, refl)); distinct = λ n. ground arith }

alone-IsRing : IsRing nodes 3 []
alone-IsRing = record { links = (refl, refl); distinct = λ n. ground arith }

remove-IsRing_example : IsRing (rlist_remove 2 nodes) 1 [] × IsRing (rlist_remove 2 nodes) 2 []
remove-IsRing_example = remove-IsRing 2 [] [] list-IsRing
