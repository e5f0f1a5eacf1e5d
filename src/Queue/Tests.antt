-- ===== src/Queue/Tests.antt =====
-- Two nodes go in, and come out.
use simplified_os_kernel.Prelude.{arith, ℕ, ◌≡◌, refl, List, [], ◌∷◌, ◌++◌, inl}
use simplified_os_kernel.Queue.{Queue, add, remove, remove_all}
use simplified_os_kernel.Queue.Chain.{Chain}
use simplified_os_kernel.Queue.Fifo.{Holds, first_or, tail_of, queue_lem}

abbrev empty : Queue
empty = record { first = 0; last = 0; next = λ n. 7 }

abbrev no_nodes : List ℕ
no_nodes = []

first_in : (remove (add 8 (add 4 empty))).0 ≡ 4
unfolding add remove
first_in = refl

second_in : (remove (remove (add 8 (add 4 empty))).1).0 ≡ 8
unfolding add remove
second_in = refl

empty-Holds : Holds empty no_nodes
empty-Holds = record { chain = refl; distinct = tt; end = inl refl }

queue_lem_example :
    Holds (add 4 empty) (no_nodes ++ (4 ∷ []))
    × ((remove (add 4 empty)).0 ≡ first_or 4 no_nodes)
    × Holds (remove (add 4 empty)).1 (tail_of (no_nodes ++ (4 ∷ [])))
    × Chain empty.next (remove_all empty).0 no_nodes
    × Holds (remove_all empty).1 []
    × (remove (remove_all empty).1 ≡ (0, (remove_all empty).1))
queue_lem_example = queue_lem 4 empty no_nodes (omega arith) tt empty-Holds
