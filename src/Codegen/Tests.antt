-- ===== src/Codegen/Tests.antt =====
-- codegen/container/binary.go and codegen/container/pool.go on a few events and entities.
use go_cloud_des.Prelude.{ℕ, zero, suc, ◌≡◌, refl, arith, some, [], ◌∷◌, nat_eq}
use go_cloud_des.Codegen.Slices.{get_elem?}
use go_cloud_des.Codegen.EventQueue.{Event, EventQueue, push, pop, min_index}
use go_cloud_des.Codegen.EventQueue.Sifting.{HeapOf}
use go_cloud_des.Codegen.EventQueue.Contract.{Pushed, Popped, push-Pushed, pop-Popped}
use go_cloud_des.Codegen.Slices.{occurs}
use go_cloud_des.Codegen.EventQueue.Draining.{drained, SortedEvents, drained-SortedEvents}
use go_cloud_des.Codegen.Pool.{Pool, new_pool, alloc, reuse, free}
use go_cloud_des.Codegen.Pool.Handles.{Reaches, starts, allocates, frees}
use go_cloud_des.Codegen.Pool.Contract.{Allocated, Freed, alloc-Allocated, free-Freed}

abbrev event : ℕ → Event
event t = record { time = t; handler = some t }

abbrev three : EventQueue
three = record { nodes = event 2 ∷ event 9 ∷ event 4 ∷ [] }

three-HeapOf : HeapOf three.nodes
unfolding get_elem?
three-HeapOf zero h hn = absurd (omega arith)
three-HeapOf (suc zero) h hn = omega arith
three-HeapOf (suc (suc zero)) h hn = omega arith
three-HeapOf (suc (suc (suc i))) h hn = absurd (omega arith)

pushed_first :
    push three (event 1) ≡ some (record { nodes = event 1 ∷ event 9 ∷ event 4 ∷ event 2 ∷ [] })
unfolding push
pushed_first = refl

popped_first : pop three ≡ some (record { nodes = event 4 ∷ event 9 ∷ [] }, event 2)
unfolding pop min_index
popped_first = refl

push-Pushed_example : Pushed three (event 1) (push three (event 1))
push-Pushed_example = push-Pushed three (event 1) three-HeapOf

pop-Popped_example : Popped three (pop three)
pop-Popped_example = pop-Popped three (ground arith) three-HeapOf

drained_example :
    drained 0 (event 9 ∷ event 4 ∷ event 2 ∷ []) ≡ some (event 2 ∷ event 4 ∷ event 9 ∷ [])
unfolding drained min_index push pop
drained_example = refl

drained-SortedEvents_example :
    SortedEvents (event 9 ∷ event 4 ∷ event 2 ∷ []) (drained 0 (event 9 ∷ event 4 ∷ event 2 ∷ []))
drained-SortedEvents_example = drained-SortedEvents 0 (event 9 ∷ event 4 ∷ event 2 ∷ [])

-- A pool after two allocations and one release.
abbrev pool_0 : Pool ℕ
pool_0 = new_pool 4

abbrev pool_1 : Pool ℕ
pool_1 = record { entities = 0 ∷ []; free_list = [] }

abbrev pool_2 : Pool ℕ
pool_2 = record { entities = 0 ∷ 0 ∷ []; free_list = [] }

abbrev pool_3 : Pool ℕ
pool_3 = record { entities = 0 ∷ 0 ∷ []; free_list = 0 ∷ [] }

two_live : Reaches 0 pool_2 (1 ∷ 0 ∷ [])
unfolding alloc reuse new_pool
two_live =
    allocates pool_1 pool_2 (0 ∷ []) 1 (allocates pool_0 pool_1 [] 0 (starts 4) (omega arith) refl)
      (omega arith) refl

one_live : Reaches 0 pool_3 (1 ∷ [])
unfolding free occurs
one_live = frees pool_2 pool_3 (1 ∷ 0 ∷ []) 0 two_live (omega arith) refl

reused_first : alloc 0 pool_3 ≡ some (pool_2, 0)
unfolding alloc reuse
reused_first = refl

alloc-Allocated_example : Allocated 0 pool_3 (1 ∷ []) (alloc 0 pool_3)
alloc-Allocated_example = alloc-Allocated 0 pool_3 (1 ∷ []) one_live (omega arith)

free-Freed_example : Freed 0 pool_3 (1 ∷ []) 1 (free 0 pool_3 1)
unfolding occurs
free-Freed_example = free-Freed 0 pool_3 (1 ∷ []) 1 one_live (omega arith)
