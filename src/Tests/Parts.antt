-- ===== src/Tests/Parts.antt =====
-- The theorems on the queue, the pools, the order and the generator.
use cpp_trading_exchange.Base.{◌+◌, ◌≡◌, refl, true, false, some, [], ◌∷◌, arith, length}
use cpp_trading_exchange.Base.Cmd.{Returns}
use cpp_trading_exchange.Queue.{null_node, append, remove, pop}
use cpp_trading_exchange.Queue.Append.{Appended, append_lem}
use cpp_trading_exchange.Queue.Remove.{Removed, remove_lem, Popped, pop_lem}
use cpp_trading_exchange.Pool.{object_at, mem_pool, allocate, deallocate}
use cpp_trading_exchange.Pool.FreeList.{IsPool, range}
use cpp_trading_exchange.Pool.Build.{mem_pool_lem}
use cpp_trading_exchange.Pool.Laws.{Allocated, allocate_lem, Deallocated, deallocate_lem}
use cpp_trading_exchange.Order.{Order}
use cpp_trading_exchange.Order.Memory.{
  Memory, order_overlay, order_memory, get_node, zeroed_order, view,
}
use cpp_trading_exchange.Order.Access.{Frame}
use cpp_trading_exchange.Book.{append_at}
use cpp_trading_exchange.Book.Sweep.{all_slots}
use cpp_trading_exchange.Book.Invariant.{HoldsSide}
use cpp_trading_exchange.Book.Located.{rest_row}
use cpp_trading_exchange.Book.Rest.{append_at_lem}
use cpp_trading_exchange.Base.{◌≤◌}
use Prim.Native.Nat.{max}
use cpp_trading_exchange.SeparatePool
use cpp_trading_exchange.SeparatePool.{MemPoolSeparateFreeStructure}
use cpp_trading_exchange.SeparatePool.Laws.{
  IsSeparatePool, Served, serve_lem, Returned, give_back_lem,
}
use cpp_trading_exchange.RandomOrder.{fresh_generator, negsuc, generate_random_price}
use cpp_trading_exchange.RandomOrder.Bounds.{generate_random_price_lem}
use cpp_trading_exchange.Tests.{shown, four_slots, two_asks, four_slots-IsPool, two_asks-IsQueue}

slot_two-object_at : object_at four_slots 2 ≡ some (shown 13 7 99 true)
unfolding object_at
slot_two-object_at = refl

slot_two-view : view four_slots 2 ≡ some (shown 13 7 99 true)
unfolding view object_at
slot_two-view = refl

slot_two-get_node : get_node four_slots 2 ≡ some null_node
unfolding get_node object_at
slot_two-get_node = refl

append_example :
    Returns
      (Appended order_memory four_slots (0 ∷ 1 ∷ []) 2)
      (append order_memory 2 two_asks four_slots)
append_example =
    append_lem order_memory four_slots two_asks (0 ∷ 1 ∷ []) 2 null_node two_asks-IsQueue refl
      (omega arith) slot_two-get_node

remove_example :
    Returns
      (Removed order_memory four_slots (0 ∷ []) 1 [])
      (remove order_memory 1 two_asks four_slots)
remove_example = remove_lem order_memory four_slots two_asks (0 ∷ []) 1 [] two_asks-IsQueue

pop_example :
    Returns (Popped order_memory four_slots (0 ∷ 1 ∷ [])) (pop order_memory two_asks four_slots)
pop_example = pop_lem order_memory four_slots two_asks (0 ∷ 1 ∷ []) two_asks-IsQueue

mem_pool_example :
    (p : Memory) × (mem_pool order_overlay 4 ≡ some p)
    × IsPool order_overlay p (range 0 4)
    × (length p.store ≡ 4)
mem_pool_example = mem_pool_lem order_overlay 4 (omega arith)

allocate_example :
    Allocated order_overlay four_slots
      (shown 14 3 98 true)
      3
      []
      (allocate order_overlay (shown 14 3 98 true) four_slots)
allocate_example = allocate_lem order_overlay four_slots (shown 14 3 98 true) 3 [] four_slots-IsPool

deallocate_example :
    (p' : Memory) × (deallocate order_overlay 2 four_slots ≡ some p')
    × Deallocated order_overlay four_slots 2 (3 ∷ []) p'
deallocate_example =
    deallocate_lem order_overlay four_slots 2 (3 ∷ []) four_slots-IsPool slot_two-object_at

append_at_example :
    Returns
      (λ ls' m'.
        HoldsSide m' true ls' (rest_row 99 (2, shown 13 7 99 true) [])
        × IsPool order_overlay m' (3 ∷ [])
        × Frame (2 ∷ []) four_slots m')
      (append_at 99 2 [] four_slots)
unfolding all_slots
append_at_example =
    append_at_lem four_slots true [] [] 99 2 (shown 13 7 99 true) null_node (3 ∷ [])
      (record { side = tt; placed = tt; sorted = tt }) (refl, refl, omega arith, tt) slot_two-view
      slot_two-get_node refl (omega arith) four_slots-IsPool

-- Block 0 in use, block 1 free.
abbrev two_blocks : MemPoolSeparateFreeStructure Order
two_blocks = record {
  store =
      record { storage = shown 11 10 100 false; next_free = 1 }
      ∷ record { storage = zeroed_order; next_free = 2 }
      ∷ [];
  next_free_index = 1;
}

two_blocks-IsSeparatePool : IsSeparatePool two_blocks (1 ∷ [])
two_blocks-IsSeparatePool = record { chain = (refl, tt); next_first = refl; distinct = (refl, tt) }

serve_example :
    Served two_blocks
      (shown 12 5 100 false)
      (1 ∷ [])
      (SeparatePool.allocate (shown 12 5 100 false) two_blocks)
serve_example = serve_lem two_blocks (shown 12 5 100 false) (1 ∷ []) two_blocks-IsSeparatePool

give_back_example :
    (p' : MemPoolSeparateFreeStructure Order) × (SeparatePool.deallocate 0 two_blocks ≡ some p')
    × Returned two_blocks 0 (1 ∷ []) p'
give_back_example = give_back_lem two_blocks 0 (1 ∷ []) two_blocks-IsSeparatePool (omega arith) refl

generate_random_price_example :
    let r = generate_random_price true (negsuc 249) 12000 true fresh_generator in
    (100 ≤ r.0) × (r.0 ≤ max (15000 + 350) 20050) × (r.1.last_price ≡ r.0) × (r.1.current_id ≡ 1)
generate_random_price_example =
    generate_random_price_lem true (negsuc 249) 12000 true fresh_generator (omega arith)
      (omega arith) (omega arith)
