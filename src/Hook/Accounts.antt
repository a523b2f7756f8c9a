-- ===== src/Hook/Accounts.antt =====
-- The accounts of a hook library of src/hook.cpp beside those of its daemon in src/pod-manager.cpp:
-- allocations and frees as steps, while other connections of the daemon come and go.

use fa_st_manager.Common.{
  ℕ, List, Option, ◌+◌, ◌<◌, ◌≤◌, ◌≡◌, ◌≢◌, none, some, insert, lookup, lookup-insert, lookup-erase,
  nat_eq, arith,
}
use fa_st_manager.Double.{Double}
use fa_st_manager.Hook.Memory.{
  mem_alloc_managed_posthook, mem_alloc_managed_prehook, mem_alloc_posthook, mem_alloc_prehook,
  mem_free_prehook,
}
use fa_st_manager.Hook.Rooms.{Speaks, pod_peer}
use fa_st_manager.Hook.State.{CuResult, Hook}
use fa_st_manager.PodManager.Accounts.{Distinct, total}
use fa_st_manager.PodManager.Recovery.{
  Balanced, accept-Balanced, allocate-Balanced, close-Balanced, free-Balanced,
}
use fa_st_manager.PodManager.State.{
  Pod, accept_client, close_client, held, hook_update_memory_usage, max_size, minus_size, plus_size,
}

held-other :
    (sockfd j v : ℕ) (m : List (ℕ × ℕ)) → j ≢ sockfd → held sockfd (insert j v m) ≡ held sockfd m
held-other sockfd j v m other = ground (arith, lookup-insert j sockfd v m)

module _ {ℓ} {W : Type ℓ} ⦃d : Double W⦄ (sockfd : ℕ) where
  -- What another connection does to the daemon.
  pub data Elsewhere : Pod W → Pod W → Type ℓ where
    accepts : {p : Pod W} (j : ℕ) → j ≢ sockfd → Elsewhere p (accept_client j p)
    allocates :
        {p : Pod W} (size flag j : ℕ)
        → j ≢ sockfd
        → 0 < flag
        → size + p.gpu_mem_limit < max_size
        → Elsewhere p (hook_update_memory_usage size flag j p).1
    frees :
        {p : Pod W} (size j : ℕ)
        → j ≢ sockfd
        → size ≤ held j p.allocation_map
        → Elsewhere p (hook_update_memory_usage size 0 j p).1
    closes : {p : Pod W} (j : ℕ) → j ≢ sockfd → Elsewhere p (close_client j p)

  -- The pre-hook and the post-hook of an allocation, the latter at a pointer that is new, the same for
  -- managed memory, the pre-hook of a free, and a change of the daemon by another connection.
  pub data HookStep : Hook W (Pod W) → Hook W (Pod W) → Type ℓ where
    gets :
        {k k' : Hook W (Pod W)} (ptr bytes : ℕ) (r : CuResult)
        → lookup ptr k.allocation_map ≡ none
        → bytes + k.peer_state.gpu_mem_limit < max_size
        → mem_alloc_posthook (pod_peer sockfd) ptr bytes k ≡ some (r, k')
        → HookStep k k'
    gets_managed :
        {k k' : Hook W (Pod W)} (ptr bytes : ℕ) (current : Option (CuResult × ℕ)) (r : CuResult)
        → lookup ptr k.allocation_map ≡ none
        → bytes + k.peer_state.gpu_mem_limit < max_size
        → mem_alloc_managed_posthook (pod_peer sockfd) current ptr bytes k ≡ some (r, k')
        → HookStep k k'
    checks :
        {k k' : Hook W (Pod W)} (bytes : ℕ) (r : CuResult)
        → mem_alloc_prehook (pod_peer sockfd) bytes k ≡ some (r, k')
        → HookStep k k'
    checks_managed :
        {k k' : Hook W (Pod W)} (bytes : ℕ) (r : CuResult)
        → mem_alloc_managed_prehook (pod_peer sockfd) bytes k ≡ some (r, k')
        → HookStep k k'
    gives_back :
        {k k' : Hook W (Pod W)} (ptr : ℕ) (r : CuResult)
        → mem_free_prehook (pod_peer sockfd) ptr k ≡ some (r, k')
        → HookStep k k'
    meanwhile :
        {k : Hook W (Pod W)} {q : Pod W}
        → Elsewhere k.peer_state q
        → HookStep k (record k { peer_state = q })

  pub data HookRun (start : Hook W (Pod W)) : Hook W (Pod W) → Type ℓ where
    begun : HookRun start start
    then_step : {k k' : Hook W (Pod W)} → HookRun start k → HookStep k k' → HookRun start k'

  -- The daemon holds for the connection what the hook library counts, which is the sum of the sizes that
  -- it has noted, and the daemon's accounts are balanced.
  pub record Synced (k : Hook W (Pod W)) : Type ℓ where
    pub summed : k.gpu_mem_used ≡ total k.allocation_map
    pub once : Distinct k.allocation_map
    pub told : held sockfd k.peer_state.allocation_map ≡ k.gpu_mem_used
    pub sound : Balanced k.peer_state
    pub speaks : Speaks k

  pub Elsewhere-held :
      {p q : Pod W} → Elsewhere p q → held sockfd q.allocation_map ≡ held sockfd p.allocation_map
  unfolding accept_client hook_update_memory_usage close_client
  Elsewhere-held (accepts {p = p} j o) = ground (arith, held-other sockfd j 0 p.allocation_map)
  Elsewhere-held (allocates {p = p} size flag j o f h) =
      ground
        (arith, held-other sockfd j (plus_size (held j p.allocation_map) size) p.allocation_map)
  Elsewhere-held (frees {p = p} size j o h) =
      held-other sockfd j (minus_size (held j p.allocation_map) size) p.allocation_map o
  Elsewhere-held (closes {p = p} j o) = ground (arith, lookup-erase j sockfd p.allocation_map)

  pub Elsewhere-Balanced : {p q : Pod W} → Elsewhere p q → Balanced p → Balanced q
  Elsewhere-Balanced (accepts j o) b = accept-Balanced j _ b
  Elsewhere-Balanced (allocates size flag j o f h) b = allocate-Balanced size flag j _ f h b
  Elsewhere-Balanced (frees size j o h) b = free-Balanced size j _ h b
  Elsewhere-Balanced (closes j o) b = close-Balanced j _ b
