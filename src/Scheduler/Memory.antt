-- ===== src/Scheduler/Memory.antt =====
-- The memory accounts of the scheduler.
use fa_st_manager.Double.{Double}
use fa_st_manager.Common.{ℕ, ◌+◌, ◌<◌, ◌≤◌, ◌^◌, ◌≡◌, ◌≢◌, arith}
use fa_st_manager.Scheduler.Client.{ClientInfo}
use fa_st_manager.Scheduler.Message.{update_memory}

module _ {ℓ} {W : Type ℓ} ⦃d : Double W⦄ where
  -- Whatever a client asks for, its used memory stays within its limit.
  pub update_memory-le :
      (bytes is_allocate : ℕ) (c : ClientInfo W)
      → c.gpu_mem_used ≤ c.gpu_mem_limit
      → c.gpu_mem_limit < 2 ^ 64
      → let (verdict, c') = update_memory bytes is_allocate c in
        (c'.gpu_mem_used ≤ c'.gpu_mem_limit) × (c'.gpu_mem_limit ≡ c.gpu_mem_limit)
  unfolding update_memory
  update_memory-le bytes is_allocate c h small = ground arith

  -- A request that does not overflow is granted exactly if the memory fits the limit, or if less than
  -- the used memory is freed; a granted request changes the used memory by its bytes, a refused one
  -- changes nothing.
  update_memory_exact :
      (bytes is_allocate : ℕ) (c : ClientInfo W)
      → c.gpu_mem_used + bytes < 2 ^ 64
      → let (verdict, c') = update_memory bytes is_allocate c in
        (is_allocate ≢ 0
          → c.gpu_mem_used + bytes ≤ c.gpu_mem_limit
          → (verdict ≡ 1) × (c'.gpu_mem_used ≡ c.gpu_mem_used + bytes))
        × (is_allocate ≢ 0 → c.gpu_mem_limit < c.gpu_mem_used + bytes → (verdict ≡ 0) × (c' ≡ c))
        × (is_allocate ≡ 0
            → bytes < c.gpu_mem_used
            → (verdict ≡ 1) × (c'.gpu_mem_used + bytes ≡ c.gpu_mem_used))
        × (is_allocate ≡ 0 → c.gpu_mem_used ≤ bytes → (verdict ≡ 0) × (c' ≡ c))
  unfolding update_memory
  update_memory_exact bytes is_allocate c fits = ground arith

  -- Memory that was all that a client held is never given back: the free is refused, and the account
  -- keeps it.
  pub free_all_refused :
      (bytes : ℕ) (c : ClientInfo W)
      → c.gpu_mem_used ≡ 0
      → bytes ≤ c.gpu_mem_limit
      → c.gpu_mem_limit < 2 ^ 64
      → let c' = (update_memory bytes 1 c).1 in
        let (verdict, c'') = update_memory bytes 0 c' in (verdict ≡ 0) × (c''.gpu_mem_used ≡ bytes)
  unfolding update_memory
  free_all_refused bytes c h fits small = ground arith
