-- ===== src/PodManager/Recovery.antt =====
-- The memory accounting of src/pod-manager.cpp over the whole life of its connections.
use fa_st_manager.PodManager.Accounts.{
  total, total-insert, total-erase, Distinct, insert-Distinct, erase-Distinct, held-le-total,
  held-insert, erase-insert, erase_absent,
}
use fa_st_manager.PodManager.State.{
  Pod, accept_client, hook_update_memory_usage, close_client, max_size, held, minus_size,
}
use fa_st_manager.Double.{Double}
use fa_st_manager.Common.{ℕ, [], none, ◌<◌, ◌≡◌, arith, ◌≤◌, lookup, ◌+◌, ◌%◌, nat_eq, insert}

-- The operations on the accounts. A hook library gives back only what its connection holds, and asks for
-- sizes whose sum with the limit is a `size_t`.
pub data Move {ℓ} {W : Type ℓ} ⦃d : Double W⦄ : Pod W → Pod W → Type ℓ where
  accepts : {p : Pod W} (sockfd : ℕ) → Move p (accept_client sockfd p)
  allocates :
      {p : Pod W} (size flag sockfd : ℕ)
      → 0 < flag
      → size + p.gpu_mem_limit < max_size
      → Move p (hook_update_memory_usage size flag sockfd p).1
  frees :
      {p : Pod W} (size sockfd : ℕ)
      → size ≤ held sockfd p.allocation_map
      → Move p (hook_update_memory_usage size 0 sockfd p).1
  closes : {p : Pod W} (sockfd : ℕ) → Move p (close_client sockfd p)

pub data Moves {ℓ} {W : Type ℓ} ⦃d : Double W⦄ : Pod W → Pod W → Type ℓ where
  stay : {p : Pod W} → Moves p p
  after : {p q r : Pod W} → Moves p q → Move q r → Moves p r

module _ {ℓ} {W : Type ℓ} ⦃d : Double W⦄ where
  -- No connection, and a limit that is a `size_t`.
  abbrev pub Idle : Pod W → Type 0
  Idle p = (p.allocation_map ≡ []) × (p.gpu_mem_used ≡ 0) × (p.gpu_mem_limit < max_size)

  abbrev pub Balanced : Pod W → Type 0
  Balanced p =
      (p.gpu_mem_used ≡ total p.allocation_map)
      × (p.gpu_mem_used ≤ p.gpu_mem_limit)
      × Distinct p.allocation_map
      × (p.gpu_mem_limit < max_size)

  pub accept-Balanced : (k : ℕ) (p : Pod W) → Balanced p → Balanced (accept_client k p)
  unfolding accept_client
  accept-Balanced k p h =
      let m = p.allocation_map in
      ground (arith, total-insert k 0 m, insert-Distinct k 0 m, held-le-total k m)

  pub allocate-Balanced :
      (size flag k : ℕ) (p : Pod W)
      → 0 < flag
      → size + p.gpu_mem_limit < max_size
      → Balanced p
      → Balanced (hook_update_memory_usage size flag k p).1
  unfolding hook_update_memory_usage
  allocate-Balanced size flag k p hf hs h =
      let m = p.allocation_map in
      let n = (held k m + size) % max_size in
      ground (arith, total-insert k n m, insert-Distinct k n m, held-le-total k m)

  pub free-Balanced :
      (size k : ℕ) (p : Pod W)
      → size ≤ held k p.allocation_map
      → Balanced p
      → Balanced (hook_update_memory_usage size 0 k p).1
  unfolding hook_update_memory_usage
  free-Balanced size k p hs h =
      let m = p.allocation_map in
      let n = minus_size (held k m) size in
      ground (arith, total-insert k n m, insert-Distinct k n m, held-le-total k m)

  pub close-Balanced : (k : ℕ) (p : Pod W) → Balanced p → Balanced (close_client k p)
  unfolding close_client
  close-Balanced k p h =
      let m = p.allocation_map in
      ground (arith, total-erase k m, erase-Distinct k m, held-le-total k m)

  Move-Balanced : {p q : Pod W} → Move p q → Balanced p → Balanced q
  Move-Balanced (accepts k) h = accept-Balanced k _ h
  Move-Balanced (allocates size flag k hf hs) h = allocate-Balanced size flag k _ hf hs h
  Move-Balanced (frees size k hs) h = free-Balanced size k _ hs h
  Move-Balanced (closes k) h = close-Balanced k _ h

  -- From a daemon without connections, whatever the connections do, the memory in use is the sum of what
  -- the connections hold, and it is at most the limit of the Pod.
  pub Moves-Balanced : {p q : Pod W} → Moves p q → Idle p → Balanced q
  Moves-Balanced stay h = ground arith
  Moves-Balanced (after run m) h = Move-Balanced m (Moves-Balanced run h)

  -- A new connection that asks for memory and then closes leaves the memory in use and the accounts as
  -- they were, whether the request is granted or not.
  pub close_recovers :
      (size k : ℕ) (p : Pod W)
      → Balanced p
      → lookup k p.allocation_map ≡ none
      → size + p.gpu_mem_limit < max_size
      → (let q = close_client k (hook_update_memory_usage size 1 k (accept_client k p)).1 in
          (q.gpu_mem_used ≡ p.gpu_mem_used) × (q.allocation_map ≡ p.allocation_map))
  unfolding close_client hook_update_memory_usage accept_client
  close_recovers size k p h new hs =
      let m = p.allocation_map in
      let n = (held k (insert k 0 m) + size) % max_size in
      ground (
        arith,
        held-insert k 0 m,
        held-insert k n (insert k 0 m),
        erase-insert k n (insert k 0 m),
        erase-insert k 0 m,
        erase_absent k m,
      )
