-- ===== src/Hook/Synced.antt =====
-- The two accounts of Hook/Accounts over allocations and frees.
use mathlib.Core.Option.{some-injective}
use mathlib.Core.Path.{subst}
use fa_st_manager.Common.{
  ℕ, Option, >>=-eq-some, ◌+◌, ◌<◌, ◌≡◌, ap, ◌∙◌, none, some, lookup, nat_eq, arith,
}
use fa_st_manager.Double.{Double}
use fa_st_manager.Hook.Memory.{
  mem_alloc_posthook, with_device, mem_alloc_prehook, mem_alloc_managed_prehook,
  mem_alloc_managed_posthook,
}
use fa_st_manager.Hook.Rooms.{advanced, pod_peer, get_gpu_memory_info_exact}
use fa_st_manager.Hook.State.{CuResult, Hook, cuda_error, cuda_error_out_of_memory, cuda_success}
use fa_st_manager.PodManager.State.{Pod, max_size}
use fa_st_manager.Hook.Accounts.{
  HookRun, begun, then_step, gets, gets_managed, checks, checks_managed, gives_back, meanwhile,
  Synced, Elsewhere-held, Elsewhere-Balanced,
}
use fa_st_manager.Hook.Noted.{gets-Synced, gives_back-Synced}

module _ {ℓ} {W : Type ℓ} ⦃d : Double W⦄ (sockfd : ℕ) where
  advanced-Synced :
      (k : Hook W (Pod W)) → Synced sockfd k → Synced sockfd (record k { statics = advanced k })
  advanced-Synced k h = record {
    summed = h.summed;
    once = h.once;
    told = h.told;
    sound = h.sound;
    speaks = (h.speaks.0, h.speaks.1, omega arith);
  }

  with_device-Synced :
      (ptr bytes : ℕ) (r : CuResult) (device : ℕ) (k : Hook W (Pod W))
      → Synced sockfd k
      → Synced sockfd (with_device (pod_peer sockfd) ptr bytes r device k)
  with_device-Synced ptr bytes cuda_success device k h = record {
    summed = h.summed;
    once = h.once;
    told = h.told;
    sound = h.sound;
    speaks = h.speaks;
  }
  with_device-Synced ptr bytes cuda_error_out_of_memory device k h = h
  with_device-Synced ptr bytes (cuda_error n) device k h = h

  gets_managed-Synced :
      (ptr bytes : ℕ) (current : Option (CuResult × ℕ)) (r : CuResult) {k k' : Hook W (Pod W)}
      → Synced sockfd k
      → lookup ptr k.allocation_map ≡ none
      → bytes + k.peer_state.gpu_mem_limit < max_size
      → mem_alloc_managed_posthook (pod_peer sockfd) current ptr bytes k ≡ some (r, k')
      → Synced sockfd k'
  unfolding mem_alloc_managed_posthook
  gets_managed-Synced ptr bytes current r {k} h new fits run =
      let (out, made, rest) =
        >>=-eq-some (mem_alloc_posthook (pod_peer sockfd) ptr bytes k) _ run in
      let (device, _, end) = >>=-eq-some current _ rest in
      subst (Synced sockfd) (ap (λ x. x.1) (some-injective _ _ end)) (
        with_device-Synced ptr bytes device.0 device.1 out.1
          (gets-Synced sockfd ptr bytes out.0 h new fits made))

  checks-Synced :
      (bytes : ℕ) (r : CuResult) {k k' : Hook W (Pod W)}
      → Synced sockfd k
      → mem_alloc_prehook (pod_peer sockfd) bytes k ≡ some (r, k')
      → Synced sockfd k'
  unfolding mem_alloc_prehook
  checks-Synced bytes r {k} h run =
      subst (Synced sockfd)
        (ap (λ x. x.1)
          (some-injective _ _ (rw (get_gpu_memory_info_exact sockfd k h.speaks h.sound) at run)))
        (advanced-Synced k h)

  checks_managed-Synced :
      (bytes : ℕ) (r : CuResult) {k k' : Hook W (Pod W)}
      → Synced sockfd k
      → mem_alloc_managed_prehook (pod_peer sockfd) bytes k ≡ some (r, k')
      → Synced sockfd k'
  unfolding mem_alloc_managed_prehook
  checks_managed-Synced bytes r {k} h run =
      let (out, made, end) = >>=-eq-some (mem_alloc_prehook (pod_peer sockfd) bytes k) _ run in
      subst (Synced sockfd) (ap (λ x. x.1) (some-injective _ _ end))
        (checks-Synced bytes out.0 h made)

  -- Whatever a hook library checks, allocates, also as managed memory, and frees, and whatever other connections of its daemon do
  -- meanwhile, the daemon holds for its connection what the hook library counts, which is the sum of the
  -- sizes of the allocations that it has noted, and the daemon's accounts are balanced within the limit.
  -- This holds at the start, a pointer that is allocated is new, sizes do not overflow, and the other
  -- connections give back no more than they hold.
  pub HookRun-Synced :
      {k k' : Hook W (Pod W)} → HookRun sockfd k k' → Synced sockfd k → Synced sockfd k'
  HookRun-Synced begun h = h
  HookRun-Synced (then_step run (gets ptr bytes r new fits made)) h =
      gets-Synced sockfd ptr bytes r (HookRun-Synced run h) new fits made
  HookRun-Synced (then_step run (gets_managed ptr bytes current r new fits made)) h =
      gets_managed-Synced ptr bytes current r (HookRun-Synced run h) new fits made
  HookRun-Synced (then_step run (checks bytes r made)) h =
      checks-Synced bytes r (HookRun-Synced run h) made
  HookRun-Synced (then_step run (checks_managed bytes r made)) h =
      checks_managed-Synced bytes r (HookRun-Synced run h) made
  HookRun-Synced (then_step run (gives_back ptr r made)) h =
      gives_back-Synced sockfd ptr r (HookRun-Synced run h) made
  HookRun-Synced (then_step run (meanwhile {q = q} e)) h =
      let s = HookRun-Synced run h in
      record {
        summed = s.summed;
        once = s.once;
        told = Elsewhere-held sockfd e ∙ s.told;
        sound = Elsewhere-Balanced sockfd e s.sound;
        speaks = s.speaks;
      }
