-- ===== src/Hook/Rooms.antt =====
-- The allocation hooks of src/hook.cpp with the daemon of src/pod-manager.cpp at the other end.
use fa_st_manager.Hook.Tokens.{Readings}
use fa_st_manager.Hook.Symbols.{exported_symbol, mem_alloc, hook_mem_alloc}
use fa_st_manager.Hook.Memory.{mem_alloc_prehook}
use fa_st_manager.Hook.Intercept.{intercept, pre_hook, size_before, Driver, counted}
use fa_st_manager.Comm.Bytes.{le_bytes}
use fa_st_manager.PodManager.Threads.{silent, reply, launch, Handled, hook_request, no_bytes}
use fa_st_manager.Comm.Answers.{response_round_trip}
use fa_st_manager.Comm.Message.{
  name_of, Statics, req_msg_len, req_mem_limit, rsp_mem_limit, req_mem_update, rsp_mem_update,
}
use fa_st_manager.Comm.RoundTrip.{NonZero, request_round_trip, request_size}
use fa_st_manager.PodManager.Recovery.{Balanced}
use fa_st_manager.PodManager.State.{Pod, minus_size, hook_update_memory_usage}
use fa_st_manager.Hook.State.{
  Peer, Hook, get_gpu_memory_info, communicate, update_memory_usage, cuda_error_out_of_memory,
}
use fa_st_manager.Double.{Double}
use fa_st_manager.Common.{
  ℕ, List, Option, none, some, All, ◌>>=◌, ◌≡◌, length, ◌-◌, ◌≤◌, ◌<◌, replicate, ◌^◌, arith, ◌+◌,
  ◌%◌, refl, Name, ltb, true,
}

update-fits :
    (name : Name) (bytes flag : ℕ)
    → request_size name (req_mem_update bytes flag) ≡ 29 + length name
unfolding le_bytes
update-fits name bytes flag = omega arith

module _ {ℓ} {W : Type ℓ} ⦃d : Double W⦄ where
  abbrev pub reply_of : Handled W × Pod W → Option (List ℕ × Pod W)
  reply_of (reply bytes, p) = some (bytes, p)
  reply_of (launch overuse burst, p) = none
  reply_of (silent, p) = none

  -- The daemon of the Pod, for the requests that it answers without the scheduler.
  abbrev pub pod_peer : ℕ → Peer (Pod W)
  pod_peer sockfd buf p = hook_request sockfd buf p >>= reply_of

  -- The statics of the hook library are such that its requests fit: a name of at most 47 bytes, none of
  -- them NUL.
  abbrev pub Speaks : Hook W (Pod W) → Type 0
  Speaks k =
      All NonZero (name_of k.host k.statics)
      × (length (name_of k.host k.statics) ≤ 47)
      × (k.statics.id < 2 ^ 32)

  -- The statics of the hook library after a request.
  abbrev pub advanced : Hook W (Pod W) → Statics
  advanced k = record {
    client_name = some (name_of k.host k.statics);
    id = (k.statics.id + 1) % 2 ^ 32;
  }

  pub get_gpu_memory_info_exact :
      (sockfd : ℕ) (k : Hook W (Pod W))
      → Speaks k
      → Balanced k.peer_state
      → get_gpu_memory_info (pod_peer sockfd) k
        ≡ some (
          k.peer_state.gpu_mem_limit - k.peer_state.gpu_mem_used,
          k.peer_state.gpu_mem_limit,
          record k { statics = advanced k },
        )
  unfolding get_gpu_memory_info communicate hook_request
  get_gpu_memory_info_exact sockfd k (nz, short, small) sound =
      let pod = k.peer_state in
      let (out, r, made, parsed, _, id_is, type_is, _) =
        request_round_trip k.host k.statics (replicate req_msg_len 0) req_mem_limit nz (omega arith)
          (omega arith) small tt in
      let (ans, len, written, _, read, brings) =
        response_round_trip no_bytes k.statics.id (rsp_mem_limit pod.gpu_mem_used pod.gpu_mem_limit)
          (omega arith) small (ground arith) in
      let remains : minus_size pod.gpu_mem_limit pod.gpu_mem_used
          ≡ pod.gpu_mem_limit - pod.gpu_mem_used =
        omega arith in
      rw (made, parsed, id_is, type_is, written, read, brings.0, brings.1, remains) refl

  -- If the requests of the hook library fit and the accounts of the daemon are balanced, the hook library
  -- learns what remains of the limit and the limit, and neither the daemon's state nor the accounts of the hook library change.
  pub get_gpu_memory_info_lem :
      (sockfd : ℕ) (k : Hook W (Pod W))
      → Speaks k
      → Balanced k.peer_state
      → (k' : Hook W (Pod W)) × (get_gpu_memory_info (pod_peer sockfd) k
          ≡ some (
            k.peer_state.gpu_mem_limit - k.peer_state.gpu_mem_used,
            k.peer_state.gpu_mem_limit,
            k',
          ))
        × (k'.peer_state ≡ k.peer_state)
        × (k'.allocation_map ≡ k.allocation_map)
        × (k'.gpu_mem_used ≡ k.gpu_mem_used)
  get_gpu_memory_info_lem sockfd k speaks sound = (
    record k { statics = advanced k },
    get_gpu_memory_info_exact sockfd k speaks sound,
    refl,
    refl,
    refl,
  )

  verdict_small :
      (bytes flag sockfd : ℕ) (p : Pod W)
      → (hook_update_memory_usage bytes flag sockfd p).0 < 2 ^ 32
  unfolding hook_update_memory_usage
  verdict_small bytes flag sockfd p = ground arith

  pub update_memory_usage_exact :
      (sockfd bytes flag : ℕ) (k : Hook W (Pod W))
      → Speaks k
      → bytes < 2 ^ 64
      → flag < 2 ^ 32
      → update_memory_usage (pod_peer sockfd) bytes flag k
        ≡ some (
          (hook_update_memory_usage bytes flag sockfd k.peer_state).0,
          record k {
            statics = advanced k;
            peer_state = (hook_update_memory_usage bytes flag sockfd k.peer_state).1;
          },
        )
  unfolding update_memory_usage communicate hook_request
  update_memory_usage_exact sockfd bytes flag k (nz, short, small) wide_bytes wide_flag =
      let pod = k.peer_state in
      let done = hook_update_memory_usage bytes flag sockfd pod in
      let (out, r, made, parsed, _, id_is, type_is, (first, second)) =
        request_round_trip k.host k.statics (replicate req_msg_len 0) (req_mem_update bytes flag) nz
          (omega (arith, update-fits (name_of k.host k.statics) bytes flag)) (omega arith) small
          (wide_bytes, wide_flag) in
      let (ans, len, written, _, read, brings) =
        response_round_trip no_bytes k.statics.id (rsp_mem_update done.0) (omega arith) small
          (verdict_small bytes flag sockfd pod) in
      rw (made, parsed, id_is, type_is, first, second, written, read, brings) refl

  -- The verdict on an allocation or a release that the hook library reports is the one of the daemon's
  -- accounting, and the daemon's state is the one after it. The requests of the hook library fit; the size is a `size_t` and the flag an `int`.
  pub update_memory_usage_lem :
      (sockfd bytes flag : ℕ) (k : Hook W (Pod W))
      → Speaks k
      → bytes < 2 ^ 64
      → flag < 2 ^ 32
      → (k' : Hook W (Pod W)) × (update_memory_usage (pod_peer sockfd) bytes flag k
          ≡ some ((hook_update_memory_usage bytes flag sockfd k.peer_state).0, k'))
        × (k'.peer_state ≡ (hook_update_memory_usage bytes flag sockfd k.peer_state).1)
  update_memory_usage_lem sockfd bytes flag k speaks wide_bytes wide_flag = (
    record k {
      statics = advanced k;
      peer_state = (hook_update_memory_usage bytes flag sockfd k.peer_state).1;
    },
    update_memory_usage_exact sockfd bytes flag k speaks wide_bytes wide_flag,
    refl,
  )

  -- An allocation by `cuMemAlloc` under its own name that asks for more than what remains of the limit
  -- ends in `CUDA_ERROR_OUT_OF_MEMORY` before the driver is called, and changes neither the daemon's
  -- accounts nor those of the hook library. The requests of the hook library fit, and the accounts of
  -- the daemon are balanced.
  pub mem_alloc_refused :
      (sockfd bytes : ℕ) (v : Driver) (t : Readings W) (k : Hook W (Pod W))
      → Speaks k
      → Balanced k.peer_state
      → k.peer_state.gpu_mem_limit < k.peer_state.gpu_mem_used + bytes
      → (k' : Hook W (Pod W)) × (intercept
            (pod_peer sockfd)
            (exported_symbol (mem_alloc bytes))
            (mem_alloc bytes)
            v
            t
            k
          ≡ some (cuda_error_out_of_memory, k'))
        × (k'.peer_state ≡ k.peer_state)
        × (k'.allocation_map ≡ k.allocation_map)
        × (k'.gpu_mem_used ≡ k.gpu_mem_used)
  unfolding intercept pre_hook mem_alloc_prehook exported_symbol size_before
  mem_alloc_refused sockfd bytes v t k speaks sound over =
      let k1 : Hook W (Pod W) = counted (pod_peer sockfd) hook_mem_alloc k in
      let (k', told, state, map, used) = get_gpu_memory_info_lem sockfd k1 speaks sound in
      let much : ltb (k.peer_state.gpu_mem_limit - k.peer_state.gpu_mem_used) bytes ≡ true =
        ground arith in
      (k', rw (told, much) refl, state, map, used)
