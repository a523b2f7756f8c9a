-- ===== src/Older/Agreement.antt =====
-- src/hook.cpp and docker/kubeshare-gemini-scheduler/hook.cpp side by side: where the newer version of
-- the hook library does what the older one does.
use fa_st_manager.Timer.{Timespec}
use fa_st_manager.Comm.Buffer.{get_msg_data}
use fa_st_manager.Common.{
  ◌≡◌, Option, none, some, refl, Option-cases, inl, inr, nat_eq, replicate, ℕ, Bool-cases, ◌==◌,
  ◌>>=◌, List, Name, if◌then◌else◌,
}
use fa_st_manager.Double.{Double}
use fa_st_manager.Comm.Message.{
  Request, prepare_request, req_msg_len, req_mem_update, req_mem_limit, parse_response,
}
use fa_st_manager.Hook.State.{Hook, Peer}
use fa_st_manager.Hook.Memory
use fa_st_manager.Hook.State
use fa_st_manager.Older.State.{Older}
use fa_st_manager.Older.Connection.{debug_mode_of}
use fa_st_manager.Older.State as OlderState
use fa_st_manager.Older.Memory as OlderMemory

-- What only the older version has: the time of the last request, the value of CU_HOOK_DEBUG, and the counts
-- of the functions, which it leaves alone outside its debug mode.
pub record Apart : Type 0 where
  pub request_start : Timespec
  pub env_hook_debug : Option Name
  pub call_count : List (ℕ × ℕ)

module _ {ℓ κ} {W : Type ℓ} {S : Type κ} where
  -- The older version's state beside that of the newer one, which is always in its debug mode. In its own
  -- debug mode the older version has the same counts.
  abbrev pub view : Apart → Hook W S → Older W S
  view start k = record {
    allocation_map = k.allocation_map;
    gpu_mem_used = k.gpu_mem_used;
    quota_time = k.quota_time;
    overuse = k.overuse;
    overuse_trk_cmpl = k.overuse_trk_cmpl;
    request_start = start.request_start;
    burst_predictor = k.burst_predictor;
    window_predictor = k.window_predictor;
    debug_mode = debug_mode_of start.env_hook_debug;
    call_count = if debug_mode_of start.env_hook_debug then k.call_count else start.call_count;
    host = k.host;
    statics = k.statics;
    peer_state = k.peer_state;
  }

  abbrev pub viewed {μ} : {A : Type μ} → Apart → Option (A × Hook W S) → Option (A × Older W S)
  viewed start none = none
  viewed start (some (a, k)) = some (a, view start k)

  module _ ⦃d : Double W⦄ (peer : Peer S) where
    communicate_agrees :
        (start : Apart) (req : Request) (k : Hook W S)
        → OlderState.communicate peer req (view start k)
          ≡ viewed start (State.communicate peer req k)
    unfolding OlderState.communicate State.communicate
    communicate_agrees start req k =
        elim (Option-cases (prepare_request k.host k.statics (replicate req_msg_len 0) req)) [
          | inl e ↦ rw e refl
          | inr (out, e) ↦ elim (Option-cases (peer out.1 k.peer_state)) [
            | inl e' ↦ rw (e, e') refl
            | inr (ans, e') ↦ rw (e, e') refl
          ]
        ]

    pub update_memory_usage_agrees :
        (start : Apart) (bytes flag : ℕ) (k : Hook W S)
        → OlderState.update_memory_usage peer bytes flag (view start k)
          ≡ viewed start (State.update_memory_usage peer bytes flag k)
    unfolding OlderState.update_memory_usage State.update_memory_usage
    update_memory_usage_agrees start bytes flag k =
        let same = communicate_agrees start (req_mem_update bytes flag) k in
        elim (Option-cases (State.communicate peer (req_mem_update bytes flag) k)) [
          | inl e ↦ rw (same, e) refl
          | inr (ans, e) ↦ elim (Option-cases (parse_response ans.0)) [
            | inl e' ↦ rw (same, e, ◌>>=◌, e', ◌>>=◌) refl
            | inr (head, e') ↦ elim (Option-cases (get_msg_data 4 ans.0 head.1)) [
              | inl e'' ↦ rw (same, e, ◌>>=◌, e', ◌>>=◌, e'') refl
              | inr (verdict, e'') ↦ rw (same, e, ◌>>=◌, e', ◌>>=◌, e'') refl
            ]
          ]
        ]

    pub mem_alloc_prehook_agrees :
        (start : Apart) (bytes : ℕ) (k : Hook W S)
        → OlderMemory.mem_alloc_prehook peer bytes (view start k)
          ≡ viewed start (Memory.mem_alloc_prehook peer bytes k)
    unfolding OlderMemory.mem_alloc_prehook Memory.mem_alloc_prehook OlderState.get_gpu_memory_info
        State.get_gpu_memory_info
    mem_alloc_prehook_agrees start bytes k =
        let same = communicate_agrees start req_mem_limit k in
        elim (Option-cases (State.communicate peer req_mem_limit k)) [
          | inl e ↦ rw (same, e) refl
          | inr (ans, e) ↦ elim (Option-cases (parse_response ans.0)) [
            | inl e' ↦ rw (same, e, ◌>>=◌, e', ◌>>=◌) refl
            | inr (head, e') ↦ elim (Option-cases (get_msg_data 8 ans.0 head.1)) [
              | inl e'' ↦ rw (same, e, ◌>>=◌, e', ◌>>=◌, e'') refl
              | inr (used, e'') ↦ elim (Option-cases (get_msg_data 8 ans.0 used.1)) [
                | inl f ↦ rw (same, e, ◌>>=◌, e', ◌>>=◌, e'', ◌>>=◌, f) refl
                | inr (limit, f) ↦ rw (same, e, ◌>>=◌, e', ◌>>=◌, e'', ◌>>=◌, f) refl
              ]
            ]
          ]
        ]

    pub mem_alloc_posthook_agrees :
        (start : Apart) (ptr bytes : ℕ) (k : Hook W S)
        → OlderMemory.mem_alloc_posthook peer ptr bytes (view start k)
          ≡ viewed start (Memory.mem_alloc_posthook peer ptr bytes k)
    unfolding OlderMemory.mem_alloc_posthook Memory.mem_alloc_posthook
    mem_alloc_posthook_agrees start ptr bytes k =
        let same = update_memory_usage_agrees start bytes 1 k in
        elim (Option-cases (State.update_memory_usage peer bytes 1 k)) [
          | inl e ↦ rw (same, e) refl
          | inr (out, e) ↦ elim (Bool-cases (out.0 == 0)) [
            | inl e' ↦ rw (same, e, ◌>>=◌, e') refl
            | inr e' ↦ rw (same, e, ◌>>=◌, e') refl
          ]
        ]
