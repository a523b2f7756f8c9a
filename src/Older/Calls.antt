-- ===== src/Older/Calls.antt =====
-- The intercepted calls of src/hook.cpp and docker/kubeshare-gemini-scheduler/hook.cpp side by side.
use fa_st_manager.Common.{
  ℕ, ◌≡◌, none, refl, ◌>>=◌, Option-cases, inl, inr, lookup, nat_eq, ◌⊎◌, ap, ◌∙◌, Bool-cases, true,
  false, arith,
}
use fa_st_manager.Double.{Double}
use fa_st_manager.Hook.Erased.{entries, erase_device_pointer_once, update_memory_usage-devptrs_mngr}
use fa_st_manager.Hook.Intercept.{Driver, freed_pointer, is_success, size_before, size_after}
use fa_st_manager.Hook.State.{Hook, Peer, CuResult}
use fa_st_manager.Hook.Symbols.{
  DriverCall, exported_symbol, mem_alloc, mem_alloc_managed, mem_alloc_pitch, array_create,
  array3d_create, mem_free, array_destroy, mipmapped_array_destroy, launch_kernel,
  launch_cooperative_kernel, memcpy_atoh, memcpy_dtoh, memcpy_htoa, memcpy_htod, ctx_synchronize,
  mipmapped_array_create, HookSymbol,
}
use fa_st_manager.Hook.Tokens.{Readings}
use fa_st_manager.Hook.Memory
use fa_st_manager.Hook.Tokens
use fa_st_manager.Older.Tokens as OlderTokens
use fa_st_manager.PodManager.State.{minus_size}
use fa_st_manager.Hook.State
use fa_st_manager.Hook.Intercept
use fa_st_manager.Older.Agreement.{
  Apart, view, viewed, mem_alloc_prehook_agrees, mem_alloc_posthook_agrees,
  update_memory_usage_agrees,
}
use fa_st_manager.Older.Connection.{debug_mode_of}
use fa_st_manager.Older.Memory as OlderMemory
use fa_st_manager.Older.Memory.{bytes_before, bytes_after, format_bytes}
use fa_st_manager.Older.Intercept as OlderIntercept
use fa_st_manager.Older.Symbols as OlderSymbols
use fa_st_manager.Older.Tokens.{Guard}
use fa_st_manager.Hook.Memory.{
  ArrayFormat, format_size, array_size, array3d_size, pitch_size, unsigned_int8, signed_int8,
  unsigned_int16, signed_int16, half_float, unsigned_int32, signed_int32, float_format,
}
use fa_st_manager.Older.Sizes.{bytes_before-size_before, bytes_after-size_after}

module _ {ℓ κ} {W : Type ℓ} {S : Type κ} where
  -- The pointer is not known, or it has one entry in the list of device pointers.
  abbrev pub Erasable : ℕ → Hook W S → Type 0
  Erasable ptr k = (lookup ptr k.allocation_map ≡ none) ⊎ (entries ptr k.devptrs_mngr ≡ 1)

  -- The calls that the newer version treats as the older one does.
  abbrev pub IsShared : DriverCall → Hook W S → Type 0
  IsShared (mem_free ptr) k = Erasable ptr k
  IsShared (array_destroy handle) k = Erasable handle k
  IsShared (mipmapped_array_destroy handle) k = Erasable handle k
  IsShared (mem_alloc_managed bytes) k = false ≡ true
  IsShared launch_kernel k = false ≡ true
  IsShared launch_cooperative_kernel k = false ≡ true
  IsShared _ k = Unit

  module _ ⦃d : Double W⦄ (peer : Peer S) where
    mem_free_prehook_agrees :
        (start : Apart) (ptr : ℕ) (k : Hook W S)
        → Erasable ptr k
        → OlderMemory.mem_free_prehook peer ptr (view start k)
          ≡ viewed start (Memory.mem_free_prehook peer ptr k)
    unfolding OlderMemory.mem_free_prehook Memory.mem_free_prehook
    mem_free_prehook_agrees start ptr k ok = elim (Option-cases (lookup ptr k.allocation_map)) [
      | inl e ↦ rw e refl
      | inr (bytes, known) ↦
          let one : entries ptr k.devptrs_mngr ≡ 1 = elim ok [
            | inl e ↦ absurd (ground (arith, e, known))
            | inr h ↦ h
          ] in
          let j : Hook W S = record k { gpu_mem_used = minus_size k.gpu_mem_used bytes } in
          let same = update_memory_usage_agrees peer start bytes 0 j in
          elim (Option-cases (State.update_memory_usage peer bytes 0 j)) [
            | inl e ↦ rw (known, same, e) refl
            | inr (out, e) ↦
                let kept = ap (entries ptr) (update_memory_usage-devptrs_mngr peer bytes 0 j e) in
                let gone = erase_device_pointer_once ptr out.1.devptrs_mngr (kept ∙ one) in
                rw (known, same, e, ◌>>=◌, gone) refl
          ]
    ]

    pre_hook_agrees :
        (start : Apart) (call : DriverCall) (t : Readings W) (u : Guard) (k : Hook W S)
        → IsShared call k
        → OlderIntercept.pre_hook peer (OlderSymbols.exported_symbol call) call t u (view start k)
          ≡ viewed start (Intercept.pre_hook peer (exported_symbol call) call t k)
    unfolding OlderIntercept.pre_hook Intercept.pre_hook exported_symbol
        OlderSymbols.exported_symbol freed_pointer
    pre_hook_agrees start memcpy_atoh t u k ok = refl
    pre_hook_agrees start memcpy_dtoh t u k ok = refl
    pre_hook_agrees start memcpy_htoa t u k ok = refl
    pre_hook_agrees start memcpy_htod t u k ok = refl
    pre_hook_agrees start ctx_synchronize t u k ok = refl
    pre_hook_agrees start mipmapped_array_create t u k ok = refl
    pre_hook_agrees start (mem_alloc_managed b) t u k ok = absurd (ground (arith, ok))
    pre_hook_agrees start launch_kernel t u k ok = absurd (ground (arith, ok))
    pre_hook_agrees start launch_cooperative_kernel t u k ok = absurd (ground (arith, ok))
    pre_hook_agrees start (mem_free p) t u k ok = mem_free_prehook_agrees start p k ok
    pre_hook_agrees start (array_destroy p) t u k ok = mem_free_prehook_agrees start p k ok
    pre_hook_agrees start (mipmapped_array_destroy p) t u k ok =
        mem_free_prehook_agrees start p k ok
    pre_hook_agrees start (mem_alloc b) t u k ok =
        rw (bytes_before-size_before (mem_alloc b))
          (mem_alloc_prehook_agrees peer start (size_before (mem_alloc b)) k)
    pre_hook_agrees start (mem_alloc_pitch a b h) t u k ok =
        rw (bytes_before-size_before (mem_alloc_pitch a b h))
          (mem_alloc_prehook_agrees peer start (size_before (mem_alloc_pitch a b h)) k)
    pre_hook_agrees start (array_create w h c f) t u k ok =
        rw (bytes_before-size_before (array_create w h c f))
          (mem_alloc_prehook_agrees peer start (size_before (array_create w h c f)) k)
    pre_hook_agrees start (array3d_create w h z c f) t u k ok =
        rw (bytes_before-size_before (array3d_create w h z c f))
          (mem_alloc_prehook_agrees peer start (size_before (array3d_create w h z c f)) k)

    post_hook_agrees :
        (start : Apart) (call : DriverCall) (v : Driver) (t : Readings W) (j k : Hook W S)
        → IsShared call j
        → OlderIntercept.post_hook peer (OlderSymbols.exported_symbol call) call v t (view start k)
          ≡ viewed start (Intercept.post_hook peer (exported_symbol call) call v t k)
    unfolding OlderIntercept.post_hook Intercept.post_hook exported_symbol
        OlderSymbols.exported_symbol Tokens.host_sync_call OlderTokens.host_sync_call
    post_hook_agrees start memcpy_atoh v t j k ok = refl
    post_hook_agrees start memcpy_dtoh v t j k ok = refl
    post_hook_agrees start memcpy_htoa v t j k ok = refl
    post_hook_agrees start memcpy_htod v t j k ok = refl
    post_hook_agrees start ctx_synchronize v t j k ok = refl
    post_hook_agrees start mipmapped_array_create v t j k ok = refl
    post_hook_agrees start (mem_alloc_managed b) v t j k ok = absurd (ground (arith, ok))
    post_hook_agrees start launch_kernel v t j k ok = refl
    post_hook_agrees start launch_cooperative_kernel v t j k ok = refl
    post_hook_agrees start (mem_free p) v t j k ok = refl
    post_hook_agrees start (array_destroy p) v t j k ok = refl
    post_hook_agrees start (mipmapped_array_destroy p) v t j k ok = refl
    post_hook_agrees start (mem_alloc b) v t j k ok =
        rw (bytes_after-size_after (mem_alloc b))
          (mem_alloc_posthook_agrees peer start v.pointer (size_after (mem_alloc b)) k)
    post_hook_agrees start (mem_alloc_pitch a b h) v t j k ok =
        rw (bytes_after-size_after (mem_alloc_pitch a b h))
          (mem_alloc_posthook_agrees peer start v.pointer (size_after (mem_alloc_pitch a b h)) k)
    post_hook_agrees start (array_create w h c f) v t j k ok =
        rw (bytes_after-size_after (array_create w h c f))
          (mem_alloc_posthook_agrees peer start v.pointer (size_after (array_create w h c f)) k)
    post_hook_agrees start (array3d_create w h z c f) v t j k ok =
        rw (bytes_after-size_after (array3d_create w h z c f))
          (mem_alloc_posthook_agrees peer start v.pointer (size_after (array3d_create w h z c f)) k)

    IsShared-counted :
        (call : DriverCall) (i : HookSymbol) (k : Hook W S)
        → IsShared call k
        → IsShared call (Intercept.counted peer i k)
    IsShared-counted memcpy_atoh i k ok = ok
    IsShared-counted memcpy_dtoh i k ok = ok
    IsShared-counted memcpy_htoa i k ok = ok
    IsShared-counted memcpy_htod i k ok = ok
    IsShared-counted ctx_synchronize i k ok = ok
    IsShared-counted mipmapped_array_create i k ok = ok
    IsShared-counted launch_kernel i k ok = ok
    IsShared-counted launch_cooperative_kernel i k ok = ok
    IsShared-counted (mem_alloc b) i k ok = ok
    IsShared-counted (mem_alloc_managed b) i k ok = ok
    IsShared-counted (mem_alloc_pitch a b h) i k ok = ok
    IsShared-counted (array_create w h c f) i k ok = ok
    IsShared-counted (array3d_create w h z c f) i k ok = ok
    IsShared-counted (mem_free p) i k ok = ok
    IsShared-counted (array_destroy p) i k ok = ok
    IsShared-counted (mipmapped_array_destroy p) i k ok = ok

    counted_agrees :
        (start : Apart) (call : DriverCall) (k : Hook W S)
        → OlderIntercept.counted peer (OlderSymbols.exported_symbol call) (view start k)
          ≡ view start (Intercept.counted peer (exported_symbol call) k)
    unfolding OlderSymbols.exported_symbol exported_symbol
    counted_agrees start call k = elim (Bool-cases (debug_mode_of start.env_hook_debug)) [
      | inl e ↦ rw e refl
      | inr e ↦ rw e refl
    ]

    -- The two versions treat the copies, the synchronisation, the allocations, the frees of pointers that are not known or have one entry
    -- in the newer version's list, and mipmapped arrays alike.
    pub intercept_agrees :
        (start : Apart) (call : DriverCall) (v : Driver) (t : Readings W) (u : Guard) (k : Hook W S)
        → IsShared call k
        → OlderIntercept.intercept peer
            (OlderSymbols.exported_symbol call)
            call
            v
            t
            u
            (view start k)
          ≡ viewed start (Intercept.intercept peer (exported_symbol call) call v t k)
    unfolding OlderIntercept.intercept Intercept.intercept OlderSymbols.exported_symbol
        exported_symbol
    intercept_agrees start call v t u k ok =
        let i = exported_symbol call in
        let c = Intercept.counted peer i k in
        let count = counted_agrees start call k in
        let pre : OlderIntercept.pre_hook peer (OlderSymbols.exported_symbol call) call t u
              (view start c)
            ≡ viewed start (Intercept.pre_hook peer i call t c) =
          pre_hook_agrees start call t u c (IsShared-counted call i k ok) in
        elim (Option-cases (Intercept.pre_hook peer i call t c)) [
          | inl e ↦ rw (count, pre, e) refl
          | inr (before, e) ↦ elim (Bool-cases (is_success before.0)) [
            | inr stop ↦ rw (count, pre, e, ◌>>=◌, stop) refl
            | inl go ↦ elim (Bool-cases (is_success v.result)) [
              | inr stop ↦ rw (count, pre, e, ◌>>=◌, go, stop) refl
              | inl done ↦
                  let post = post_hook_agrees start call v t k before.1 ok in
                  rw (count, pre, e, ◌>>=◌, go, done) post
            ]
          ]
        ]
