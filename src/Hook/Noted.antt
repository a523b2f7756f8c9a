-- ===== src/Hook/Noted.antt =====
-- What one allocation and one free of src/hook.cpp do to the two accounts of Hook/Accounts.
use mathlib.Core.Option.{some-injective}
use mathlib.Core.Path.{subst}
use fa_st_manager.Common.{
  ℕ, List, ◌+◌, ◌^◌, ◌<◌, ◌≤◌, ◌≡◌, refl, ap, sym, ◌∙◌, none, some, false, Bool-cases, Option-cases,
  inl, inr, erase, insert, lookup, ltb, nat_eq, arith,
}
use fa_st_manager.Double.{Double}
use fa_st_manager.Hook.Memory.{erase_device_pointer, mem_alloc_posthook, mem_free_prehook}
use fa_st_manager.Hook.Rooms.{advanced, pod_peer, update_memory_usage_exact}
use fa_st_manager.Hook.State.{CuResult, Hook, cuda_error_out_of_memory, cuda_success}
use fa_st_manager.PodManager.Accounts.{
  erase-Distinct, held-insert, held-le-total, insert-Distinct, total-erase, total-insert,
}
use fa_st_manager.PodManager.State.{
  Pod, allocated, held, hook_update_memory_usage, max_size, minus_size, plus_size, released,
}
use fa_st_manager.Hook.Accounts.{Synced}

module _ {ℓ} {W : Type ℓ} ⦃d : Double W⦄ (sockfd : ℕ) where
  granted :
      (ptr bytes : ℕ) (k : Hook W (Pod W))
      → Synced sockfd k
      → lookup ptr k.allocation_map ≡ none
      → bytes + k.peer_state.gpu_mem_limit < max_size
      → ltb k.peer_state.gpu_mem_limit (plus_size k.peer_state.gpu_mem_used bytes) ≡ false
      → Synced sockfd (record k {
        statics = advanced k;
        peer_state = allocated bytes sockfd k.peer_state;
        allocation_map = insert ptr bytes k.allocation_map;
        gpu_mem_used = plus_size k.gpu_mem_used bytes;
      })
  granted ptr bytes k h new fits within =
      let pod = k.peer_state in
      let m = k.allocation_map in
      let none_held : held ptr m ≡ 0 = ground arith in
      let below = held-le-total sockfd pod.allocation_map in
      let small : pod.gpu_mem_used + bytes ≤ pod.gpu_mem_limit = ground (arith, h.sound) in
      let size = plus_size (held sockfd pod.allocation_map) bytes in
      record {
        summed = omega (arith, h.summed, total-insert ptr bytes m, none_held, h.told, h.sound);
        once = insert-Distinct ptr bytes m h.once;
        told = held-insert sockfd size pod.allocation_map ∙ omega (arith, h.told);
        sound = (
          omega (arith, total-insert sockfd size pod.allocation_map, h.sound),
          omega (arith, h.sound),
          insert-Distinct sockfd size pod.allocation_map h.sound.2,
          h.sound.3,
        );
        speaks = (h.speaks.0, h.speaks.1, omega arith);
      }

  pub gets-Synced :
      (ptr bytes : ℕ) (r : CuResult) {k k' : Hook W (Pod W)}
      → Synced sockfd k
      → lookup ptr k.allocation_map ≡ none
      → bytes + k.peer_state.gpu_mem_limit < max_size
      → mem_alloc_posthook (pod_peer sockfd) ptr bytes k ≡ some (r, k')
      → Synced sockfd k'
  unfolding mem_alloc_posthook hook_update_memory_usage
  gets-Synced ptr bytes r {k} h new fits run =
      let exact = update_memory_usage_exact sockfd bytes 1 k h.speaks (omega arith) (omega arith) in
      elim (Bool-cases
        (ltb k.peer_state.gpu_mem_limit (plus_size k.peer_state.gpu_mem_used bytes))) [
          | inl over ↦
              let done : mem_alloc_posthook (pod_peer sockfd) ptr bytes k
                  ≡ some (cuda_error_out_of_memory, record k { statics = advanced k }) =
                rw (exact, over) refl in
              let same : Synced sockfd (record k { statics = advanced k }) = record {
                summed = h.summed;
                once = h.once;
                told = h.told;
                sound = h.sound;
                speaks = (h.speaks.0, h.speaks.1, omega arith);
              } in
              subst (Synced sockfd) (ap (λ x. x.1) (some-injective _ _ (sym done ∙ run))) same
          | inr within ↦
              let k1 : Hook W (Pod W) = record k {
                statics = advanced k;
                peer_state = allocated bytes sockfd k.peer_state;
                allocation_map = insert ptr bytes k.allocation_map;
                gpu_mem_used = plus_size k.gpu_mem_used bytes;
              } in
              let done : mem_alloc_posthook (pod_peer sockfd) ptr bytes k
                  ≡ some (cuda_success, k1) =
                rw (exact, within) refl in
              subst (Synced sockfd) (ap (λ x. x.1) (some-injective _ _ (sym done ∙ run)))
                (granted ptr bytes k h new fits within)
        ]

  known_small :
      (ptr bytes : ℕ) (k : Hook W (Pod W))
      → Synced sockfd k
      → lookup ptr k.allocation_map ≡ some bytes
      → bytes < 2 ^ 64
  known_small ptr bytes k h known =
      let noted : held ptr k.allocation_map ≡ bytes = ground arith in
      let part = held-le-total ptr k.allocation_map in
      let below = held-le-total sockfd k.peer_state.allocation_map in
      omega (arith, h.summed, h.told, h.sound)

  returned :
      (ptr bytes : ℕ) (rest : List (ℕ × ℕ × ℕ)) (k : Hook W (Pod W))
      → Synced sockfd k
      → lookup ptr k.allocation_map ≡ some bytes
      → Synced sockfd (record k {
        statics = advanced k;
        peer_state = released bytes sockfd k.peer_state;
        allocation_map = erase ptr k.allocation_map;
        gpu_mem_used = minus_size k.gpu_mem_used bytes;
        devptrs_mngr = rest;
      })
  returned ptr bytes rest k h known =
      let pod = k.peer_state in
      let m = k.allocation_map in
      let bytes_held : held ptr m ≡ bytes = ground arith in
      let below = held-le-total sockfd pod.allocation_map in
      let part = total-erase ptr m h.once in
      let size = minus_size (held sockfd pod.allocation_map) bytes in
      let fits : bytes ≤ held sockfd pod.allocation_map =
        omega (arith, h.told, h.summed, bytes_held, part) in
      record {
        summed = omega (arith, h.summed, bytes_held, part, h.told, h.sound, below);
        once = erase-Distinct ptr m h.once;
        told = held-insert sockfd size pod.allocation_map ∙ ap (λ n. minus_size n bytes) h.told;
        sound = (
          omega (arith, total-insert sockfd size pod.allocation_map, h.sound, below),
          omega (arith, h.sound, below),
          insert-Distinct sockfd size pod.allocation_map h.sound.2,
          h.sound.3,
        );
        speaks = (h.speaks.0, h.speaks.1, omega arith);
      }

  pub gives_back-Synced :
      (ptr : ℕ) (r : CuResult) {k k' : Hook W (Pod W)}
      → Synced sockfd k
      → mem_free_prehook (pod_peer sockfd) ptr k ≡ some (r, k')
      → Synced sockfd k'
  unfolding mem_free_prehook hook_update_memory_usage
  gives_back-Synced ptr r {k} h run = elim (Option-cases (lookup ptr k.allocation_map)) [
    | inl unknown ↦
        let done : mem_free_prehook (pod_peer sockfd) ptr k ≡ some (cuda_success, k) =
          rw unknown refl in
        subst (Synced sockfd) (ap (λ x. x.1) (some-injective _ _ (sym done ∙ run))) h
    | inr (bytes, known) ↦
        let k0 : Hook W (Pod W) = record k { gpu_mem_used = minus_size k.gpu_mem_used bytes } in
        let exact =
          update_memory_usage_exact sockfd bytes 0 k0 h.speaks (known_small ptr bytes k h known)
            (omega arith) in
        elim (Option-cases (erase_device_pointer ptr k.devptrs_mngr)) [
          | inl undefined ↦
              let done : mem_free_prehook (pod_peer sockfd) ptr k ≡ none =
                rw (known, exact, undefined) refl in
              cc
          | inr (rest, left) ↦
              let k1 : Hook W (Pod W) = record k {
                statics = advanced k;
                peer_state = released bytes sockfd k.peer_state;
                allocation_map = erase ptr k.allocation_map;
                gpu_mem_used = minus_size k.gpu_mem_used bytes;
                devptrs_mngr = rest;
              } in
              let done : mem_free_prehook (pod_peer sockfd) ptr k ≡ some (cuda_success, k1) =
                rw (known, exact, left) refl in
              subst (Synced sockfd) (ap (λ x. x.1) (some-injective _ _ (sym done ∙ run)))
                (returned ptr bytes rest k h known)
        ]
  ]
