-- ===== src/Hook/Erased.antt =====
-- Freeing memory in src/hook.cpp: what happens to the list of device pointers.
use fa_st_manager.Comm.Buffer.{get_msg_data}
use fa_st_manager.PodManager.State.{minus_size}
use fa_st_manager.Comm.Message.{
  Request, prepare_request, req_mem_update, parse_response, req_msg_len,
}
use fa_st_manager.Hook.State.{Peer, communicate, update_memory_usage, Hook}
use fa_st_manager.Hook.Memory.{erase_device_pointer, mem_free_prehook}
use fa_st_manager.Double.{Double}
use mathlib.Core.Option.{some-injective}
use fa_st_manager.Common.{
  zero, suc, refl, ℕ, List, [], ◌∷◌, none, some, if◌then◌else◌, filter, length, ◌==◌, not, ◌+◌, ◌≤◌,
  ◌≡◌, arith, drop, false, true, append-nil, lookup, nat_eq, >>=-eq-some, Option-cases, replicate,
  inl, ◌>>=◌, inr, sym, ap, ◌∙◌,
}

-- How many entries of the list are for the pointer.
abbrev pub entries : ℕ → List (ℕ × ℕ × ℕ) → ℕ
entries ptr [] = 0
entries ptr (x ∷ xs) = if x.0 == ptr then entries ptr xs + 1 else entries ptr xs

abbrev pub others : ℕ → List (ℕ × ℕ × ℕ) → List (ℕ × ℕ × ℕ)
others ptr xs = filter (λ x. not (x.0 == ptr)) xs

length-others :
    (ptr : ℕ) (xs : List (ℕ × ℕ × ℕ)) → length (others ptr xs) + entries ptr xs ≡ length xs
length-others ptr [] = omega arith
length-others ptr (x ∷ xs) = ground (arith, length-others ptr xs)

drop-beyond {ℓ} : {A : Type ℓ} (n : ℕ) (xs : List A) → length xs ≤ n → drop n xs ≡ []
drop-beyond zero [] h = refl
drop-beyond zero (x ∷ xs) h = absurd (omega arith)
drop-beyond (suc n) [] h = refl
drop-beyond (suc n) (x ∷ xs) h = drop-beyond n xs (omega arith)

-- If the list has one entry for the pointer, that entry is erased and the others stay in order.
pub erase_device_pointer_once :
    (ptr : ℕ) (xs : List (ℕ × ℕ × ℕ))
    → entries ptr xs ≡ 1
    → erase_device_pointer ptr xs ≡ some (others ptr xs)
unfolding erase_device_pointer
erase_device_pointer_once ptr xs one =
    let counted = length-others ptr xs in
    let some_gone : (length (others ptr xs) == length xs) ≡ false = ground arith in
    rw (some_gone, drop-beyond (length (others ptr xs) + 1) xs (omega arith), append-nil) refl

erase_device_pointer_absent :
    (ptr : ℕ) (xs : List (ℕ × ℕ × ℕ)) → entries ptr xs ≡ 0 → erase_device_pointer ptr xs ≡ none
unfolding erase_device_pointer
erase_device_pointer_absent ptr xs absent =
    let counted = length-others ptr xs in
    let same : (length (others ptr xs) == length xs) ≡ true = ground arith in rw same refl

module _ {ℓ κ} {W : Type ℓ} {S : Type κ} ⦃d : Double W⦄ (peer : Peer S) where
  communicate-devptrs_mngr :
      (req : Request) (k : Hook W S) {bytes : List ℕ} {k' : Hook W S}
      → communicate peer req k ≡ some (bytes, k')
      → k'.devptrs_mngr ≡ k.devptrs_mngr
  unfolding communicate
  communicate-devptrs_mngr req k run =
      let (out, _, sent) =
        >>=-eq-some (prepare_request k.host k.statics (replicate req_msg_len 0) req)
          (λ out. peer out.1 k.peer_state >>= λ ans.
            some (ans.0, record k { statics = out.2; peer_state = ans.1 }))
          run in
      let (ans, _, end) =
        >>=-eq-some (peer out.1 k.peer_state)
          (λ ans. some (ans.0, record k { statics = out.2; peer_state = ans.1 })) sent in
      sym (ap (λ u. u.1.devptrs_mngr) (some-injective _ _ end))

  pub update_memory_usage-devptrs_mngr :
      (bytes flag : ℕ) (k : Hook W S) {verdict : ℕ} {k' : Hook W S}
      → update_memory_usage peer bytes flag k ≡ some (verdict, k')
      → k'.devptrs_mngr ≡ k.devptrs_mngr
  unfolding update_memory_usage
  update_memory_usage-devptrs_mngr bytes flag k run =
      let (ans, made, parsed) =
        >>=-eq-some (communicate peer (req_mem_update bytes flag) k)
          (λ ans. parse_response ans.0 >>= λ head.
            get_msg_data 4 ans.0 head.1 >>= λ verdict. some (verdict.0, ans.1))
          run in
      let (head, _, read) =
        >>=-eq-some (parse_response ans.0)
          (λ head. get_msg_data 4 ans.0 head.1 >>= λ verdict. some (verdict.0, ans.1)) parsed in
      let (verdict, _, end) =
        >>=-eq-some (get_msg_data 4 ans.0 head.1) (λ verdict. some (verdict.0, ans.1)) read in
      sym (ap (λ u. u.1.devptrs_mngr) (some-injective _ _ end))
      ∙ communicate-devptrs_mngr (req_mem_update bytes flag) k made

  -- Freeing memory that is accounted for, but has no entry in the list of device pointers, ends in the
  -- undefined `erase(end())`, whatever the daemon answers.
  free_without_entry :
      (ptr bytes : ℕ) (k : Hook W S)
      → lookup ptr k.allocation_map ≡ some bytes
      → entries ptr k.devptrs_mngr ≡ 0
      → mem_free_prehook peer ptr k ≡ none
  unfolding mem_free_prehook
  free_without_entry ptr bytes k known absent =
      let j : Hook W S = record k { gpu_mem_used = minus_size k.gpu_mem_used bytes } in
      elim (Option-cases (update_memory_usage peer bytes 0 j)) [
        | inl e ↦ rw (known, e) refl
        | inr (out, e) ↦
            let same = update_memory_usage-devptrs_mngr bytes 0 j e in
            let gone : entries ptr out.1.devptrs_mngr ≡ 0 = ap (entries ptr) same ∙ absent in
            rw (known, e, erase_device_pointer_absent ptr out.1.devptrs_mngr gone) refl
      ]
