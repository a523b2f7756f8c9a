-- ===== src/Scheduler/Preserve.antt =====
-- The steps that change the client map, the candidates or both keep the invariant.
use fa_st_manager.Comm.Buffer.{get_msg_data}
use fa_st_manager.Comm.Message.{
  Response, Parsed, prepare_response, parse_request, rsp_msg_len, rsp_mem_update, c_string,
  rsp_quota,
}
use mathlib.Core.Path.{subst}
use fa_st_manager.Scheduler.Tokens.{give_token}
use fa_st_manager.Scheduler.Message.{
  handle_quota, update_memory, dispatch, handle_message, respond, by_client,
}
use mathlib.Core.Option.{some-injective}
use fa_st_manager.Common.{
  ℕ, ◌%◌, ◌^◌, ◌≡◌, refl, List, [], ◌∷◌, ◌++◌, some, Name, arith, >>=-eq-some, lookup, sym, insert,
  ap, ◌∙◌, All-append, text_eq, Option-cases, Bool-cases, inl, ◌==◌, inr, replicate, ◌>>=◌,
}
use fa_st_manager.Double.{Double}
use fa_st_manager.Scheduler.State.{Candidate, Clients, Scheduler, Node, add_size}
use fa_st_manager.Scheduler.Parts.{
  total, AllKnown, Known-lookup, SameParts, AllKnown-SameParts, part-insert, Known, total-SameParts,
  AllSized-SameParts, lookup-Known, AllKnown-append, total-append, size_of, part,
}
use fa_st_manager.Scheduler.Invariant.{Inv, NodesKnown}
use fa_st_manager.Scheduler.Client.{ClientInfo, set_burst, get_quota, update_return_time}

module _ {ℓ} {W : Type ℓ} where
  pub NodesKnown-SameParts :
      (m m' : Clients W) (ns : List (Node W)) → SameParts m m' → NodesKnown m ns → NodesKnown m' ns
  NodesKnown-SameParts m m' [] h k = tt
  NodesKnown-SameParts m m' (n ∷ ns) h k =
      (rw (h n.candidate.name) k.0, NodesKnown-SameParts m m' ns h k.1)

  -- A change that leaves the tokens alone and every partition as it was.
  pub Inv-SameParts :
      (s t : Scheduler W) (cs : List (Candidate W))
      → SameParts s.client_info_map t.client_info_map
      → t.token_takers ≡ s.token_takers
      → t.g_sm_occupied ≡ s.g_sm_occupied
      → NodesKnown t.client_info_map t.candidates
      → Inv s cs
      → Inv t cs
  Inv-SameParts s t cs same et eg nodes v =
      let m = s.client_info_map in
      let m' = t.client_info_map in
      let takers : AllKnown m' t.token_takers =
        subst (AllKnown m') (sym et) (AllKnown-SameParts m m' s.token_takers same v.takers) in
      let sum : total m' t.token_takers ≡ total m s.token_takers =
        ap (total m') et ∙ total-SameParts m m' s.token_takers same in
      record {
        sized = AllSized-SameParts m m' same v.sized;
        takers = takers;
        waiting = nodes;
        pending = AllKnown-SameParts m m' cs same v.pending;
        accounted = omega (arith, v.accounted);
      }

module _ {ℓ} {W : Type ℓ} ⦃d : Double W⦄ where
  pub give_token-Inv :
      (now later : W) (c : Candidate W) (s : Scheduler W) (cs : List (Candidate W))
      {t : Scheduler W}
      → Inv s (c ∷ cs)
      → give_token now later c s ≡ some t
      → Inv t cs
  unfolding give_token
  give_token-Inv now later c s cs v run =
      let m = s.client_info_map in
      let (info, found, size) = Known-lookup m c.name v.pending.0 in
      let m' = insert c.name (get_quota info).1 m in
      let same : SameParts m m' = part-insert m c.name info (get_quota info).1 found refl in
      let known : Known m' c.name = rw (same c.name) v.pending.0 in
      let new : List (Candidate W) =
        record c { expired_time = d.plus later (get_quota info).0 } ∷ [] in
      let size' : size_of (part m' c.name) ≡ info.gpu_sm_partition =
        ap size_of (same c.name) ∙ size in
      let sum : add_size s.g_sm_occupied info.gpu_sm_partition
          ≡ total m' (s.token_takers ++ new) % 2 ^ 64 =
        omega (
          arith,
          v.accounted,
          total-append m' s.token_takers new,
          total-SameParts m m' s.token_takers same,
          size',
        ) in
      let takers : AllKnown m' (s.token_takers ++ new) =
        AllKnown-append m' s.token_takers new (AllKnown-SameParts m m' s.token_takers same v.takers)
          (known, tt) in
      let quota = (get_quota info).0 in
      elim (Option-cases
        (prepare_response (replicate rsp_msg_len 0) c.req_id (rsp_quota (d.to_bits quota)))) [
          | inl e ↦ let bad = rw (found, e, ◌>>=◌) at run in cc bad
          | inr (out, e) ↦
              subst (λ u. Inv u cs) (some-injective _ _ (rw (found, e, ◌>>=◌) at run))
                (record {
                  sized = AllSized-SameParts m m' same v.sized;
                  takers = takers;
                  waiting = NodesKnown-SameParts m m' s.candidates same v.waiting;
                  pending = AllKnown-SameParts m m' cs same v.pending.1;
                  accounted = sum;
                })
        ]

  handle_quota-Inv :
      (sock : ℕ) (name : Name) (id : ℕ) (overuse burst now later : W) (c : ClientInfo W)
      (s : Scheduler W) (cs : List (Candidate W))
      → lookup name s.client_info_map ≡ some c
      → Inv s cs
      → Inv (handle_quota sock name id overuse burst now later c s) cs
  unfolding handle_quota
  handle_quota-Inv sock name id overuse burst now later c s cs found v =
      let m = s.client_info_map in
      let c' = set_burst burst (update_return_time now overuse c s.history_list).0 in
      let same : SameParts m (insert name c' m) = part-insert m name c c' found (ground arith) in
      let known : Known (insert name c' m) name = rw (same name) (lookup-Known m name c found) in
      Inv-SameParts s (handle_quota sock name id overuse burst now later c s) cs same refl refl
        (All-append (λ n. Known (insert name c' m) n.candidate.name) s.candidates _
          (NodesKnown-SameParts m _ s.candidates same v.waiting) (known, tt))
        v

  update_memory-part :
      (bytes is_allocate : ℕ) (c : ClientInfo W)
      → (update_memory bytes is_allocate c).1.gpu_sm_partition ≡ c.gpu_sm_partition
  unfolding update_memory
  update_memory-part bytes is_allocate c = ground arith

  respond-Inv :
      (sock id : ℕ) (rsp : Response) (s : Scheduler W) (cs : List (Candidate W)) {t : Scheduler W}
      → Inv s cs
      → respond sock id rsp s ≡ some t
      → Inv t cs
  respond-Inv sock id rsp s cs v run =
      let (out, _, end) =
        >>=-eq-some (prepare_response (replicate rsp_msg_len 0) id rsp)
          (λ out. some (record s { outbox = (sock, out.0) ∷ s.outbox })) run in
      subst (λ u. Inv u cs) (some-injective _ _ end)
        (Inv-SameParts s (record s { outbox = (sock, out.0) ∷ s.outbox }) cs (λ j. refl) refl refl
          v.waiting v)

  dispatch-Inv :
      (sock : ℕ) (buf : List ℕ) (now later : W) (p : Parsed) (name : Name) (c : ClientInfo W)
      (s : Scheduler W) (cs : List (Candidate W)) {t : Scheduler W}
      → lookup name s.client_info_map ≡ some c
      → Inv s cs
      → dispatch sock buf now later p name c s ≡ some t
      → Inv t cs
  unfolding dispatch
  dispatch-Inv sock buf now later p name c s cs found v run = elim (Bool-cases (p.req_type == 0)) [
    | inl quota ↦
        let (overuse, _, rest) =
          >>=-eq-some (get_msg_data 8 buf p.attached)
            (λ overuse. get_msg_data 8 buf overuse.1 >>= λ burst. some (
              handle_quota sock name p.req_id (d.of_bits overuse.0) (d.of_bits burst.0) now later c
                s))
            (rw quota at run) in
        let (burst, _, end) =
          >>=-eq-some (get_msg_data 8 buf overuse.1)
            (λ burst. some (
              handle_quota sock name p.req_id (d.of_bits overuse.0) (d.of_bits burst.0) now later c
                s))
            rest in
        subst (λ u. Inv u cs) (some-injective _ _ end)
          (handle_quota-Inv sock name p.req_id (d.of_bits overuse.0) (d.of_bits burst.0) now later c
            s cs found v)
    | inr other ↦ elim (Bool-cases (p.req_type == 1)) [
      | inl limit ↦ respond-Inv sock p.req_id _ s cs v (rw (other, limit) at run)
      | inr other' ↦ elim (Bool-cases (p.req_type == 2)) [
        | inl update ↦
            let after = λ (bytes is_allocate : ℕ).
              respond sock p.req_id (rsp_mem_update (update_memory bytes is_allocate c).0)
                (record s {
                  client_info_map =
                      insert name (update_memory bytes is_allocate c).1 s.client_info_map;
                }) in
            let (bytes, _, rest) =
              >>=-eq-some (get_msg_data 8 buf p.attached)
                (λ bytes. get_msg_data 4 buf bytes.1 >>= λ is_allocate. after bytes.0 is_allocate.0)
                (rw (other, other', update) at run) in
            let (is_allocate, _, end) =
              >>=-eq-some (get_msg_data 4 buf bytes.1) (λ is_allocate. after bytes.0 is_allocate.0)
                rest in
            let m = s.client_info_map in
            let c' = (update_memory bytes.0 is_allocate.0 c).1 in
            let same : SameParts m (insert name c' m) =
              part-insert m name c c' found (update_memory-part bytes.0 is_allocate.0 c) in
            let s' = record s { client_info_map = insert name c' m } in
            respond-Inv sock p.req_id _ s' cs
              (Inv-SameParts s s' cs same refl refl
                (NodesKnown-SameParts m _ s.candidates same v.waiting) v)
              end
        | inr unknown ↦
            subst (λ u. Inv u cs) (some-injective _ _ (rw (other, other', unknown) at run)) v
      ]
    ]
  ]

  pub handle_message-Inv :
      (sock : ℕ) (buf : List ℕ) (now later : W) (s : Scheduler W) (cs : List (Candidate W))
      {t : Scheduler W}
      → Inv s cs
      → handle_message sock buf now later s ≡ some t
      → Inv t cs
  unfolding handle_message
  handle_message-Inv sock buf now later s cs v run =
      let act = λ (p : Parsed) (name : Name).
        by_client sock buf now later p name (lookup name s.client_info_map) s in
      let (p, _, rest) = >>=-eq-some (parse_request buf) (λ p. c_string p.name >>= act p) run in
      let (name, _, end) = >>=-eq-some (c_string p.name) (act p) rest in
      elim (Option-cases (lookup name s.client_info_map)) [
        | inl e ↦ subst (λ u. Inv u cs) (some-injective _ _ (rw e at end)) v
        | inr (c, e) ↦ dispatch-Inv sock buf now later p name c s cs e v (rw e at end)
      ]
