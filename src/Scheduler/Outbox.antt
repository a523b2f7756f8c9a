-- ===== src/Scheduler/Outbox.antt =====
-- The messages that the scheduler of src/scheduler.cpp has sent: a step of its threads takes none back.
use mathlib.Core.List.{Memᴰ}
use mathlib.Core.Path.{subst}
use mathlib.Core.Option.{some-injective}
use fa_st_manager.Common.{
  ℕ, ◌≡◌, sym, Bool, true, List, [], ◌∷◌, Option, none, some, Name, arith, Bool-cases, inl, inr,
  Option-cases, lookup, text_eq, ◌>>=◌, ◌∙◌, ap, ◌||◌, leb, >>=-eq-some, if◌then◌else◌, ◌==◌,
  replicate, insert,
}
use fa_st_manager.Double.{Double}
use fa_st_manager.Comm.Buffer.{get_msg_data}
use fa_st_manager.Comm.Message.{
  Parsed, Response, parse_request, c_string, prepare_response, rsp_mem_limit, rsp_mem_update,
  rsp_msg_len, rsp_quota,
}
use fa_st_manager.Scheduler.Client.{ClientInfo, get_quota}
use fa_st_manager.Scheduler.Config.{read_resource_config}
use fa_st_manager.Scheduler.Message.{
  respond, update_memory, dispatch, by_client, handle_message, handle_quota,
}
use fa_st_manager.Scheduler.Select.{Pass, select_candidates, decide, finish}
use fa_st_manager.Scheduler.State.{
  add_size, sm_global_limit, Candidate, Node, Scheduler, ValidCandidate,
}
use fa_st_manager.Scheduler.Steps.{
  Daemon, Step, message, updates, selects, gives, times_out, scans, reloads, Reach, here, next,
}
use fa_st_manager.Scheduler.Tokens.{
  update_tokens, give_token, take_back, token_timed_out, scan_candidates, remove_ifexists,
}

module _ {ℓ} {W : Type ℓ} where
  -- Every message sent before is among those sent after.
  abbrev pub KeepsSent : Scheduler W → Scheduler W → Type 0
  KeepsSent s t = (x : ℕ × List ℕ) → Memᴰ x s.outbox → Memᴰ x t.outbox

  abbrev outbox_of : Option (Scheduler W) → List (ℕ × List ℕ)
  outbox_of none = []
  outbox_of (some s) = s.outbox

  sent_same : (s t : Scheduler W) → t.outbox ≡ s.outbox → KeepsSent s t
  sent_same s t e x m = subst (Memᴰ x) (sym e) m

  sent_one : (s t : Scheduler W) (y : ℕ × List ℕ) → t.outbox ≡ y ∷ s.outbox → KeepsSent s t
  sent_one s t y e x m = subst (Memᴰ x) (sym e) (Memᴰ.tail m)

module _ {ℓ} {W : Type ℓ} ⦃d : Double W⦄ where
  respond-KeepsSent :
      (sock id : ℕ) (rsp : Response) (s t : Scheduler W)
      → respond sock id rsp s ≡ some t
      → KeepsSent s t
  respond-KeepsSent sock id rsp s t run =
      let (out, _, end) =
        >>=-eq-some (prepare_response (replicate rsp_msg_len 0) id rsp)
          (λ out. some (record s { outbox = (sock, out.0) ∷ s.outbox })) run in
      sent_one s t (sock, out.0) (ground (arith, end))

  dispatch-KeepsSent :
      (sock : ℕ) (buf : List ℕ) (now later : W) (p : Parsed) (name : Name) (c : ClientInfo W)
      (s t : Scheduler W)
      → dispatch sock buf now later p name c s ≡ some t
      → KeepsSent s t
  unfolding dispatch handle_quota
  dispatch-KeepsSent sock buf now later p name c s t run = elim (Bool-cases (p.req_type == 0)) [
    | inl e ↦
        let (overuse, _, rest) =
          >>=-eq-some (get_msg_data 8 buf p.attached)
            (λ overuse. get_msg_data 8 buf overuse.1 >>= λ burst. some (
              handle_quota sock name p.req_id (d.of_bits overuse.0) (d.of_bits burst.0) now later c
                s))
            (rw e at run) in
        let (burst, _, end) =
          >>=-eq-some (get_msg_data 8 buf overuse.1)
            (λ burst. some (
              handle_quota sock name p.req_id (d.of_bits overuse.0) (d.of_bits burst.0) now later c
                s))
            rest in
        subst (λ u. KeepsSent s u) (some-injective _ _ end) (λ x m. m)
    | inr e ↦ elim (Bool-cases (p.req_type == 1)) [
      | inl f ↦
          respond-KeepsSent sock p.req_id (rsp_mem_limit c.gpu_mem_used c.gpu_mem_limit) s t
            (rw (e, f) at run)
      | inr f ↦ elim (Bool-cases (p.req_type == 2)) [
        | inl g ↦
            let reply = λ (bytes : ℕ × ℕ) (is_allocate : ℕ × ℕ).
              (let (verdict, c') = update_memory bytes.0 is_allocate.0 c in
                respond sock p.req_id (rsp_mem_update verdict)
                  (record s { client_info_map = insert name c' s.client_info_map })) in
            let (bytes, _, rest) =
              >>=-eq-some (get_msg_data 8 buf p.attached)
                (λ bytes. get_msg_data 4 buf bytes.1 >>= λ is_allocate. reply bytes is_allocate)
                (rw (e, f, g) at run) in
            let (flag, _, end) =
              >>=-eq-some (get_msg_data 4 buf bytes.1) (λ is_allocate. reply bytes is_allocate)
                rest in
            let (verdict, c') = update_memory bytes.0 flag.0 c in
            respond-KeepsSent sock p.req_id (rsp_mem_update verdict)
              (record s { client_info_map = insert name c' s.client_info_map }) t end
        | inr g ↦ subst (λ u. KeepsSent s u) (some-injective _ _ (rw (e, f, g) at run)) (λ x m. m)
      ]
    ]
  ]

  handle_message-KeepsSent :
      (sock : ℕ) (buf : List ℕ) (now later : W) (s t : Scheduler W)
      → handle_message sock buf now later s ≡ some t
      → KeepsSent s t
  unfolding handle_message
  handle_message-KeepsSent sock buf now later s t run =
      let (p, _, rest) =
        >>=-eq-some (parse_request buf)
          (λ p. c_string p.name >>= λ name.
            by_client sock buf now later p name (lookup name s.client_info_map) s)
          run in
      let (name, _, end) =
        >>=-eq-some (c_string p.name)
          (λ name. by_client sock buf now later p name (lookup name s.client_info_map) s) rest in
      elim (Option-cases (lookup name s.client_info_map)) [
        | inl e ↦ subst (λ u. KeepsSent s u) (some-injective _ _ (rw e at end)) (λ x m. m)
        | inr (c, e) ↦ dispatch-KeepsSent sock buf now later p name c s t (rw e at end)
      ]

  update_tokens-KeepsSent :
      (now : W) (s : Scheduler W) (wait : Bool) (t : Scheduler W)
      → update_tokens now s ≡ some (wait, t)
      → KeepsSent s t
  unfolding update_tokens
  update_tokens-KeepsSent now s wait t run = sent_same s t (ground (arith, run))

  remove_ifexists-outbox :
      (name : Name) (s : Scheduler W) (gone : Bool) (t : Scheduler W)
      → remove_ifexists name s ≡ some (gone, t)
      → t.outbox ≡ s.outbox
  unfolding remove_ifexists
  remove_ifexists-outbox name s gone t run = ground (arith, run)

  scan_candidates-outbox :
      (ns : List (Node W)) (s : Scheduler W) (found : Bool) (t : Scheduler W)
      → scan_candidates ns s ≡ some (found, t)
      → t.outbox ≡ s.outbox
  unfolding scan_candidates
  scan_candidates-outbox [] s found t run = ground (arith, run)
  scan_candidates-outbox (n ∷ ns) s found t run =
      let fitting = λ (r : Bool × Scheduler W) (c : ClientInfo W).
        r.0 || leb (add_size c.gpu_sm_partition r.1.g_sm_occupied) sm_global_limit in
      let next' = λ (r : Bool × Scheduler W) (c : ClientInfo W).
        (let rest = scan_candidates ns r.1 in if fitting r c then some (true, r.1) else rest) in
      let (r, gone, later) =
        >>=-eq-some (remove_ifexists n.candidate.name s)
          (λ r. lookup n.candidate.name s.client_info_map >>= λ c. next' r c) run in
      let (c, _, end) =
        >>=-eq-some (lookup n.candidate.name s.client_info_map) (λ c. next' r c) later in
      let same = remove_ifexists-outbox n.candidate.name s r.0 r.1 gone in
      elim (Bool-cases (fitting r c)) [
        | inl e ↦ ground (arith, same, rw e at end)
        | inr e ↦ scan_candidates-outbox ns r.1 found t (rw e at end) ∙ same
      ]

  token_timed_out-outbox : (s t : Scheduler W) → token_timed_out s ≡ some t → t.outbox ≡ s.outbox
  unfolding token_timed_out take_back
  token_timed_out-outbox s t run = ground (arith, run)

  select_candidates-outbox :
      (sort : List (ValidCandidate W) → List (ValidCandidate W)) (now : W) (s : Scheduler W)
      (pass : Pass W) (t : Scheduler W)
      → select_candidates sort now s ≡ some (pass, t)
      → t.outbox ≡ s.outbox
  unfolding select_candidates decide finish
  select_candidates-outbox sort now s pass t run = ground (arith, run)

  give_token-KeepsSent :
      (now later : W) (c : Candidate W) (s t : Scheduler W)
      → give_token now later c s ≡ some t
      → KeepsSent s t
  unfolding give_token
  give_token-KeepsSent now later c s t run = elim (Option-cases (lookup c.name s.client_info_map)) [
    | inl e ↦ let bad = rw (e, ◌>>=◌) at run in cc bad
    | inr (info, e) ↦
        elim (Option-cases (
          prepare_response (replicate rsp_msg_len 0) c.req_id
            (rsp_quota (d.to_bits (get_quota info).0)))) [
              | inl f ↦ let bad = rw (e, f, ◌>>=◌) at run in cc bad
              | inr (out, f) ↦
                  sent_one s t (c.socket, out.0)
                    (sym (ap (λ (u : Option (Scheduler W)). outbox_of u) (rw (e, f, ◌>>=◌) at run)))
            ]
  ]

  module _ (sort : List (ValidCandidate W) → List (ValidCandidate W)) where
    Step-KeepsSent : {a b : Daemon W} → Step sort a b → KeepsSent a.shared b.shared
    unfolding read_resource_config
    Step-KeepsSent (message {s = s} {t = t} sock buf now later run) =
        handle_message-KeepsSent sock buf now later s t run
    Step-KeepsSent (updates {s = s} {t = t} now wait run) = update_tokens-KeepsSent now s wait t run
    Step-KeepsSent (selects {s = s} {t = t} now pass run) =
        sent_same s t (select_candidates-outbox sort now s pass t run)
    Step-KeepsSent (gives {s = s} {t = t} c now later run) =
        give_token-KeepsSent now later c s t run
    Step-KeepsSent (times_out {s = s} {t = t} run) = sent_same s t (token_timed_out-outbox s t run)
    Step-KeepsSent (scans {s = s} {t = t} found run) =
        sent_same s t (scan_candidates-outbox s.candidates s found t run)
    Step-KeepsSent (reloads rows same) = λ x m. m

    -- Whatever the threads of the scheduler do, a message that was sent stays sent.
    pub Reach-KeepsSent :
        (start : Daemon W) {e : Daemon W} → Reach sort start e → KeepsSent start.shared e.shared
    Reach-KeepsSent start here = λ x m. m
    Reach-KeepsSent start (next r step) =
        let before = Reach-KeepsSent start r in
        let after = Step-KeepsSent step in λ x m. after x (before x m)
