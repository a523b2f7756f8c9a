-- ===== src/Scheduler/Answered.antt =====
-- What a round of `schedule_daemon_func` in src/scheduler.cpp owes to a candidate that waits, while
-- other tokens are out, up to the message with its quota.
use mathlib.Core.List.{Permᴰ, Memᴰ}
use mathlib.Core.Path.{subst}
use mathlib.Core.Option.{some-injective}
use fa_st_manager.Common.{
  ℕ, ◌+◌, ◌≡◌, ◌≤◌, List, [], ◌∷◌, ◌++◌, some, true, false, Bool, refl, sym, ap, ◌∙◌, arith, lookup,
  replicate, text_eq, name_eq, name_eq_iff, lookup-insert, ◌>>=◌, insert, if◌then◌else◌, Name,
  is_empty, Bool-cases, inl, inr,
}
use fa_st_manager.Comm.Answers.{prepare_response_lem}
use fa_st_manager.Comm.Message.{rsp_quota, rsp_msg_len, prepare_response}
use fa_st_manager.Double.{Double, nought}
use fa_st_manager.Scheduler.Client.{ClientInfo, get_quota, record_history}
use fa_st_manager.Scheduler.State.{
  Candidate, Clients, Node, Scheduler, ValidCandidate, add_size, sm_global_limit,
}
use fa_st_manager.Scheduler.Accounting.{young}
use fa_st_manager.Scheduler.Composed.{serve_selects-At}
use fa_st_manager.Scheduler.Invariant.{Inv, update_tokens-Inv}
use fa_st_manager.Scheduler.Limits.{update_tokens_lem}
use fa_st_manager.Scheduler.Progress.{left, select_candidates-approves}
use fa_st_manager.Scheduler.Rounds.{Arrival, Round, daemon_round, select_loop, serve_selects}
use fa_st_manager.Scheduler.Select.{
  Pass, approved, decide, finish, select_candidates, within_window,
}
use fa_st_manager.Scheduler.Selection.{select_candidates-Outcome}
use fa_st_manager.Scheduler.Steps.{Daemon, here}
use fa_st_manager.Scheduler.Usage.{used_by}
use fa_st_manager.Scheduler.Tokens.{update_tokens, give_token, give_tokens}
use fa_st_manager.Scheduler.Outbox.{KeepsSent, Reach-KeepsSent}
use fa_st_manager.Scheduler.Parts.{AllKnown, AllKnown-SameParts, Known-lookup, part-insert, total}

module _ {ℓ} {W : Type ℓ} ⦃d : Double W⦄ where
  -- The map has the client `c` under the name, with some last quota.
  abbrev pub HasClient : Clients W → Name → ClientInfo W → Type ℓ
  HasClient m name c = (q : W) × (lookup name m ≡ some (record c { quota = q }))

  -- A message was sent to the candidate, with its id and the quota of the client `c`.
  abbrev pub Answered : Candidate W → ClientInfo W → Scheduler W → Type ℓ
  Answered n c s =
      (q : W) × (out : List ℕ) × (len : ℕ) × (prepare_response (replicate rsp_msg_len 0) n.req_id
          (rsp_quota (d.to_bits (get_quota (record c { quota = q })).0))
        ≡ some (out, len))
      × Memᴰ (n.socket, out) s.outbox

  -- The state after a token for `x`, whose client is `info`.
  abbrev given_to : W → W → Candidate W → ClientInfo W → List ℕ → Scheduler W → Scheduler W
  given_to now later x info out s =
      let q = (get_quota info).0 in
      record s {
        client_info_map = insert x.name (get_quota info).1 s.client_info_map;
        history_list = record_history now q (get_quota info).1 s.history_list;
        outbox = (x.socket, out) ∷ s.outbox;
        g_sm_occupied = add_size s.g_sm_occupied info.gpu_sm_partition;
        token_takers = s.token_takers ++ (record x { expired_time = d.plus later q } ∷ []);
      }

  give_token_run :
      (now later : W) (x : Candidate W) (s : Scheduler W) (info : ClientInfo W)
      → lookup x.name s.client_info_map ≡ some info
      → (out : List ℕ) × (len : ℕ) × (prepare_response
            (replicate rsp_msg_len 0)
            x.req_id
            (rsp_quota (d.to_bits (get_quota info).0))
          ≡ some (out, len))
        × (give_token now later x s ≡ some (given_to now later x info out s))
  unfolding give_token
  give_token_run now later x s info found =
      let made =
        prepare_response_lem (replicate rsp_msg_len 0) x.req_id
          (rsp_quota (d.to_bits (get_quota info).0)) (omega arith) in
      (_, _, made, rw (found, ◌>>=◌, made) refl)

  HasClient-insert :
      (m : Clients W) (x name : Name) (info c : ClientInfo W)
      → lookup x m ≡ some info
      → HasClient m name c
      → HasClient (insert x (get_quota info).1 m) name c
  unfolding get_quota
  HasClient-insert m x name info c found (q, has) = elim (Bool-cases (name_eq x name)) [
    | inl e ↦
        let same : lookup x m ≡ lookup name m = ap (λ j. lookup j m) ((name_eq_iff x name).0 e) in
        (
          (get_quota info).0,
          ground (arith, lookup-insert x name (get_quota info).1 m, e, found, has, same),
        )
    | inr e ↦ (q, ground (arith, lookup-insert x name (get_quota info).1 m, e, has))
  ]

  give_tokens-Answered :
      (clock : ℕ → W × W) (i : ℕ) (cs : List (Candidate W)) (s : Scheduler W) (n : Candidate W)
      (c : ClientInfo W)
      → AllKnown s.client_info_map cs
      → HasClient s.client_info_map n.name c
      → (t : Scheduler W) × (give_tokens clock i cs s ≡ some t)
        × (Memᴰ n cs → Answered n c t)
        × KeepsSent s t
  unfolding give_tokens
  give_tokens-Answered clock i [] s n c known has = (s, refl, λ m. elim m [ ], λ x m. m)
  give_tokens-Answered clock i (x ∷ cs) s n c (k, known) has =
      let m = s.client_info_map in
      let (info, found, _) = Known-lookup m x.name k in
      let (out, len, made, run) = give_token_run (clock i).0 (clock i).1 x s info found in
      let s' = given_to (clock i).0 (clock i).1 x info out s in
      let (t, rest, all, keeps) =
        give_tokens-Answered clock (i + 1) cs s' n c
          (AllKnown-SameParts m s'.client_info_map cs
            (part-insert m x.name info (get_quota info).1 found refl) known)
          (HasClient-insert m x.name n.name info c found has) in
      (
        t,
        rw (run, ◌>>=◌) rest,
        (λ h. elim h [
          | Memᴰ.head e ↦
              let has' : lookup x.name m ≡ some (record c { quota = has.0 }) =
                subst (λ (y : Candidate W). lookup y.name m ≡ some (record c { quota = has.0 })) e
                  has.1 in
              let made' =
                subst
                  (λ (o : ClientInfo W).
                    prepare_response (replicate rsp_msg_len 0) x.req_id
                      (rsp_quota (d.to_bits (get_quota o).0))
                    ≡ some (out, len))
                  (some-injective _ _ (sym found ∙ has')) made in
              subst (λ (y : Candidate W). Answered y c t) (sym e)
                (has.0, out, len, made', keeps (x.socket, out) (Memᴰ.head refl))
          | Memᴰ.tail h' ↦ all h'
        ]),
        λ y h. keeps y (Memᴰ.tail h),
      )

  not_empty : {n : Node W} (ns : List (Node W)) → Memᴰ n ns → is_empty ns ≡ false
  not_empty [] m = elim m [ ]
  not_empty (x ∷ ns) m = refl

  select_candidates-map :
      (sort : List (ValidCandidate W) → List (ValidCandidate W)) (now : W) (s : Scheduler W)
      (pass : Pass W) (t : Scheduler W)
      → select_candidates sort now s ≡ some (pass, t)
      → t.client_info_map ≡ s.client_info_map
  unfolding select_candidates decide finish
  select_candidates-map sort now s pass t run = ground (arith, run)

  module _ (sort : List (ValidCandidate W) → List (ValidCandidate W))
      (permutes : (vs : List (ValidCandidate W)) → Permᴰ vs (sort vs)) where
    select_loop-given :
        (passes : List (W × List (Arrival W))) (p : W × List (Arrival W))
        (ps : List (W × List (Arrival W))) (s : Scheduler W) (cs : List (Candidate W))
        (t : Scheduler W)
        → passes ≡ p ∷ ps
        → select_candidates sort p.0 s ≡ some (approved cs, t)
        → select_loop sort passes s ≡ some (some cs, t)
    unfolding select_loop
    select_loop-given passes p ps s cs t first run = rw (first, run, ◌>>=◌) refl

    daemon_round-given :
        (r : Round W) (s : Scheduler W) (wait : Bool) (s' : Scheduler W) (cs : List (Candidate W))
        (t u : Scheduler W)
        → is_empty s.candidates ≡ false
        → update_tokens r.before s ≡ some (wait, s')
        → select_loop sort r.passes s' ≡ some (some cs, t)
        → give_tokens r.clock 0 cs t ≡ some u
        → daemon_round sort r s ≡ serve_selects sort r (some []) u
    unfolding daemon_round serve_selects give_tokens
    daemon_round-given r s wait s' cs t u full updated selected given =
        rw (full, updated, selected, given, ◌>>=◌) refl

    -- What comes after the tokens of a round.
    rest-KeepsSent :
        (r : Round W) (u : Scheduler W) (b : Bool) (t : Scheduler W)
        → serve_selects sort r (some []) u ≡ some (b, t)
        → KeepsSent u t
    rest-KeepsSent r u b t run =
        let start : Daemon W = record { shared = u; selects = [] } in
        Reach-KeepsSent sort start (serve_selects-At sort start r (some []) u here run)

    -- A round of the daemon answers each candidate that waits, has used less of the window than its
    -- share and fits beside the tokens that are still good when the round begins, whatever else waits:
    -- the round goes on from a state in which a message with the id of the request and the quota of the
    -- client, computed from some last quota, has been sent to it, and in every state in which the round
    -- ends all that was sent by then is among the messages sent, whatever arrives during the wait and
    -- however that ends. The invariant holds before, and the round has a pass.
    pub round_answers :
        (r : Round W) (p : W × List (Arrival W)) (ps : List (W × List (Arrival W)))
        (s : Scheduler W) (n : Node W) (c : ClientInfo W)
        → Inv s []
        → r.passes ≡ p ∷ ps
        → Memᴰ n s.candidates
        → lookup n.candidate.name s.client_info_map ≡ some c
        → let start = d.minus p.0 s.window_size in
          let size = if d.lt start nought then p.0 else s.window_size in
          let used = used_by n.candidate.name start (within_window start s.history_list) nought in
          d.lt nought (left c size used) ≡ true
          → total s.client_info_map (young r.before s.token_takers) + c.gpu_sm_partition
            ≤ sm_global_limit
          → (u : Scheduler W) × (daemon_round sort r s ≡ serve_selects sort r (some []) u)
            × Answered n.candidate c u
            × ((b : Bool) (t : Scheduler W) → daemon_round sort r s ≡ some (b, t) → KeepsSent u t)
    round_answers r p ps s n c v pass mem found below fit =
        let (g, updated, sum) = update_tokens_lem r.before s [] v in
        let s1 : Scheduler W = record s {
          token_takers = young r.before s.token_takers;
          g_sm_occupied = g;
        } in
        let (wait, s1', updated', v1') = update_tokens-Inv r.before s [] v in
        let v1 : Inv s1 [] =
          subst (λ (o : Bool × Scheduler W). Inv o.1 [])
            (some-injective _ _ (sym updated' ∙ updated)) v1' in
        let (cs, t, run, in_cs) =
          select_candidates-approves sort permutes p.0 s1 n c v1 mem found below
            (omega (arith, sum)) in
        let o = select_candidates-Outcome sort permutes p.0 s1 (approved cs) t v1 run in
        let has : HasClient t.client_info_map n.candidate.name c =
          (c.quota, rw (select_candidates-map sort p.0 s1 (approved cs) t run) found) in
        let (u, given, all, _) =
          give_tokens-Answered r.clock 0 cs t n.candidate c o.invariant.pending has in
        let looped : select_loop sort r.passes s1 ≡ some (some cs, t) =
          select_loop-given r.passes p ps s1 cs t pass run in
        let whole : daemon_round sort r s ≡ serve_selects sort r (some []) u =
          daemon_round-given r s _ s1 cs t u (not_empty s.candidates mem) updated looped given in
        (u, whole, all in_cs, λ b t' end. rest-KeepsSent r u b t' (sym whole ∙ end))
