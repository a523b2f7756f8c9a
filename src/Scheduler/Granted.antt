-- ===== src/Scheduler/Granted.antt =====
-- What the scheduler of src/scheduler.cpp owes to a candidate that waits, up to its token.
use mathlib.Core.List.{Permᴰ, Memᴰ}
use mathlib.Core.List.Memᴰ
use mathlib.Core.Path.{subst}
use fa_st_manager.Common.{
  ℕ, ◌+◌, ◌≡◌, ◌≤◌, List, [], ◌∷◌, ◌++◌, some, true, refl, sym, arith, lookup, replicate, text_eq,
  ◌>>=◌, if◌then◌else◌, insert,
}
use fa_st_manager.Comm.Answers.{prepare_response_lem}
use fa_st_manager.Comm.Message.{rsp_quota, rsp_msg_len, prepare_response}
use fa_st_manager.Double.{Double, nought}
use fa_st_manager.Scheduler.Client.{ClientInfo, get_quota, record_history}
use fa_st_manager.Scheduler.Invariant.{Inv}
use fa_st_manager.Scheduler.Parts.{
  Known, Known-lookup, AllKnown, AllKnown-SameParts, SameParts, part-insert,
}
use fa_st_manager.Scheduler.Progress.{left, select_candidates-approves}
use fa_st_manager.Scheduler.Select.{approved, select_candidates, within_window}
use fa_st_manager.Scheduler.Selection.{select_candidates-Outcome}
use fa_st_manager.Scheduler.State.{
  Candidate, Node, Scheduler, ValidCandidate, add_size, sm_global_limit,
}
use fa_st_manager.Scheduler.Tokens.{give_token, give_tokens}
use fa_st_manager.Scheduler.Usage.{used_by}

module _ {ℓ} {W : Type ℓ} ⦃d : Double W⦄ where
  -- The token of a candidate, with some end.
  abbrev pub HasToken : Candidate W → List (Candidate W) → Type ℓ
  HasToken c ts = (e : W) × Memᴰ (record c { expired_time = e }) ts

  pub give_token-HasToken :
      (now later : W) (c : Candidate W) (s : Scheduler W)
      → Known s.client_info_map c.name
      → (t : Scheduler W) × (give_token now later c s ≡ some t)
        × SameParts s.client_info_map t.client_info_map
        × HasToken c t.token_takers
        × ((x : Candidate W) → Memᴰ x s.token_takers → Memᴰ x t.token_takers)
  unfolding give_token
  give_token-HasToken now later c s known =
      let m = s.client_info_map in
      let (info, found, _) = Known-lookup m c.name known in
      let (quota, info') = get_quota info in
      let (out, made) : (o : List ℕ × ℕ) × (prepare_response (replicate rsp_msg_len 0) c.req_id
              (rsp_quota (d.to_bits quota))
            ≡ some o) =
        (
          _,
          prepare_response_lem (replicate rsp_msg_len 0) c.req_id (rsp_quota (d.to_bits quota))
              (omega arith),
        ) in
      let given : Candidate W = record c { expired_time = d.plus later quota } in
      (
        record s {
          client_info_map = insert c.name info' m;
          history_list = record_history now quota info' s.history_list;
          outbox = (c.socket, out.0) ∷ s.outbox;
          g_sm_occupied = add_size s.g_sm_occupied info.gpu_sm_partition;
          token_takers = s.token_takers ++ (given ∷ []);
        },
        rw (found, ◌>>=◌, made) refl,
        part-insert m c.name info info' found refl,
        (d.plus later quota, Memᴰ.append_right s.token_takers (Memᴰ.head refl)),
        λ x h. Memᴰ.append_left (given ∷ []) h,
      )

  give_tokens-HasToken :
      (clock : ℕ → W × W) (i : ℕ) (cs : List (Candidate W)) (s : Scheduler W)
      → AllKnown s.client_info_map cs
      → (t : Scheduler W) × (give_tokens clock i cs s ≡ some t)
        × ((c : Candidate W) → Memᴰ c cs → HasToken c t.token_takers)
        × ((x : Candidate W) → Memᴰ x s.token_takers → Memᴰ x t.token_takers)
  unfolding give_tokens
  give_tokens-HasToken clock i [] s known = (s, refl, λ c h. elim h [ ], λ x h. h)
  give_tokens-HasToken clock i (c ∷ cs) s (k, known) =
      let (s', one, same, has, keeps) = give_token-HasToken (clock i).0 (clock i).1 c s k in
      let (t, rest, all, keeps') =
        give_tokens-HasToken clock (i + 1) cs s'
          (AllKnown-SameParts s.client_info_map s'.client_info_map cs same known) in
      (
        t,
        rw (one, ◌>>=◌) rest,
        (λ x h. elim h [
          | Memᴰ.head e ↦
              subst (λ (y : Candidate W). HasToken y t.token_takers) (sym e) (has.0, keeps' _ has.1)
          | Memᴰ.tail m ↦ all x m
        ]),
        λ x h. keeps' x (keeps x h),
      )

  module _ (sort : List (ValidCandidate W) → List (ValidCandidate W))
      (permutes : (vs : List (ValidCandidate W)) → Permᴰ vs (sort vs)) where
    -- A candidate that waits, that has used less than its share of the window and whose partition fits
    -- beside what is occupied gets a token: the next pass approves it, whatever else waits, and the loop
    -- over the approved ones ends with its token among those that are out. The invariant holds before.
    pub waiting_gets_token :
        (now : W) (clock : ℕ → W × W) (s : Scheduler W) (n : Node W) (c : ClientInfo W)
        → Inv s []
        → Memᴰ n s.candidates
        → lookup n.candidate.name s.client_info_map ≡ some c
        → let start = d.minus now s.window_size in
          let size = if d.lt start nought then now else s.window_size in
          let used = used_by n.candidate.name start (within_window start s.history_list) nought in
          d.lt nought (left c size used) ≡ true
          → add_size s.g_sm_occupied c.gpu_sm_partition ≤ sm_global_limit
          → (cs : List (Candidate W)) × (t : Scheduler W) × (u : Scheduler W) × (select_candidates
                sort now s
              ≡ some (approved cs, t))
            × (give_tokens clock 0 cs t ≡ some u)
            × HasToken n.candidate u.token_takers
    waiting_gets_token now clock s n c v mem found below fit =
        let (cs, t, run, in_cs) =
          select_candidates-approves sort permutes now s n c v mem found below fit in
        let o = select_candidates-Outcome sort permutes now s (approved cs) t v run in
        let (u, given, all, _) = give_tokens-HasToken clock 0 cs t o.invariant.pending in
        (cs, t, u, run, given, all n.candidate in_cs)
