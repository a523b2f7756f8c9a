-- ===== src/PodManager/Exchange.antt =====
-- A request for a quota and its response, through the queues of src/pod-manager.cpp.
use fa_st_manager.PodManager.Accounts.{erase-insert, erase_absent}
use fa_st_manager.Comm.Bytes.{le_bytes}
use fa_st_manager.Comm.Buffer.{get_msg_data, get_le}
use fa_st_manager.Comm.Answers.{answer, prepare_response_lem}
use fa_st_manager.PodManager.State.{Pod}
use fa_st_manager.Common.Int.{ℤ}
use fa_st_manager.Comm.Message.{parse_response, prepare_response, rsp_quota, rsp_msg_len}
use fa_st_manager.PodManager.Launch.{take_response}
use fa_st_manager.PodManager.Threads.{receive_response, no_bytes}
use fa_st_manager.Double.{Double, nought}
use fa_st_manager.Common.{
  ℕ, List, [], none, some, ◌≡◌, take, arith, ap, refl, ◌<◌, ◌^◌, lookup, replicate, nat_eq, insert,
  ◌-◌, ◌++◌, erase, drop, lookup-insert, ◌==◌, false, ◌∙◌, is_some,
}

-- The response that the scheduler writes, and what the receiving thread keeps of it.
abbrev sent : ℕ → ℕ → List ℕ
sent id quota = answer id (rsp_quota quota) (replicate 28 0)

abbrev kept : ℕ → ℕ → List ℕ
kept id quota = take (rsp_msg_len - 4) (drop 4 (sent id quota))

sent_lem :
    (id quota : ℕ) → prepare_response no_bytes id (rsp_quota quota) ≡ some (sent id quota, 12)
unfolding le_bytes
sent_lem id quota = prepare_response_lem no_bytes id (rsp_quota quota) (omega arith)

get-sent : (id quota : ℕ) → id < 2 ^ 32 → get_msg_data 4 (sent id quota) 0 ≡ some (id, 4)
get-sent id quota small = get_le [] 4 id _ refl refl small

kept_lem : (id quota : ℕ) → kept id quota ≡ le_bytes 8 quota ++ replicate 28 0
unfolding le_bytes
kept_lem id quota = refl

get-kept : (id quota : ℕ) → quota < 2 ^ 64 → get_msg_data 8 (kept id quota) 0 ≡ some (quota, 8)
get-kept id quota wide = get_le [] 8 quota _ (kept_lem id quota) refl wide

module _ {ℓ} {W : Type ℓ} ⦃d : Double W⦄ where
  -- The response of the scheduler to a request reaches the launch that waits for it: the quota is that
  -- of the response, the overuse is reset, and the map of responses is as before. The thread that waits
  -- has announced itself, and no response with this id is in the map.
  pub response_reaches_launch :
      (id quota : ℕ) (now : ℤ) (p : Pod W)
      → id < 2 ^ 32
      → quota < 2 ^ 64
      → 0 < p.scheduler_recv_sync
      → lookup id p.response_map ≡ none
      → (buf : List ℕ) × (len : ℕ) × (q r : Pod W) × (prepare_response no_bytes id (rsp_quota quota)
          ≡ some (buf, len))
        × (receive_response buf p ≡ some q)
        × (take_response id now q ≡ some r)
        × (r.pod_quota ≡ d.of_bits quota)
        × (r.quota_updated_tp ≡ now)
        × (r.pod_overuse_ms ≡ nought)
        × (r.response_map ≡ p.response_map)
  unfolding receive_response take_response parse_response
  response_reaches_launch id quota now p small wide ready new =
      let m = insert id (kept id quota) p.response_map in
      let q : Pod W = record p { response_map = m } in
      let r : Pod W = record q {
        pod_quota = d.of_bits quota;
        quota_updated_tp = now;
        pod_overuse_ms = nought;
        response_map = erase id m;
      } in
      let found : lookup id m ≡ some (kept id quota) =
        ground (arith, lookup-insert id id (kept id quota) p.response_map) in
      let waiting : (p.scheduler_recv_sync == 0) ≡ false = ground arith in
      (
        sent id quota,
        12,
        q,
        r,
        sent_lem id quota,
        rw (get-sent id quota small, waiting, new) refl,
        rw (found, get-kept id quota wide) refl,
        refl,
        refl,
        refl,
        erase-insert id (kept id quota) p.response_map
            ∙ erase_absent id p.response_map (ap is_some new),
      )
