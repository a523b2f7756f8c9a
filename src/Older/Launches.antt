-- ===== src/Older/Launches.antt =====
-- Bursts of launches in docker/kubeshare-gemini-scheduler/hook.cpp: which launches ask for a token.
use mathlib.Core.Path.{subst}
use mathlib.Core.Option.{some-injective}
use fa_st_manager.Common.{
  ◌≡◌, List, [], ◌∷◌, Option, some, true, false, refl, ◌>>=◌, >>=-eq-some, ◌∙◌,
}
use fa_st_manager.Common.Int.{ℤ, eqb_ℤ}
use fa_st_manager.Double.{Double}
use fa_st_manager.Hook.State.{Peer}
use fa_st_manager.Hook.Periods.{record_start-ongoing_unmerged}
use fa_st_manager.Hook.Tokens.{Readings}
use fa_st_manager.Older.State.{Older}
use fa_st_manager.Older.Tokens.{Guard, check_token, launch_kernel_prehook}
use fa_st_manager.Predictor.Period.{
  ongoing_unmerged, record_start, record_stop, tp_max, predict_unmerged, Predictor,
}

module _ {ℓ} {W : Type ℓ} ⦃d : Double W⦄ where
  record_start-ongoing :
      (now : ℤ) (p : Predictor W) → ongoing_unmerged p ≡ true → record_start now p ≡ p
  unfolding record_start
  record_start-ongoing now p on = rw on refl

module _ {ℓ κ} {W : Type ℓ} {S : Type κ} ⦃d : Double W⦄ (peer : Peer S) where
  -- Launches one after the other.
  abbrev pub launches : List (Readings W × Guard) → Older W S → Option (Older W S)
  launches [] k = some k
  launches (r ∷ rs) k = launch_kernel_prehook peer r.0 r.1 k >>= λ k'. launches rs k'

  -- What a launch within a burst leaves alone.
  pub record Quiet (k k' : Older W S) : Type (ℓ ⊔ κ) where
    pub bursts : ongoing_unmerged k'.burst_predictor ≡ true
    pub asks_nothing : k'.peer_state ≡ k.peer_state
    pub same_statics : k'.statics ≡ k.statics
    pub same_quota : k'.quota_time ≡ k.quota_time
    pub same_start : k'.request_start ≡ k.request_start

  launch-Quiet :
      (t : Readings W) (u : Guard) (k : Older W S)
      → ongoing_unmerged k.burst_predictor ≡ true
      → (k' : Older W S) × (launch_kernel_prehook peer t u k ≡ some k') × Quiet k k'
  unfolding launch_kernel_prehook check_token predict_unmerged
  launch-Quiet t u k on =
      let k1 : Older W S = record k {
        window_predictor = record_stop t.at_stop k.window_predictor;
        burst_predictor = (predict_unmerged u.at_debug k.burst_predictor).1;
      } in
      let on' : ongoing_unmerged k1.burst_predictor ≡ true = on in
      let stays = record_start-ongoing t.at_start k1.burst_predictor on' in
      (
        k1,
        rw (on', ◌>>=◌, stays) refl,
        record {
          bursts = on';
          asks_nothing = refl;
          same_statics = refl;
          same_quota = refl;
          same_start = refl;
        },
      )

  launches-Quiet :
      (rs : List (Readings W × Guard)) (k : Older W S)
      → ongoing_unmerged k.burst_predictor ≡ true
      → (k' : Older W S) × (launches rs k ≡ some k') × Quiet k k'
  launches-Quiet [] k on = (
    k,
    refl,
    record {
      bursts = on;
      asks_nothing = refl;
      same_statics = refl;
      same_quota = refl;
      same_start = refl;
    },
  )
  launches-Quiet (r ∷ rs) k on =
      let (k1, run, q) = launch-Quiet r.0 r.1 k on in
      let (k2, runs, q') = launches-Quiet rs k1 q.bursts in
      (
        k2,
        rw (run, ◌>>=◌) runs,
        record {
          bursts = q'.bursts;
          asks_nothing = q'.asks_nothing ∙ q.asks_nothing;
          same_statics = q'.same_statics ∙ q.same_statics;
          same_quota = q'.same_quota ∙ q.same_quota;
          same_start = q'.same_start ∙ q.same_start;
        },
      )

  launch-bursts :
      (t : Readings W) (u : Guard) (k : Older W S) {k' : Older W S}
      → eqb_ℤ t.at_start tp_max ≡ false
      → launch_kernel_prehook peer t u k ≡ some k'
      → ongoing_unmerged k'.burst_predictor ≡ true
  unfolding launch_kernel_prehook
  launch-bursts t u k clock run =
      let k1 : Older W S = record k {
        window_predictor = record_stop t.at_stop k.window_predictor;
        burst_predictor = (predict_unmerged u.at_debug k.burst_predictor).1;
      } in
      let (k2, _, end) =
        >>=-eq-some (check_token peer t u k1)
          (λ k2. some (record k2 { burst_predictor = record_start t.at_start k2.burst_predictor }))
          run in
      subst (λ (j : Older W S). ongoing_unmerged j.burst_predictor ≡ true) (some-injective _ _ end)
        (record_start-ongoing_unmerged t.at_start k2.burst_predictor clock)

  -- Once a launch is let through, the launches that follow it without a synchronisation in between are
  -- all let through, and ask for nothing: the daemon, the quota and the time of the request stay as they
  -- are, and the burst goes on. The clock of the first launch is not at the end of its range.
  pub launches_ask_once :
      (t : Readings W) (u : Guard) (rs : List (Readings W × Guard)) (k : Older W S) {k1 : Older W S}
      → eqb_ℤ t.at_start tp_max ≡ false
      → launch_kernel_prehook peer t u k ≡ some k1
      → (k' : Older W S) × (launches ((t, u) ∷ rs) k ≡ some k') × Quiet k1 k'
  launches_ask_once t u rs k {k1} clock run =
      let (k', runs, q) = launches-Quiet rs k1 (launch-bursts t u k clock run) in
      (k', rw (run, ◌>>=◌) runs, q)
