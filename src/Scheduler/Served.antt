-- ===== src/Scheduler/Served.antt =====
-- From the start of src/scheduler.cpp on: the first state, and the connections that are served.
use mathlib.Core.Option.{some-injective}
use mathlib.Core.Path.{subst}
use mathlib.Core.List.{Permᴰ}
use fa_st_manager.Common.{
  ℕ, ◌<◌, ◌^◌, ◌≡◌, List, [], ◌∷◌, ◌++◌, some, All, arith, lookup-insert, name_eq_iff, insert,
  length, drop, >>=-eq-some, text_eq,
}
use fa_st_manager.Double.{Double}
use fa_st_manager.Scheduler.Client.{client_info}
use fa_st_manager.Scheduler.Config.{Row, read_resource_config, read_rows, client_of}
use fa_st_manager.Scheduler.Invariant.{Inv}
use fa_st_manager.Scheduler.Reached.{Reach-Inv}
use fa_st_manager.Scheduler.Message.{handle_message}
use fa_st_manager.Scheduler.Parts.{AllSized}
use fa_st_manager.Scheduler.Service.{Received, serve}
use fa_st_manager.Scheduler.Settings.{empty_scheduler, Settings, started}
use fa_st_manager.Scheduler.State.{Candidate, Clients, Scheduler, ValidCandidate}
use fa_st_manager.Scheduler.Steps.{Daemon, Reach, next, message}

module _ {ℓ} {W : Type ℓ} ⦃d : Double W⦄ where
  read_rows-AllSized :
      (s : Scheduler W) (rows : List (Row W)) (m : Clients W)
      → All (λ (r : Row W). r.sm_partition < 2 ^ 64) rows
      → AllSized m
      → AllSized (read_rows s rows m)
  unfolding read_rows client_of client_info
  read_rows-AllSized s [] m sized h = h
  read_rows-AllSized s (r ∷ rs) m (small, sized) h =
      read_rows-AllSized s rs (insert r.client_name (client_of s r) m) sized (λ j.
        let old = h j in
        ground (
          arith,
          old,
          small,
          lookup-insert r.client_name j (client_of s r) m,
          name_eq_iff r.client_name j,
        ))

  -- The invariant holds when the daemon starts, if every partition in the configuration file is a
  -- `size_t`.
  pub started-Inv :
      (s : Settings W) (rows : List (Row W))
      → All (λ (r : Row W). r.sm_partition < 2 ^ 64) rows
      → Inv (started s rows) []
  unfolding started read_resource_config
  started-Inv s rows small = record {
    sized = read_rows-AllSized (empty_scheduler s) rows [] small (λ j. omega arith);
    takers = tt;
    waiting = tt;
    pending = tt;
    accounted = omega arith;
  }

  -- From the start of the daemon on, whatever the messages, the clock and the order of the steps, each
  -- candidate and each token has a client, and `g_sm_occupied` is the sum of the partitions of the tokens
  -- modulo 2 ^ 64. Every partition in the configuration file is a `size_t`, a reload changes none, and
  -- the sort permutes its list.
  pub started-Reach-Inv :
      (sort : List (ValidCandidate W) → List (ValidCandidate W))
      (permutes : (vs : List (ValidCandidate W)) → Permᴰ vs (sort vs)) (s : Settings W)
      (rows : List (Row W)) {y : Daemon W}
      → All (λ (r : Row W). r.sm_partition < 2 ^ 64) rows
      → Reach sort (record { shared = started s rows; selects = [] }) y
      → Inv y.shared y.selects
  started-Reach-Inv sort permutes s rows small r =
      Reach-Inv sort permutes (started-Inv s rows small) r

  module _ (sort : List (ValidCandidate W) → List (ValidCandidate W)) where
    -- A connection that is served takes the daemon from one reachable state to another.
    pub serve-Reach :
        (start : Daemon W) (sock : ℕ) (rbuf : List ℕ) (rs : List (Received W))
        (cs : List (Candidate W)) (s : Scheduler W) {t : Scheduler W}
        → Reach sort start (record { shared = s; selects = cs })
        → serve sock rbuf rs s ≡ some t
        → Reach sort start (record { shared = t; selects = cs })
    unfolding serve
    serve-Reach start sock rbuf [] cs s r run =
        subst (λ (u : Scheduler W). Reach sort start (record { shared = u; selects = cs }))
          (some-injective _ _ run) r
    serve-Reach start sock rbuf (x ∷ xs) cs s r run =
        let buf = x.bytes ++ drop (length x.bytes) rbuf in
        let (s', one, rest) =
          >>=-eq-some (handle_message sock buf x.now x.later s) (λ s'. serve sock buf xs s') run in
        serve-Reach start sock buf xs cs s' (next r (message sock buf x.now x.later one)) rest
