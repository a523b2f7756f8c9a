-- ===== src/Scheduler/Steps.antt =====
-- The threads of the scheduler as steps on one state: a handled message, the parts of the loop of
-- `schedule_daemon_func`, and a reload of the configuration. The steps of different threads come in
-- any order; each step is taken whole.
use fa_st_manager.Common.{ℕ, ◌≡◌, Bool, List, [], ◌∷◌, some}
use fa_st_manager.Double.{Double}
use fa_st_manager.Scheduler.State.{Candidate, ValidCandidate, Scheduler}
use fa_st_manager.Scheduler.Config.{Row, read_resource_config}
use fa_st_manager.Scheduler.Select.{select_candidates, Pass, approved}
use fa_st_manager.Scheduler.Tokens.{update_tokens, give_token, token_timed_out, scan_candidates}
use fa_st_manager.Scheduler.Message.{handle_message}
use fa_st_manager.Scheduler.Parts.{SameParts}

-- The state with `selects`, the local variable of the daemon: what it has still to give tokens to.
pub record Daemon {ℓ} (W : Type ℓ) : Type ℓ where
  pub shared : Scheduler W
  pub selects : List (Candidate W)

abbrev pub chosen {ℓ} : {W : Type ℓ} → Pass W → List (Candidate W)
chosen (approved cs) = cs
chosen _ = []

module _ {ℓ} {W : Type ℓ} ⦃d : Double W⦄
    (sort : List (ValidCandidate W) → List (ValidCandidate W)) where
  pub data Step : Daemon W → Daemon W → Type ℓ where
    message :
        {s t : Scheduler W} {cs : List (Candidate W)} (sock : ℕ) (buf : List ℕ) (now later : W)
        → handle_message sock buf now later s ≡ some t
        → Step (record { shared = s; selects = cs }) (record { shared = t; selects = cs })
    updates :
        {s t : Scheduler W} {cs : List (Candidate W)} (now : W) (wait : Bool)
        → update_tokens now s ≡ some (wait, t)
        → Step (record { shared = s; selects = cs }) (record { shared = t; selects = cs })
    selects :
        {s t : Scheduler W} (now : W) (pass : Pass W)
        → select_candidates sort now s ≡ some (pass, t)
        → Step (record { shared = s; selects = [] }) (record { shared = t; selects = chosen pass })
    gives :
        {s t : Scheduler W} {cs : List (Candidate W)} (c : Candidate W) (now later : W)
        → give_token now later c s ≡ some t
        → Step (record { shared = s; selects = c ∷ cs }) (record { shared = t; selects = cs })
    times_out :
        {s t : Scheduler W} {cs : List (Candidate W)}
        → token_timed_out s ≡ some t
        → Step (record { shared = s; selects = cs }) (record { shared = t; selects = cs })
    scans :
        {s t : Scheduler W} {cs : List (Candidate W)} (found : Bool)
        → scan_candidates s.candidates s ≡ some (found, t)
        → Step (record { shared = s; selects = cs }) (record { shared = t; selects = cs })
    reloads :
        {s : Scheduler W} {cs : List (Candidate W)} (rows : List (Row W))
        → SameParts s.client_info_map (read_resource_config rows s).client_info_map
        → Step
            (record { shared = s; selects = cs })
            (record { shared = read_resource_config rows s; selects = cs })

  -- The steps from a start on.
  pub data Reach (start : Daemon W) : Daemon W → Type ℓ where
    here : Reach start start
    next : {s t : Daemon W} → Reach start s → Step s t → Reach start t
