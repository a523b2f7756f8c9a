-- ===== src/Scheduler/Full.antt =====
-- The histories of a debug build of src/scheduler.cpp: `history_list`, from which `select_candidates`
-- drops what lies before its window, and `full_history`, which `dump_history` writes.
use fa_st_manager.Common.{List, [], ◌∷◌, none, some, Name}
use fa_st_manager.Double.{Double, fmin}
use fa_st_manager.Scheduler.Client.{
  ClientInfo, History, record_history, update_latest, update_return_time,
}
use fa_st_manager.Scheduler.Select.{within_window}

pub record Histories {ℓ} (W : Type ℓ) : Type ℓ where
  pub history_list : List (History W)
  pub full_history : List (History W)

-- The calls that change them.
pub data HistoryCall {ℓ} (W : Type ℓ) : Type ℓ where
  records : (now quota : W) (c : ClientInfo W) → HistoryCall W
  returns : (now overuse : W) (c : ClientInfo W) → HistoryCall W
  drops : (window_start : W) → HistoryCall W

module _ {ℓ} {W : Type ℓ} ⦃d : Double W⦄ where
  -- The loop over `full_history` in `update_return_time`.
  unfoldable pub update_full : W → W → Name → List (History W) → List (History W)
  unfolding update_latest
  update_full now overuse name hs =
      elim (update_latest name (λ h. record h { end = fmin now (d.plus h.end overuse) }) hs) [
        | some (hs', x) ↦ hs'
        | none ↦ hs
      ]

  unfoldable pub step : HistoryCall W → Histories W → Histories W
  unfolding update_full update_return_time record_history
  step (records now quota c) h = record {
    history_list = record_history now quota c h.history_list;
    full_history = record_history now quota c h.full_history;
  }
  step (returns now overuse c) h = record {
    history_list = (update_return_time now overuse c h.history_list).1;
    full_history = update_full now overuse c.name h.full_history;
  }
  step (drops window_start) h = record h {
    history_list = within_window window_start h.history_list;
  }

  unfoldable pub steps : List (HistoryCall W) → Histories W → Histories W
  unfolding step
  steps [] h = h
  steps (call ∷ calls) h = steps calls (step call h)
