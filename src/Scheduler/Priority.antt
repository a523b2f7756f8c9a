-- ===== src/Scheduler/Priority.antt =====
-- `schd_priority` of src/schd-priority.cpp.
use fa_st_manager.Common.{Bool, true, false, ◌&&◌, if◌then◌else◌}
use fa_st_manager.Double.{Double, nought}
use fa_st_manager.Scheduler.State.{ValidCandidate}

module _ {ℓ} {W : Type ℓ} ⦃d : Double W⦄ where
  -- `missing / (missing + usage)`
  abbrev pub share : ValidCandidate W → W
  share a = d.divided a.missing (d.plus a.missing a.usage)

  unfoldable pub schd_priority : ValidCandidate W → ValidCandidate W → Bool
  schd_priority a b =
      if d.lt nought a.missing && d.lt nought b.missing
      then d.lt (share b) (share a)
      else (if d.lt nought a.missing && d.lt b.missing nought
          then true
          else (if d.lt a.missing nought && d.lt nought b.missing
              then false
              else d.lt a.usage b.usage))
