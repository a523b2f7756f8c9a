-- ===== src/Scheduler/Client.antt =====
-- `ClientInfo` and `History` of src/scheduler.h with their member functions in src/scheduler.cpp.
use fa_st_manager.Common.Int.{pos}
use fa_st_manager.Common.{ℕ, List, [], ◌∷◌, ◌++◌, Option, none, some, Name, name_eq, if◌then◌else◌}
use fa_st_manager.Double.{Double, nought, fmax, fmin}

pub record History {ℓ} (W : Type ℓ) : Type ℓ where
  pub name : Name
  pub start : W
  pub end : W

-- `memory_map` is left out: nothing reads or writes it.
pub record ClientInfo {ℓ} (W : Type ℓ) : Type ℓ where
  pub name : Name
  pub gpu_mem_used : ℕ
  pub gpu_mem_limit : ℕ
  pub gpu_sm_partition : ℕ
  pub min_frac : W
  pub max_frac : W
  pub base_quota : W
  pub min_quota : W
  pub max_quota : W
  pub quota : W
  pub latest_overuse : W
  pub latest_actual_usage : W
  pub burst : W

module _ {ℓ} {W : Type ℓ} ⦃d : Double W⦄ where
  -- The constructor, with the fields that `read_resource_config` sets after it.
  unfoldable pub client_info : W → W → W → W → W → Name → ℕ → ℕ → ClientInfo W
  client_info baseq minq maxq minf maxf name sm_partition mem_limit = record {
    name = name;
    gpu_mem_used = 0;
    gpu_mem_limit = mem_limit;
    gpu_sm_partition = sm_partition;
    min_frac = minf;
    max_frac = maxf;
    base_quota = baseq;
    min_quota = minq;
    max_quota = maxq;
    quota = baseq;
    latest_overuse = nought;
    latest_actual_usage = nought;
    burst = nought;
  }

  unfoldable pub set_burst : W → ClientInfo W → ClientInfo W
  set_burst estimated_burst c = record c { burst = estimated_burst }

  -- The loop from `rbegin`: the last entry of the name gets `f`; with that entry.
  unfoldable pub update_latest :
      Name → (History W → History W) → List (History W) → Option (List (History W) × History W)
  update_latest name f [] = none
  update_latest name f (h ∷ hs) = elim (update_latest name f hs) [
    | some (hs', x) ↦ some (h ∷ hs', x)
    | none ↦ if name_eq h.name name then some (f h ∷ hs, f h) else none
  ]

  -- The history goes in and out, as it is global; `now` is the clock reading.
  unfoldable pub update_return_time :
      W → W → ClientInfo W → List (History W) → ClientInfo W × List (History W)
  unfolding update_latest
  update_return_time now overuse c hs =
      elim (update_latest c.name (λ h. record h { end = fmin now (d.plus h.end overuse) }) hs) [
        | some (hs', x) ↦ (
          record c { latest_overuse = overuse; latest_actual_usage = d.minus x.end x.start },
          hs',
        )
        | none ↦ (record c { latest_overuse = overuse }, hs)
      ]

  -- `ClientInfo::Record`
  unfoldable pub record_history : W → W → ClientInfo W → List (History W) → List (History W)
  record_history now quota c hs =
      hs ++ (record { name = c.name; start = now; end = d.plus now quota } ∷ [])

  abbrev update_rate : W
  update_rate = d.half

  -- `burst_ * UPDATE_RATE + quota_ * (1 - UPDATE_RATE)`
  abbrev pub blended : ClientInfo W → W
  blended c =
      d.plus (d.times c.burst update_rate)
        (d.times c.quota (d.minus (d.from_int (pos 1)) update_rate))

  unfoldable pub get_quota : ClientInfo W → W × ClientInfo W
  get_quota c =
      let q =
        if d.lt c.burst d.tiny
        then c.base_quota
        else fmin (fmax (blended c) c.min_quota) c.max_quota in
      (q, record c { quota = q })
