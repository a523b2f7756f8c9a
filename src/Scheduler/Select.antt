-- ===== src/Scheduler/Select.antt =====
-- `select_candidates` of src/scheduler.cpp, one pass of its loop. Between two passes the code waits
-- on `candidate_cond`, and other threads may change the state. `none` is undefined behaviour: a client
-- that the map lacks, or the front of an empty history.
use fa_st_manager.Common.{
  ℕ, List, [], ◌∷◌, Option, none, some, Name, lookup, insert, filter, leb, not, value_or,
  if◌then◌else◌, ◌>>=◌, ◌==◌, text_eq,
}
use fa_st_manager.Common.Int.{pos}
use fa_st_manager.Double.{Double, nought, fmax, fmin}
use fa_st_manager.Scheduler.Client.{History}
use fa_st_manager.Scheduler.State.{
  Node, Candidate, ValidCandidate, Clients, Scheduler, add_size, sm_global_limit,
}

-- What one pass ends with: the approved candidates, or the milliseconds to wait for.
pub data Pass {ℓ} (W : Type ℓ) : Type ℓ where
  approved : List (Candidate W) → Pass W
  all_at_limit : (waittime : W) → Pass W
  none_approved : (waittime : W) → Pass W

module _ {ℓ} {W : Type ℓ} ⦃d : Double W⦄ where
  -- `history_list.remove_if(beyond_window)`
  abbrev pub within_window : W → List (History W) → List (History W)
  within_window window_start hs = filter (λ h. not (d.lt h.end window_start)) hs

  -- `usage[name]`
  abbrev pub usage_of : Name → List (Name × W) → W
  usage_of name usage = value_or nought (lookup name usage)

  -- `usage[h.name] += h.end - std::max(h.start, current_time)` over the history
  unfoldable pub usage_from : W → List (History W) → List (Name × W) → List (Name × W)
  usage_from current_time [] usage = usage
  usage_from current_time (h ∷ hs) usage = usage_from current_time hs (
      insert h.name (d.plus (usage_of h.name usage) (d.minus h.end (fmax h.start current_time)))
        usage)

  -- The valid candidates in list order, and the waiting time.
  unfoldable pub collect :
      Clients W → W → List (Name × W) → List (Node W) → W → Option (List (ValidCandidate W) × W)
  collect m window_size usage [] waittime = some ([], waittime)
  collect m window_size usage (n ∷ ns) waittime =
      let name = n.candidate.name in
      lookup name m >>= λ c.
      (let used = usage_of name usage in
        let missing = d.minus (d.times c.min_frac window_size) used in
        let remaining = d.minus (d.times c.max_frac window_size) used in
        let valid : ValidCandidate W = record {
          missing = missing;
          remaining = remaining;
          usage = used;
          arrived_time = n.candidate.arrived_time;
          iter = n;
        } in
        let taken = collect m window_size usage ns waittime >>= λ r. some (valid ∷ r.0, r.1) in
        let passed = collect m window_size usage ns (fmin waittime (d.minus nought remaining)) in
        if d.lt nought remaining then taken else passed)

  -- `candidates.erase(it->iter)`
  abbrev pub erase_node : ℕ → List (Node W) → List (Node W)
  erase_node i ns = filter (λ n. not (n.node == i)) ns

  -- The loop over the sorted candidates. `g_sm_occupied` is read and not written.
  unfoldable pub approve :
      Clients W
      → ℕ
      → List (ValidCandidate W)
      → List (Node W)
      → Option (List (Candidate W) × List (Node W))
  approve m g [] ns = some ([], ns)
  approve m g (v ∷ vs) ns = lookup v.iter.candidate.name m >>= λ c.
      (let taken =
          approve m g vs (erase_node v.iter.node ns) >>= λ r. some (v.iter.candidate ∷ r.0, r.1) in
        let passed = approve m g vs ns in
        if leb (add_size g c.gpu_sm_partition) sm_global_limit then taken else passed)

  -- `history_list.begin()->end - window_start`; an empty history has no front.
  abbrev pub oldest_wait : W → List (History W) → Option W
  oldest_wait window_start [] = none
  oldest_wait window_start (h ∷ hs) = some (d.minus h.end window_start)

  -- The end of the pass, from what `approve` gives.
  unfoldable pub finish :
      W → Scheduler W → List (Candidate W) × List (Node W) → Option (Pass W × Scheduler W)
  finish window_start s ([], ns) =
      oldest_wait window_start s.history_list >>= λ w. some (none_approved w, s)
  finish window_start s (c ∷ cs, ns) = some (approved (c ∷ cs), record s { candidates = ns })

  unfoldable pub decide :
      (List (ValidCandidate W) → List (ValidCandidate W))
      → W
      → Scheduler W
      → List (ValidCandidate W) × W
      → Option (Pass W × Scheduler W)
  unfolding approve finish
  decide sort window_start s ([], waittime) = some (all_at_limit waittime, s)
  decide sort window_start s (v ∷ vs, waittime) =
      approve s.client_info_map s.g_sm_occupied (sort (v ∷ vs)) s.candidates
      >>= finish window_start s

  -- `sort` is `std::sort` by `schd_priority`, `now` the clock reading at the start of the pass.
  unfoldable pub select_candidates :
      (List (ValidCandidate W) → List (ValidCandidate W))
      → W
      → Scheduler W
      → Option (Pass W × Scheduler W)
  unfolding usage_from collect decide
  select_candidates sort now s =
      let window_start = d.minus now s.window_size in
      let window_size = if d.lt window_start nought then now else s.window_size in
      let hs = within_window window_start s.history_list in
      let s' = record s { history_list = hs } in
      collect s.client_info_map window_size (usage_from window_start hs []) s.candidates
        (d.from_int (pos 2000))
      >>= decide sort window_start s'
