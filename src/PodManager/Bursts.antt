-- ===== src/PodManager/Bursts.antt =====
-- The request of a kernel launch in src/pod-manager.cpp.
use fa_st_manager.Comm.Bytes.{le_bytes}
use fa_st_manager.Predictor.Period.{ms_between}
use fa_st_manager.Comm.RoundTrip.{NonZero, IsWide, Carries, request_round_trip, request_size}
use fa_st_manager.Common.Int.{ℤ}
use fa_st_manager.Comm.Message.{
  Request, req_quota, Host, name_of, Parsed, parse_request, c_string, req_msg_len,
}
use fa_st_manager.PodManager.State.{Pod}
use fa_st_manager.PodManager.Launch.{max_burst, check_quota, request_quota, asked, noted}
use fa_st_manager.Double.{Double, IsOrdered, fmax, nought}
use fa_st_manager.Common.{
  refl, ℕ, List, [], ◌∷◌, some, ◌≡◌, false, Bool-cases, All, inl, inr, insert, nat_eq, length, ◌≤◌,
  ◌<◌, ◌^◌, true, ◌++◌, replicate, arith, Name, ◌+◌, ◌%◌,
}

pub quota-fits :
    (name : Name) (overuse burst : ℕ)
    → request_size name (req_quota overuse burst) ≡ 33 + length name
unfolding le_bytes
quota-fits name overuse burst = omega arith

module _ {ℓ} {W : Type ℓ} ⦃d : Double W⦄ (laws : IsOrdered W) where
  -- `y` is at least `x`.
  abbrev pub AtLeast : W → W → Type 0
  AtLeast x y = d.lt y x ≡ false

  fmax-left : (x y : W) → AtLeast x (fmax x y)
  fmax-left x y = elim (Bool-cases (d.lt x y)) [
    | inl less ↦ rw less (elim (Bool-cases (d.lt y x)) [
      | inl more ↦ cc (laws.lt_trans x y x less more, laws.lt_irrefl x)
      | inr same ↦ same
    ])
    | inr same ↦ rw same (laws.lt_irrefl x)
  ]

  fmax-right : (x y : W) → AtLeast y (fmax x y)
  fmax-right x y = elim (Bool-cases (d.lt x y)) [
    | inl less ↦ rw less (laws.lt_irrefl y)
    | inr same ↦ rw same same
  ]

  max_burst-start : (m : List (ℕ × W)) (acc : W) → AtLeast acc (max_burst m acc)
  unfolding max_burst
  max_burst-start [] acc = laws.lt_irrefl acc
  max_burst-start (x ∷ xs) acc =
      laws.le_trans acc (fmax x.1 acc) (max_burst xs (fmax x.1 acc)) (fmax-right x.1 acc)
        (max_burst-start xs (fmax x.1 acc))

  max_burst-AtLeast : (m : List (ℕ × W)) (acc : W) → All (λ x. AtLeast x.1 (max_burst m acc)) m
  unfolding max_burst
  max_burst-AtLeast [] acc = tt
  max_burst-AtLeast (x ∷ xs) acc = (
    laws.le_trans x.1 (fmax x.1 acc) (max_burst xs (fmax x.1 acc)) (fmax-left x.1 acc)
        (max_burst-start xs (fmax x.1 acc)),
    max_burst-AtLeast xs (fmax x.1 acc),
  )

  -- The longest burst of the clients, once the one that launches has told its own.
  abbrev pub longest : ℕ → W → Pod W → W
  longest sockfd burst p = max_burst (insert sockfd burst p.client_burst_map) nought

  abbrev pub quota_request : ℕ → W → W → Pod W → Request
  quota_request sockfd overuse burst p =
      req_quota (d.to_bits (fmax overuse p.pod_overuse_ms)) (d.to_bits (longest sockfd burst p))

  -- A launch whose burst would end after the quota puts one request at the end of the queue, from
  -- which the scheduler reads the overuse and a burst that is at least that of each client. The name of
  -- the Pod has at most 47 bytes, none of them NUL.
  pub check_quota_request :
      (h : Host) (sockfd : ℕ) (now : ℤ) (overuse burst : W) (p : Pod W)
      → All NonZero (name_of h p.statics)
      → length (name_of h p.statics) ≤ 47
      → p.statics.id < 2 ^ 32
      → IsWide (quota_request sockfd overuse burst p)
      → d.lt p.pod_quota (d.plus (ms_between now p.quota_updated_tp) burst) ≡ true
      → (out : List ℕ) × (q : Pod W) × (r : Parsed) × (check_quota h sockfd now overuse burst p
          ≡ some (asked p.statics.id, q))
        × (q.request_queue ≡ p.request_queue ++ ((p.statics.id, out) ∷ []))
        × (q.quota_state ≡ 1)
        × (parse_request out ≡ some r)
        × (c_string r.name ≡ some (name_of h p.statics))
        × Carries (quota_request sockfd overuse burst p) out r.attached
        × All (λ x. AtLeast x.1 (longest sockfd burst p)) q.client_burst_map
  unfolding check_quota request_quota
  check_quota_request h sockfd now overuse burst p nz short small wide over =
      let (out, r, made, parsed, named, _, _, carried) =
        request_round_trip h p.statics (replicate req_msg_len 0)
          (quota_request sockfd overuse burst p) nz
          (omega (
            arith,
            quota-fits (name_of h p.statics) (d.to_bits (fmax overuse p.pod_overuse_ms))
                (d.to_bits (longest sockfd burst p)),
          ))
          (omega arith) small wide in
      let q : Pod W = record (noted sockfd overuse burst p) {
        quota_state = 1;
        request_queue = p.request_queue ++ ((p.statics.id, out) ∷ []);
        statics = record {
          client_name = some (name_of h p.statics);
          id = (p.statics.id + 1) % 2 ^ 32;
        };
      } in
      (
        out,
        q,
        r,
        rw (over, made) refl,
        refl,
        refl,
        parsed,
        named,
        carried,
        max_burst-AtLeast (insert sockfd burst p.client_burst_map) nought,
      )
