-- ===== src/Dispatch/Total.antt =====
-- The whole dispatch of a kernel: both splits together.
use clvk.Common.{
  ℕ, ◌^◌, ◌≤◌, ◌<◌, ◌≡◌, ◌∙◌, refl, Bool, List, [], ◌∷◌, some, arith, All, Bool-cases, inl, inr,
  not, ◌&&◌,
}
use clvk.Codes.{Code, success, invalid_work_group_size}
use clvk.Dispatch.{
  Dim3, NdRange, DeviceLimits, Trace, whole, iterate, dispatch_uniform_region, dispatch_all,
  build_and_dispatch_regions, any_partial,
}
use clvk.Dispatch.Region.{covers, covers_all, total-append, IsPart}
use clvk.Dispatch.Split.{IsUniform, IsRange, split_regions_partition}
use clvk.Dispatch.Pieces.{then_trace_ok}
use clvk.Dispatch.Iterate.{iterate_z}

-- The sizes are 32-bit numbers, and the device can run a group in each dimension.
pub record Is32 (limits : DeviceLimits) (r : NdRange) : Type 0 where
  pub gws_x : r.gws.x < 2 ^ 32
  pub gws_y : r.gws.y < 2 ^ 32
  pub gws_z : r.gws.z < 2 ^ 32
  pub lws_x : r.lws.x < 2 ^ 32
  pub lws_y : r.lws.y < 2 ^ 32
  pub lws_z : r.lws.z < 2 ^ 32
  pub count_x : limits.max_count.x < 2 ^ 32
  pub count_y : limits.max_count.y < 2 ^ 32
  pub count_z : limits.max_count.z < 2 ^ 32
  pub some_x : 0 < limits.max_count.x
  pub some_y : 0 < limits.max_count.y
  pub some_z : 0 < limits.max_count.z

module _ (within : NdRange → Code) (limits : DeviceLimits) (can_split : Bool) where
  dispatch_uniform_region-ok :
      (s : NdRange)
      → (dispatch_uniform_region within limits can_split s).1 ≡ success
      → dispatch_uniform_region within limits can_split s
        ≡ iterate within limits s 2
            (record { x = 0; y = 0; z = 0 })
            (record { x = 0; y = 0; z = 0 })
  unfolding dispatch_uniform_region
  dispatch_uniform_region-ok s ok = ground arith

  module _ (r : NdRange) (v : Is32 limits r) (p : Dim3) where
    dispatch_uniform_region-covers :
        (s : NdRange)
        → IsPart r.gws r.lws s
        → IsUniform s
        → (dispatch_uniform_region within limits can_split s).1 ≡ success
        → covers_all (dispatch_uniform_region within limits can_split s).0 p ≡ covers s p
    dispatch_uniform_region-covers s h u ok =
        let e = dispatch_uniform_region-ok s ok in
        rw e
          (iterate_z within limits s p _ _ (omega arith) (omega arith) (omega arith) (rw e at ok))

    dispatch_all-covers :
        (rs : List NdRange)
        → All (λ s. IsPart r.gws r.lws s × IsUniform s) rs
        → (dispatch_all within limits can_split rs).1 ≡ success
        → covers_all (dispatch_all within limits can_split rs).0 p ≡ covers_all rs p
    unfolding dispatch_all
    dispatch_all-covers [] h ok = refl
    dispatch_all-covers (s ∷ rs) h ok =
        let t = dispatch_uniform_region within limits can_split s in
        let (here, rest, e) = then_trace_ok t (dispatch_all within limits can_split rs) ok in
        rw e (
          omega (
            arith,
            total-append (λ s. covers s p) t.0 (dispatch_all within limits can_split rs).0,
            dispatch_uniform_region-covers s h.0.0 h.0.1 here,
            dispatch_all-covers rs h.1 rest,
          ))

-- For 32-bit sizes, a range with no empty group, in whose unused dimensions the global size is a
-- multiple of the local size, and a device that can run a group in each dimension: the dispatch
-- ends within its fuel, and if it returns CL_SUCCESS, whatever the splitting that it does for the
-- range and for the device's limits, each work-item of the range is in exactly one of the
-- regions that it has dispatched, and nothing else is in any.
pub build_and_dispatch_regions_exact :
    (within : NdRange → Code) (limits : DeviceLimits) (can_split : Bool) (dims : ℕ) (r : NdRange)
    → IsRange dims r
    → Is32 limits r
    → (t : Trace) × (build_and_dispatch_regions within limits can_split dims r ≡ some t)
      × (t.1 ≡ success
          → (p : Dim3) → (covers_all t.0 p ≡ covers (whole r) p) × (covers_all t.0 p ≤ 1))
unfolding build_and_dispatch_regions
build_and_dispatch_regions_exact within limits can_split dims r h v =
    elim (Bool-cases (not can_split && any_partial dims 0 r)) [
      | inl e ↦ (([], invalid_work_group_size), rw e, λ q. cc)
      | inr e ↦
          let (rs, s, _, parts, same) = split_regions_partition dims r h in
          (
            dispatch_all within limits can_split rs,
            rw (e, s, build_and_dispatch_regions),
            λ ok p.
                let c = dispatch_all-covers within limits can_split r v p rs parts ok in
                (c ∙ (same p).0, omega (arith, c, (same p).1)),
          )
    ]
