-- ===== src/Hp/Calls.antt =====
-- The calls of the HorizontalPortrait controller: the API server, the job controllers, the result
-- fetchers and the generators behind their interfaces, the map of the job types that it saw last,
-- and the clock. A write that succeeds is answered with the object as the server has it.
use kapacity.Common.{Bool, String, List, Option, Go}
use kapacity.Common.Int.{ℤ}
use kapacity.Common.Prog.{Prog}
use kapacity.Common.Time.{Time}
use kapacity.Api.Meta.{NamespacedName, TargetRef}
use kapacity.Api.Metrics.{MetricSpec}
use kapacity.Api.Algorithm.{PortraitAlgorithmJob, PortraitAlgorithmResultSource, PortraitAlgorithm}
use kapacity.Api.HorizontalPortrait.{HorizontalPortrait, HorizontalPortraitData}

pub data Call : Type 0 where
  get_hp : NamespacedName → Call
  patch_hp : (original modified : HorizontalPortrait) → Call
  update_hp_status : HorizontalPortrait → Call
  event : (type reason : String) → Call
  load_job_type : NamespacedName → Call
  store_job_type : NamespacedName → (type : String) → Call
  delete_job_type : NamespacedName → Call
  update_job : (type : String) → HorizontalPortrait → PortraitAlgorithmJob → Call
  cleanup_job : (type : String) → HorizontalPortrait → Call
  fetch_result : (type : String) → HorizontalPortrait → PortraitAlgorithmResultSource → Call
  generate_horizontal :
      (type namespace : String) → TargetRef → List MetricSpec → PortraitAlgorithm → Call
  clock : Call

abbrev pub Reply : Call → Type 0
Reply (get_hp n) = Go HorizontalPortrait
Reply (patch_hp o p) = Go HorizontalPortrait
Reply (update_hp_status o) = Go HorizontalPortrait
Reply (event t r) = Unit
Reply (load_job_type n) = Option String
Reply (store_job_type n t) = Unit
Reply (delete_job_type n) = Unit
Reply (update_job t o j) = Go (Unit {0})
Reply (cleanup_job t o) = Go (Unit {0})
Reply (fetch_result t o s) = Go (Option HorizontalPortraitData)
Reply (generate_horizontal t n o m a) = Go (Option HorizontalPortraitData × ℤ)
Reply clock = Time

abbrev pub Code : Type 0 → Type 0
Code = Prog Call Reply

-- The keys of the three maps that the controller is set up with.
pub record Registry : Type 0 where
  pub has_generator : (type : String) → Bool
  pub has_job_controller : (type : String) → Bool
  pub has_result_fetcher : (type : String) → Bool
