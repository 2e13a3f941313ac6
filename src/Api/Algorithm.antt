-- ===== src/Api/Algorithm.antt =====
-- PortraitSpec and PortraitAlgorithm of horizontalportrait_types.go. Of a batchv1.CronJobSpec the
-- fields that the program defaults are kept, and all others as one text, which is only copied.
use kapacity.Common.{String, List, Option}
use kapacity.Common.Int.{ℤ}
use kapacity.Common.Dict.{GoMap}
use kapacity.Api.Metrics.{MetricSpec}

pub record EnvVar : Type 0 where
  pub name : String
  pub value : String

pub record Container : Type 0 where
  pub name : String
  pub image : String
  pub env : List EnvVar
  pub rest : String

pub record CronJobSpec : Type 0 where
  pub service_account_name : String
  pub deprecated_service_account : String
  pub containers : List Container
  pub rest : String

pub record CronJobTemplateSpec : Type 0 where
  pub labels : GoMap String
  pub annotations : GoMap String
  pub spec : CronJobSpec

pub record PortraitAlgorithmJob : Type 0 where
  pub type : String
  pub cron_job : Option CronJobTemplateSpec

-- PortraitAlgorithmResultSource, whose one kind of source has no configuration.
pub record PortraitAlgorithmResultSource : Type 0 where
  pub type : String

pub record ExternalJobPortraitAlgorithm : Type 0 where
  pub job : PortraitAlgorithmJob
  pub result_source : PortraitAlgorithmResultSource

pub record KubeHpaPortraitAlgorithm : Type 0 where
  pub sync_period : ℤ
  pub tolerance : String
  pub cpu_initialization_period : ℤ
  pub initial_readiness_delay : ℤ

pub record PortraitAlgorithm : Type 0 where
  pub type : String
  pub external_job : Option ExternalJobPortraitAlgorithm
  pub kube_hpa : Option KubeHpaPortraitAlgorithm
  pub config : Option String

pub record PortraitSpec : Type 0 where
  pub portrait_type : String
  pub external_generator_name : String
  pub metrics : List MetricSpec
  pub algorithm : PortraitAlgorithm
