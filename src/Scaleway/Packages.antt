-- ===== src/Scaleway/Packages.antt =====
-- What the controller uses of packages that are not in the repository, as arguments of the model:
-- the SDK's conversions and tables, Kubernetes' validation, and the parsers of durations (which
-- round in floating point), URLs and CIDRs. Also the environment of the process.
use scaleway_cloud_controlle.Base.{ℤ, String, Bool, Option, List, Result}

-- scw.Duration
pub record ScwDuration : Type 0 where
  pub seconds : ℤ
  pub nanos : ℤ

pub record Url : Type 0 where
  pub host : String
  pub path : String
  pub query : String

pub record Packages : Type 0 where
  -- time.ParseDuration, in nanoseconds
  pub parse_duration : String → Option ℤ
  -- scw.NewDurationFromTimeDuration, durationpb.New and ToTimeDuration
  pub new_duration : ℤ → ScwDuration
  pub durationpb : ℤ → ScwDuration
  pub to_time_duration : ScwDuration → ℤ
  -- validation.IsRegion and Zone.Region
  pub is_region : String → Bool
  pub zone_region : String → Result String
  -- SSLCompatibilityLevel.Values
  pub ssl_compatibility_levels : List String
  -- url.Parse and RequestURI
  pub parse_url : String → Result Url
  pub request_uri : Url → String
  -- whether net.ParseCIDR succeeds
  pub is_cidr : String → Bool
  -- API.Zones of the instance and baremetal packages
  pub instance_zones : List String
  pub baremetal_zones : List String
  -- strings.Split at a separator of any length
  pub split_by : String → String → List String

-- The variables that os.Getenv reads; an unset one is the empty text.
pub record Env : Type 0 where
  pub ccm_prefix : String
  pub ccm_tags : String
  pub ccm_tags_delimiter : String
