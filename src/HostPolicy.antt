-- ===== src/HostPolicy.antt =====
-- scripts/pc24x7_host_policy.py: the hosts that the program may run on, and the second runner.
use desktop_pc24x7_runtime.Prelude.{
  Option, none, some, List, [], ◌∷◌, String, ◌==◌, lookup, if◌then◌else◌,
}
use desktop_pc24x7_runtime.Result.{Result, ok, raise, value_error}
use desktop_pc24x7_runtime.Text.{Python}

pub record HostProfile : Type 0 where
  pub hostname : String
  pub role : String
  pub runner_name : String
  pub runner_labels : String

-- _PROFILES.
abbrev pub profiles : List (String × HostProfile)
profiles =
    (
      "desktop-pdqk954",
      record {
        hostname = "DESKTOP-PDQK954";
        role = "desktop-primary";
        runner_name = "DESKTOP-PDQK954-runtime";
        runner_labels = "pc24x7,desktop-runtime,runtime-dev,desktop-pdqk954";
      },
    )
    ∷ (
      "desktop-rp23ogs",
      record {
        hostname = "DESKTOP-RP23OGS";
        role = "desktop-secondary";
        runner_name = "DESKTOP-RP23OGS-runtime";
        runner_labels = "pc24x7,desktop-runtime,runtime-dev,desktop-rp23ogs";
      },
    )
    ∷ (
      "noteri",
      record {
        hostname = "NOTERI";
        role = "notebook-control";
        runner_name = "NOTERI-runtime";
        runner_labels = "pc24x7,noteri,reqsys-dev";
      },
    )
    ∷ []

-- ORCHESTRATOR_DEV_RUNNER_PROFILE.
pub record RunnerProfile : Type 0 where
  pub target : String
  pub environment : String
  pub host : String
  pub repository : String
  pub runner_name : String
  pub directory : String

abbrev pub orchestrator_dev_runner_profile_dict : RunnerProfile
orchestrator_dev_runner_profile_dict = record {
  target = "orchestrator-dev";
  environment = "dev";
  host = "DESKTOP-PDQK954";
  repository = "ericson-j-santos/reqsys-engineering-orchestrator";
  runner_name = "DESKTOP-PDQK954-orchestrator-dev";
  directory = "EngineeringOrchestratorDEV";
}

abbrev known : Option HostProfile → Result HostProfile
known none = raise value_error "host não autorizado"
known (some profile) = ok profile

-- authorized_host, given socket.gethostname().
unfoldable pub authorized_host : Python → String → String → Result HostProfile
unfolding lookup
authorized_host python gethostname hostname = known (
    lookup (python.casefold (python.strip (if hostname == "" then gethostname else hostname)))
      profiles)
