-- ===== src/Watchdog/Host.antt =====
-- What the watchdog calls of the host.
use desktop_pc24x7_runtime.Prelude.{ℕ, Bool, Option, List, String}
use desktop_pc24x7_runtime.Result.{Result}
use desktop_pc24x7_runtime.Effect.{Effect}
use desktop_pc24x7_runtime.Text.{Python}

-- What Popen is given, but for the handles of its streams.
pub record Launch : Type 0 where
  pub args : List String
  pub cwd : String
  pub env : List (String × String)

pub record Completed : Type 0 where
  pub returncode : ℕ
  pub stdout : String

-- The host, over its states W: paths and texts, the files, the processes and the clock.
pub record Host (W : Type 0) : Type 0 where
  pub python : Python
  pub isdigit : String → Bool
  pub int : String → Result ℕ
  pub resolve : String → String
  -- root.joinpath of a relative path.
  pub join : String → String → String
  pub normcase : String → String
  pub is_file : String → W → Bool
  pub environ : W → List (String × String)
  -- os.environ.get
  pub getenv : String → W → Option String
  pub run_version : String → Effect W Completed
  -- _runner_process_ids and _process_executable_path: the process list of kernel32.
  pub process_ids : W → Result (List ℕ)
  pub executable : ℕ → W → Option String
  pub open_log : String → Effect W Unit
  pub popen : Launch → Effect W ℕ
  -- process.poll()
  pub poll : ℕ → W → Option ℕ
  pub taskkill : ℕ → Effect W ℕ
  -- time.monotonic and time.sleep, in microseconds.
  pub monotonic : W → ℕ
  pub sleep : ℕ → W → W
