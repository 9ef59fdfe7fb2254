-- ===== src/Xtask/Os.antt =====
-- What xtask/src asks of the operating system: files, temporary files, and commands.
use Prim.Native.String.{String}
use defmt_persist.Common.{ℕ, Bool, List, Option}
use defmt_persist.Xtask.Exec.{Result, Exec, context, ◌>>=◌}

-- `std::process::Command`
pub record Command : Type 0 where
  pub program : String
  pub args : List String
  pub current_dir : Option String
  pub envs : List (String × String)

-- `std::process::Output`
pub record Output : Type 0 where
  pub success : Bool
  pub stdout : List ℕ
  pub stderr : List ℕ

-- The files and the programs of the system. A command may do anything to them.
pub record Os : Type 1 where
  pub State : Type 0
  pub exists : State → String → Bool
  pub read : State → String → Result (List ℕ)
  pub read_to_string : State → String → Result String
  pub write : String → List ℕ → Exec State (Unit {0})
  pub write_string : String → String → Exec State (Unit {0})
  pub create_dir_all : String → Exec State (Unit {0})
  pub read_dir : State → String → Result (List (Result String))
  pub new_temp_file : Exec State String
  pub remove_temp_file : String → State → State
  pub output : Command → Exec State Output
  pub env_var : State → String → Option String
  pub current_dir : State → Result String

-- A `NamedTempFile` and the code up to the end of its scope, where it is removed.
abbrev pub with_temp_file :
    {A : Type 0} (os : Os) → String → (String → Exec os.State A) → Exec os.State A
with_temp_file os message body = do
  path ← context message os.new_temp_file
  λ s. let (r, s') = body path s in (r, os.remove_temp_file path s')
