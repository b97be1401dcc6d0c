-- ===== src/Program.antt =====
-- manager/src/main.cpp and worker/src/main.cpp: from the arguments to the objects that are made.
-- `getenv`, `std::stoi`, which can throw, and `getopt_long` are arguments.
use perf_monitor.Prelude.{
  ℕ, ◌≡◌, refl, Bool, ◌||◌, Option, none, some, List, [], ◌∷◌, if◌then◌else◌,
}
use perf_monitor.Prelude.Int.{ℤ, pos}
use perf_monitor.Text.{Bytes, codes, str_eq, is_empty}
use perf_monitor.Double.{Double}
use perf_monitor.Host.{Hosts, remove_expired}

unfoldable pub env_or_default : Option Bytes → Bytes → Bytes
env_or_default none fallback = fallback
env_or_default (some value) fallback = if is_empty value then fallback else value

-- How the start of a program ends: it runs with two settings, or returns a status, or an exception
-- leaves `main`.
pub data Start : Type 0 where
  runs : Bytes → ℤ → Start
  exits : ℕ → Start
  throws : Start

module _ (stoi : Bytes → Option ℤ) where
  -- `http_port = std::stoi(...)` and what follows
  abbrev pub with_port : Option ℤ → (ℤ → Start) → Start
  with_port none next = throws
  with_port (some port) next = next port

  unfoldable pub is_help : Bytes → Bool
  is_help arg = str_eq arg (codes "--help") || str_eq arg (codes "-h")

  -- The loop over the arguments of the manager. The last one has no value behind it.
  unfoldable pub read_args : List Bytes → Bytes → ℤ → Start
  read_args [] addr port = runs addr port
  read_args (arg ∷ []) addr port = if is_help arg then exits 0 else runs addr port
  read_args (arg ∷ value ∷ rest) addr port =
      if str_eq arg (codes "--grpc-addr")
      then read_args rest value port
      else if str_eq arg (codes "--http-port")
      then with_port (stoi value) (λ n. read_args rest addr n)
      else if is_help arg
      then exits 0
      else read_args (value ∷ rest) addr port

  -- `main` of the manager, up to the start of its servers
  unfoldable pub manager_main : Option Bytes → Option Bytes → List Bytes → Start
  manager_main env_addr env_port args =
      let addr = env_or_default env_addr (codes "0.0.0.0:50051") in
      with_port (stoi (env_or_default env_port (codes "8080"))) (λ n. read_args args addr n)

-- What `getopt_long` gives
pub data Opt : Type 0 where
  addr : Bytes → Opt
  interval : Bytes → Opt
  help : Opt
  unknown : Opt

module _ (stoi : Bytes → Option ℤ) where
  unfoldable pub read_opts : List Opt → Bytes → ℤ → Start
  read_opts [] manager_addr interval_s = runs manager_addr interval_s
  read_opts (addr value ∷ rest) manager_addr interval_s = read_opts rest value interval_s
  read_opts (interval value ∷ rest) manager_addr interval_s =
      with_port stoi (stoi value) (λ n. read_opts rest manager_addr n)
  read_opts (help ∷ rest) manager_addr interval_s = exits 0
  read_opts (unknown ∷ rest) manager_addr interval_s = exits 1

  unfoldable pub worker_main : List Opt → Start
  worker_main opts = read_opts opts (codes "localhost:50051") (pos 10)

-- The manager's loop: every ten seconds the hosts that have been silent for 60 seconds go.
abbrev pub max_age : ℤ
max_age = pos 60

module _ {D : Type 0} ⦃d : Double D⦄ where
  unfoldable pub main_loop : List ℤ → Hosts D → Hosts D
  main_loop [] hosts = hosts
  main_loop (now ∷ rest) hosts = main_loop rest (remove_expired hosts now max_age)

-- An option of the manager with its value
pub data Setting : Type 0 where
  grpc_addr : Bytes → Setting
  http_port : Bytes → Setting

abbrev pub printed : List Setting → List Bytes
printed [] = []
printed (grpc_addr value ∷ rest) = codes "--grpc-addr" ∷ value ∷ printed rest
printed (http_port value ∷ rest) = codes "--http-port" ∷ value ∷ printed rest

-- The values that the settings end with: of each kind the last. The ports all convert.
abbrev pub last_addr : Bytes → List Setting → Bytes
last_addr old [] = old
last_addr old (grpc_addr value ∷ rest) = last_addr value rest
last_addr old (http_port value ∷ rest) = last_addr old rest

abbrev pub last_port : (Bytes → Option ℤ) → Option ℤ → List Setting → Option ℤ
last_port stoi none rest = none
last_port stoi (some old) [] = some old
last_port stoi (some old) (grpc_addr value ∷ rest) = last_port stoi (some old) rest
last_port stoi (some old) (http_port value ∷ rest) = last_port stoi (stoi value) rest

abbrev pub started : Bytes → Option ℤ → Start
started address none = throws
started address (some port) = runs address port

read_args-printed :
    (stoi : Bytes → Option ℤ) (settings : List Setting) (address : Bytes) (port : Option ℤ)
    → with_port stoi port (λ n. read_args stoi (printed settings) address n)
      ≡ started (last_addr address settings) (last_port stoi port settings)
unfolding read_args str_eq codes
read_args-printed stoi settings address none = refl
read_args-printed stoi [] address (some port) = refl
read_args-printed stoi (grpc_addr value ∷ rest) address (some port) =
    read_args-printed stoi rest value (some port)
read_args-printed stoi (http_port value ∷ rest) address (some port) =
    read_args-printed stoi rest address (stoi value)

-- With any settings written as arguments, the manager starts with the last address and the last
-- port of them, or with those of the environment, or where a variable is unset or empty with the
-- defaults; if one of the ports on the way does not convert, an exception ends the program.
pub manager_main-printed :
    (stoi : Bytes → Option ℤ) (env_addr env_port : Option Bytes) (settings : List Setting)
    → manager_main stoi env_addr env_port (printed settings)
      ≡ started
          (last_addr (env_or_default env_addr (codes "0.0.0.0:50051")) settings)
          (last_port stoi (stoi (env_or_default env_port (codes "8080"))) settings)
unfolding manager_main
manager_main-printed stoi env_addr env_port settings = read_args-printed stoi settings _ _
