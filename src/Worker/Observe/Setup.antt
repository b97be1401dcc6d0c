-- ===== src/Worker/Observe/Setup.antt =====
-- `ObserveCollector::Init` of worker/src/observe/observe_collector.cpp and the destructor of its
-- `Impl`. Whether a call of libbpf succeeds is the library's answer; what is kept is the order in
-- which the code makes and frees the library's objects.
use perf_monitor.Prelude.{
  ℕ, ◌+◌, ◌≡◌, ◌≤◌, Bool, true, false, not, ◌&&◌, List, [], ◌∷◌, ◌++◌, ◌==◌, if◌then◌else◌, arith,
}

-- What `perf_buffer__new` returns: the libbpf that the code is written for, 0.5, returns an error as
-- a pointer that is not null.
pub data Pointer : Type 0 where
  null error buffer : Pointer

abbrev pub is_null : Pointer → Bool
is_null null = true
is_null error = false
is_null buffer = false

-- What the calls return: for the two programs whether they succeed, and for the two buffers the
-- pointer.
pub record Skeleton : Type 0 where
  pub open_works : Bool
  pub load_works : Bool
  pub attach_works : Bool

pub record Libbpf : Type 0 where
  pub process_trace : Skeleton
  pub tcp_flow : Skeleton
  pub process_buffer : Pointer
  pub flow_buffer : Pointer

pub data Resource : Type 0 where
  proc_skel flow_skel proc_pb flow_pb : Resource

pub data Act : Type 0 where
  made freed : Resource → Act

-- `ObserveCollector::Impl`: the pointers, and for the skeletons whether they are not null
pub record Impl : Type 0 where
  pub proc_skel : Bool
  pub flow_skel : Bool
  pub proc_pb : Pointer
  pub flow_pb : Pointer

abbrev pub new_impl : Impl
new_impl = record { proc_skel = false; flow_skel = false; proc_pb = null; flow_pb = null }

-- The result of `Init`, what it leaves, and what it made
abbrev pub Setup : Type 0
Setup = Bool × Impl × List Act

-- An error makes nothing.
abbrev pub made_if : Pointer → Resource → List Act
made_if null resource = []
made_if error resource = []
made_if buffer resource = made resource ∷ []

-- The two buffers; the code tests the pointers for null.
unfoldable pub init_buffers : Libbpf → Impl → List Act → Setup
init_buffers lib impl acts =
    let first = record impl { proc_pb = lib.process_buffer } in
    let made_first = acts ++ made_if lib.process_buffer proc_pb in
    let both = record first { flow_pb = lib.flow_buffer } in
    let made_both = made_first ++ made_if lib.flow_buffer flow_pb in
    if is_null lib.process_buffer
    then (false, first, made_first)
    else if is_null lib.flow_buffer
    then (false, both, made_both)
    else (true, both, made_both)

unfoldable pub init_flow : Libbpf → Impl → List Act → Setup
init_flow lib impl acts =
    let opened = record impl { flow_skel = true } in
    let made_it = acts ++ made flow_skel ∷ [] in
    if not lib.tcp_flow.open_works
    then (false, impl, acts)
    else if not lib.tcp_flow.load_works
    then (false, opened, made_it)
    else if not lib.tcp_flow.attach_works
    then (false, opened, made_it)
    else init_buffers lib opened made_it

unfoldable pub init : Libbpf → Impl → Setup
init lib impl =
    let opened = record impl { proc_skel = true } in
    let made_it = made proc_skel ∷ [] in
    if not lib.process_trace.open_works
    then (false, impl, [])
    else if not lib.process_trace.load_works
    then (false, opened, made_it)
    else if not lib.process_trace.attach_works
    then (false, opened, made_it)
    else init_flow lib opened made_it

abbrev pub free_if : Bool → Resource → List Act
free_if set resource = if set then freed resource ∷ [] else []

-- `if (pb) perf_buffer__free(pb);`, where the library passes over an error
abbrev pub free_buffer : Pointer → Resource → List Act
free_buffer null resource = []
free_buffer error resource = []
free_buffer buffer resource = freed resource ∷ []

unfoldable pub destroy : Impl → List Act
destroy impl =
    free_buffer impl.proc_pb proc_pb
    ++ free_buffer impl.flow_pb flow_pb
    ++ free_if impl.proc_skel proc_skel
    ++ free_if impl.flow_skel flow_skel

abbrev pub code : Resource → ℕ
code proc_skel = 0
code flow_skel = 1
code proc_pb = 2
code flow_pb = 3

-- How often an object is made, and freed.
abbrev pub times_made : Resource → List Act → ℕ
times_made r [] = 0
times_made r (made s ∷ acts) = (if code r == code s then 1 else 0) + times_made r acts
times_made r (freed s ∷ acts) = times_made r acts

abbrev pub times_freed : Resource → List Act → ℕ
times_freed r [] = 0
times_freed r (made s ∷ acts) = times_freed r acts
times_freed r (freed s ∷ acts) = (if code r == code s then 1 else 0) + times_freed r acts

abbrev pub skeleton_works : Skeleton → Bool
skeleton_works s = s.open_works && s.load_works && s.attach_works

-- No call for the programs fails, and no buffer is null.
abbrev pub looks_ready : Libbpf → Bool
looks_ready lib =
    skeleton_works lib.process_trace
    && skeleton_works lib.tcp_flow
    && not (is_null lib.process_buffer)
    && not (is_null lib.flow_buffer)

-- Whatever calls of the library fail, the destructor of a collector that `Init` was run on once
-- frees each object as often as `Init` made it, which is at most once, and `Init` returns true just
-- if no call for the programs fails and neither buffer is null, also where one is an error.
pub init-destroy :
    (lib : Libbpf) (r : Resource)
    → let (result, impl, acts) = init lib new_impl in
      (times_freed r (destroy impl) ≡ times_made r acts)
      × (times_made r acts ≤ 1)
      × (result ≡ looks_ready lib)
unfolding init init_flow init_buffers destroy
init-destroy lib proc_skel = ground arith
init-destroy lib flow_skel = ground arith
init-destroy lib proc_pb = ground arith
init-destroy lib flow_pb = ground arith
