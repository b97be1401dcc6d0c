-- ===== src/Worker/Kernel.antt =====
-- The programs that run in the kernel, worker/src/ebpf/*.bpf.c. The helpers they call are the
-- kernel's: a hash map is an interface with the behaviour that is documented, the rest of what a
-- program reads is its `Context`. Each run of a program is one step; a sample given to
-- `bpf_perf_event_output` is the struct and its size.
pub mod Process
pub mod Flow
pub mod Calls
pub mod Tracked
pub mod Lifetime
pub mod Report
pub mod Silent
pub mod Traced
pub mod Counted
use perf_monitor.Prelude.{
  ℕ, ◌≡◌, ◌≢◌, ◌⊎◌, refl, sym, ◌∙◌, ◌<◌, Bool, true, false, Option, none, some, List, [], ◌∷◌, inl,
  inr, arith, ltb, if◌then◌else◌, length, Bool-cases, Option-cases,
}
use perf_monitor.Text.{Bytes}
use perf_monitor.Table.{Eq, Table, lookup, insert, lookup-insert}

-- The flags of `bpf_map_update_elem`
abbrev pub bpf_any : ℕ
bpf_any = 0

abbrev pub bpf_noexist : ℕ
bpf_noexist = 1

-- BPF_MAP_TYPE_HASH: `store` writes through the pointer that a lookup returned. An update can fail,
-- as when the map is full, and then leaves the map as it was.
pub record HashMap (M K V : Type 0) : Type 0 where
  pub lookup_elem : M → K → Option V
  pub update_elem : M → K → V → ℕ → M
  pub delete_elem : M → K → M
  pub store : M → K → V → M
  pub update_same :
      (m : M) (k : K) (v : V) (flags : ℕ)
      → (lookup_elem (update_elem m k v flags) k ≡ some v)
        ⊎ (lookup_elem (update_elem m k v flags) k ≡ lookup_elem m k)
  pub update_other :
      (m : M) (k j : K) (v : V) (flags : ℕ)
      → k ≢ j
      → lookup_elem (update_elem m k v flags) j ≡ lookup_elem m j
  pub delete_same : (m : M) (k : K) → lookup_elem (delete_elem m k) k ≡ none
  pub delete_other : (m : M) (k j : K) → k ≢ j → lookup_elem (delete_elem m k) j ≡ lookup_elem m j
  pub store_same :
      (m : M) (k : K) (v w : V) → lookup_elem m k ≡ some w → lookup_elem (store m k v) k ≡ some v
  pub store_other :
      (m : M) (k j : K) (v w : V)
      → lookup_elem m k ≡ some w
      → k ≢ j
      → lookup_elem (store m k v) j ≡ lookup_elem m j

-- What the helpers answer in one run: `clock n` is the reading number n of `bpf_ktime_get_ns`.
pub record Context : Type 0 where
  pub pid_tgid : ℕ
  pub comm : Bytes
  pub clock : ℕ → ℕ
