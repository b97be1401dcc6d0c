-- ===== src/Tests/Files.antt =====
-- A directory of output files, rotated.
use perf_monitor.Prelude.{ℕ, ◌≡◌, refl, arith, Bool, true, List, [], ◌∷◌, some, length, All}
use Prim.Native.Nat.{min}
use perf_monitor.Prelude.Int.{ℤ, pos}
use perf_monitor.Text.{Bytes, str_eq, starts_with}
use perf_monitor.Double.Exact.{exact_double}
use perf_monitor.Worker.Files.{
  DirEntry, candidates, cleanup_files, sort, victims_of, unlink_all, older,
}
use perf_monitor.Worker.Files.Order.{NotAfter}
use perf_monitor.Worker.Files.Rotation.{spared, IsDirectory, rotation_count, rotation_oldest}

-- Three files of one prefix and one of another.
abbrev file_at : ℕ → ℤ → DirEntry
file_at c t = record { name = b'p' ∷ c ∷ []; mtime = some t }

abbrev other_file : DirEntry
other_file = record { name = b'x' ∷ []; mtime = some (pos 0) }

abbrev files : List DirEntry
files = file_at b'a' (pos 30) ∷ other_file ∷ file_at b'b' (pos 10) ∷ file_at b'c' (pos 20) ∷ []

abbrev p_prefix : Bytes
p_prefix = b'p' ∷ []

abbrev rotated_files : List DirEntry
rotated_files = file_at b'a' (pos 30) ∷ other_file ∷ file_at b'c' (pos 20) ∷ []

abbrev works : Bytes → Bool
works name = true

rotates : cleanup_files works (pos 2) p_prefix (some files) ≡ some rotated_files
unfolding cleanup_files unlink_all candidates starts_with sort older str_eq
rotates = refl

files-IsDirectory : IsDirectory files
unfolding str_eq
files-IsDirectory = (refl, (refl, (refl, (refl, tt))))

rotation_count_example :
    length (candidates p_prefix rotated_files) ≡ min 2 (length (candidates p_prefix files))
rotation_count_example =
    rotation_count works 2 p_prefix files rotated_files (omega arith) files-IsDirectory
      (λ name h. refl) rotates

rotation_oldest_example :
    All
      (λ f.
        All
          (NotAfter f)
          (spared (victims_of 2 (candidates p_prefix files)) (sort (candidates p_prefix files))))
      (victims_of 2 (candidates p_prefix files))
rotation_oldest_example = rotation_oldest 2 p_prefix files files-IsDirectory
