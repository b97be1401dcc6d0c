-- ===== src/Worker/Bpf/Named.antt =====
-- The names of the tools' output files, as the manager's exporter sees them.
use perf_monitor.Prelude.{
  ℕ, zero, suc, ◌+◌, ◌/◌, ◌%◌, ◌<◌, ◌≡◌, refl, arith, [], ◌∷◌, ◌++◌, none, All-append, append_assoc,
}
use mathlib.Core.Path.{subst}
use perf_monitor.Prelude.Int.{pos}
use perf_monitor.Text.{Bytes, codes, find, starts_with}
use perf_monitor.Text.Search.{Avoids}
use perf_monitor.Text.Decimal.{digits_onto, to_string}
use perf_monitor.Exporter.Filename.{
  Kind, perf, offcpu, profile, prefix_of, IsSafe, basename, basename-append,
}
use perf_monitor.Worker.Bpf.{make_tag, out_file}

-- A digit is above every separator.
digits_onto-Avoids :
    (c f n : ℕ) (rest : Bytes) → c < b'0' → Avoids c rest → Avoids c (digits_onto f n rest)
unfolding digits_onto
digits_onto-Avoids c zero n rest l h = h
digits_onto-Avoids c (suc f) n rest l h =
    ground (arith, digits_onto-Avoids c f (n / 10) ((b'0' + n % 10) ∷ rest) l)

to_string-Avoids : (c n : ℕ) → c < b'0' → Avoids c (to_string (pos n))
unfolding to_string
to_string-Avoids c n l = digits_onto-Avoids c (suc n) n [] l tt

make_tag-Avoids :
    (c : ℕ) (process thread : Bytes)
    → c < b'0'
    → Avoids c process
    → Avoids c thread
    → Avoids c (make_tag process thread)
unfolding make_tag codes
make_tag-Avoids c process [] l p t = All-append _ process [] p tt
make_tag-Avoids c process (a ∷ thread) l p t =
    All-append _ process (b'_' ∷ a ∷ thread) p ((λ e. omega (arith, e)), t)

-- One dot, in the extension, makes no two in a row.
no_dots : (stem : Bytes) → Avoids b'.' stem → find (stem ++ codes ".data") (codes "..") ≡ none
unfolding find codes starts_with
no_dots [] h = refl
no_dots (a ∷ stem) h = ground (arith, no_dots stem h.1)

-- What stands between the kind and the extension.
abbrev body_of : Bytes → Bytes → ℕ → Bytes
body_of process thread now = make_tag process thread ++ b'_' ∷ to_string (pos now)

body_of-Avoids :
    (c : ℕ) (process thread : Bytes) (now : ℕ)
    → c < b'0'
    → Avoids c process
    → Avoids c thread
    → Avoids c (body_of process thread now)
body_of-Avoids c process thread now l p t =
    All-append _ (make_tag process thread) (b'_' ∷ to_string (pos now))
      (make_tag-Avoids c process thread l p t) ((λ e. omega (arith, e)), to_string-Avoids c now l)

prefix_of-Avoids : (c : ℕ) (kind : Kind) → c < b'0' → Avoids c (prefix_of kind)
unfolding prefix_of codes
prefix_of-Avoids c perf l = ground arith
prefix_of-Avoids c offcpu l = ground arith
prefix_of-Avoids c profile l = ground arith

abbrev name_of : Kind → Bytes → Bytes
name_of kind body = prefix_of kind ++ (body ++ codes ".data")

name_of-IsSafe :
    (kind : Kind) (body : Bytes) → Avoids b'/' body → Avoids b'.' body → IsSafe (name_of kind body)
unfolding codes
name_of-IsSafe kind body slash dot =
    let stem : Bytes = prefix_of kind ++ body in
    let whole : stem ++ codes ".data" ≡ name_of kind body = append_assoc (prefix_of kind) body _ in
    let plain : Avoids b'.' stem =
      All-append _ (prefix_of kind) body (prefix_of-Avoids b'.' kind (omega arith)) dot in
    record {
      kind = kind;
      body = body;
      shape = refl;
      no_slash =
          All-append _ (prefix_of kind) (body ++ codes ".data")
            (prefix_of-Avoids b'/' kind (omega arith)) (All-append _ body _ slash (ground arith));
      no_dots = subst (λ name. find name (codes "..") ≡ none) whole (no_dots stem plain);
    }

-- The names of the tools; perf names its files in the same way.
abbrev pub tool_of : Kind → Bytes
tool_of perf = codes "perf"
tool_of offcpu = codes "offcpu"
tool_of profile = codes "profile"

out_file-name_of :
    (kind : Kind) (dir process thread : Bytes) (now : ℕ)
    → out_file dir (tool_of kind) process thread (pos now)
      ≡ dir ++ b'/' ∷ name_of kind (body_of process thread now)
unfolding out_file codes prefix_of
out_file-name_of perf dir process thread now = simp append_assoc
out_file-name_of offcpu dir process thread now = simp append_assoc
out_file-name_of profile dir process thread now = simp append_assoc

-- If the names of the process and of the thread have no slash and no dot, the file that a tool
-- writes is in the directory that it was given, under a name that the exporter accepts.
pub out_file-IsSafe :
    (kind : Kind) (dir process thread : Bytes) (now : ℕ)
    → Avoids b'/' process
    → Avoids b'.' process
    → Avoids b'/' thread
    → Avoids b'.' thread
    → let file = out_file dir (tool_of kind) process thread (pos now) in
      IsSafe (basename file) × (file ≡ dir ++ b'/' ∷ basename file)
out_file-IsSafe kind dir process thread now ps pd ts td =
    let body : Bytes = body_of process thread now in
    let safe =
      name_of-IsSafe kind body (body_of-Avoids b'/' process thread now (omega arith) ps ts)
        (body_of-Avoids b'.' process thread now (omega arith) pd td) in
    let last = basename-append dir (name_of kind body) safe.no_slash in
    rw (out_file-name_of kind dir process thread now, last) (safe, refl)
