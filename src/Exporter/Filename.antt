-- ===== src/Exporter/Filename.antt =====
-- `is_safe_filename` of manager/src/rpc/metrics_exporter.cpp, and the part of a path behind its
-- last slash, which `api_events` sends.
use perf_monitor.Prelude.{
  ℕ, suc, ◌+◌, ◌-◌, ◌≤◌, ◌<◌, ◌≡◌, refl, sym, ap, ◌∙◌, ◌≢◌, ◌↔◌, ◌⊎◌, inl, inr, Bool, true, false,
  ◌||◌, not, [], ◌∷◌, ◌++◌, none, some, arith, ltb, length, drop, drop-append, drop-append_le,
  length-append, length-drop, take, take-append-drop, drop-append_add, All-drop, append_assoc,
  if◌then◌else◌, Bool-cases,
}
use perf_monitor.Text.{
  Bytes, codes, find, find_char, rfind_char, starts_with, has, has_char, str_eq, str_eq_iff,
}
use perf_monitor.Text.Search.{
  Avoids, find_char-Avoids, Avoids-find_char, rfind_char-append, starts_with-append,
  starts_with-split,
}

unfoldable pub is_safe_filename : Bytes → Bool
is_safe_filename name =
    if has_char name b'/'
    then false
    else if has name (codes "..")
    then false
    else if ltb (length name) 6 || not (str_eq (drop (length name - 5) name) (codes ".data"))
    then false
    else starts_with name (codes "perf_")
      || starts_with name (codes "offcpu_")
      || starts_with name (codes "profile_")

-- `rfind('/')` and `substr` behind it
unfoldable pub basename : Bytes → Bytes
basename path = elim (rfind_char path b'/') [ none ↦ path | some slash ↦ drop (suc slash) path ]

-- The names that the worker's tools give to their files.
pub data Kind : Type 0 where
  perf offcpu profile : Kind

unfoldable pub prefix_of : Kind → Bytes
prefix_of perf = codes "perf_"
prefix_of offcpu = codes "offcpu_"
prefix_of profile = codes "profile_"

-- A kind's prefix, any text, and the extension, with no slash and no two dots in a row.
pub record IsSafe (name : Bytes) : Type 0 where
  pub kind : Kind
  pub body : Bytes
  pub shape : name ≡ prefix_of kind ++ (body ++ codes ".data")
  pub no_slash : Avoids b'/' name
  pub no_dots : find name (codes "..") ≡ none

dot_inside : (q r : Bytes) → Avoids b'.' q → 0 < length q → q ++ r ≢ codes ".data"
unfolding codes
dot_inside [] r h l e = elim l [ ]
dot_inside (c ∷ q) r h l e = ground (arith, h.0)

-- A text that ends in ".data" behind a prefix with no dot has the ending behind that prefix.
ends_behind :
    (p r : Bytes)
    → Avoids b'.' p
    → 6 ≤ length (p ++ r)
    → drop (length (p ++ r) - 5) (p ++ r) ≡ codes ".data"
    → (body : Bytes) × (r ≡ body ++ codes ".data")
ends_behind p r a l e = elim (Bool-cases (ltb (length r) 5)) [
  | inl short ↦
      let k : ℕ = length (p ++ r) - 5 in
      let lengths : length (p ++ r) ≡ length p + length r = length-append p r in
      let lt : length r < 5 = ground arith in
      let within : k < length p = omega arith in
      let some_left : 0 < length (drop k p) = omega (arith, length-drop k p) in
      absurd (
        dot_inside (drop k p) r (All-drop _ k p a) some_left
          (sym (drop-append_le k p r (omega arith)) ∙ e))
  | inr long ↦
      let n : ℕ = length r - 5 in
      let le : 5 ≤ length r = ground arith in
      let place : length (p ++ r) - 5 ≡ length p + n = omega (arith, length-append p r) in
      let ending : drop n r ≡ codes ".data" =
        sym (drop-append_add p r n) ∙ ap (λ k. drop k (p ++ r)) (sym place) ∙ e in
      (take n r, sym (take-append-drop n r) ∙ ap (◌++◌ (take n r)) ending)
]

prefix_no_dot : (k : Kind) → Avoids b'.' (prefix_of k)
unfolding prefix_of codes
prefix_no_dot perf = omega arith
prefix_no_dot offcpu = omega arith
prefix_no_dot profile = omega arith

-- The guards of `is_safe_filename`, apart.
record Passes (name : Bytes) : Type 0 where
  slash : find_char name b'/' ≡ none
  dots : find name (codes "..") ≡ none
  long : 6 ≤ length name
  ending : str_eq (drop (length name - 5) name) (codes ".data") ≡ true
  start :
      (starts_with name (codes "perf_") ≡ true)
      ⊎ (starts_with name (codes "offcpu_") ≡ true)
      ⊎ (starts_with name (codes "profile_") ≡ true)

passes : (name : Bytes) → is_safe_filename name ≡ true → Passes name
unfolding is_safe_filename
passes name h = ground arith

kind_of : (name : Bytes) → Passes name → (k : Kind) × (starts_with name (prefix_of k) ≡ true)
unfolding prefix_of
kind_of name p = elim p.start [
  | inl h ↦ (perf, h)
  | inr (inl h) ↦ (offcpu, h)
  | inr (inr h) ↦ (profile, h)
]

is_safe_filename-IsSafe : (name : Bytes) → is_safe_filename name ≡ true → IsSafe name
is_safe_filename-IsSafe name h =
    let p = passes name h in
    let (k, start) = kind_of name p in
    let (r, split) = starts_with-split name (prefix_of k) start in
    let long : 6 ≤ length (prefix_of k ++ r) = rw (← split) p.long in
    let ending : drop (length (prefix_of k ++ r) - 5) (prefix_of k ++ r) ≡ codes ".data" =
      rw (← split) ((str_eq_iff _ _).0 p.ending) in
    let (body, behind) = ends_behind (prefix_of k) r (prefix_no_dot k) long ending in
    record {
      kind = k;
      body = body;
      shape = split ∙ ap (◌++◌ (prefix_of k)) behind;
      no_slash = Avoids-find_char name b'/' p.slash;
      no_dots = p.dots;
    }

kind_starts :
    (k : Kind) (t : Bytes)
    → (starts_with (prefix_of k ++ t) (codes "perf_")
        || starts_with (prefix_of k ++ t) (codes "offcpu_")
        || starts_with (prefix_of k ++ t) (codes "profile_"))
      ≡ true
unfolding prefix_of
kind_starts perf t = ground (arith, starts_with-append (codes "perf_") t)
kind_starts offcpu t = ground (arith, starts_with-append (codes "offcpu_") t)
kind_starts profile t = ground (arith, starts_with-append (codes "profile_") t)

length-prefix_of : (k : Kind) → 5 ≤ length (prefix_of k)
unfolding prefix_of codes
length-prefix_of perf = omega arith
length-prefix_of offcpu = omega arith
length-prefix_of profile = omega arith

length-extension : length (codes ".data") ≡ 5
unfolding codes
length-extension = refl

extension_ends :
    (q : Bytes) → drop (length (q ++ codes ".data") - 5) (q ++ codes ".data") ≡ codes ".data"
extension_ends q =
    let place : length (q ++ codes ".data") - 5 ≡ length q =
      omega (arith, length-append q (codes ".data"), length-extension) in
    ap (λ n. drop n (q ++ codes ".data")) place ∙ drop-append q (codes ".data")

IsSafe-safe : (name : Bytes) → IsSafe name → is_safe_filename name ≡ true
unfolding is_safe_filename
IsSafe-safe name s =
    let p = prefix_of s.kind in
    let tail : Bytes = s.body ++ codes ".data" in
    let whole : p ++ tail ≡ p ++ s.body ++ codes ".data" =
      sym (append_assoc p s.body (codes ".data")) in
    let long : 6 ≤ length name = rw s.shape (
      omega (
        arith,
        length-append p tail,
        length-append s.body (codes ".data"),
        length-extension,
        length-prefix_of s.kind,
      )) in
    let ending : drop (length name - 5) name ≡ codes ".data" =
      rw (s.shape, whole) (extension_ends (p ++ s.body)) in
    ground (
      arith,
      find_char-Avoids name b'/' s.no_slash,
      s.no_dots,
      long,
      (str_eq_iff (drop (length name - 5) name) (codes ".data")).1 ending,
      rw (← s.shape) at (kind_starts s.kind tail),
    )

-- The test of a file name passes exactly on the names that are "perf_", "offcpu_" or "profile_",
-- any text, and ".data", with no slash and no two dots in a row.
pub is_safe_filename_iff : (name : Bytes) → (is_safe_filename name ≡ true) ↔ IsSafe name
is_safe_filename_iff name = (is_safe_filename-IsSafe name, λ s. IsSafe-safe name s)

-- The name behind the last slash of a path in a directory is the file's own name.
pub basename-append : (dir name : Bytes) → Avoids b'/' name → basename (dir ++ b'/' ∷ name) ≡ name
unfolding basename
basename-append dir name h =
    let split : dir ++ b'/' ∷ name ≡ dir ++ b'/' ∷ [] ++ name =
      sym (append_assoc dir (b'/' ∷ []) name) in
    let place : suc (length dir) ≡ length (dir ++ b'/' ∷ []) =
      omega (arith, length-append dir (b'/' ∷ [])) in
    let behind : drop (suc (length dir)) (dir ++ b'/' ∷ name) ≡ name =
      rw (place, split) (drop-append (dir ++ b'/' ∷ []) name) in
    ground (arith, rfind_char-append dir name b'/' h, behind)
