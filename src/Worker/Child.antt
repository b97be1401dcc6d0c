-- ===== src/Worker/Child.antt =====
-- What the child of `CmdRunner::Start` in worker/src/diagnose/cmd_runner.cpp does between `fork` and
-- `execv`: its table of descriptors, with the file behind each. The descriptors that `open` and
-- `opendir` give and the listing of /proc/self/fd are the system's answers.
use perf_monitor.Prelude.{
  ℕ, ◌≡◌, ◌≢◌, ◌<◌, ◌⊎◌, refl, ap, sym, ◌∙◌, false, not, ◌&&◌, Option, none, some, List, [], ◌∷◌,
  ltb, ◌==◌, if◌then◌else◌, arith, Bool-cases, Option-cases, inl, inr,
}
use perf_monitor.Text.{Bytes, codes, is_empty}
use perf_monitor.Table.{Table, lookup, insert, lookup-insert, number_eq}

abbrev pub Fds : Type 0
Fds = Table ℕ Bytes

abbrev pub file_at : ℕ → Fds → Option Bytes
file_at fd fds = lookup fd fds

unfoldable pub close : ℕ → Fds → Fds
close fd [] = []
close fd ((n, file) ∷ rest) =
    let later = close fd rest in if n == fd then later else (n, file) ∷ later

abbrev point_to : ℕ → Option Bytes → Fds → Fds
point_to to none fds = fds
point_to to (some file) fds = insert to file fds

-- `dup2(from, to)`
unfoldable pub dup2 : ℕ → ℕ → Fds → Fds
dup2 from to fds = point_to to (file_at from fds) fds

-- The standard output and error go to the output file, if there is one and it can be opened.
unfoldable pub redirect : Option ℕ → Bytes → Fds → Fds
redirect opened output_file fds = if is_empty output_file then fds else elim opened [
  | none ↦ fds
  | some fd ↦ close fd (dup2 fd 2 (dup2 fd 1 (insert fd output_file fds)))
]

-- The loop over the listing
unfoldable pub close_listed : ℕ → List ℕ → Fds → Fds
close_listed dfd [] fds = fds
close_listed dfd (fdno ∷ rest) fds =
    close_listed dfd rest (if ltb 2 fdno && not (fdno == dfd) then close fdno fds else fds)

unfoldable pub close_inherited : Option (ℕ × List ℕ) → Fds → Fds
close_inherited none fds = fds
close_inherited (some (dfd, listing)) fds =
    close dfd (close_listed dfd listing (insert dfd (codes "/proc/self/fd") fds))

-- The program, its arguments and the descriptors that `execv` is called with
unfoldable pub child :
    Option ℕ → Option (ℕ × List ℕ) → Bytes → List Bytes → Bytes → Fds → Bytes × List Bytes × Fds
child opened listed bin args output_file fds =
    (bin, bin ∷ args, close_inherited listed (redirect opened output_file fds))

file_at-close :
    (fd j : ℕ) (fds : Fds) → file_at j (close fd fds) ≡ (if fd == j then none else file_at j fds)
unfolding close lookup
file_at-close fd j [] = ground arith
file_at-close fd j ((n, file) ∷ rest) = ground (arith, file_at-close fd j rest)

abbrev pub Listed : ℕ → List ℕ → Type 0
Listed fd [] = ⊥
Listed fd (n ∷ rest) = (fd ≡ n) ⊎ Listed fd rest

none-some : {file : Bytes} → none ≢ some file
none-some e = absurd (cc)

file_at-step :
    (dfd n j : ℕ) (fds : Fds)
    → file_at j (if ltb 2 n && not (n == dfd) then close n fds else fds)
      ≡ (if ltb 2 n && not (n == dfd) && (n == j) then none else file_at j fds)
file_at-step dfd n j fds = ground (arith, file_at-close n j fds)

-- The loop leaves the first three descriptors and that of the listing.
close_listed-kept :
    (dfd : ℕ) (listing : List ℕ) (fds : Fds) (j : ℕ)
    → (j < 3) ⊎ (j ≡ dfd)
    → file_at j (close_listed dfd listing fds) ≡ file_at j fds
unfolding close_listed
close_listed-kept dfd [] fds j h = refl
close_listed-kept dfd (n ∷ rest) fds j h =
    close_listed-kept dfd rest _ j h ∙ file_at-step dfd n j fds ∙ ground arith

-- Of the others it leaves none that is listed.
close_listed-gone :
    (dfd : ℕ) (listing : List ℕ) (fds : Fds) (j : ℕ)
    → 2 < j
    → j ≢ dfd
    → (file_at j fds ≡ none) ⊎ Listed j listing
    → file_at j (close_listed dfd listing fds) ≡ none
unfolding close_listed
close_listed-gone dfd [] fds j h other (inl e) = e
close_listed-gone dfd [] fds j h other (inr l) = elim l [ ]
close_listed-gone dfd (n ∷ rest) fds j h other (inl e) =
    close_listed-gone dfd rest _ j h other (inl (file_at-step dfd n j fds ∙ ground arith))
close_listed-gone dfd (n ∷ rest) fds j h other (inr (inl e)) =
    close_listed-gone dfd rest _ j h other (inl (file_at-step dfd n j fds ∙ ground arith))
close_listed-gone dfd (n ∷ rest) fds j h other (inr (inr l)) =
    close_listed-gone dfd rest _ j h other (inr l)

file_at-opened :
    (fd j : ℕ) (file : Bytes) (fds : Fds)
    → file_at j (insert fd file fds) ≡ (if fd == j then some file else file_at j fds)
file_at-opened fd j file fds = lookup-insert fd j file fds

dup2-opened :
    (from to j : ℕ) (file : Bytes) (fds : Fds)
    → file_at from fds ≡ some file
    → file_at j (dup2 from to fds) ≡ (if to == j then some file else file_at j fds)
unfolding dup2
dup2-opened from to j file fds e =
    ap (λ o. file_at j (point_to to o fds)) e ∙ file_at-opened to j file fds

-- The descriptors behind the redirection: the output file is on the standard output and error, and
-- the descriptor that it was opened with is closed again.
redirect-opened :
    (fd j : ℕ) (file : Bytes) (fds : Fds)
    → is_empty file ≡ false
    → 2 < fd
    → file_at j (redirect (some fd) file fds) ≡ (
        if fd == j
        then none
        else if 2 == j
        then some file
        else if 1 == j
        then some file
        else file_at j fds)
unfolding redirect
redirect-opened fd j file fds named h =
    let opened = insert fd file fds in
    let one = dup2 fd 1 opened in
    let at_fd : file_at fd opened ≡ some file = file_at-opened fd fd file fds ∙ ground arith in
    let first = dup2-opened fd 1 j file opened at_fd in
    let kept : file_at fd one ≡ some file = dup2-opened fd 1 fd file opened at_fd ∙ ground arith in
    let second = dup2-opened fd 2 j file one kept in
    let closed = file_at-close fd j (dup2 fd 2 one) in
    rw named (ground (arith, closed, second, first, file_at-opened fd j file fds))

close_inherited-low :
    (dfd i : ℕ) (listing : List ℕ) (fds : Fds)
    → 2 < dfd
    → i < 3
    → file_at i (close_inherited (some (dfd, listing)) fds) ≡ file_at i fds
unfolding close_inherited
close_inherited-low dfd i listing fds k h =
    let listed = insert dfd (codes "/proc/self/fd") fds in
    file_at-close dfd i (close_listed dfd listing listed)
    ∙ ground (
      arith,
      close_listed-kept dfd listing listed i (inl h),
      file_at-opened dfd i (codes "/proc/self/fd") fds,
    )

close_inherited-high :
    (dfd j : ℕ) (listing : List ℕ) (fds : Fds)
    → 2 < j
    → (j ≢ dfd → file_at j fds ≢ none → Listed j listing)
    → file_at j (close_inherited (some (dfd, listing)) fds) ≡ none
unfolding close_inherited
close_inherited-high dfd j listing fds h all =
    let listed = insert dfd (codes "/proc/self/fd") fds in
    let end = file_at-close dfd j (close_listed dfd listing listed) in
    elim (Bool-cases (dfd == j)) [
      | inl own ↦ end ∙ rw own refl
      | inr other ↦
          let distinct : j ≢ dfd = ground arith in
          let opened : file_at j listed ≡ file_at j fds =
            file_at-opened dfd j (codes "/proc/self/fd") fds ∙ rw other refl in
          let open_or_listed : (file_at j listed ≡ none) ⊎ Listed j listing =
            elim (Option-cases (file_at j fds)) [
              | inl e ↦ inl (opened ∙ e)
              | inr (file, e) ↦ inr (all distinct (λ q. none-some (sym q ∙ e)))
            ] in
          end ∙ rw other (close_listed-gone dfd listing listed j h distinct open_or_listed)
    ]

-- When the output file and the listing can be opened, at descriptors above 2, and the listing names
-- every open descriptor above 2 but its own, then the program starts with no descriptor above 2,
-- with the output file as its standard output and error, and with the standard input of the parent.
pub child-descriptors :
    (fd dfd : ℕ) (listing : List ℕ) (bin : Bytes) (args : List Bytes) (file : Bytes) (fds : Fds)
    → is_empty file ≡ false
    → 2 < fd
    → 2 < dfd
    → ((j : ℕ)
        → 2 < j
        → j ≢ dfd
        → file_at j (redirect (some fd) file fds) ≢ none
        → Listed j listing)
    → (j : ℕ) → 2 < j
    → let (program, argv, final) = child (some fd) (some (dfd, listing)) bin args file fds in
      (program ≡ bin)
      × (argv ≡ bin ∷ args)
      × (file_at j final ≡ none)
      × (file_at 2 final ≡ some file)
      × (file_at 1 final ≡ some file)
      × (file_at 0 final ≡ file_at 0 fds)
unfolding child
child-descriptors fd dfd listing bin args file fds named h k all j above =
    let base = redirect (some fd) file fds in
    let low : (i : ℕ)
        → i < 3
        → file_at i (close_inherited (some (dfd, listing)) base) ≡ file_at i base =
      λ i. close_inherited-low dfd i listing base k in
    (
      refl,
      refl,
      close_inherited-high dfd j listing base above (all j above),
      low 2 (omega arith) ∙ redirect-opened fd 2 file fds named h ∙ ground arith,
      low 1 (omega arith) ∙ redirect-opened fd 1 file fds named h ∙ ground arith,
      low 0 (omega arith) ∙ redirect-opened fd 0 file fds named h ∙ ground arith,
    )
