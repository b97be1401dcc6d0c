-- ===== src/Exporter/Query.antt =====
-- `parse_param` of manager/src/rpc/metrics_exporter.cpp.
use perf_monitor.Prelude.{
  ℕ, ◌+◌, ◌-◌, ◌<◌, ◌≡◌, sym, ap, ◌∙◌, true, false, [], ◌∷◌, ◌++◌, Option, none, some, arith,
  length, take, drop, take-append, drop-append, append_assoc, length-append, All-append,
}
use perf_monitor.Text.{Bytes, codes, find, find_char_from, find_char, starts_with}
use perf_monitor.Text.Search.{Avoids, find_char-append, find_char-Avoids, starts_with-append}

-- The text from `start` up to the next `&`, or to the end.
unfoldable pub param_from : Bytes → ℕ → Bytes
param_from query start = elim (find_char_from query b'&' start) [
  | none ↦ drop start query
  | some stop ↦ take (stop - start) (drop start query)
]

unfoldable pub parse_param : Bytes → Bytes → Bytes
unfolding param_from
parse_param query key =
    let prefix = key ++ codes "=" in
    elim (find query prefix) [ none ↦ [] | some at ↦ param_from query (at + length prefix) ]

abbrev value_at : Option ℕ → Bytes → Bytes
value_at none s = s
value_at (some n) s = take n s

-- What stands in front of the first `&`, or all of it.
pub value_of : Bytes → Bytes
value_of s = value_at (find_char s b'&') s

pub value_of_last : (v : Bytes) → Avoids b'&' v → value_of v ≡ v
unfolding value_of
value_of_last v h = ap (λ o. value_at o v) (find_char-Avoids v b'&' h)

pub value_of_next : (v r : Bytes) → Avoids b'&' v → value_of (v ++ b'&' ∷ r) ≡ v
unfolding value_of
value_of_next v r h =
    ap (λ o. value_at o (v ++ b'&' ∷ r)) (find_char-append v r b'&' h) ∙ take-append v (b'&' ∷ r)

param_from-append : (front s : Bytes) → param_from (front ++ s) (length front) ≡ value_of s
unfolding param_from find_char_from value_of
param_from-append front s = ground (arith, drop-append front s)

-- A name that has no `=` is found where the first `=` of the query ends it.
starts_with_early :
    (key front s : Bytes)
    → Avoids b'=' front
    → length key < length front
    → starts_with (front ++ s) (key ++ b'=' ∷ []) ≡ false
unfolding starts_with
starts_with_early key [] s h l = elim l [ ]
starts_with_early [] (a ∷ front) s h l = ground arith
starts_with_early (k ∷ key) (a ∷ front) s h l = ground (arith, starts_with_early key front s h.1)

find_here : (s p : Bytes) → starts_with s p ≡ true → find s p ≡ some 0
unfolding find
find_here [] p h = rw h
find_here (a ∷ s) p h = rw h

find_name :
    (front key s : Bytes)
    → Avoids b'=' front
    → Avoids b'=' key
    → find (front ++ (key ++ b'=' ∷ s)) (key ++ b'=' ∷ []) ≡ some (length front)
unfolding find
find_name [] key s h k =
    find_here (key ++ b'=' ∷ s) (key ++ b'=' ∷ [])
      (rw (← append_assoc key (b'=' ∷ []) s) (starts_with-append (key ++ b'=' ∷ []) s))
find_name (a ∷ front) key s h k =
    let clear : Avoids b'=' (a ∷ front ++ key) = (h.0, All-append _ front key h.1 k) in
    let longer : length key < length (a ∷ front ++ key) = omega (arith, length-append front key) in
    let early = starts_with_early key (a ∷ front ++ key) (b'=' ∷ s) clear longer in
    let same : a ∷ front ++ key ++ b'=' ∷ s ≡ a ∷ (front ++ (key ++ b'=' ∷ s)) =
      append_assoc (a ∷ front) key (b'=' ∷ s) in
    ground (arith, rw same at early, find_name front key s h.1 k)

-- In a query whose first `=` stands after a name that ends in the key, the parameter's value is
-- what follows that `=`, up to the next `&` or the end. The key may be the whole name or only the
-- end of a longer one.
pub parse_param_first :
    (front key s : Bytes)
    → Avoids b'=' front
    → Avoids b'=' key
    → parse_param (front ++ (key ++ b'=' ∷ s)) key ≡ value_of s
unfolding parse_param codes
parse_param_first front key s h k =
    let name : Bytes = key ++ b'=' ∷ [] in
    let split : front ++ (key ++ b'=' ∷ s) ≡ front ++ name ++ s =
      rw (append_assoc front name s, append_assoc key (b'=' ∷ []) s) in
    let value =
      ap (λ q. param_from q (length front + length name)) split
      ∙ ap (param_from (front ++ name ++ s)) (sym (length-append front name))
      ∙ param_from-append (front ++ name) s in
    ground (arith, find_name front key s h k, value)
