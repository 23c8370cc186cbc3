-- ===== src/Go/FilePath.antt =====
-- `filepath.Clean`, `Join`, `Dir` and `Base` on Unix, where a path has no volume.
use cain.Prelude.{ℕ, ◌≡◌, refl, Bool, false, not, ◌||◌, List, [], ◌∷◌, nat_eq, if◌then◌else◌}
use cain.Go.Text.{GoString, text, str_eq, split, join}

abbrev pub separator : ℕ
separator = b'/'

unfoldable pub starts_rooted : GoString → Bool
starts_rooted [] = false
starts_rooted (c ∷ s) = nat_eq c separator

-- Whether a `..` can take the element before it away.
can_backtrack : List GoString → Bool
unfolding str_eq text
can_backtrack [] = false
can_backtrack (top ∷ out) = not (str_eq top (text ".."))

abbrev pop : List GoString → List GoString
pop [] = []
pop (top ∷ out) = out

-- One element of the path, on the elements before it, the last one first.
clean_step : Bool → List GoString → GoString → List GoString
unfolding str_eq text can_backtrack
clean_step rooted out part =
    if str_eq part [] || str_eq part (text ".")
    then out
    else if str_eq part (text "..")
    then (if can_backtrack out then pop out else if rooted then out else part ∷ out)
    else part ∷ out

clean_parts : Bool → List GoString → List GoString → List GoString
unfolding clean_step
clean_parts rooted out [] = out
clean_parts rooted out (part ∷ parts) = clean_parts rooted (clean_step rooted out part) parts

-- The elements in their order, joined.
unwind : List GoString → List GoString → List GoString
unwind [] done = done
unwind (part ∷ out) done = unwind out (part ∷ done)

abbrev or_dot : GoString → GoString
unfolding text
or_dot [] = text "."
or_dot (c ∷ s) = c ∷ s

unfoldable pub clean : GoString → GoString
unfolding starts_rooted clean_parts unwind split join text
clean p =
    let rooted = starts_rooted p in
    let body = join separator (unwind (clean_parts rooted [] (split separator p)) []) in
    or_dot (if rooted then separator ∷ body else body)

-- The elements from the first one that is not empty on.
unfoldable pub join_paths : List GoString → GoString
unfolding clean join
join_paths [] = []
join_paths ([] ∷ parts) = join_paths parts
join_paths ((c ∷ s) ∷ parts) = clean (join separator ((c ∷ s) ∷ parts))

-- The path up to and with its last separator.
through_last_separator : GoString → GoString
through_last_separator [] = []
through_last_separator (c ∷ s) =
    let rest = through_last_separator s in
    if nat_eq c separator || not (str_eq rest []) then c ∷ rest else []

unfoldable pub dir : GoString → GoString
unfolding through_last_separator clean str_eq
dir p = clean (through_last_separator p)

-- The last element that is not empty.
last_part : GoString → List GoString → GoString
last_part found [] = found
last_part found ([] ∷ parts) = last_part found parts
last_part found ((c ∷ s) ∷ parts) = last_part (c ∷ s) parts

unfoldable pub base : GoString → GoString
unfolding last_part split text
base [] = text "."
base (c ∷ s) = last_part (text "/") (split separator (c ∷ s))

clean_example : clean (text "/a/./b//../c/") ≡ text "/a/c"
unfolding clean
clean_example = refl

dir-base_example :
    (dir (text "/etc/jvm/store.jks") ≡ text "/etc/jvm") × (base (text "/etc/x/") ≡ text "x")
unfolding dir base
dir-base_example = (refl, refl)

join_paths_example :
    join_paths (text "/jvm-truststore/" ∷ text "truststore.jks" ∷ [])
    ≡ text "/jvm-truststore/truststore.jks"
unfolding join_paths
join_paths_example = refl
